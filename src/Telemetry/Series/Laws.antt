-- ===== src/Telemetry/Series/Laws.antt =====
-- The points of a coarser grid.
use native.Mathlib.Nat.{mul-le-mul_right}
use aibom_webhook_service.Base.{
  ℕ, ◌≡◌, refl, List, [], ◌∷◌, ◌+◌, ◌-◌, ◌*◌, ◌/◌, ◌≤◌, arith, nat_eq, ltb, length, length-append,
  Bool-cases, inl, inr,
}
use aibom_webhook_service.Telemetry.Series.{Points, put, buckets_of, reduced, rebucket_points}

module _ {R : Type 0} where
  total : List (ℕ × List R) → ℕ
  total [] = 0
  total ((k, vs) ∷ buckets) = length vs + total buckets

  total-put :
      (k : ℕ) (v : R) (buckets : List (ℕ × List R)) → total (put k v buckets) ≡ total buckets + 1
  unfolding put total
  total-put k v [] = refl
  total-put k v ((j, vs) ∷ buckets) =
      ground (arith, total-put k v buckets, length-append vs (v ∷ []))

  total-buckets_of :
      (anchor bucket_s : ℕ) (points : Points R) (buckets : List (ℕ × List R))
      → total (buckets_of anchor bucket_s points buckets) ≡ total buckets + length points
  unfolding buckets_of
  total-buckets_of anchor bucket_s [] buckets = omega arith
  total-buckets_of anchor bucket_s ((ts, v) ∷ points) buckets =
      let k = (ts - anchor) / bucket_s in
      omega
        (arith, total-buckets_of anchor bucket_s points (put k v buckets), total-put k v buckets)

  -- every bucket has a value, and the buckets' numbers rise from a number on
  abbrev pub Above : ℕ → List (ℕ × List R) → Type 0
  Above lo [] = Unit
  Above lo ((k, vs) ∷ buckets) = (lo ≤ k) × (1 ≤ length vs) × Above (k + 1) buckets

  pub put-Above :
      (lo k : ℕ) (v : R) (buckets : List (ℕ × List R))
      → lo ≤ k
      → Above lo buckets
      → Above lo (put k v buckets)
  unfolding put
  put-Above lo k v [] l h = (l, omega arith, tt)
  put-Above lo k v ((j, vs) ∷ buckets) l h = elim (Bool-cases (nat_eq k j)) [
    | inl e ↦ rw (e, Above) (h.0, omega (arith, length-append vs (v ∷ [])), h.2)
    | inr e ↦ elim (Bool-cases (ltb k j)) [
      | inl f ↦ rw (e, f, Above) (l, omega arith, (ground (arith, f), h.1, h.2))
      | inr f ↦
          rw (e, f, Above) (h.0, h.1, put-Above (j + 1) k v buckets (ground (arith, e, f)) h.2)
    ]
  ]

  buckets_of-Above :
      (anchor bucket_s : ℕ) (points : Points R) (buckets : List (ℕ × List R))
      → Above 0 buckets
      → Above 0 (buckets_of anchor bucket_s points buckets)
  unfolding buckets_of
  buckets_of-Above anchor bucket_s [] buckets h = h
  buckets_of-Above anchor bucket_s ((ts, v) ∷ points) buckets h =
      let k = (ts - anchor) / bucket_s in
      buckets_of-Above anchor bucket_s points (put k v buckets)
        (put-Above 0 k v buckets (omega arith) h)

  -- the times of points rise from a time on
  abbrev pub Rising : ℕ → Points R → Type 0
  Rising lo [] = Unit
  Rising lo ((ts, v) ∷ points) = (lo ≤ ts) × Rising (ts + 1) points

  reduced-Rising :
      (anchor bucket_s lo from : ℕ) (reducer : List R → R) (buckets : List (ℕ × List R))
      → 1 ≤ bucket_s
      → from ≤ anchor + lo * bucket_s
      → Above lo buckets
      → Rising from (reduced anchor bucket_s reducer buckets)
  unfolding reduced
  reduced-Rising anchor bucket_s lo from reducer [] b f h = tt
  reduced-Rising anchor bucket_s lo from reducer ((k, vs) ∷ buckets) b f h = (
    omega (arith, f, mul-le-mul_right bucket_s h.0),
    reduced-Rising anchor bucket_s (k + 1) (anchor + k * bucket_s + 1) reducer buckets b
        (omega (arith, b)) h.2,
  )

  length-reduced :
      (anchor bucket_s lo : ℕ) (reducer : List R → R) (buckets : List (ℕ × List R))
      → Above lo buckets
      → length (reduced anchor bucket_s reducer buckets) ≤ total buckets
  unfolding reduced total
  length-reduced anchor bucket_s lo reducer [] h = omega arith
  length-reduced anchor bucket_s lo reducer ((k, vs) ∷ buckets) h =
      omega (arith, length-reduced anchor bucket_s (k + 1) reducer buckets h.2, h.1)

  -- On a coarser grid a line has at most as many points as before, at times that rise strictly
  -- from the start of the window.
  pub rebucket_points_lem :
      (reducer : List R → R) (points : Points R) (anchor bucket_s : ℕ)
      → 1 ≤ bucket_s
      → (length (rebucket_points reducer points anchor bucket_s) ≤ length points)
        × Rising anchor (rebucket_points reducer points anchor bucket_s)
  unfolding rebucket_points
  rebucket_points_lem reducer points anchor bucket_s b =
      let buckets = buckets_of anchor bucket_s points [] in
      let h = buckets_of-Above anchor bucket_s points [] tt in
      (
        omega (
          arith,
          length-reduced anchor bucket_s 0 reducer buckets h,
          empty,
          total-buckets_of anchor bucket_s points [],
        ),
        reduced-Rising anchor bucket_s 0 anchor reducer buckets b (omega arith) h,
      )
    where
      empty : total [] ≡ 0
      empty = unfold total in refl
