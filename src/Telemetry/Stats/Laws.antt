-- ===== src/Telemetry/Stats/Laws.antt =====
-- What the statistics of a metric say of its values.
use mathlib.Core.Path.{subst}
use aibom_webhook_service.Base.{
  ℕ, zero, suc, ◌+◌, ◌-◌, ◌*◌, ◌/◌, ◌≤◌, ◌<◌, Bool, true, map, Option, none, some, ◌≡◌, refl, sym,
  ap, ◌∙◌, List, [], ◌∷◌, ◌++◌, if◌then◌else◌, length, take, drop, All, arith, Bool-cases, inl, inr,
}
use aibom_webhook_service.Telemetry.Stats.{
  Samples, min_of, max_of, first_part, middle_part, last_part, chunk_avg, segments_of, stats_of,
  Stats, Segments, values_of, sorted, compute_metric_stats,
}
use aibom_webhook_service.Telemetry.Stats.Order.{
  In, count, IsOrder, IsSorted, p95_rank, refl_of, itself, up_to, below, sorted-IsSorted,
  count-sorted, length-sorted,
}

take-drop {ℓ} : {A : Type ℓ} (n : ℕ) (xs : List A) → take n xs ++ drop n xs ≡ xs
take-drop zero xs = refl
take-drop (suc n) [] = refl
take-drop (suc n) (x ∷ xs) = ap (λ (l : List _). x ∷ l) (take-drop n xs)

drop-nil {ℓ} : {A : Type ℓ} (n : ℕ) → drop {A = A} n [] ≡ []
drop-nil zero = refl
drop-nil (suc n) = refl

drop-drop {ℓ} : {A : Type ℓ} (m n : ℕ) (xs : List A) → drop n (drop m xs) ≡ drop (m + n) xs
drop-drop zero n xs = let e : 0 + n ≡ n = omega arith in rw e refl
drop-drop (suc m) n [] = let e : suc m + n ≡ suc (m + n) = omega arith in rw e (drop-nil n)
drop-drop (suc m) n (x ∷ xs) =
    let e : suc m + n ≡ suc (m + n) = omega arith in rw e (drop-drop m n xs)

-- The three parts of the values, one behind the other, are the values.
parts_append {ℓ} :
    {A : Type ℓ} (n : ℕ) (xs : List A) → take n xs ++ (take n (drop n xs) ++ drop (2 * n) xs) ≡ xs
parts_append n xs =
    let e : 2 * n ≡ n + n = omega arith in
    rw e (
      ap (λ (rest : List _). take n xs ++ (take n (drop n xs) ++ rest)) (sym (drop-drop n n xs))
      ∙ ap (λ (rest : List _). take n xs ++ rest) (take-drop n (drop n xs))
      ∙ take-drop n xs)

length-take {ℓ} : {A : Type ℓ} (n : ℕ) (xs : List A) → n ≤ length xs → length (take n xs) ≡ n
length-take zero xs h = refl
length-take (suc n) [] h = absurd (omega (arith, h))
length-take (suc n) (x ∷ xs) h = ap suc (length-take n xs (omega (arith, h)))

length-drop {ℓ} : {A : Type ℓ} (n : ℕ) (xs : List A) → length (drop n xs) ≡ length xs - n
length-drop zero xs = omega arith
length-drop (suc n) [] = omega arith
length-drop (suc n) (x ∷ xs) = omega (arith, length-drop n xs)

-- a list's least value by a relation, and the same for one value more
module _ {R : Type 0} (below : R → R → Type 0)
    (trans : (x y z : R) → below x y → below y z → below x z) where
  abbrev pub Least : R → List R → Type 0
  Least m values = In m values × All (λ w. below m w) values

  Least-first :
      (v w m : R) (values : List R) → below v w → Least m (v ∷ values) → Least m (v ∷ w ∷ values)
  Least-first v w m values h (inl e, k) = (inl e, (k.0, (trans m v w k.0 h, k.1)))
  Least-first v w m values h (inr e, k) = (inr (inr e), (k.0, (trans m v w k.0 h, k.1)))

  Least-second :
      (v w m : R) (values : List R) → below w v → Least m (w ∷ values) → Least m (v ∷ w ∷ values)
  Least-second v w m values h (e, k) = (inr e, (trans m w v k.0 h, k))

module _ {T R : Type 0} (S : Samples T R) (o : IsOrder S.leq) where
  abbrev pub Leq : R → R → Type 0
  Leq x y = S.leq x y ≡ true

  abbrev pub Geq : R → R → Type 0
  Geq x y = S.leq y x ≡ true

  pub Geq-trans : (x y z : R) → Geq x y → Geq y z → Geq x z
  Geq-trans x y z h k = o.trans z y x k h

  pub min_of-Least : (v : R) (values : List R) → Least Leq o.trans (min_of S v values) (v ∷ values)
  unfolding min_of
  min_of-Least v [] = (inl refl, (refl_of (itself S.leq o) S.leq o v, tt))
  min_of-Least v (w ∷ values) = elim (Bool-cases (S.leq v w)) [
    | inl e ↦
        subst (λ m. Least Leq o.trans m (v ∷ w ∷ values)) (sym (rw (e, if◌then◌else◌) refl))
          (Least-first Leq o.trans v w (min_of S v values) values e (min_of-Least v values))
    | inr e ↦
        subst (λ m. Least Leq o.trans m (v ∷ w ∷ values)) (sym (rw (e, if◌then◌else◌) refl))
          (Least-second Leq o.trans v w (min_of S w values) values (o.total v w e)
            (min_of-Least w values))
  ]

  pub max_of-Least :
      (v : R) (values : List R) → Least Geq Geq-trans (max_of S v values) (v ∷ values)
  unfolding max_of
  max_of-Least v [] = (inl refl, (refl_of (itself S.leq o) S.leq o v, tt))
  max_of-Least v (w ∷ values) = elim (Bool-cases (S.leq w v)) [
    | inl e ↦
        subst (λ m. Least Geq Geq-trans m (v ∷ w ∷ values)) (sym (rw (e, if◌then◌else◌) refl))
          (Least-first Geq Geq-trans v w (max_of S v values) values e (max_of-Least v values))
    | inr e ↦
        subst (λ m. Least Geq Geq-trans m (v ∷ w ∷ values)) (sym (rw (e, if◌then◌else◌) refl))
          (Least-second Geq Geq-trans v w (max_of S w values) values (o.total w v e)
            (max_of-Least w values))
  ]

  abbrev pub mean : List R → Option R
  mean [] = none
  mean (v ∷ values) = some (S.average (v ∷ values))

  -- two thirds, rounded down, and the rest of the values, in their order
  abbrev pub Thirds : Segments R → List R → Type 0
  Thirds segments values =
      (a : List R) × (b : List R) × (c : List R) × (values ≡ a ++ (b ++ c))
      × (length a ≡ length values / 3)
      × (length b ≡ length values / 3)
      × (segments.first_third ≡ mean a)
      × (segments.middle_third ≡ mean b)
      × (segments.last_third ≡ mean c)

  -- the statistics of values in the order of time
  abbrev pub OfValues : Stats R → List R → Type 0
  OfValues s values =
      Least Leq o.trans s.min values
      × Least Geq Geq-trans s.max values
      × (s.avg ≡ S.average values)
      × In s.p95 values
      × (95 * length values ≤ 100 * up_to S.leq o s.p95 values)
      × (100 * below S.leq o s.p95 values < 95 * length values)
      × Thirds s.segments values

  chunk_avg-mean : (values : List R) → chunk_avg S values ≡ mean values
  unfolding chunk_avg
  chunk_avg-mean [] = refl
  chunk_avg-mean (v ∷ values) = refl

  segments_of-Thirds : (values : List R) → Thirds (segments_of S values) values
  unfolding segments_of
  segments_of-Thirds values =
      let n = length values / 3 in
      (
        first_part S values,
        middle_part S values,
        last_part S values,
        sym (parts_append n values),
        length-take n values (omega arith),
        length-take n (drop n values) (omega (arith, length-drop n values)),
        chunk_avg-mean (first_part S values),
        chunk_avg-mean (middle_part S values),
        chunk_avg-mean (last_part S values),
      )

  stats_of-OfValues : (v : R) (values : List R) → OfValues (stats_of S v values) (v ∷ values)
  unfolding stats_of
  stats_of-OfValues v values =
      let all_values = v ∷ values in
      let (p, at_p, there, many, few) = p95_rank S.leq o all_values (omega arith) in
      let named : (stats_of S v values).p95 ≡ p = rw at_p refl in
      (
        min_of-Least v values,
        max_of-Least v values,
        refl,
        subst (λ (x : R). In x all_values) (sym named) there,
        subst (λ (x : R). 95 * length all_values ≤ 100 * up_to S.leq o x all_values) (sym named)
            many,
        subst (λ (x : R). 100 * below S.leq o x all_values < 95 * length all_values) (sym named)
            few,
        segments_of-Thirds all_values,
      )

  abbrev time_of : T × R → T
  time_of p = p.0

  -- The statistics of points: the same points stand in the order of time, and it is their values.
  abbrev pub OfPoints : List (T × R) → Option (Stats R) → Type 0
  OfPoints points none = points ≡ []
  OfPoints points (some s) =
      (ordered : List (T × R)) × IsSorted time_of S.before ordered
      × ((p : T × R → Bool) → count p ordered ≡ count p points)
      × OfValues s (map (λ (p : T × R). p.1) ordered)

  of_ordered :
      (points ordered : List (T × R))
      → IsSorted time_of S.before ordered
      → ((p : T × R → Bool) → count p ordered ≡ count p points)
      → length ordered ≡ length points
      → OfPoints points (elim (map (λ (p : T × R). p.1) ordered) [
        | [] ↦ none
        | v ∷ values ↦ some (stats_of S v values)
      ])
  of_ordered [] [] h k e = refl
  of_ordered (p ∷ points) [] h k e = absurd (omega (arith, e))
  of_ordered points (p ∷ ordered) h k e =
      (p ∷ ordered, h, k, stats_of-OfValues p.1 (map (λ (q : T × R). q.1) ordered))

  -- Where times and floats are ordered, a metric has statistics if it has points. They are those of
  -- its values in the order of time: the least and the greatest value and the average; a value that
  -- 95 % of the values do not exceed, and which exceeds less than 95 % of them; and the averages of
  -- the first, the second and the last third, of which the first two are rounded down.
  pub compute_metric_stats_lem :
      (times : IsOrder S.before) (points : List (T × R))
      → OfPoints points (compute_metric_stats S points)
  unfolding compute_metric_stats values_of
  compute_metric_stats_lem times points =
      of_ordered points (sorted time_of S.before points)
        (sorted-IsSorted time_of S.before times points)
        (λ p. count-sorted time_of S.before p points) (length-sorted time_of S.before points)
