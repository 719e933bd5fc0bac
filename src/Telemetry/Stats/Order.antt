-- ===== src/Telemetry/Stats/Order.antt =====
-- What the statistics are of the values.
use mathlib.Core.Path.{subst}
use aibom_webhook_service.Base.{
  ℕ, zero, suc, ◌+◌, ◌*◌, ◌≤◌, ◌<◌, Bool, true, false, not, ◌≡◌, refl, sym, ap, ◌∙◌, ◌⊎◌, some,
  List, [], ◌∷◌, if◌then◌else◌, length, get_elem?, All, Some, arith, Bool-cases, inl, inr,
}
use aibom_webhook_service.Telemetry.Stats.{insert, sorted, p95_index}

-- The index is that of the nearest rank: the first one with 95 % of the values up to it.
pub p95_index_bounds :
    (n : ℕ)
    → 0 < n
    → (p95_index n < n) × (95 * n ≤ 100 * (p95_index n + 1)) × (100 * p95_index n < 95 * n)
unfolding p95_index
p95_index_bounds n h = omega arith

abbrev pub In : {A : Type 0} → A → List A → Type 0
In x xs = Some (λ y. x ≡ y) xs

-- how many values pass a test
abbrev pub count {ℓ} : {A : Type ℓ} → (A → Bool) → List A → ℕ
count p [] = 0
count p (x ∷ xs) = let rest = count p xs in if p x then suc rest else rest

-- a total preorder
pub record IsOrder {A : Type 0} (le : A → A → Bool) : Type 0 where
  pub total : (x y : A) → le x y ≡ false → le y x ≡ true
  pub trans : (x y z : A) → le x y ≡ true → le y z ≡ true → le x z ≡ true

module _ {A K : Type 0} (key : A → K) (le : K → K → Bool) where
  count-insert :
      (p : A → Bool) (x : A) (ys : List A) → count p (insert key le x ys) ≡ count p (x ∷ ys)
  unfolding insert
  count-insert p x [] = refl
  count-insert p x (y ∷ ys) = ground (arith, count-insert p x ys)

  pub count-sorted : (p : A → Bool) (xs : List A) → count p (sorted key le xs) ≡ count p xs
  unfolding sorted
  count-sorted p [] = refl
  count-sorted p (x ∷ xs) = ground (arith, count-insert p x (sorted key le xs), count-sorted p xs)

  In-cons :
      (v x y : A) (ys zs : List A)
      → (In v zs → (v ≡ x) ⊎ In v ys)
      → In v (y ∷ zs)
      → (v ≡ x) ⊎ In v (y ∷ ys)
  In-cons v x y ys zs f (inl k) = inr (inl k)
  In-cons v x y ys zs f (inr k) = elim (f k) [ inl m ↦ inl m | inr m ↦ inr (inr m) ]

  In-insert : (v x : A) (ys : List A) → In v (insert key le x ys) → (v ≡ x) ⊎ In v ys
  unfolding insert
  In-insert v x [] (inl h) = inl h
  In-insert v x [] (inr h) = absurd h
  In-insert v x (y ∷ ys) h = elim (Bool-cases (le (key x) (key y))) [
    | inl e ↦ (rw (e, if◌then◌else◌) at h)
    | inr e ↦ In-cons v x y ys (insert key le x ys) (In-insert v x ys) (rw (e, if◌then◌else◌) at h)
  ]

  In-sorted : (v : A) (xs : List A) → In v (sorted key le xs) → In v xs
  unfolding sorted
  In-sorted v [] h = h
  In-sorted v (x ∷ xs) h = elim (In-insert v x (sorted key le xs) h) [
    | inl e ↦ inl e
    | inr k ↦ inr (In-sorted v xs k)
  ]

  length-insert : (x : A) (ys : List A) → length (insert key le x ys) ≡ suc (length ys)
  unfolding insert
  length-insert x [] = refl
  length-insert x (y ∷ ys) = ground (arith, length-insert x ys)

  pub length-sorted : (xs : List A) → length (sorted key le xs) ≡ length xs
  unfolding sorted
  length-sorted [] = refl
  length-sorted (x ∷ xs) = length-insert x (sorted key le xs) ∙ ap suc (length-sorted xs)

  abbrev pub IsSorted : List A → Type 0
  IsSorted [] = Unit
  IsSorted (x ∷ xs) = All (λ y. le (key x) (key y) ≡ true) xs × IsSorted xs

  module _ (o : IsOrder le) where
    pub refl_of : (k : K) → le k k ≡ true
    refl_of k = elim (Bool-cases (le k k)) [ inl e ↦ e | inr e ↦ o.total k k e ]

    All-le :
        (x y : A) (ys : List A)
        → le (key x) (key y) ≡ true
        → All (λ z. le (key y) (key z) ≡ true) ys
        → All (λ z. le (key x) (key z) ≡ true) ys
    All-le x y [] h k = tt
    All-le x y (z ∷ ys) h k = (o.trans (key x) (key y) (key z) h k.0, All-le x y ys h k.1)

    All-insert :
        (P : A → Type 0) (x : A) (ys : List A) → P x → All P ys → All P (insert key le x ys)
    unfolding insert
    All-insert P x [] h k = (h, tt)
    All-insert P x (y ∷ ys) h k = elim (Bool-cases (le (key x) (key y))) [
      | inl e ↦ rw (e, if◌then◌else◌) (h, k)
      | inr e ↦ rw (e, if◌then◌else◌) (k.0, All-insert P x ys h k.1)
    ]

    insert-IsSorted : (x : A) (ys : List A) → IsSorted ys → IsSorted (insert key le x ys)
    unfolding insert
    insert-IsSorted x [] h = (tt, tt)
    insert-IsSorted x (y ∷ ys) h = elim (Bool-cases (le (key x) (key y))) [
      | inl e ↦ rw (e, if◌then◌else◌) ((e, All-le x y ys e h.0), h)
      | inr e ↦
          rw (e, if◌then◌else◌)
            (
              All-insert (λ z. le (key y) (key z) ≡ true) x ys (o.total (key x) (key y) e) h.0,
              insert-IsSorted x ys h.1,
            )
    ]

    pub sorted-IsSorted : (xs : List A) → IsSorted (sorted key le xs)
    unfolding sorted
    sorted-IsSorted [] = tt
    sorted-IsSorted (x ∷ xs) = insert-IsSorted x (sorted key le xs) (sorted-IsSorted xs)

-- The place of a value in an order: the values that are not above it, and those that are below it.
module _ {R : Type 0} (le : R → R → Bool) (o : IsOrder le) where
  abbrev pub itself : R → R
  itself x = x

  abbrev pub up_to : R → List R → ℕ
  up_to v values = count (λ w. le w v) values

  abbrev pub below : R → List R → ℕ
  below v values = count (λ w. not (le v w)) values

  All-In : (P : R → Type 0) (v : R) (xs : List R) → All P xs → In v xs → P v
  All-In P v [] h m = absurd m
  All-In P v (x ∷ xs) h (inl e) = subst P (sym e) h.0
  All-In P v (x ∷ xs) h (inr m) = All-In P v xs h.1 m

  none_below : (v : R) (xs : List R) → All (λ w. le v w ≡ true) xs → below v xs ≡ 0
  none_below v [] h = refl
  none_below v (x ∷ xs) h = ground (arith, h.0, none_below v xs h.1)

  -- of a sorted list, the place of a value counts
  rank :
      (xs : List R) (i : ℕ)
      → IsSorted itself le xs
      → i < length xs
      → (v : R) × (get_elem? xs i ≡ some v) × In v xs × (i + 1 ≤ up_to v xs) × (below v xs ≤ i)
  rank [] i h k = absurd (omega (arith, k))
  rank (x ∷ xs) zero h k =
      let same = refl_of itself le o x in
      (
        x,
        refl,
        inl refl,
        rw (same, if◌then◌else◌) (omega arith),
        ground (arith, same, none_below x xs h.0),
      )
  rank (x ∷ xs) (suc i) h k =
      let (v, at_i, there, many, few) = rank xs i h.1 (omega (arith, k)) in
      let le_v : le x v ≡ true = All-In (λ y. le x y ≡ true) v xs h.0 there in
      (v, at_i, inr there, rw (le_v, if◌then◌else◌) (omega (arith, many)), ground (arith, few))

  -- the nearest-rank percentile of values
  pub p95_rank :
      (xs : List R)
      → 0 < length xs
      → (v : R) × (get_elem? (sorted itself le xs) (p95_index (length xs)) ≡ some v)
        × In v xs
        × (95 * length xs ≤ 100 * up_to v xs)
        × (100 * below v xs < 95 * length xs)
  p95_rank xs h =
      let bounds = p95_index_bounds (length xs) h in
      let (v, at_i, there, many, few) =
        rank (sorted itself le xs) (p95_index (length xs)) (sorted-IsSorted itself le o xs)
          (omega (arith, bounds.0, length-sorted itself le xs)) in
      (
        v,
        at_i,
        In-sorted itself le v xs there,
        omega (arith, bounds.1, many, count-sorted itself le (λ y. le y v) xs),
        omega (arith, bounds.2, few, count-sorted itself le (λ y. not (le v y)) xs),
      )
