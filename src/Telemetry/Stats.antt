-- ===== src/Telemetry/Stats.antt =====
-- `compute_metric_stats`, over an abstract type of floats and of timestamps.
pub mod Order
pub mod Laws
use aibom_webhook_service.Base.{
  ℕ, Bool, Option, none, some, List, [], ◌∷◌, ◌+◌, ◌-◌, ◌*◌, ◌/◌, if◌then◌else◌, min, length, take,
  drop, get_elem?, map,
}

-- What the statistics use of floats and of ISO timestamps.
pub record Samples (T R : Type 0) : Type 0 where
  -- `t <= u` of timestamps
  pub before : T → T → Bool
  -- `x <= y` of floats, none of them NaN
  pub leq : R → R → Bool
  -- `sum(values) / len(values)`
  pub average : List R → R

-- `sorted(xs, key=…)`, which is stable
module _ {A K : Type 0} (key : A → K) (le : K → K → Bool) where
  unfoldable pub insert : A → List A → List A
  insert x [] = x ∷ []
  insert x (y ∷ ys) = let rest = insert x ys in if le (key x) (key y) then x ∷ y ∷ ys else y ∷ rest

  unfoldable pub sorted : List A → List A
  unfolding insert
  sorted [] = []
  sorted (x ∷ xs) = insert x (sorted xs)

-- `math.ceil(0.95 * n) - 1`, at most n - 1. The product of floats is as near to the whole numbers
-- as the exact one for every n below 2 ^ 50.
unfoldable pub p95_index : ℕ → ℕ
p95_index n = min (n - 1) ((95 * n + 99) / 100 - 1)

pub record Segments (R : Type 0) : Type 0 where
  pub first_third : Option R
  pub middle_third : Option R
  pub last_third : Option R

pub record Stats (R : Type 0) : Type 0 where
  pub min : R
  pub max : R
  pub avg : R
  pub p95 : R
  pub segments : Segments R

module _ {T R : Type 0} (S : Samples T R) where
  -- `min(v, *values)` and `max(v, *values)`
  unfoldable pub min_of : R → List R → R
  min_of v [] = v
  min_of v (w ∷ values) = min_of (if S.leq v w then v else w) values

  unfoldable pub max_of : R → List R → R
  max_of v [] = v
  max_of v (w ∷ values) = max_of (if S.leq w v then v else w) values

  -- `_chunk_avg`
  unfoldable pub chunk_avg : List R → Option R
  chunk_avg [] = none
  chunk_avg (v ∷ values) = some (S.average (v ∷ values))

  abbrev pub first_part : List R → List R
  first_part values = take (length values / 3) values

  abbrev pub middle_part : List R → List R
  middle_part values = take (length values / 3) (drop (length values / 3) values)

  abbrev pub last_part : List R → List R
  last_part values = drop (2 * (length values / 3)) values

  unfoldable pub segments_of : List R → Segments R
  unfolding chunk_avg
  segments_of values = record {
    first_third = chunk_avg (first_part values);
    middle_third = chunk_avg (middle_part values);
    last_third = chunk_avg (last_part values);
  }

  -- the entry at a place, which is in range where it is used
  abbrev pub at_or : R → Option R → R
  at_or d none = d
  at_or d (some v) = v

  -- the values in the order of time
  unfoldable pub values_of : List (T × R) → List R
  unfolding sorted
  values_of points = map (λ (p : T × R). p.1) (sorted (λ (p : T × R). p.0) S.before points)

  unfoldable pub stats_of : R → List R → Stats R
  unfolding min_of max_of sorted p95_index segments_of
  stats_of v values =
      let all_values = v ∷ values in
      record {
        min = min_of v values;
        max = max_of v values;
        avg = S.average all_values;
        p95 =
            at_or v (get_elem? (sorted (λ x. x) S.leq all_values) (p95_index (length all_values)));
        segments = segments_of all_values;
      }

  unfoldable pub compute_metric_stats : List (T × R) → Option (Stats R)
  unfolding values_of stats_of
  compute_metric_stats points = elim (values_of points) [
    | [] ↦ none
    | v ∷ values ↦ some (stats_of v values)
  ]
