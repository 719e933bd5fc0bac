-- ===== src/Telemetry/Fit.antt =====
-- `_fit_series_doc`. `size` stands for the bytes of a document's JSON and `series_size` for the
-- length of a metric's series as JSON.
pub mod Laws
pub mod Ends
use Prim.Native.String.{compare}
use Prim.Native.Nat.{Ordering}
use aibom_webhook_service.Base.{
  ℕ, zero, suc, String, Bool, true, false, not, ◌&&◌, ◌||◌, Option, none, some, List, [], ◌∷◌, ◌+◌,
  ◌-◌, ◌/◌, ◌==◌, if◌then◌else◌, nat_eq, ltb, leb, map, max, length, is_some,
}
use aibom_webhook_service.Telemetry.Series.{Metric, Doc, rebucket_series_doc}

-- the most points of a line, 0 if there is none
unfoldable pub most_points : {R : Type 0} → List (Metric R) → ℕ
most_points [] = 0
most_points (m ∷ metrics) = max (length m.aggregate) (most_points metrics)

-- `-(-points // factor)`
abbrev pub ceil_div : ℕ → ℕ → ℕ
ceil_div points factor = (points + factor - 1) / factor

-- how a loop ends: with a document that fits, with the last one tried, or not within the fuel
pub data Search (R : Type 0) : Type 0 where
  fits : Doc R → Search R
  exhausted : Doc R → Search R
  out_of_fuel : Search R

-- how the whole ends: with a document, without one, or not within the fuel
pub data Fitted (R : Type 0) : Type 0 where
  encoded : Doc R → Fitted R
  too_large : Fitted R
  unfinished : Fitted R

-- whether (a, s) is less than (b, t)
unfoldable less : ℕ × String → ℕ × String → Bool
less (a, s) (b, t) =
    ltb a b || (nat_eq a b && (elim (compare s t) [ Ordering.lt ↦ true | _ ↦ false ]))

module _ {R : Type 0} where
  abbrev pub has_series : Metric R → Bool
  has_series m = is_some m.series

  unfoldable pub without_series : Metric R → Metric R
  without_series m = record m { series = none; series_omitted = true }

  -- the series of a metric dropped
  unfoldable pub drop_series : String → List (Metric R) → List (Metric R)
  unfolding without_series
  drop_series name [] = []
  drop_series name (m ∷ metrics) =
      let rest = drop_series name metrics in
      if m.name == name then without_series m ∷ rest else m ∷ rest

module _ {R : Type 0} (series_size : Metric R → ℕ) where
  -- the larger one of what was found and of a metric that has series
  unfoldable larger : Metric R → Option (ℕ × String) → Option (ℕ × String)
  unfolding less
  larger m none = if has_series m then some (series_size m, m.name) else none
  larger m (some found) =
      if has_series m && less found (series_size m, m.name)
      then some (series_size m, m.name)
      else some found

  -- the size and the name of the metric with the largest series
  unfoldable pub largest : List (Metric R) → Option (ℕ × String)
  unfolding larger
  largest [] = none
  largest (m ∷ metrics) = larger m (largest metrics)

module _ {R : Type 0} (size : Doc R → ℕ) (series_size : Metric R → ℕ) where
  -- the second loop
  unfoldable pub drop_from : ℕ → ℕ → Doc R → Fitted R
  unfolding largest drop_series
  drop_from zero max_bytes doc =
      if leb (size doc) max_bytes
      then encoded doc
      else (elim (largest series_size doc.metrics) [ none ↦ too_large | some found ↦ unfinished ])
  drop_from (suc fuel) max_bytes doc =
      if leb (size doc) max_bytes then encoded doc else (elim (largest series_size doc.metrics) [
        | none ↦ too_large
        | some (n, name) ↦
            drop_from fuel max_bytes (record doc { metrics = drop_series name doc.metrics })
      ])

module _ {R : Type 0} (average peak : List R → R) (size : Doc R → ℕ)
    (series_size : Metric R → ℕ) where
  -- the first loop: `doc` is the document that was tried last
  unfoldable pub reduce_from : ℕ → ℕ → ℕ → Doc R → ℕ → Doc R → Search R
  unfolding rebucket_series_doc
  reduce_from zero min_points max_bytes original factor doc =
      if leb min_points (ceil_div (most_points original.metrics) factor)
      then out_of_fuel
      else exhausted doc
  reduce_from (suc fuel) min_points max_bytes original factor doc =
      let coarser = rebucket_series_doc average peak original factor in
      let rest = reduce_from fuel min_points max_bytes original (factor + 1) coarser in
      if leb min_points (ceil_div (most_points original.metrics) factor)
      then (if leb (size coarser) max_bytes then fits coarser else rest)
      else exhausted doc

  after_search : ℕ → Search R → Fitted R
  unfolding drop_from
  after_search max_bytes (fits doc) = encoded doc
  after_search max_bytes (exhausted doc) =
      drop_from size series_size (length doc.metrics) max_bytes doc
  after_search max_bytes out_of_fuel = unfinished

  unfoldable pub fit_series_doc : ℕ → Doc R → ℕ → Fitted R
  unfolding reduce_from after_search most_points
  fit_series_doc min_points doc max_bytes =
      if leb (size doc) max_bytes
      then encoded doc
      else after_search max_bytes
          (reduce_from (most_points doc.metrics) min_points max_bytes doc 2 doc)
