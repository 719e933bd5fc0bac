-- ===== src/Telemetry/Series.antt =====
-- `_rebucket_points` and `_rebucket_series_doc`. `average` and `peak` stand for the rounded mean
-- and maximum of a bucket; the points of a window do not lie before its start.
pub mod Laws
use aibom_webhook_service.Base.{
  ℕ, String, Bool, true, false, Option, none, some, List, [], ◌∷◌, ◌++◌, ◌+◌, ◌-◌, ◌*◌, ◌/◌,
  if◌then◌else◌, nat_eq, ltb, map,
}

abbrev pub Points : Type 0 → Type 0
Points R = List (ℕ × R)

module _ {R : Type 0} where
  -- the values of each bucket, in the order of the buckets
  unfoldable pub put : ℕ → R → List (ℕ × List R) → List (ℕ × List R)
  put k v [] = (k, v ∷ []) ∷ []
  put k v ((j, vs) ∷ buckets) =
      let rest = put k v buckets in
      if nat_eq k j
      then (j, vs ++ (v ∷ [])) ∷ buckets
      else if ltb k j
      then (k, v ∷ []) ∷ (j, vs) ∷ buckets
      else (j, vs) ∷ rest

  unfoldable pub buckets_of : ℕ → ℕ → Points R → List (ℕ × List R) → List (ℕ × List R)
  unfolding put
  buckets_of anchor bucket_s [] buckets = buckets
  buckets_of anchor bucket_s ((ts, v) ∷ points) buckets =
      buckets_of anchor bucket_s points (put ((ts - anchor) / bucket_s) v buckets)

  unfoldable pub reduced : ℕ → ℕ → (List R → R) → List (ℕ × List R) → Points R
  reduced anchor bucket_s reducer [] = []
  reduced anchor bucket_s reducer ((k, vs) ∷ buckets) =
      (anchor + k * bucket_s, reducer vs) ∷ reduced anchor bucket_s reducer buckets

  unfoldable pub rebucket_points : (List R → R) → Points R → ℕ → ℕ → Points R
  unfolding reduced buckets_of
  rebucket_points reducer points anchor bucket_s =
      reduced anchor bucket_s reducer (buckets_of anchor bucket_s points [])

-- one line of a metric, with its labels
pub record Line (R : Type 0) : Type 0 where
  pub labels : String
  pub points : Points R

pub record Metric (R : Type 0) : Type 0 where
  pub name : String
  pub unit : String
  pub aggregate : Points R
  pub aggregate_max : Option (Points R)
  pub series : Option (List (Line R))
  pub series_omitted : Bool

pub record Doc (R : Type 0) : Type 0 where
  pub start : ℕ
  pub end_at : ℕ
  pub step_seconds : ℕ
  pub metrics : List (Metric R)

module _ {R : Type 0} (average peak : List R → R) where
  coarser_line : ℕ → ℕ → Line R → Line R
  unfolding rebucket_points
  coarser_line anchor bucket_s line = record line {
    points = rebucket_points average line.points anchor bucket_s;
  }

  coarser_max : ℕ → ℕ → Option (Points R) → Option (Points R)
  unfolding rebucket_points
  coarser_max anchor bucket_s none = none
  coarser_max anchor bucket_s (some points) = some (rebucket_points peak points anchor bucket_s)

  coarser_series : ℕ → ℕ → Option (List (Line R)) → Option (List (Line R))
  unfolding coarser_line
  coarser_series anchor bucket_s none = none
  coarser_series anchor bucket_s (some lines) = some (map (coarser_line anchor bucket_s) lines)

  unfoldable pub coarser_metric : ℕ → ℕ → Metric R → Metric R
  unfolding coarser_max coarser_series rebucket_points
  coarser_metric anchor bucket_s m = record m {
    aggregate = rebucket_points average m.aggregate anchor bucket_s;
    aggregate_max = coarser_max anchor bucket_s m.aggregate_max;
    series = coarser_series anchor bucket_s m.series;
  }

  unfoldable pub rebucket_series_doc : Doc R → ℕ → Doc R
  unfolding coarser_metric
  rebucket_series_doc doc factor =
      let bucket_s = doc.step_seconds * factor in
      record doc {
        step_seconds = bucket_s;
        metrics = map (coarser_metric doc.start bucket_s) doc.metrics;
      }
