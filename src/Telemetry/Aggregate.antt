-- ===== src/Telemetry/Aggregate.antt =====
-- `aggregate_pod_metrics`: the statistics of the pods of a workload as one. `rounded x scale` stands
-- for `_round_stat(x * scale)`.
pub mod Laws
use aibom_webhook_service.Base.{ℕ, String, Bool, Option, none, some, List, [], ◌∷◌, map}
use aibom_webhook_service.Base.Dict
use aibom_webhook_service.Base.Dict.{Dict}
use aibom_webhook_service.Telemetry.Stats.{Samples, Segments, Stats, min_of, max_of, chunk_avg}

-- a metric's scale and unit for display
pub record DisplayUnit (R : Type 0) : Type 0 where
  pub scale : R
  pub display_unit : String

pub record Details (R : Type 0) : Type 0 where
  pub display_unit : String
  pub min : R
  pub max : R
  pub avg : R
  pub p95 : R
  pub segments : Segments R

-- the statistics of the pods that have the metric
unfoldable pub stats_named : {R : Type 0} → String → List (Dict (Stats R)) → List (Stats R)
unfolding Dict.lookup
stats_named name [] = []
stats_named name (metrics ∷ pods) =
    let rest = stats_named name pods in
    elim (Dict.lookup name metrics) [ none ↦ rest | some s ↦ s ∷ rest ]

unfoldable pub present : {R : Type 0} → List (Option R) → List R
present [] = []
present (none ∷ values) = present values
present (some v ∷ values) = v ∷ present values

module _ {T R : Type 0} (S : Samples T R) (rounded : R → R → R) where
  rounded_some : R → Option R → Option R
  rounded_some scale none = none
  rounded_some scale (some v) = some (rounded v scale)

  -- the average of the segments that there are
  unfoldable pub segment : R → List (Option R) → Option R
  unfolding rounded_some chunk_avg present
  segment scale values = rounded_some scale (chunk_avg S (present values))

  unfoldable pub details_of : DisplayUnit R → Stats R → List (Stats R) → Details R
  unfolding min_of max_of segment
  details_of u s stats =
      let all_stats = s ∷ stats in
      record {
        display_unit = u.display_unit;
        min = rounded (min_of S s.min (map (λ (t : Stats R). t.min) stats)) u.scale;
        max = rounded (max_of S s.max (map (λ (t : Stats R). t.max) stats)) u.scale;
        avg = rounded (S.average (map (λ (t : Stats R). t.avg) all_stats)) u.scale;
        p95 = rounded (S.average (map (λ (t : Stats R). t.p95) all_stats)) u.scale;
        segments = record {
          first_third = segment u.scale (map (λ (t : Stats R). t.segments.first_third) all_stats);
          middle_third = segment u.scale (map (λ (t : Stats R). t.segments.middle_third) all_stats);
          last_third = segment u.scale (map (λ (t : Stats R). t.segments.last_third) all_stats);
        };
      }

  unfoldable pub put_details :
      String → DisplayUnit R → List (Stats R) → Dict (Details R) → Dict (Details R)
  unfolding details_of
  put_details name u [] details = details
  put_details name u (s ∷ stats) details = (name, details_of u s stats) ∷ details

  -- the names of a unit map differ
  unfoldable pub aggregate_pod_metrics :
      List (Dict (Stats R)) → Dict (DisplayUnit R) → Dict (Details R)
  unfolding stats_named put_details
  aggregate_pod_metrics pods [] = []
  aggregate_pod_metrics pods ((name, u) ∷ units) =
      put_details name u (stats_named name pods) (aggregate_pod_metrics pods units)
