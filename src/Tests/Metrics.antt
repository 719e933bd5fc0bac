-- ===== src/Tests/Metrics.antt =====
-- The statistics of two pods, pod names in a query, and the lines of an answer.
use aibom_webhook_service.Base.{
  ℕ, suc, true, ◌≡◌, refl, ◌+◌, ◌*◌, ◌/◌, none, some, List, [], ◌∷◌, map, leb, length, arith,
}
use aibom_webhook_service.Base.Dict
use aibom_webhook_service.Base.Dict.{Dict}
use aibom_webhook_service.Base.Text.Span.{NoChars}
use aibom_webhook_service.Telemetry.Stats.{Samples, Stats, stats_of, compute_metric_stats}
use aibom_webhook_service.Telemetry.Stats.Order.{IsOrder}
use aibom_webhook_service.Telemetry.Stats.Laws.{
  Least, Leq, Geq, Geq-trans, OfPoints, compute_metric_stats_lem,
}
use aibom_webhook_service.Telemetry.Aggregate.{
  DisplayUnit, Details, stats_named, aggregate_pod_metrics,
}
use aibom_webhook_service.Telemetry.Aggregate.Laws.{aggregate_pod_metrics-extremes}
use aibom_webhook_service.Telemetry.Queries.{pod_regex, substitute_pod_query}
use aibom_webhook_service.Telemetry.Queries.Laws.{is_quoting, pod_regex-NoChars}
use aibom_webhook_service.Telemetry.Series.{Line}
use aibom_webhook_service.Telemetry.Series.Laws.{Above}
use aibom_webhook_service.Telemetry.Lines.{
  Reading, Labels, Answered, all_points, reducer_of, parse_range_series, aggregate_points,
}
use aibom_webhook_service.Telemetry.Lines.Laws.{group_at, values_at, aggregate_points_lem}

abbrev total : List ℕ → ℕ
total [] = 0
total (v ∷ values) = v + total values

-- whole numbers for floats
abbrev whole : Samples ℕ ℕ
whole = record {
  before = leb;
  leq = leb;
  average = λ values. elim values [ [] ↦ 0 | v ∷ vs ↦ total (v ∷ vs) / suc (length vs) ];
}

whole-IsOrder : IsOrder whole.leq
whole-IsOrder = record {
  total = λ x y h. ground (arith, h);
  trans = λ x y z h k. ground (arith, h, k);
}

measured :
    compute_metric_stats whole ((3, 9) ∷ (1, 4) ∷ (2, 5) ∷ [])
    ≡ some (record {
      min = 4;
      max = 9;
      avg = 6;
      p95 = 9;
      segments = record { first_third = some 4; middle_third = some 5; last_third = some 9 };
    })
unfolding compute_metric_stats
measured = refl

abbrev measured_points : List (ℕ × ℕ)
measured_points = (3, 9) ∷ (1, 4) ∷ (2, 5) ∷ []

compute_metric_stats_lem_example :
    OfPoints whole whole-IsOrder measured_points (compute_metric_stats whole measured_points)
compute_metric_stats_lem_example =
    compute_metric_stats_lem whole whole-IsOrder whole-IsOrder measured_points

abbrev units : Dict (DisplayUnit ℕ)
units = ("memory_bytes", record { scale = 10; display_unit = "MB" }) ∷ []

abbrev metrics : ℕ → Dict (Stats ℕ)
metrics n = ("memory_bytes", stats_of whole n ((n + 4) ∷ [])) ∷ []

abbrev scaled : ℕ → ℕ → ℕ
scaled v scale = v * scale

aggregate_pod_metrics-extremes_example :
    (d : Details ℕ) × (lo : ℕ) × (hi : ℕ) × (Dict.lookup "memory_bytes"
        (aggregate_pod_metrics whole scaled (metrics 5 ∷ [] ∷ metrics 2 ∷ []) units)
      ≡ some d)
    × (d.display_unit ≡ "MB")
    × (d.min ≡ scaled lo 10)
    × (d.max ≡ scaled hi 10)
    × Least
        (Leq whole whole-IsOrder)
        whole-IsOrder.trans
        lo
        (map (λ (t : Stats ℕ). t.min) (stats_of whole 5 (9 ∷ []) ∷ stats_of whole 2 (6 ∷ []) ∷ []))
    × Least
        (Geq whole whole-IsOrder)
        (Geq-trans whole whole-IsOrder)
        hi
        (map (λ (t : Stats ℕ). t.max) (stats_of whole 5 (9 ∷ []) ∷ stats_of whole 2 (6 ∷ []) ∷ []))
unfolding stats_named Dict.lookup
aggregate_pod_metrics-extremes_example =
    aggregate_pod_metrics-extremes whole scaled whole-IsOrder (metrics 5 ∷ [] ∷ metrics 2 ∷ [])
      units "memory_bytes" (record { scale = 10; display_unit = "MB" }) (stats_of whole 5 (9 ∷ []))
      (stats_of whole 2 (6 ∷ []) ∷ []) (refl, tt) refl refl

pattern_of_names :
    pod_regex (some "job-1.a" ∷ some "x\"}" ∷ none ∷ some "web" ∷ []) ≡ "job-1[.]a|web"
unfolding pod_regex
pattern_of_names = refl

pod_regex-NoChars_example : NoChars is_quoting (pod_regex (some "job-1.a" ∷ some "x\"}" ∷ []))
pod_regex-NoChars_example = pod_regex-NoChars (some "job-1.a" ∷ some "x\"}" ∷ [])

one_pod :
    substitute_pod_query "ml" "m{namespace=\"{namespace}\",pod=\"{pod_name}\"}" "p"
    ≡ "m{namespace=\"ml\",pod=\"p\"}"
unfolding substitute_pod_query
one_pod = refl

abbrev reading : Reading ℕ ℕ
reading = record { finite = λ v. some v; sum = total; max = total; avg = total }

abbrev labelling : Labels
labelling = record {
  encode = λ labels. elim (Dict.lookup "pod" labels) [ none ↦ "{}" | some p ↦ p ];
  before = λ s t. true;
}

abbrev answers : List (Answered ℕ)
answers =
    record { metric = ("pod", "p") ∷ []; samples = (10, 1) ∷ (20, 2) ∷ [] }
    ∷ record { metric = ("exported_pod", "q") ∷ ("pod", "exporter") ∷ []; samples = (20, 5) ∷ [] }
    ∷ []

parsed :
    map (λ (l : Line ℕ). l.labels) (parse_range_series reading labelling answers) ≡ "p" ∷ "q" ∷ []
unfolding parse_range_series
parsed = refl

aggregated :
    aggregate_points reading labelling (parse_range_series reading labelling answers) "sum"
    ≡ (10, 1) ∷ (20, 7) ∷ []
unfolding parse_range_series aggregate_points
aggregated = refl

aggregate_points_lem_example :
    let lines = parse_range_series reading labelling answers in
    (groups : List (ℕ × List ℕ)) × (aggregate_points reading labelling lines "sum"
      ≡ map (λ (g : ℕ × List ℕ). (g.0, reducer_of reading labelling "sum" g.1)) groups)
    × Above 0 groups
    × ((t : ℕ) → group_at t groups ≡ values_at t (all_points lines))
aggregate_points_lem_example =
    aggregate_points_lem reading labelling (parse_range_series reading labelling answers) "sum"
