-- ===== src/Telemetry/Lines.antt =====
-- The lines of a metric: `parse_range_series`, `_aggregate_points` and `_collect_series_metrics`.
-- Prometheus, its sample texts and the JSON text of a dict of labels are parameters.
pub mod Laws
use aibom_webhook_service.Base.{
  ℕ, String, Bool, true, false, not, ◌&&◌, ◌||◌, Option, none, some, List, [], ◌∷◌, ◌++◌, ◌==◌,
  if◌then◌else◌, map, ltb, length, is_some,
}
use aibom_webhook_service.Base.Dict
use aibom_webhook_service.Base.Dict.{Dict}
use aibom_webhook_service.Source.Container.{given}
use aibom_webhook_service.Telemetry.Series.{Points, put, Line, Metric}
use aibom_webhook_service.Telemetry.Stats.{sorted}
use aibom_webhook_service.Telemetry.Queries.{pod_regex, replace_text}

-- a series of an answer: its labels, and the time and the text of each sample
pub record Answered (V : Type 0) : Type 0 where
  pub metric : Dict String
  pub samples : List (ℕ × V)

-- What is used of floats: the sample that `float` can read and that is finite, rounded to six
-- digits, and the rounded reducers.
pub record Reading (V R : Type 0) : Type 0 where
  pub finite : V → Option R
  pub sum : List R → R
  pub max : List R → R
  pub avg : List R → R

pub record Labels : Type 0 where
  -- the JSON text of a dict of labels
  pub encode : Dict String → String
  -- the order of the sorted entries
  pub before : String → String → Bool

-- `_SERIES_LABEL_SOURCES`
abbrev pub series_label_sources : List (String × String)
series_label_sources =
    ("exported_pod", "pod")
    ∷ ("pod", "pod")
    ∷ ("container", "container")
    ∷ ("interface", "interface")
    ∷ ("gpu", "gpu")
    ∷ []

unfoldable pub labels_from : List (String × String) → Dict String → Dict String → Dict String
unfolding Dict.lookup Dict.insert
labels_from [] metric labels = labels
labels_from ((source, dest) ∷ sources) metric labels =
    labels_from sources metric (elim (given (Dict.lookup source metric)) [
      | none ↦ labels
      | some v ↦ if is_some (Dict.lookup dest labels) then labels else Dict.insert dest v labels
    ])

unfoldable pub series_labels : Dict String → Dict String
unfolding labels_from
series_labels metric = labels_from series_label_sources metric []

-- the values at each time, in the order of time
unfoldable pub by_time : {R : Type 0} → Points R → List (ℕ × List R) → List (ℕ × List R)
unfolding put
by_time [] groups = groups
by_time ((ts, v) ∷ points) groups = by_time points (put ts v groups)

unfoldable pub all_points : {R : Type 0} → List (Line R) → Points R
all_points [] = []
all_points (line ∷ lines) = line.points ++ all_points lines

abbrev pub is_empty {ℓ} : {A : Type ℓ} → List A → Bool
is_empty [] = true
is_empty (x ∷ xs) = false

pub record Definition : Type 0 where
  pub name : String
  pub query : String
  pub unit : String
  pub aggregation : String
  pub gauge : Bool

module _ {V R : Type 0} (reading : Reading V R) (labelling : Labels) where
  unfoldable pub finite_points : List (ℕ × V) → Points R
  finite_points [] = []
  finite_points ((ts, v) ∷ samples) =
      let rest = finite_points samples in
      elim (reading.finite v) [ none ↦ rest | some r ↦ (ts, r) ∷ rest ]

  -- the series that have points
  unfoldable pub lines_of : List (Answered V) → List (Line R)
  unfolding finite_points series_labels
  lines_of [] = []
  lines_of (a ∷ answers) =
      let points = finite_points a.samples in
      let line : Line R = record {
        labels = labelling.encode (series_labels a.metric);
        points = points;
      } in
      let rest = lines_of answers in if is_empty points then rest else line ∷ rest

  -- the answer of a query that failed is empty
  unfoldable pub parse_range_series : List (Answered V) → List (Line R)
  unfolding lines_of sorted
  parse_range_series answers =
      sorted (λ (line : Line R). line.labels) labelling.before (lines_of answers)

  unfoldable pub reducer_of : String → List R → R
  reducer_of how =
      if how == "sum" then reading.sum else if how == "max" then reading.max else reading.avg

  unfoldable pub aggregate_points : List (Line R) → String → Points R
  unfolding by_time all_points reducer_of
  aggregate_points lines how =
      map (λ (g : ℕ × List R). (g.0, reducer_of how g.1)) (by_time (all_points lines) [])

  module _ (query_range : String → List (Answered V)) (max_series : ℕ) where
    unfoldable pub promql_of : String → String → String → String → Definition → String
    unfolding replace_text
    promql_of namespace regex step fn d = replace_text "{fn}" fn (
        replace_text "{win}" step
          (replace_text "{pod_regex}" regex (replace_text "{namespace}" namespace d.query)))

    unfoldable pub run : String → String → String → String → Definition → List (Line R)
    unfolding promql_of parse_range_series
    run namespace regex step fn d =
        parse_range_series (query_range (promql_of namespace regex step fn d))

    -- the peaks of a gauge
    unfoldable pub peaks : Definition → List (Line R) → Option (Points R)
    unfolding aggregate_points
    peaks d [] = none
    peaks d (line ∷ lines) =
        some (aggregate_points (line ∷ lines) (if d.aggregation == "sum" then "sum" else "max"))

    unfoldable pub metric_of : Definition → List (Line R) → List (Line R) → Metric R
    unfolding aggregate_points peaks
    metric_of d series peak =
        let omitted = ltb max_series (length series) in
        record {
          name = d.name;
          unit = d.unit;
          aggregate = aggregate_points series d.aggregation;
          aggregate_max = if d.gauge then peaks d peak else none;
          series = if omitted then none else some series;
          series_omitted = omitted;
        }

    unfoldable pub collect_from : String → String → String → List Definition → List (Metric R)
    unfolding run metric_of
    collect_from namespace regex step [] = []
    collect_from namespace regex step (d ∷ defs) =
        let series = run namespace regex step "avg" d in
        let rest = collect_from namespace regex step defs in
        if is_empty series
        then rest
        else metric_of d series (run namespace regex step "max" d) ∷ rest

    unfoldable pub collect_series_metrics :
        String → List (Option String) → String → List Definition → List (Metric R)
    unfolding collect_from pod_regex
    collect_series_metrics namespace pod_names step defs =
        if pod_regex pod_names == ""
        then []
        else collect_from namespace (pod_regex pod_names) step defs
