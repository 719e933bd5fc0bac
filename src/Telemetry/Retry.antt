-- ===== src/Telemetry/Retry.antt =====
-- `_collect_metrics_with_retry`. `query attempt promql` stands for the statistics of what
-- Prometheus answers at an attempt, `none` where it has no data points.
pub mod Laws
use aibom_webhook_service.Base.{
  ℕ, zero, suc, String, Bool, true, false, Option, none, some, List, [], ◌∷◌, ◌+◌, if◌then◌else◌,
  is_some,
}
use aibom_webhook_service.Base.Dict
use aibom_webhook_service.Base.Dict.{Dict}

module _ {St : Type 0} (query : ℕ → String → Option St) where
  -- the metrics that are not collected yet
  unfoldable pub pending : Dict String → Dict St → Dict String
  unfolding Dict.lookup
  pending [] collected = []
  pending ((name, promql) ∷ metrics) collected =
      let rest = pending metrics collected in
      if is_some (Dict.lookup name collected) then rest else (name, promql) ∷ rest

  record_stats : String → Option St → Dict St → Dict St
  unfolding Dict.insert
  record_stats name none collected = collected
  record_stats name (some stats) collected = Dict.insert name stats collected

  -- one attempt
  unfoldable pub attempt_all : ℕ → Dict String → Dict St → Dict St
  unfolding record_stats
  attempt_all attempt [] collected = collected
  attempt_all attempt ((name, promql) ∷ metrics) collected =
      attempt_all attempt metrics (record_stats name (query attempt promql) collected)

  abbrev is_empty : Dict String → Bool
  is_empty [] = true
  is_empty (p ∷ d) = false

  -- `n` attempts from the given one on
  unfoldable pub collect_from : ℕ → ℕ → Dict String → Dict St → Dict St
  unfolding attempt_all pending
  collect_from zero attempt metrics collected = collected
  collect_from (suc n) attempt metrics collected =
      let missing = pending metrics collected in
      let rest = collect_from n (attempt + 1) metrics (attempt_all attempt missing collected) in
      if is_empty missing then collected else rest

  unfoldable pub collect_metrics_with_retry : ℕ → Dict String → Dict St
  unfolding collect_from
  collect_metrics_with_retry attempts metrics = collect_from attempts 1 metrics []
