-- ===== src/Pod/Window.antt =====
-- `_pod_finished_ms` and `_pod_stats_window`. Times are numbers of milliseconds since the epoch;
-- `parse_start_utc` stands for `_parse_start_utc`, in microseconds and `none` for an exception.
pub mod Laws
use aibom_webhook_service.Base.{
  ℕ, String, Bool, true, false, Option, none, some, List, [], ◌∷◌, ◌+◌, ◌-◌, ◌/◌, ◌==◌,
  if◌then◌else◌, min, max, keep, ltb,
}
use aibom_webhook_service.Source.Container.{Container, is_text}

pub record Window : Type 0 where
  pub start_ms : ℕ
  pub end_ms : ℕ
  pub stats_start_ms : ℕ
  pub includes_cold_start : Bool

abbrev pub end_of : Option ℕ → ℕ → ℕ
end_of none now_ms = now_ms
end_of (some finished_ms) now_ms = min finished_ms now_ms

unfoldable pub window_from : ℕ → ℕ → Option ℕ → ℕ → Window
window_from scrape_interval_ms start_ms finished_ms now_ms =
    let end_ms = max (end_of finished_ms now_ms) start_ms in
    let exclude_ms = min scrape_interval_ms ((end_ms - start_ms) / 2) in
    record {
      start_ms = start_ms;
      end_ms = end_ms;
      stats_start_ms = start_ms + exclude_ms;
      includes_cold_start = ltb exclude_ms scrape_interval_ms;
    }

module _ (parse_start_utc : String → Option ℕ) (scrape_interval_ms : ℕ) where
  time_of : Option String → Option ℕ
  time_of none = none
  time_of (some s) = parse_start_utc s

  abbrev pub latest : Option ℕ → Option ℕ → Option ℕ
  latest none y = none
  latest (some a) none = none
  latest (some a) (some b) = some (max a b)

  -- the latest time, if every container has one
  unfoldable pub latest_finish : List Container → Option ℕ
  unfolding time_of
  latest_finish [] = none
  latest_finish (c ∷ []) = time_of c.finished_at
  latest_finish (c ∷ d ∷ containers) =
      latest (time_of c.finished_at) (latest_finish (d ∷ containers))

  in_ms : Option ℕ → Option ℕ
  in_ms none = none
  in_ms (some us) = some (us / 1000)

  unfoldable pub pod_finished_ms : String → List Container → Option ℕ
  unfolding latest_finish in_ms
  pod_finished_ms pod_name containers =
      in_ms (latest_finish (keep (λ c. is_text pod_name c.pod_name) containers))

  unfoldable pub pod_stats_window : ℕ → String → String → List Container → Option Window
  unfolding window_from pod_finished_ms
  pod_stats_window now_ms pod_name start_time containers = elim (parse_start_utc start_time) [
    | none ↦ none
    | some us ↦
        some
          (window_from scrape_interval_ms (us / 1000) (pod_finished_ms pod_name containers) now_ms)
  ]
