-- ===== src/Pod/Window/Laws.antt =====
-- The bounds of a pod's window.
use aibom_webhook_service.Base.{
  ℕ, ◌≡◌, true, Option, none, some, ◌+◌, ◌-◌, ◌*◌, ◌≤◌, ◌<◌, min, max, arith, ◌↔◌, ◌/◌, ltb,
}
use aibom_webhook_service.Pod.Window.{end_of, window_from}

cut_bounds :
    (s e k : ℕ)
    → s ≤ e
    → (s ≤ s + min k ((e - s) / 2))
      × (s + min k ((e - s) / 2) ≤ e)
      × (s + min k ((e - s) / 2) ≤ s + k)
      × (s + min k ((e - s) / 2) - s ≤ e - (s + min k ((e - s) / 2)))
cut_bounds s e k h = (omega arith, omega (arith, h), omega arith, omega (arith, h))

cut_short : (s e k : ℕ) → s ≤ e → (ltb (min k ((e - s) / 2)) k ≡ true) ↔ (e - s < 2 * k)
cut_short s e k h = (λ l. ground (arith, l), λ l. ground (arith, l))

end_bounds :
    (finished_ms : Option ℕ) (start_ms now_ms : ℕ)
    → (start_ms ≤ max (end_of finished_ms now_ms) start_ms)
      × (max (end_of finished_ms now_ms) start_ms ≤ max start_ms now_ms)
end_bounds none start_ms now_ms = (omega arith, omega arith)
end_bounds (some f) start_ms now_ms = (omega arith, omega arith)

-- The window starts with the pod and does not end before that, nor later than now or than the
-- pod's end otherwise; the statistics leave out at most one scrape interval and at most half of
-- it, and the flag says that it is shorter than two intervals.
pub window_from_bounds :
    (scrape_interval_ms start_ms : ℕ) (finished_ms : Option ℕ) (now_ms : ℕ)
    → (let w = window_from scrape_interval_ms start_ms finished_ms now_ms in
        (start_ms ≤ w.stats_start_ms)
        × (w.stats_start_ms ≤ w.end_ms)
        × (w.stats_start_ms ≤ start_ms + scrape_interval_ms)
        × (w.stats_start_ms - start_ms ≤ w.end_ms - w.stats_start_ms)
        × (w.end_ms ≤ max start_ms now_ms)
        × ((w.includes_cold_start ≡ true) ↔ (w.end_ms - start_ms < 2 * scrape_interval_ms)))
unfolding window_from
window_from_bounds scrape_interval_ms start_ms finished_ms now_ms =
    let b = end_bounds finished_ms start_ms now_ms in
    let e = max (end_of finished_ms now_ms) start_ms in
    let c = cut_bounds start_ms e scrape_interval_ms b.0 in
    (c.0, c.1, c.2, c.3, b.1, cut_short start_ms e scrape_interval_ms b.0)
