-- ===== src/Runtime/Flush/Laws.antt =====
-- No detection is left without a flush that will write it, unless a step of its flush failed.
use aibom_webhook_service.Base.{ℕ, true, ◌≡◌, ◌⊎◌, ◌≤◌, List, [], ◌∷◌}
use aibom_webhook_service.Runtime.Flush.{Detector}

-- the versions under way are at most another
AllBelow : List ℕ → ℕ → Type 0
AllBelow [] n = Unit
AllBelow (m ∷ ms) n = (m ≤ n) × AllBelow ms n

-- a version is under way
Among : ℕ → List ℕ → Type 0
Among n [] = ⊥
Among n (m ∷ ms) = (m ≡ n) ⊎ Among n ms

-- the newest version failed
pub Missed : Detector → Type 0
Missed s = s.missed ≡ s.detected

-- what is not written is being written, has a timer or failed
Scheduled : Detector → Type 0
Scheduled s =
    (s.timer_set ≡ true) ⊎ (Among s.detected s.in_flight ⊎ ((s.written ≡ s.detected) ⊎ Missed s))

-- the versions are at most the newest
record InOrder (s : Detector) : Type 0 where
  enabled : s.durable_flush_enabled ≡ true
  written : s.written ≤ s.detected
  missed : s.missed ≤ s.detected
  under_way : AllBelow s.in_flight s.detected
