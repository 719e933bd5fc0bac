-- ===== src/Runtime/Flush.antt =====
-- The debounced flush: `_record`, `_notify_change`, `_debounced_flush`, `_flush`, `flush` and
-- `_after_fork_in_child`, as steps on what they share. What was detected is counted in versions.
-- Recording something and notifying it are one step, and a flush is two, its copy and its write, so
-- that flushes overlap and their writes come in any order. A notification can fail to set the timer
-- (its lock is not had in 0.2 seconds, or the timer does not start), and a write can fail (the lock
-- of the file, the disk); the code swallows both. The file is replaced as a whole, so what a flush
-- merges with is what the one before it wrote.
pub mod Laws
use aibom_webhook_service.Base.{
  ℕ, Bool, true, false, not, ◌||◌, ◌+◌, if◌then◌else◌, ◌≡◌, Option, none, some, nat_eq, max, List,
  [], ◌∷◌,
}

pub record Detector : Type 0 where
  pub durable_flush_enabled : Bool
  -- `_flush_timer` is not None
  pub timer_set : Bool
  pub git_captured : Bool
  -- the version of what was detected, 0 for nothing
  pub detected : ℕ
  -- the newest version that is merged into the file, which keeps the entries of an older one
  pub written : ℕ
  -- the newest version whose notification or whose write failed, 0 for none
  pub missed : ℕ
  -- the versions that flushes copied and are writing
  pub in_flight : List ℕ

-- `can_set`: the lock of the timer is had in time and the timer starts
unfoldable pub notify_change : Bool → Detector → Detector
notify_change can_set s =
    if not s.durable_flush_enabled || s.timer_set
    then s
    else (if can_set then record s { timer_set = true } else record s { missed = s.detected })

-- something is recorded, and the change is notified
unfoldable pub record_change : Bool → Detector → Detector
unfolding notify_change
record_change can_set s = notify_change can_set (record s { detected = s.detected + 1 })

-- what was detected is copied, if there is anything
unfoldable pub copied : Detector → Detector
copied s =
    if nat_eq s.detected 0
    then s
    else record s { git_captured = true; in_flight = s.detected ∷ s.in_flight }

-- `_flush` up to its copy; the arguments or the checkout add nothing to what was detected, or
-- something whose notification can set the timer or not
unfoldable pub flush_copy : Option Bool → Detector → Detector
unfolding record_change copied
flush_copy none s = copied s
flush_copy (some can_set) s = copied (record_change can_set s)

-- the timer fires
unfoldable pub debounced_flush : Option Bool → Detector → Detector
unfolding flush_copy
debounced_flush captures s = flush_copy captures (record s { timer_set = false })

-- the rest of `_flush`, when its write succeeds; `others` are the flushes still under way
unfoldable pub flush_write : ℕ → List ℕ → Detector → Detector
flush_write version others s = record s { written = max s.written version; in_flight = others }

-- the rest of `_flush`, when an exception is swallowed
unfoldable pub flush_fails : ℕ → List ℕ → Detector → Detector
flush_fails version others s = record s { missed = max s.missed version; in_flight = others }

unfoldable pub cancel_pending_flush : Detector → Detector
cancel_pending_flush s = record s { timer_set = false }

-- the child of a fork has neither the timer nor the capture
unfoldable pub after_fork_in_child : Detector → Detector
after_fork_in_child s = record s { timer_set = false; git_captured = false }

-- one of a list, and the others
pub data Picks (version : ℕ) : List ℕ → List ℕ → Type 0 where
  first : (others : List ℕ) → Picks version (version ∷ others) others
  later :
      (v : ℕ) (versions others : List ℕ)
      → Picks version versions others
      → Picks version (v ∷ versions) (v ∷ others)

-- a step of the process: `flushes` is the final flush, the one of SIGTERM or a call of `flush`
pub data Step : Detector → Detector → Type 0 where
  changes : (can_set : Bool) (s : Detector) → Step s (record_change can_set s)
  fires :
      (captures : Option Bool) (s : Detector)
      → s.timer_set ≡ true
      → Step s (debounced_flush captures s)
  flushes : (captures : Option Bool) (s : Detector) → Step s (flush_copy captures s)
  writes :
      (version : ℕ) (others : List ℕ) (s : Detector)
      → Picks version s.in_flight others
      → Step s (flush_write version others s)
  fails :
      (version : ℕ) (others : List ℕ) (s : Detector)
      → Picks version s.in_flight others
      → Step s (flush_fails version others s)

pub data Reaches (s : Detector) : Detector → Type 0 where
  here : Reaches s s
  then_step : {t u : Detector} → Reaches s t → Step t u → Reaches s u

-- the hooks are installed and nothing is detected
abbrev pub started : Detector
started = record {
  durable_flush_enabled = true;
  timer_set = false;
  git_captured = false;
  detected = 0;
  written = 0;
  missed = 0;
  in_flight = [];
}
