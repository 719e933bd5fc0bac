-- ===== src/Pod/Status.antt =====
-- `pod_status_from_containers`, `pod_job_result`, `pod_serving_role` and `pod_restart_info`.
pub mod Laws
use aibom_webhook_service.Base.{
  ℕ, String, Bool, true, false, not, ◌&&◌, Option, none, some, List, [], ◌∷◌, ◌+◌, ◌==◌,
  if◌then◌else◌, nat_eq, keep, first, is_some, or_else, map,
}
use aibom_webhook_service.Base.Int.{ℤ, is_zero}
use aibom_webhook_service.Source.Container.{Container, given, is_text}

-- `code not in (0, None)`
abbrev pub is_failure : Option ℤ → Bool
is_failure none = false
is_failure (some n) = not (is_zero n)

-- the containers of a pod that report why they ended
unfoldable pub terminated : String → Container → Bool
terminated pod_name c = is_text pod_name c.pod_name && is_some (given c.terminated_reason)

abbrev pub is_oom : Container → Bool
is_oom c = is_text "OOMKilled" c.terminated_reason

abbrev pub failed : Container → Bool
failed c = is_failure c.exit_code

abbrev first_of : {A : Type 0} → List A → Option A
first_of [] = none
first_of (x ∷ xs) = some x

-- one killed for memory, else one that failed, else the first one
unfoldable pub representative :
    (Container → Bool) → (Container → Bool) → List Container → Option Container
representative oom fails containers =
    or_else (first oom containers) (or_else (first fails containers) (first_of containers))

abbrev status_of : Option Container → Option String × Option ℤ
status_of none = (none, none)
status_of (some c) = (c.terminated_reason, c.exit_code)

unfoldable pub pod_status_from_containers : String → List Container → Option String × Option ℤ
unfolding representative terminated
pod_status_from_containers pod_name containers =
    status_of (representative is_oom failed (keep (terminated pod_name) containers))

-- a text of the first container of the pod that has one
unfoldable pub first_text : (Container → Option String) → String → List Container → Option String
first_text field pod_name [] = none
first_text field pod_name (c ∷ containers) =
    let rest = first_text field pod_name containers in
    if is_text pod_name c.pod_name then or_else (given (field c)) rest else rest

unfoldable pub pod_job_result : String → List Container → Option String
unfolding first_text
pod_job_result = first_text (λ c. c.job_result)

unfoldable pub pod_serving_role : String → List Container → Option String
unfolding first_text
pod_serving_role = first_text (λ c. c.serving_role)

abbrev count_of : Option ℕ → ℕ
count_of none = 0
count_of (some n) = n

-- the containers of a pod that were restarted after they ended
unfoldable pub restarted : String → Container → Bool
restarted pod_name c =
    is_text pod_name c.pod_name
    && not (nat_eq (count_of c.restart_count) 0)
    && is_some (given c.last_terminated_reason)

pub record RestartInfo : Type 0 where
  pub restart_count : ℕ
  pub last_termination_reason : Option String
  pub last_exit_code : Option ℤ

unfoldable pub total_restarts : List Container → ℕ
total_restarts [] = 0
total_restarts (c ∷ containers) = count_of c.restart_count + total_restarts containers

abbrev pub was_oom : Container → Bool
was_oom c = is_text "OOMKilled" c.last_terminated_reason

-- `none` is the empty dict
unfoldable pub pod_restart_info : String → List Container → Option RestartInfo
unfolding representative restarted total_restarts
pod_restart_info pod_name containers =
    let found = keep (restarted pod_name) containers in
    info (total_restarts found) (representative was_oom (λ c. is_failure c.last_exit_code) found)
  where
    info : ℕ → Option Container → Option RestartInfo
    info n none = none
    info n (some c) = some (record {
      restart_count = n;
      last_termination_reason = c.last_terminated_reason;
      last_exit_code = c.last_exit_code;
    })
