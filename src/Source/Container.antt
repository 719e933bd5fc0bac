-- ===== src/Source/Container.antt =====
-- An entry of containers.json, as the watcher writes it. `none` is a missing value.
use aibom_webhook_service.Base.{ℕ, String, Bool, false, Option, none, some, ◌==◌, if◌then◌else◌}
use aibom_webhook_service.Base.Int.{ℤ}
use aibom_webhook_service.Engine.Server.{Spec}

pub record Container : Type 0 where
  pub pod_name : Option String
  pub name : Option String
  pub spec : Spec
  pub image_id : Option String
  pub terminated_reason : Option String
  pub exit_code : Option ℤ
  pub job_result : Option String
  pub serving_role : Option String
  pub restart_count : Option ℕ
  pub last_terminated_reason : Option String
  pub last_exit_code : Option ℤ
  pub memory_limit_bytes : Option ℕ
  pub cpu_limit_millis : Option ℕ
  pub gpu_limit : Option ℕ
  pub finished_at : Option String

-- a text that is there and not empty
abbrev pub given : Option String → Option String
given none = none
given (some s) = if s == "" then none else some s

abbrev pub is_text : String → Option String → Bool
is_text s none = false
is_text s (some t) = t == s
