-- ===== src/Source/Provenance.antt =====
-- The sources of a workload's code: `detect_git_clone_from_containers`,
-- `detect_git_provenance_from_runtime_info` and `merge_provenance`.
pub mod Laws
use aibom_webhook_service.Base.{
  String, Bool, true, false, not, ◌&&◌, ◌||◌, Option, none, some, List, [], ◌∷◌, ◌==◌,
  if◌then◌else◌, or_else, is_some,
}
use aibom_webhook_service.Base.Text.{starts_with, lower}
use aibom_webhook_service.Engine.Server.{Spec}
use aibom_webhook_service.Source.Container.{given}
use aibom_webhook_service.Source.Url.{redact_git_url, normalize_repo}
use aibom_webhook_service.Source.Git.{Clone, clone_of_command}

-- a dict of provenance; `none` is a missing or a null entry
pub record Provenance : Type 0 where
  pub git_commit : Option String
  pub git_repository : Option String
  pub git_branch : Option String
  pub git_dirty : Option Bool
  pub detected_via : Option String

abbrev pub option_map : (String → String) → Option String → Option String
option_map f none = none
option_map f (some s) = some (f s)

-- a value that both have
abbrev pub both_agree : (String → String → Bool) → Option String → Option String → Bool
both_agree same none b = true
both_agree same (some a) none = true
both_agree same (some a) (some b) = (a == "") || (b == "") || same a b

-- an abbreviated hash matches its full one
unfoldable pub same_commit : String → String → Bool
unfolding starts_with lower
same_commit a b = starts_with (lower a) (lower b) || starts_with (lower b) (lower a)

or_dirty : Option Bool → Option Bool → Option Bool
or_dirty none d = d
or_dirty (some b) d = some b

-- the first one, with the entries it lacks taken from the other
unfoldable pub filled : Provenance → Provenance → Provenance
unfolding or_dirty
filled primary fallback = record primary {
  git_commit = or_else primary.git_commit fallback.git_commit;
  git_repository = or_else primary.git_repository fallback.git_repository;
  git_branch = or_else primary.git_branch fallback.git_branch;
  git_dirty = or_dirty primary.git_dirty fallback.git_dirty;
}

module _ (valid_netloc : String → Bool) where
  clone_report : Clone → Provenance
  unfolding redact_git_url
  clone_report c = record {
    git_commit = given c.commit;
    git_repository = some (redact_git_url valid_netloc c.repo);
    git_branch = given c.branch;
    git_dirty = none;
    detected_via = none;
  }

  unfoldable pub detect_git_clone_from_command : List String → Option Provenance
  unfolding clone_report clone_of_command
  detect_git_clone_from_command tokens = elim (clone_of_command tokens) [
    | none ↦ none
    | some c ↦ some (clone_report c)
  ]

  -- `tokens_of` flattens a container's command
  unfoldable pub detect_git_clone_from_containers :
      (Spec → List String) → List Spec → Option Provenance
  unfolding detect_git_clone_from_command
  detect_git_clone_from_containers tokens_of [] = none
  detect_git_clone_from_containers tokens_of (c ∷ containers) =
      elim (detect_git_clone_from_command (tokens_of c)) [
        | none ↦ detect_git_clone_from_containers tokens_of containers
        | some result ↦ some (record result { detected_via = some "cli_arg" })
      ]

  -- `runtime_info` as the detector in the container wrote it
  unfoldable pub detect_git_provenance_from_runtime_info : Provenance → Option Provenance
  unfolding redact_git_url
  detect_git_provenance_from_runtime_info runtime_info =
      if not (is_some (given runtime_info.git_commit))
        && not (is_some (given runtime_info.git_repository))
      then none
      else some (record runtime_info {
        git_repository = option_map (redact_git_url valid_netloc) runtime_info.git_repository;
        detected_via = some "git_directory";
      })

  unfoldable pub same_repository : String → String → Bool
  unfolding normalize_repo
  same_repository a b = normalize_repo valid_netloc a == normalize_repo valid_netloc b

  -- whether the two may describe one checkout
  unfoldable pub agree : Provenance → Provenance → Bool
  unfolding same_commit same_repository
  agree primary fallback =
      both_agree same_commit primary.git_commit fallback.git_commit
      && both_agree same_repository primary.git_repository fallback.git_repository

  unfoldable pub merge_provenance : Option Provenance → Option Provenance → Option Provenance
  unfolding agree filled
  merge_provenance none fallback = fallback
  merge_provenance (some primary) none = some primary
  merge_provenance (some primary) (some fallback) =
      if agree primary fallback then some (filled primary fallback) else some primary
