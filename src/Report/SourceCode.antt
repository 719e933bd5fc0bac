-- ===== src/Report/SourceCode.antt =====
-- The `source_code` section of `compile_aibom`.
pub mod Laws
use aibom_webhook_service.Base.{
  String, Bool, true, false, ◌||◌, Option, none, some, if◌then◌else◌, is_some,
}
use aibom_webhook_service.Source.Container.{given}
use aibom_webhook_service.Source.Url.{redact_git_url}
use aibom_webhook_service.Source.Provenance.{Provenance, option_map, merge_provenance}

-- the three git annotations of the workload
pub record GitAnnotations : Type 0 where
  pub git_commit : Option String
  pub git_repository : Option String
  pub git_branch : Option String

pub record SourceCode : Type 0 where
  pub git_repository : Option String
  pub git_commit : Option String
  pub git_branch : Option String
  pub declared_via : Option String
  pub dirty : Option Bool

abbrev pub nothing : Provenance
nothing = record {
  git_commit = none;
  git_repository = none;
  git_branch = none;
  git_dirty = none;
  detected_via = none;
}

-- whether one of the annotations is given
abbrev pub is_annotated : GitAnnotations → Bool
is_annotated a =
    is_some (given a.git_commit) || is_some (given a.git_repository) || is_some (given a.git_branch)

unfoldable pub given_of : GitAnnotations → Provenance
given_of a = record nothing {
  git_commit = given a.git_commit;
  git_repository = given a.git_repository;
  git_branch = given a.git_branch;
}

-- the annotations that are given, none if there is none
unfoldable pub annotated : GitAnnotations → Option Provenance
unfolding given_of
annotated a = if is_annotated a then some (given_of a) else none

-- `x or {}`
abbrev pub or_nothing : Option Provenance → Provenance
or_nothing none = nothing
or_nothing (some p) = p

-- how what is reported was declared
unfoldable pub declared_via : Bool → Provenance → Option String
declared_via true dp = some "annotation"
declared_via false dp =
    if is_some (given dp.git_commit) || is_some (given dp.git_repository)
    then dp.detected_via
    else none

module _ (valid_netloc : String → Bool) where
  unfoldable pub section_of : Provenance → Option String → SourceCode
  unfolding redact_git_url
  section_of prov via = record {
    git_repository = option_map (redact_git_url valid_netloc) prov.git_repository;
    git_commit = prov.git_commit;
    git_branch = prov.git_branch;
    declared_via = via;
    dirty = prov.git_dirty;
  }

  unfoldable pub source_code : GitAnnotations → Option Provenance → SourceCode
  unfolding section_of merge_provenance annotated declared_via
  source_code annotations detected =
      section_of (or_nothing (merge_provenance valid_netloc (annotated annotations) detected))
        (declared_via (is_annotated annotations) (or_nothing detected))
