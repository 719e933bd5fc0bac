-- ===== src/Report/Declared.antt =====
-- The dataset section of `compile_aibom`.
pub mod Laws
use aibom_webhook_service.Base.{
  String, Bool, true, false, not, ◌&&◌, ◌||◌, Option, none, some, List, [], ◌∷◌, ◌==◌, map,
  if◌then◌else◌, is_some, or_else,
}
use aibom_webhook_service.Source.Container.{given, is_text}
use aibom_webhook_service.Source.Dataset.{dataset_names_match}

-- an entry that the detector saw, as far as the section reads it
pub record Seen : Type 0 where
  pub dataset_name : Option String
  pub source : Option String
  pub version : Option String
  pub license : Option String

-- the annotations dataset-name, dataset-version, dataset-source and dataset-license
pub record DatasetAnnotations : Type 0 where
  pub name : Option String
  pub version : Option String
  pub source : Option String
  pub license : Option String

-- the flags of the container's command
pub record CliDataset : Type 0 where
  pub dataset_name : Option String
  pub dataset_config : Option String
  pub dataset_split : Option String

pub record Declared : Type 0 where
  pub name : Option String
  pub version : Option String
  pub source : Option String
  pub license : Option String
  pub declared_via : Option String
  pub config_name : Option String
  pub split : Option String

-- `declared`, and `auto_detected` with what each entry's `matches_declared` is
pub record DatasetSection : Type 0 where
  pub declared : Declared
  pub auto_detected : List (Seen × Option Bool)

unfoldable pub annotated : DatasetAnnotations → CliDataset → Declared
annotated a cli = record {
  name = or_else (given a.name) cli.dataset_name;
  version = a.version;
  source = a.source;
  license = a.license;
  declared_via = none;
  config_name = none;
  split = none;
}

unfoldable pub declared_dataset : DatasetAnnotations → CliDataset → Declared
unfolding annotated
declared_dataset a cli =
    if is_some (given a.name)
    then record (annotated a cli) { declared_via = some "annotation" }
    else if is_some (given cli.dataset_name)
    then record (annotated a cli) {
      declared_via = some "cli_arg";
      config_name = given cli.dataset_config;
      split = given cli.dataset_split;
    }
    else annotated a cli

-- what the first entry gives where no name is declared
unfoldable pub inferred_from : Seen → Declared → Declared
inferred_from first d = record d {
  name = first.dataset_name;
  source = first.source;
  declared_via = some "inferred_from_runtime";
  version = or_else (given first.version) d.version;
  license = or_else (given first.license) d.license;
}

unfoldable pub with_detected : List Seen → Declared → Declared
unfolding inferred_from
with_detected [] d = d
with_detected (first ∷ entries) d = if is_some (given d.name) then d else inferred_from first d

unfoldable pub is_inferred : Declared → Bool
is_inferred d = is_text "inferred_from_runtime" d.declared_via

unfoldable pub matches_declared : Declared → Seen → Option Bool
unfolding is_inferred dataset_names_match
matches_declared d entry =
    if is_inferred d then none else some (dataset_names_match entry.dataset_name d.name)

abbrev pub has_entries : List Seen → Bool
has_entries [] = false
has_entries (e ∷ entries) = true

-- whether there is a section
unfoldable pub has_section : Declared → List Seen → String → Bool
has_section declared detected intent =
    is_some (given declared.name)
    || has_entries detected
    || (intent == "training")
    || (intent == "sft")

unfoldable pub section_of : Declared → List Seen → DatasetSection
unfolding with_detected matches_declared
section_of declared detected =
    let known = with_detected detected declared in
    record { declared = known; auto_detected = map (λ e. (e, matches_declared known e)) detected }

unfoldable pub dataset_section :
    DatasetAnnotations → CliDataset → List Seen → String → Option DatasetSection
unfolding declared_dataset has_section section_of
dataset_section a cli detected intent =
    let declared = declared_dataset a cli in
    if has_section declared detected intent then some (section_of declared detected) else none
