-- ===== src/Job/Detected.antt =====
-- What `main` makes of the detectors' results: the model of the commands and of the storage, and
-- the three tiers of git provenance.
pub mod Laws
use aibom_webhook_service.Base.{
  String, Bool, true, false, ◌&&◌, Option, none, some, List, [], ◌∷◌, if◌then◌else◌, is_some,
}
use aibom_webhook_service.Base.Dict
use aibom_webhook_service.Base.Dict.{Dict}
use aibom_webhook_service.Value.{Value, PyFloat, truthy}
use aibom_webhook_service.Source.Container.{given}
use aibom_webhook_service.Source.Provenance.{Provenance, merge_provenance}
use aibom_webhook_service.Image.Http.{Request}

module _ {R : Type 0} (F : PyFloat R) where
  abbrev pub true_value : Option (Value R) → Option (Value R)
  true_value none = none
  true_value (some v) = if truthy F v then some v else none

  -- an entry that the command's model has keeps its value
  unfoldable pub keep_entry : String → Dict (Value R) → Dict (Value R) → Dict (Value R)
  unfolding Dict.lookup Dict.insert truthy
  keep_entry key detected merged = elim (true_value (Dict.lookup key detected)) [
    | none ↦ merged
    | some v ↦ Dict.insert key v merged
  ]

  -- the storage's entries over those of the command, but for dtype and architecture
  unfoldable pub merged_model : Dict (Value R) → Option (Dict (Value R)) → Dict (Value R)
  unfolding keep_entry Dict.update
  merged_model detected none = detected
  merged_model detected (some []) = detected
  merged_model detected (some (e ∷ storage)) =
      keep_entry "architecture" detected
        (keep_entry "dtype" detected (Dict.update detected (e ∷ storage)))

unfoldable pub is_complete : Option Provenance → Bool
is_complete none = false
is_complete (some p) = is_some (given p.git_commit) && is_some (given p.git_repository)

-- the images are looked up only while the commit or the repository is unknown
unfoldable pub detected_provenance :
    (String → Bool)
    → Option Provenance
    → Option Provenance
    → (List Request → Option Provenance × List Request)
    → List Request
    → Option Provenance × List Request
unfolding merge_provenance is_complete
detected_provenance valid_netloc runtime clone images log =
    let known = merge_provenance valid_netloc runtime clone in
    let (labelled, asked) = images log in
    if is_complete known
    then (known, log)
    else (merge_provenance valid_netloc known labelled, asked)
