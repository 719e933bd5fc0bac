-- ===== src/Source/Dataset.antt =====
-- `detect_dataset_from_command`, `detect_dataset_from_containers` and `_dataset_names_match`.
pub mod Laws
use aibom_webhook_service.Base.{
  ℕ, String, Bool, true, false, not, ◌&&◌, ◌||◌, Option, none, some, List, [], ◌∷◌, ◌==◌,
  if◌then◌else◌,
}
use aibom_webhook_service.Base.Dict
use aibom_webhook_service.Base.Dict.{Dict}
use aibom_webhook_service.Base.Text.{
  starts_with, contains_char, partition, strip, rstrip_by, lower, after_last,
}
use aibom_webhook_service.Engine.Server.{Spec}
use aibom_webhook_service.Source.Container.{given}
use aibom_webhook_service.Source.Storage.{is_slash}

-- `str` is the conversion of every entry
abbrev pub dataset_arg_map : Dict String
dataset_arg_map =
    ("--dataset_name", "dataset_name")
    ∷ ("--dataset-name", "dataset_name")
    ∷ ("--dataset_config_name", "dataset_config")
    ∷ ("--dataset-config-name", "dataset_config")
    ∷ ("--dataset_train_split", "dataset_split")
    ∷ ("--dataset-train-split", "dataset_split")
    ∷ []

-- the key of a token, and its value if it has one
key_and_value : String → String × Option String
unfolding starts_with contains_char partition
key_and_value tok =
    if starts_with tok "--" && contains_char "=" tok then partition "=" tok else (tok, none)

-- the value of a flag: its own, else the next token that is no flag
value_of : Option String → List String → Option String
unfolding starts_with
value_of (some val) rest = some val
value_of none [] = none
value_of none (next ∷ rest) = if starts_with next "--" then none else some next

store : Option String → Option String → Dict String → Dict String
unfolding Dict.insert
store none val d = d
store (some name) none d = d
store (some name) (some val) d = Dict.insert name val d

-- the loop over the tokens
unfoldable pub dataset_from : List String → Dict String → Dict String
unfolding key_and_value value_of store Dict.lookup
dataset_from [] result = result
dataset_from (tok ∷ rest) result =
    let (key, val) = key_and_value tok in
    dataset_from rest (store (Dict.lookup key dataset_arg_map) (value_of val rest) result)

unfoldable pub detect_dataset_from_command : List String → Option (Dict String)
unfolding dataset_from Dict.lookup
detect_dataset_from_command tokens =
    let result = dataset_from tokens [] in
    elim (given (Dict.lookup "dataset_name" result)) [ none ↦ none | some name ↦ some result ]

-- `tokens_of` flattens a container's command
unfoldable pub detect_dataset_from_containers :
    (Spec → List String) → List Spec → Option (Dict String)
unfolding detect_dataset_from_command
detect_dataset_from_containers tokens_of [] = none
detect_dataset_from_containers tokens_of (c ∷ containers) =
    elim (detect_dataset_from_command (tokens_of c)) [
      | none ↦ detect_dataset_from_containers tokens_of containers
      | some result ↦ some result
    ]

unfoldable pub normal_name : String → String
unfolding strip rstrip_by lower
normal_name s = lower (rstrip_by is_slash (strip s))

unfoldable pub dataset_names_match : Option String → Option String → Bool
unfolding normal_name contains_char after_last
dataset_names_match none declared = false
dataset_names_match (some detected) none = false
dataset_names_match (some detected) (some declared) =
    let a = normal_name detected in
    let b = normal_name declared in
    if (detected == "") || (declared == "")
    then false
    else if a == b
    then true
    else if contains_char "/" a && contains_char "/" b
    then false
    else after_last "/" a == after_last "/" b
