-- ===== src/Runtime/Output.antt =====
-- `_dataset_identity` and `_merge_output`. A value is given by its JSON text: `json.dumps` of the
-- list of values is then the list of the texts.
pub mod Laws
use aibom_webhook_service.Base.{
  String, Bool, true, false, not, ◌&&◌, ◌||◌, Option, none, some, List, [], ◌∷◌, ◌++◌, ◌==◌, map,
  if◌then◌else◌, any, keep,
}
use aibom_webhook_service.Base.Dict
use aibom_webhook_service.Base.Dict.{Dict}
use aibom_webhook_service.Base.Text.{starts_with}
use aibom_webhook_service.Command.Segments.{one_of}

-- an entry of `datasets`, whose `seen_via` stands by itself
pub record Entry : Type 0 where
  pub fields : Dict String
  pub seen_via : List String

abbrev pub dataset_identity_keys : List String
dataset_identity_keys =
    "dataset_name" ∷ "source" ∷ "config_name" ∷ "split" ∷ "revision" ∷ "data_files" ∷ "data_dir"
    ∷ "root" ∷ "path" ∷ []

-- `fields.get(k)`, whose `None` is written as null
abbrev pub text_of : Option String → String
text_of none = "null"
text_of (some s) = s

unfoldable pub values_of : List String → Dict String → List String
unfolding Dict.lookup
values_of [] fields = []
values_of (k ∷ keys) fields = text_of (Dict.lookup k fields) ∷ values_of keys fields

unfoldable pub dataset_identity : Entry → List String
unfolding values_of
dataset_identity entry = values_of dataset_identity_keys entry.fields

abbrev pub same_texts : List String → List String → Bool
same_texts [] [] = true
same_texts [] (t ∷ ts) = false
same_texts (s ∷ ss) [] = false
same_texts (s ∷ ss) (t ∷ ts) = (s == t) && same_texts ss ts

unfoldable pub same_dataset : Entry → Entry → Bool
unfolding dataset_identity
same_dataset a b = same_texts (dataset_identity a) (dataset_identity b)

-- a stored entry, updated by a repeated one
unfoldable pub repeated : Entry → Entry → Entry
unfolding Dict.update one_of
repeated old entry = record {
  fields = Dict.update old.fields entry.fields;
  seen_via = old.seen_via ++ keep (λ v. not (one_of old.seen_via v)) entry.seen_via;
}

-- the entries with the last one of the same identity updated, if there is one
unfoldable pub update_last : Entry → List Entry → Option (List Entry)
unfolding same_dataset repeated
update_last entry [] = none
update_last entry (old ∷ entries) = elim (update_last entry entries) [
  | some rest ↦ some (old ∷ rest)
  | none ↦ if same_dataset old entry then some (repeated old entry ∷ entries) else none
]

unfoldable pub add_entry : Entry → List Entry → List Entry
unfolding update_last
add_entry entry entries = elim (update_last entry entries) [
  | none ↦ entries ++ (entry ∷ [])
  | some updated ↦ updated
]

unfoldable pub merge_datasets : List Entry → List Entry → List Entry
unfolding add_entry
merge_datasets existing [] = existing
merge_datasets existing (entry ∷ entries) = merge_datasets (add_entry entry existing) entries

abbrev pub is_git_key : String → Bool
is_git_key k = starts_with k "git_"

unfoldable pub has_git : Dict String → Bool
unfolding starts_with
has_git [] = false
has_git ((k, v) ∷ info) = is_git_key k || has_git info

unfoldable pub without_git : Dict String → Dict String
unfolding starts_with
without_git [] = []
without_git ((k, v) ∷ info) =
    let rest = without_git info in if is_git_key k then rest else (k, v) ∷ rest

unfoldable pub merge_info : Dict String → Dict String → Dict String
unfolding Dict.update has_git without_git
merge_info existing info =
    Dict.update (if has_git info then without_git existing else existing) info

-- the output file; a missing `runtime_info` is an empty one
pub record Output : Type 0 where
  pub datasets : List Entry
  pub runtime_info : Dict String

unfoldable pub merge_output : Output → List Entry → Dict String → Output
unfolding merge_datasets merge_info
merge_output existing entries info = record {
  datasets = merge_datasets existing.datasets entries;
  runtime_info = merge_info existing.runtime_info info;
}
