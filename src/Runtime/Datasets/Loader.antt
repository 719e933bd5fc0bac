-- ===== src/Runtime/Datasets/Loader.antt =====
-- The hook of the DataLoader: `_patched_init` of `_install_dataloader_hook`, and
-- `_inspect_torch_dataset`.
pub mod Laws
use aibom_webhook_service.Base.{
  ℕ, zero, suc, String, Bool, true, false, not, ◌&&◌, ◌||◌, Option, none, some, List, [], ◌∷◌, ◌==◌,
  if◌then◌else◌, is_some, take, or_else,
}
use aibom_webhook_service.Base.Dict
use aibom_webhook_service.Base.Dict.{Dict}
use aibom_webhook_service.Base.Text.{starts_with}
use aibom_webhook_service.Source.Container.{given}
use aibom_webhook_service.Runtime.Datasets.Entry.{
  Entry, Field, null, number, text, texts, groups, FileGroup, one, put_text, add_seen,
}
use aibom_webhook_service.Runtime.Datasets.Registry.{
  Dataset, Detected, hf_dataset_key, key_get, object_get, record_entry,
}

-- what `_inspect_torch_dataset` reads of a dataset's attributes
pub record Inspected : Type 0 where
  pub class_path : String
  pub class_name : String
  -- of `root`, `data_path`, `data_dir`, `filename` and `path`, in this order
  pub path_attributes : List (Option String)
  -- `dataset.train`, if there is such an attribute
  pub train : Option Bool
  -- the class of `dataset.transform`, if there is such an attribute
  pub transform : Option (Option String)
  pub name : Option String
  pub url : Option String
  pub urls : Option Field

abbrev pub loader_source : String
loader_source = "torch.utils.data.DataLoader"

unfoldable pub first_some : List (Option String) → Option String
first_some [] = none
first_some (none ∷ rest) = first_some rest
first_some (some s ∷ rest) = some s

abbrev pub split_name : Option Bool → Option String
split_name none = none
split_name (some true) = some "train"
split_name (some false) = some "test"

unfoldable pub put_transform : Option (Option String) → Entry → Entry
unfolding Dict.insert
put_transform none entry = entry
put_transform (some none) entry = Dict.insert "transform" null entry
put_transform (some (some t)) entry = Dict.insert "transform" (text t) entry

-- at most five URLs
unfoldable pub put_urls : Option Field → Entry → Entry
unfolding Dict.insert
put_urls (some (texts urls)) entry = Dict.insert "urls" (texts (take 5 urls)) entry
put_urls (some (groups urls)) entry = Dict.insert "urls" (groups (take 5 urls)) entry
put_urls other entry = entry

abbrev pub or_text : Option String → String → String
or_text o s = elim (given o) [ none ↦ s | some t ↦ t ]

module _ (path_fingerprint : String → Option String) where
  fingerprint_of : Option String → Option String
  fingerprint_of path = elim (given path) [ none ↦ none | some p ↦ given (path_fingerprint p) ]

  unfoldable pub inspect_torch_dataset : Inspected → Entry
  unfolding put_text first_some put_transform put_urls fingerprint_of Dict.insert
  inspect_torch_dataset d =
      let path = first_some d.path_attributes in
      let entry = ("source", text loader_source) ∷ ("dataset_class", text d.class_path) ∷ [] in
      let entry = put_text "split" (split_name d.train) (put_text "path" path entry) in
      let entry = put_transform d.transform entry in
      let entry = Dict.insert "dataset_name" (text (or_text d.name d.class_name)) entry in
      let entry = put_urls d.urls (put_text "url" d.url entry) in
      put_text "fingerprint" (fingerprint_of path) entry

-- the entry that a dataset is recorded as already
abbrev joined : Option (Option ℕ) → Option ℕ
joined none = none
joined (some v) = v

unfoldable pub by_key : Dataset → Detected → Option ℕ
unfolding hf_dataset_key key_get
by_key d s = elim (hf_dataset_key d) [ none ↦ none | some k ↦ joined (key_get k s.keys) ]

unfoldable pub existing_entry : Dataset → Detected → Option ℕ
unfolding object_get by_key
existing_entry d s = or_else (object_get d.id s.objects) (by_key d s)

abbrev pub is_train : Dataset → Bool
is_train d = elim d.split [ none ↦ false | some s ↦ starts_with s "train" ] || d.train

unfoldable pub put_batch_size : Bool → Option ℕ → Entry → Entry
unfolding Dict.insert Dict.lookup
put_batch_size train none entry = entry
put_batch_size train (some n) entry =
    if not (is_some (Dict.lookup "batch_size" entry)) || train
    then Dict.insert "batch_size" (number n) entry
    else entry

-- a loader over a dataset that is recorded
unfoldable pub merged : Bool → Option ℕ → Entry → Entry
unfolding put_batch_size add_seen Dict.lookup
merged train batch_size entry =
    let sized = put_batch_size train batch_size entry in
    add_seen loader_source (Dict.lookup "seen_via" sized) sized

unfoldable pub change_at : ℕ → (Entry → Entry) → List Entry → List Entry
change_at i f [] = []
change_at zero f (e ∷ entries) = f e ∷ entries
change_at (suc i) f (e ∷ entries) = e ∷ change_at i f entries

-- `entry` is what the inspection gives. The lookup of a dataset that cannot be a weak key raises, and
-- the hook ends.
unfoldable pub patched_init : Dataset → Entry → Option ℕ → Detected → Detected
unfolding existing_entry merged change_at put_batch_size record_entry
patched_init d entry batch_size s =
    if d.weak
    then (elim (existing_entry d s) [
      | some i ↦ record s { entries = change_at i (merged (is_train d) batch_size) s.entries }
      | none ↦ (record_entry (put_batch_size true batch_size entry) s).1
    ])
    else s
