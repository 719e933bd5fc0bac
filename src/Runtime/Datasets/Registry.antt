-- ===== src/Runtime/Datasets/Registry.antt =====
-- `_hf_dataset_key`, `_register_hf_dataset` and `_record`. An entry stands for its place in the
-- list of what was detected, where it is changed in place.
pub mod Laws
use Prim.Native.String.{◌++◌ as ◌<>◌}
use aibom_webhook_service.Base.{
  ℕ, String, Bool, true, false, not, ◌&&◌, Option, none, some, List, [], ◌∷◌, ◌++◌, ◌==◌,
  if◌then◌else◌, nat_eq, length,
}
use aibom_webhook_service.Source.Container.{given}
use aibom_webhook_service.Runtime.GitRefs.{dirname}
use aibom_webhook_service.Runtime.Datasets.Entry.{Entry}

-- A dataset of the `datasets` library, as far as the hooks look at it.
pub record Dataset : Type 0 where
  -- its identity
  pub id : ℕ
  -- whether it can be a key of a WeakKeyDictionary
  pub weak : Bool
  pub builder_name : Option String
  pub config_name : Option String
  pub split : Option String
  -- the `filename` of the first cache file
  pub cache_file : Option String
  -- `dataset.train is True`
  pub train : Bool

pub record Key : Type 0 where
  pub builder_name : String
  pub config_name : Option String
  pub split : Option String
  pub cache_dir : Option String

unfoldable pub cache_dir : Option String → Option String
unfolding dirname
cache_dir none = none
cache_dir (some filename) = given (some (dirname filename))

unfoldable pub hf_dataset_key : Dataset → Option Key
unfolding cache_dir
hf_dataset_key d = elim (given d.builder_name) [
  | none ↦ none
  | some name ↦ some (record {
    builder_name = name;
    config_name = d.config_name;
    split = d.split;
    cache_dir = cache_dir d.cache_file;
  })
]

abbrev pub same_option : Option String → Option String → Bool
same_option none none = true
same_option none (some b) = false
same_option (some a) none = false
same_option (some a) (some b) = a == b

unfoldable pub same_key : Key → Key → Bool
same_key a b =
    (a.builder_name == b.builder_name)
    && same_option a.config_name b.config_name
    && same_option a.split b.split
    && same_option a.cache_dir b.cache_dir

-- `_hf_dataset_key_registry`: an entry, or None where two loads share the key
abbrev pub Keys : Type 0
Keys = List (Key × Option ℕ)

unfoldable pub key_get : Key → Keys → Option (Option ℕ)
key_get k [] = none
key_get k ((j, v) ∷ keys) = let rest = key_get k keys in if same_key j k then some v else rest

unfoldable pub key_set : Key → Option ℕ → Keys → Keys
key_set k v [] = (k, v) ∷ []
key_set k v ((j, w) ∷ keys) =
    let rest = key_set k v keys in if same_key j k then (j, v) ∷ keys else (j, w) ∷ rest

-- `_dataset_registry`, by the identity of the dataset
abbrev pub Objects : Type 0
Objects = List (ℕ × ℕ)

unfoldable pub object_get : ℕ → Objects → Option ℕ
object_get id [] = none
object_get id ((i, entry) ∷ objects) =
    let rest = object_get id objects in if nat_eq i id then some entry else rest

pub record Detected : Type 0 where
  pub entries : List Entry
  pub objects : Objects
  pub keys : Keys

-- what the key is set to
abbrev pub claimed : Option (Option ℕ) → ℕ → Option ℕ
claimed none entry = some entry
claimed (some none) entry = none
claimed (some (some other)) entry = if nat_eq other entry then some entry else none

unfoldable pub register_key : Option Key → ℕ → Keys → Keys
unfolding key_get key_set
register_key none entry keys = keys
register_key (some k) entry keys = key_set k (claimed (key_get k keys) entry) keys

unfoldable pub register_hf_dataset : Dataset → ℕ → Detected → Detected
unfolding register_key hf_dataset_key
register_hf_dataset d entry s = record s {
  objects = if d.weak then (d.id, entry) ∷ s.objects else s.objects;
  keys = register_key (hf_dataset_key d) entry s.keys;
}

-- every split of a load
unfoldable pub register_all : List Dataset → ℕ → Detected → Detected
unfolding register_hf_dataset
register_all [] entry s = s
register_all (d ∷ parts) entry s = register_all parts entry (register_hf_dataset d entry s)

-- `_record`, and the place of the new entry
unfoldable pub record_entry : Entry → Detected → ℕ × Detected
record_entry entry s = (length s.entries, record s { entries = s.entries ++ entry ∷ [] })
