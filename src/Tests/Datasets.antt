-- ===== src/Tests/Datasets.antt =====
-- A load of two splits, and DataLoaders over them.
use aibom_webhook_service.Base.{
  ℕ, String, true, false, ◌≡◌, refl, Option, none, some, List, [], ◌∷◌, ◌++◌, if◌then◌else◌, nat_eq,
  ◌==◌, get_elem?, length,
}
use aibom_webhook_service.Base.Dict
use aibom_webhook_service.Runtime.Datasets.Entry.{Entry, Field, text, texts}
use aibom_webhook_service.Runtime.Datasets.Registry.{
  object_get, Dataset, Key, Detected, key_get, same_key, register_key,
}
use aibom_webhook_service.Runtime.Datasets.Registry.Laws.{
  owners, only_one, register_keys, register_key_lem,
}
use aibom_webhook_service.Runtime.Datasets.Loader.{
  loader_source, existing_entry, inspect_torch_dataset, is_train, patched_init,
}
use aibom_webhook_service.Runtime.Datasets.Loader.Laws.{size_after, patched_init_merges}
use aibom_webhook_service.Runtime.Datasets.Vision.{
  Constructed, Call, first_patched, vision_entry, construct,
}
use aibom_webhook_service.Runtime.Datasets.Vision.Laws.{construct-once}
use aibom_webhook_service.Runtime.Datasets.Load.{
  Arguments, Result, arguments_entry, result_entry, patched_load, sequence,
}
use aibom_webhook_service.Runtime.Datasets.Load.Laws.{patched_load-existing_entry}

abbrev part : ℕ → String → Dataset
part id split = record {
  id = id;
  weak = true;
  builder_name = some "json";
  config_name = some "default";
  split = some split;
  cache_file = some "/cache/json/1/data.arrow";
  train = false;
}

abbrev arguments : Arguments
arguments = record {
  path = "json";
  name = none;
  split = none;
  revision = none;
  data_dir = none;
  data_files = some (sequence ("/data/a/1.json" ∷ "/data/a/2.json" ∷ []));
}

abbrev result : Result
result = record {
  fingerprint = some "f00d";
  checksum = none;
  version = none;
  license = none;
  description = none;
}

abbrev nothing_detected : Detected
nothing_detected = record { entries = []; objects = []; keys = [] }

abbrev splits : List String
splits = "train" ∷ "test" ∷ []

abbrev loaded : Detected
loaded = patched_load arguments splits result (part 7 "train" ∷ part 8 "test" ∷ []) nothing_detected

recorded :
    loaded.entries
    ≡ (("source", text "datasets.load_dataset")
        ∷ ("dataset_name", text "/data/a")
        ∷ ("data_files", texts ("/data/a/1.json" ∷ "/data/a/2.json" ∷ []))
        ∷ ("builder", text "json")
        ∷ ("splits", texts splits)
        ∷ ("fingerprint", text "f00d")
        ∷ [])
      ∷ []
unfolding patched_load
recorded = refl

patched_load-existing_entry_example :
    (loaded.entries ≡ [] ++ result_entry splits result (arguments_entry arguments) ∷ [])
    × (existing_entry (part 8 "test") loaded ≡ some 0)
patched_load-existing_entry_example =
    patched_load-existing_entry arguments splits result (part 7 "train" ∷ []) [] (part 8 "test")
      nothing_detected refl

-- a copy of the training split, found by its key
abbrev copied : Dataset
copied = part 9 "train"

copied-known : existing_entry copied loaded ≡ some 0
unfolding patched_load existing_entry same_key
copied-known = refl

abbrev entry_of_copy : Entry
entry_of_copy = ("source", text loader_source) ∷ []

patched_init_merges_example :
    let s = patched_init copied entry_of_copy (some 32) loaded in
    (length s.entries ≡ length loaded.entries)
    × ((j : ℕ) (old : Entry)
        → get_elem? loaded.entries j ≡ some old
        → nat_eq 0 j ≡ false
        → get_elem? s.entries j ≡ some old)
    × ((old : Entry)
        → get_elem? loaded.entries 0 ≡ some old
        → (new : Entry) × (get_elem? s.entries 0 ≡ some new)
          × ((k : String)
              → ("seen_via" == k) ≡ false
              → Dict.lookup k new ≡ (
                  if "batch_size" == k
                  then size_after (is_train copied) (some 32) (Dict.lookup "batch_size" old)
                  else Dict.lookup k old)))
patched_init_merges_example =
    patched_init_merges copied entry_of_copy (some 32) loaded 0 refl copied-known

abbrev key : String → Key
key split = record {
  builder_name = "json";
  config_name = none;
  split = some split;
  cache_dir = none;
}

-- two loads share the key of the training split
abbrev registrations : List (Option Key × ℕ)
registrations =
    (some (key "train"), 0) ∷ (none, 1) ∷ (some (key "test"), 1) ∷ (some (key "train"), 2) ∷ []

register_key_lem_example :
    key_get (key "train") (register_keys registrations [])
    ≡ only_one (owners (key "train") registrations)
register_key_lem_example = register_key_lem (key "train") registrations

shared_key : key_get (key "train") (register_keys registrations []) ≡ some none
unfolding key_get register_key same_key
shared_key = refl

inspected :
    inspect_torch_dataset
      (λ path. some "ab12")
      (record {
        class_path = "torchvision.datasets.mnist.MNIST";
        class_name = "MNIST";
        path_attributes = some "/data" ∷ none ∷ none ∷ none ∷ none ∷ [];
        train = some false;
        transform = some none;
        name = none;
        url = none;
        urls = none;
      })
    ≡ ("source", text loader_source)
      ∷ ("dataset_class", text "torchvision.datasets.mnist.MNIST")
      ∷ ("path", text "/data")
      ∷ ("split", text "test")
      ∷ ("transform", Field.null)
      ∷ ("dataset_name", text "MNIST")
      ∷ ("fingerprint", text "ab12")
      ∷ []
unfolding inspect_torch_dataset
inspected = refl

-- EMNIST, class 2, calls the constructor of MNIST, class 1
abbrev made : Constructed
made = record { id = 5; weak = true; mro = 2 ∷ 1 ∷ 0 ∷ [] }

abbrev called : ℕ → String → Call
called owner name = record {
  owner = owner;
  dataset_name = name;
  first_arg = some "/data";
  second_flag = none;
  root = none;
  train = some true;
  split = none;
  download = none;
}

construct-once_example :
    let s =
      construct
        (λ p. none)
        (1 ∷ 2 ∷ [])
        made
        (called 1 "MNIST" ∷ called 2 "EMNIST" ∷ [])
        nothing_detected in
    (s.entries ≡ [] ++ vision_entry (λ p. none) (called 2 "EMNIST") ∷ [])
    × (true ≡ true → object_get 5 s.objects ≡ some 0)
unfolding first_patched
construct-once_example =
    construct-once (λ p. none) (1 ∷ 2 ∷ []) made (called 1 "MNIST" ∷ []) [] (called 2 "EMNIST")
      nothing_detected refl (refl, tt) tt
