-- ===== src/Runtime/Datasets/Load.antt =====
-- The hooks that record a dataset as it is loaded: `_patched_load` of `_install_hf_datasets_hook`
-- with `_data_files_name`, and those of torchvision and webdataset. The arguments are texts.
pub mod Laws
use Prim.Native.String.{◌++◌ as ◌<>◌}
use Prim.Native.String
use aibom_webhook_service.Base.{
  ℕ, zero, suc, String, Bool, true, false, not, ◌&&◌, ◌||◌, Option, none, some, List, [], ◌∷◌, ◌++◌,
  ◌==◌, if◌then◌else◌, is_some, take, or_else, map, nat_eq, first,
}
use aibom_webhook_service.Base.Dict
use aibom_webhook_service.Base.Dict.{Dict}
use aibom_webhook_service.Base.Text.{same_char, rpartition, take_text}
use aibom_webhook_service.Command.Segments.{one_of}
use aibom_webhook_service.Source.Container.{given}
use aibom_webhook_service.Runtime.Datasets.Entry.{
  Entry, Field, null, flag, text, texts, groups, FileGroup, one, many, put_text,
}
use aibom_webhook_service.Runtime.Datasets.Registry.{Dataset, Detected, record_entry, register_all}

-- `_FILE_BUILDERS`
abbrev pub file_builders : List String
file_builders =
    "json" ∷ "csv" ∷ "parquet" ∷ "text" ∷ "arrow" ∷ "pandas" ∷ "xml" ∷ "imagefolder" ∷ "audiofolder"
    ∷ "videofolder" ∷ "webdataset" ∷ []

unfoldable pub common_prefix : String → String → String
common_prefix String.[] t = String.[]
common_prefix (String.◌∷◌ c s) String.[] = String.[]
common_prefix (String.◌∷◌ c s) (String.◌∷◌ d t) =
    let rest = common_prefix s t in if same_char c d then String.◌∷◌ c rest else String.[]

-- `os.path.commonprefix` of one text and more
unfoldable pub common_prefix_all : String → List String → String
unfolding common_prefix
common_prefix_all s [] = s
common_prefix_all s (t ∷ files) = common_prefix_all (common_prefix s t) files

-- `", ".join(files)`
unfoldable pub join_comma : String → List String → String
join_comma s [] = s
join_comma s (t ∷ files) = s <> (", " <> join_comma t files)

-- `s.rpartition("/")[0]`
unfoldable pub before_last_slash : String → String
unfolding rpartition
before_last_slash s = elim (rpartition "/" s) [ none ↦ "" | some (head, tail) ↦ head ]

unfoldable pub files_of_groups : Dict FileGroup → List String
files_of_groups [] = []
files_of_groups ((k, one f) ∷ d) = f ∷ files_of_groups d
files_of_groups ((k, many fs) ∷ d) = fs ++ files_of_groups d

unfoldable pub files_of : Option Field → List String
unfolding files_of_groups
files_of (some (texts fs)) = fs
files_of (some (groups d)) = files_of_groups d
files_of other = []

abbrev pub text_in : Option Field → Option String
text_in (some (text s)) = some s
text_in other = none

-- the name of two files or more: their directory, or all of them
unfoldable pub common_name : String → List String → String
unfolding before_last_slash common_prefix_all join_comma
common_name f files =
    let directory = before_last_slash (common_prefix_all f files) in
    if directory == "" then join_comma f files else directory

unfoldable pub name_of_files : Option String → List String → Option String
unfolding common_name
name_of_files data_dir [] = data_dir
name_of_files data_dir (f ∷ []) = some f
name_of_files data_dir (f ∷ g ∷ files) = some (common_name f (g ∷ files))

unfoldable pub data_files_name : Entry → Option String
unfolding files_of name_of_files Dict.lookup
data_files_name entry =
    name_of_files (text_in (Dict.lookup "data_dir" entry))
      (files_of (Dict.lookup "data_files" entry))

-- what the hook looks at of the first part of the result
pub record Result : Type 0 where
  pub fingerprint : Option String
  -- of the first of `info.download_checksums`, if it is a dict, its `checksum`
  pub checksum : Option (Option String)
  pub version : Option String
  pub license : Option String
  pub description : Option String

-- `data_files` as it is given: a text, a sequence or a dict
pub data DataFiles : Type 0 where
  file : String → DataFiles
  sequence : List String → DataFiles
  by_split : Dict FileGroup → DataFiles

pub record Arguments : Type 0 where
  pub path : String
  pub name : Option String
  pub split : Option String
  pub revision : Option String
  pub data_dir : Option String
  pub data_files : Option DataFiles

unfoldable pub put_files : Option DataFiles → Entry → Entry
unfolding Dict.insert
put_files none entry = entry
put_files (some (file f)) entry =
    if f == "" then entry else Dict.insert "data_files" (texts (f ∷ [])) entry
put_files (some (sequence [])) entry = entry
put_files (some (sequence (f ∷ fs))) entry =
    Dict.insert "data_files" (texts (take 10 (f ∷ fs))) entry
put_files (some (by_split [])) entry = entry
put_files (some (by_split (g ∷ d))) entry = Dict.insert "data_files" (groups (g ∷ d)) entry

-- local files give the name, and the builder is kept beside it
unfoldable pub name_files : String → Entry → Entry
unfolding data_files_name Dict.insert one_of
name_files path entry =
    let renamed = λ (name : String).
      Dict.insert "dataset_name" (text name) (Dict.insert "builder" (text path) entry) in
    if one_of file_builders path
    then (elim (given (data_files_name entry)) [ none ↦ entry | some name ↦ renamed name ])
    else entry

unfoldable pub arguments_entry : Arguments → Entry
unfolding put_text put_files name_files
arguments_entry a =
    let entry = ("source", text "datasets.load_dataset") ∷ ("dataset_name", text a.path) ∷ [] in
    let entry = put_text "split" (given a.split) (put_text "config_name" (given a.name) entry) in
    let entry =
      put_text "data_dir" (given a.data_dir) (put_text "revision" (given a.revision) entry) in
    name_files a.path (put_files a.data_files entry)

abbrev pub put_splits : List String → Entry → Entry
put_splits [] entry = entry
put_splits (s ∷ splits) entry = Dict.insert "splits" (texts (s ∷ splits)) entry

-- 200 characters of a description
abbrev pub shortened : Option String → Option String
shortened none = none
shortened (some s) = some (take_text 200 s)

abbrev put_checksum : Option (Option String) → Entry → Entry
put_checksum none entry = entry
put_checksum (some none) entry = Dict.insert "fingerprint" null entry
put_checksum (some (some sum)) entry = Dict.insert "fingerprint" (text sum) entry

unfoldable pub put_fingerprint : Result → Entry → Entry
unfolding put_text Dict.insert
put_fingerprint r entry = elim r.fingerprint [
  | none ↦ put_checksum r.checksum entry
  | some f ↦ put_text "fingerprint" (some f) entry
]

unfoldable pub result_entry : List String → Result → Entry → Entry
unfolding put_text put_fingerprint Dict.insert take_text
result_entry splits r entry =
    let entry = put_splits splits entry in
    let entry = put_fingerprint r entry in
    let entry = put_text "license" (given r.license) (put_text "version" (given r.version) entry) in
    put_text "description" (shortened (given r.description)) entry

-- the entry is recorded, and each part of the result registered with it
unfoldable pub patched_load : Arguments → List String → Result → List Dataset → Detected → Detected
unfolding arguments_entry result_entry record_entry register_all
patched_load a splits r parts s =
    let (place, recorded) = record_entry (result_entry splits r (arguments_entry a)) s in
    register_all parts place recorded
