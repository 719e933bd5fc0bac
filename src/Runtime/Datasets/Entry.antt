-- ===== src/Runtime/Datasets/Entry.antt =====
-- The entries of `_detected_datasets`: dicts with values of these kinds.
use aibom_webhook_service.Base.{
  ℕ, String, Bool, Option, none, some, List, [], ◌∷◌, ◌++◌, if◌then◌else◌,
}
use aibom_webhook_service.Base.Dict
use aibom_webhook_service.Base.Dict.{Dict}
use aibom_webhook_service.Command.Segments.{one_of}

-- a value of a dict of data files
pub data FileGroup : Type 0 where
  one : String → FileGroup
  many : List String → FileGroup

pub data Field : Type 0 where
  null : Field
  flag : Bool → Field
  number : ℕ → Field
  text : String → Field
  texts : List String → Field
  groups : Dict FileGroup → Field

abbrev pub Entry : Type 0
Entry = Dict Field

-- `entry[key] = value` where there is a value
unfoldable pub put_text : String → Option String → Entry → Entry
unfolding Dict.insert
put_text key none entry = entry
put_text key (some s) entry = Dict.insert key (text s) entry

-- a name that `seen_via` does not have is added
unfoldable pub add_seen : String → Option Field → Entry → Entry
unfolding Dict.insert one_of
add_seen name (some (texts names)) entry =
    if one_of names name then entry else Dict.insert "seen_via" (texts (names ++ name ∷ [])) entry
add_seen name (some other) entry = entry
add_seen name none entry = Dict.insert "seen_via" (texts (name ∷ [])) entry
