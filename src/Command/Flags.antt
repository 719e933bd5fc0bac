-- ===== src/Command/Flags.antt =====
-- `_split_flag` and `_parse_flags`.
pub mod Laws
pub mod Spelling
use Prim.Native.String.{◌++◌ as ◌<>◌}
use aibom_webhook_service.Base.{
  ℕ, Char, code, String, Bool, true, false, not, ◌&&◌, ◌||◌, Option, none, some, List, [], ◌∷◌,
  ◌==◌, if◌then◌else◌, is_some,
}
use aibom_webhook_service.Base.Dict
use aibom_webhook_service.Base.Dict.{Dict}
use aibom_webhook_service.Base.Text.{starts_with, drop_text, replace_char, partition, lower}
use aibom_webhook_service.Value.{Value, bool}
use aibom_webhook_service.Command.Segments.{one_of}
use aibom_webhook_service.Command.Convert.{is_flag_token, has_unexpanded_var, to_bool}

-- the internal dashes and underscores of a long key, written as `sep`
respell : Char → String → String
unfolding replace_char starts_with drop_text
respell sep key =
    if starts_with key "--"
    then "--" <> replace_char "_" sep (replace_char "-" "_" (drop_text 2 key))
    else key

-- `sep` is one character
unfoldable pub split_flag : String → Char → String × Option String
unfolding respell partition
split_flag tok sep = let (key, val) = partition "=" tok in (respell sep key, val)

-- an entry of an argument map: the type `bool`, or another conversion
pub data Conversion (R : Type 0) : Type 0 where
  flag : Conversion R
  conv : (String → Option (Value R)) → Conversion R

abbrev pub ArgMap : Type 0 → Type 0
ArgMap R = Dict (String × Conversion R)

abbrev bool_words : List String
bool_words = "true" ∷ "false" ∷ "1" ∷ "0" ∷ "yes" ∷ "no" ∷ []

-- the variables of the loop
pub record Parse (R : Type 0) : Type 0 where
  pub result : Dict (Value R)
  pub positional : Option String
  pub expect_positional : Bool

module _ {R : Type 0} (arg_map : ArgMap R) (sep : Char) (bool_values : Bool) where
  -- `key in bool_flags`
  pub is_bool_flag : String → Bool
  is_bool_flag key = elim (Dict.lookup key arg_map) [
    | none ↦ false
    | some (name, flag) ↦ true
    | some (name, conv c) ↦ false
  ]

  -- the key without its `no`, and whether it had one
  unfoldable pub negation : String → String × Bool
  unfolding is_bool_flag starts_with drop_text Dict.lookup
  negation key =
      let bare = "--" <> drop_text 5 key in
      if starts_with key ("--no" <> (String.◌∷◌ sep "")) && is_bool_flag bare
      then (bare, true)
      else (key, false)

  store : String → Option (Value R) → Parse R → Parse R
  store name none p = p
  store name (some v) p = record p { result = Dict.insert name v p.result }

  -- a bool flag; the Boolean of the result says whether the next token was taken
  take_bool : String → Bool → Option String → Option String → Parse R → Parse R × Bool
  take_bool name negated (some val) next p =
      (store name (some (bool (not negated && to_bool val))) p, false)
  take_bool name negated none none p = (store name (some (bool (not negated))) p, false)
  take_bool name negated none (some word) p =
      if bool_values && one_of bool_words (lower word)
      then (store name (some (bool (not negated && to_bool word))) p, true)
      else (store name (some (bool (not negated))) p, false)

  convert : String → (String → Option (Value R)) → String → Parse R → Parse R
  convert name c val p = if (val == "") || has_unexpanded_var val then p else store name (c val) p

  take_value :
      String
      → (String → Option (Value R))
      → Option String
      → Option String
      → Parse R
      → Parse R × Bool
  take_value name c (some val) next p = (convert name c val p, false)
  take_value name c none none p = (p, false)
  take_value name c none (some word) p =
      if is_flag_token word then (p, false) else (convert name c word p, true)

  -- one flag token, given as its key and value, with the token behind it
  take_flag : String × Bool → Option String → Option String → Parse R → Parse R × Bool
  take_flag (key, negated) val next p = elim (Dict.lookup key arg_map) [
    | none ↦ (record p { expect_positional = false }, false)
    | some (name, flag) ↦ take_bool name negated val next p
    | some (name, conv c) ↦ take_value name c val next p
  ]

  -- one round of the loop
  step : String → Option String → Parse R → Parse R × Bool
  step tok next p =
      if is_flag_token tok
      then (let (key, val) = split_flag tok sep in take_flag (negation key) val next p)
      else (
        record p {
          positional = if p.expect_positional then some tok else p.positional;
          expect_positional = false;
        },
        false,
      )

  pub parse_from : List String → Parse R → Parse R
  parse_from [] p = p
  parse_from (tok ∷ []) p = (step tok none p).0
  parse_from (tok ∷ next ∷ rest) p =
      let (p', taken) = step tok (some next) p in
      let skip = parse_from rest p' in
      let go_on = parse_from (next ∷ rest) p' in if taken then skip else go_on

  unfoldable pub parse_flags : List String → Dict (Value R) × Option String
  unfolding parse_from step take_flag take_value take_bool convert store negation is_bool_flag
      split_flag is_flag_token has_unexpanded_var to_bool one_of lower starts_with drop_text
      Dict.lookup Dict.insert
  parse_flags args =
      let p =
        parse_from args (record { result = []; positional = none; expect_positional = true }) in
      (p.result, p.positional)
