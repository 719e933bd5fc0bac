-- ===== src/Command/Flags/Spelling.antt =====
-- A flag whose value stands behind `=`, and one whose value is the next token.
use Prim.Native.String.append
use aibom_webhook_service.Base.{
  Char, String, ◌≡◌, refl, ap, Bool, true, false, Option, none, some, List, ◌∷◌, ◌<>◌, arith,
}
use aibom_webhook_service.Base.Dict
use aibom_webhook_service.Base.Dict.{Dict}
use aibom_webhook_service.Base.Text.{contains_char, eq-false_of_ne, ne_of_text_length, partition}
use aibom_webhook_service.Value.{Value}
use aibom_webhook_service.Command.Convert.{is_flag_token}
use aibom_webhook_service.Command.Flags.{
  conv, ArgMap, Parse, split_flag, negation, respell, parse_from,
}
use aibom_webhook_service.Command.Flags.Laws.{parse_from_joined}

-- the text up to the first `=`, and what is behind it
partition-append :
    (k w : String)
    → contains_char "=" k ≡ false
    → partition "=" (k <> String.◌∷◌ "=" w) ≡ (k, some w)
unfolding partition contains_char
partition-append String.[] w h = rw append.nil refl
partition-append (String.◌∷◌ c k) w h = rw append.cons (ground (arith, partition-append k w))

partition_absent : (k : String) → contains_char "=" k ≡ false → partition "=" k ≡ (k, none)
unfolding partition contains_char
partition_absent String.[] h = refl
partition_absent (String.◌∷◌ c k) h = ground (arith, partition_absent k)

split_flag-eq :
    (tok key : String) (val : Option String) (sep : Char)
    → partition "=" tok ≡ (key, val)
    → split_flag tok sep ≡ (respell sep key, val)
unfolding split_flag
split_flag-eq tok key val sep e = ap (λ (q : String × Option String). (respell sep q.0, q.1)) e

-- what begins with two dashes is a flag token, and stays one when something follows
is_flag_token-dashes : (s : String) → is_flag_token (String.◌∷◌ "-" (String.◌∷◌ "-" s)) ≡ true
unfolding is_flag_token
is_flag_token-dashes s =
    rw
      (eq-false_of_ne (String.◌∷◌ "-" (String.◌∷◌ "-" s)) "-" (ne_of_text_length _ _ (omega arith)))
      refl

abbrev pub long_flag : String → String
long_flag key = String.◌∷◌ "-" (String.◌∷◌ "-" key)

module _ {R : Type 0} (arg_map : ArgMap R) (sep : Char) (bool_values : Bool) where
  -- the key under which a flag is looked up
  abbrev pub looked_up : String → String
  looked_up tok = (negation arg_map sep bool_values (split_flag tok sep).0).0

  -- `--key=value` and `--key value` are read alike, wherever they stand: for a key that the map
  -- gives a conversion, and a value that is no flag token itself.
  pub parse_from-long_flag :
      (key word name : String) (c : String → Option (Value R)) (rest : List String) (p : Parse R)
      → contains_char "=" key ≡ false
      → is_flag_token word ≡ false
      → Dict.lookup (looked_up (long_flag key)) arg_map ≡ some (name, conv c)
      → parse_from arg_map sep bool_values ((long_flag key <> String.◌∷◌ "=" word) ∷ rest) p
        ≡ parse_from arg_map sep bool_values (long_flag key ∷ word ∷ rest) p
  parse_from-long_flag key word name c rest p free fw known =
      let split = (split_flag (long_flag key) sep).0 in
      let n = negation arg_map sep bool_values split in
      let bare =
        split_flag-eq (long_flag key) (long_flag key) none sep
          (partition_absent (long_flag key) (unfold contains_char in free)) in
      let joined =
        split_flag-eq (long_flag key <> String.◌∷◌ "=" word) (long_flag key) (some word) sep
          (partition-append (long_flag key) word (unfold contains_char in free)) in
      parse_from_joined arg_map sep bool_values _ (long_flag key) word split n.0 name n.1 c rest p
        (rw append.cons (rw append.cons (is_flag_token-dashes (key <> String.◌∷◌ "=" word))))
        (is_flag_token-dashes key) fw (cc (joined, bare)) (cc bare) refl known
