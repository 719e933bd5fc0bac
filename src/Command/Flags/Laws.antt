-- ===== src/Command/Flags/Laws.antt =====
-- What `_parse_flags` records, and how flags may be spelled.
use aibom_webhook_service.Base.{
  Char, String, ◌≡◌, refl, ◌≢◌, Bool, true, false, not, ◌&&◌, ◌||◌, Option, none, some, List, [],
  ◌∷◌, ◌==◌, arith, Bool-cases, inl, inr,
}
use aibom_webhook_service.Base.Dict
use aibom_webhook_service.Base.Dict.{Dict}
use aibom_webhook_service.Base.Dict.Laws.{Entries, insert-Entries}
use aibom_webhook_service.Base.Text.{ne_of_eq-false, lower}
use aibom_webhook_service.Command.Segments.{one_of}
use aibom_webhook_service.Value.{Value, bool}
use aibom_webhook_service.Command.Convert.{is_flag_token, to_bool, has_unexpanded_var}
use aibom_webhook_service.Command.Flags.{
  Conversion, flag, conv, ArgMap, Parse, split_flag, store, convert, take_bool, take_value,
  take_flag, negation, bool_words, step, parse_from, parse_flags,
}

-- Why a value may stand in the result: a bool flag of the map, or a conversion of the map applied
-- to a non-empty text with no unexpanded variable.
pub data Recorded {R : Type 0} (arg_map : ArgMap R) (name : String) : Value R → Type 0 where
  from_flag :
      (key : String) (b : Bool)
      → Dict.lookup key arg_map ≡ some (name, flag)
      → Recorded arg_map name (bool b)
  from_value :
      (key val : String) (c : String → Option (Value R)) {v : Value R}
      → Dict.lookup key arg_map ≡ some (name, conv c)
      → c val ≡ some v
      → val ≢ ""
      → has_unexpanded_var val ≡ false
      → Recorded arg_map name v

abbrev pub AllRecorded : {R : Type 0} → ArgMap R → Dict (Value R) → Type 0
AllRecorded arg_map = Entries (Recorded arg_map)

or-eq-false : (a b : Bool) → (a || b) ≡ false → (a ≡ false) × (b ≡ false)
or-eq-false a b h = ground arith

module _ {R : Type 0} (arg_map : ArgMap R) (sep : Char) (bool_values : Bool) where
  -- a property of the loop's variables that each round keeps
  parse_from_induction :
      (P : Parse R → Type 0)
      → ((tok : String) (next : Option String) (p : Parse R)
          → P p
          → P (step arg_map sep bool_values tok next p).0)
      → (args : List String) (p : Parse R) → P p
      → P (parse_from arg_map sep bool_values args p)
  unfolding parse_from
  parse_from_induction P keep [] p h = h
  parse_from_induction P keep (tok ∷ []) p h = keep tok none p h
  parse_from_induction P keep (tok ∷ next ∷ rest) p h =
      let round = step arg_map sep bool_values tok (some next) p in
      elim (Bool-cases round.1) [
        | inl e ↦ rw e (parse_from_induction P keep rest round.0 (keep tok (some next) p h))
        | inr e ↦
            rw e (parse_from_induction P keep (next ∷ rest) round.0 (keep tok (some next) p h))
      ]

  store-AllRecorded :
      (name : String) (o : Option (Value R)) (p : Parse R)
      → ((v : Value R) → o ≡ some v → Recorded arg_map name v)
      → AllRecorded arg_map p.result
      → AllRecorded arg_map (store arg_map sep bool_values name o p).result
  unfolding store
  store-AllRecorded name none p r h = h
  store-AllRecorded name (some v) p r h =
      insert-Entries (Recorded arg_map) name v p.result (r v refl) h

  module _ (name key : String) (p : Parse R) (h : AllRecorded arg_map p.result) where
    take_bool-AllRecorded :
        (negated : Bool) (val next : Option String)
        → Dict.lookup key arg_map ≡ some (name, flag)
        → AllRecorded arg_map (take_bool arg_map sep bool_values name negated val next p).0.result
    unfolding take_bool store
    take_bool-AllRecorded negated (some val) next e = stored (not negated && to_bool val)
      where
        stored : (b : Bool) → AllRecorded arg_map (Dict.insert name (bool b) p.result)
        stored b = insert-Entries (Recorded arg_map) name (bool b) p.result (from_flag key b e) h
    take_bool-AllRecorded negated none none e =
        insert-Entries (Recorded arg_map) name (bool (not negated)) p.result
          (from_flag key (not negated) e) h
    take_bool-AllRecorded negated none (some word) e =
        elim (Bool-cases (bool_values && one_of bool_words (lower word))) [
          | inl f ↦ rw f (stored (not negated && to_bool word))
          | inr f ↦ rw f (stored (not negated))
        ]
      where
        stored : (b : Bool) → AllRecorded arg_map (Dict.insert name (bool b) p.result)
        stored b = insert-Entries (Recorded arg_map) name (bool b) p.result (from_flag key b e) h

    convert-AllRecorded :
        (c : String → Option (Value R)) (val : String)
        → Dict.lookup key arg_map ≡ some (name, conv c)
        → AllRecorded arg_map (convert arg_map sep bool_values name c val p).result
    unfolding convert
    convert-AllRecorded c val e = elim (Bool-cases ((val == "") || has_unexpanded_var val)) [
      | inl skip ↦ rw skip h
      | inr use_it ↦ rw use_it (
          store-AllRecorded name (c val) p
            (λ v q.
              from_value key val c e q (ne_of_eq-false val "" (or-eq-false _ _ use_it).0)
                (or-eq-false _ _ use_it).1)
            h)
    ]

    take_value-AllRecorded :
        (c : String → Option (Value R)) (val next : Option String)
        → Dict.lookup key arg_map ≡ some (name, conv c)
        → AllRecorded arg_map (take_value arg_map sep bool_values name c val next p).0.result
    unfolding take_value
    take_value-AllRecorded c (some val) next e = convert-AllRecorded c val e
    take_value-AllRecorded c none none e = h
    take_value-AllRecorded c none (some word) e = elim (Bool-cases (is_flag_token word)) [
      | inl f ↦ rw f h
      | inr f ↦ rw f (convert-AllRecorded c word e)
    ]

  take_flag-AllRecorded :
      (key : String) (negated : Bool) (val next : Option String) (p : Parse R)
      → AllRecorded arg_map p.result
      → AllRecorded arg_map (take_flag arg_map sep bool_values (key, negated) val next p).0.result
  unfolding take_flag
  take_flag-AllRecorded key negated val next p h = go (Dict.lookup key arg_map) refl
    where
      go :
          (o : Option (String × Conversion R))
          → Dict.lookup key arg_map ≡ o
          → AllRecorded arg_map
              (take_flag arg_map sep bool_values (key, negated) val next p).0.result
      go none e = rw (e, take_flag) h
      go (some (name, flag)) e =
          rw (e, take_flag) (take_bool-AllRecorded name key p h negated val next e)
      go (some (name, conv c)) e =
          rw (e, take_flag) (take_value-AllRecorded name key p h c val next e)

  step-AllRecorded :
      (tok : String) (next : Option String) (p : Parse R)
      → AllRecorded arg_map p.result
      → AllRecorded arg_map (step arg_map sep bool_values tok next p).0.result
  unfolding step
  step-AllRecorded tok next p h = elim (Bool-cases (is_flag_token tok)) [
    | inl f ↦ rw f (
        let (key, val) = split_flag tok sep in
        let (bare, negated) = negation arg_map sep bool_values key in
        take_flag-AllRecorded bare negated val next p h)
    | inr f ↦ rw f h
  ]

  -- Every entry of the result is a bool flag of the map, or what a conversion of the map makes of a
  -- non-empty text in which no `$VAR` was left unexpanded.
  pub parse_flags-AllRecorded :
      (args : List String) → AllRecorded arg_map (parse_flags arg_map sep bool_values args).0
  unfolding parse_flags
  parse_flags-AllRecorded args =
      parse_from_induction (λ p. AllRecorded arg_map p.result) step-AllRecorded args _ tt

  step_keeps_unexpecting :
      (t : Option String) (tok : String) (next : Option String) (p : Parse R)
      → (p.expect_positional ≡ false) × (p.positional ≡ t)
      → let q = (step arg_map sep bool_values tok next p).0 in
        (q.expect_positional ≡ false) × (q.positional ≡ t)
  unfolding step take_flag take_bool take_value convert store
  step_keeps_unexpecting t tok next p h = ground arith

  -- Once a positional has been seen, or a flag that the map does not know, no later token is taken
  -- for the positional.
  pub parse_from_unexpecting :
      (args : List String) (p : Parse R)
      → p.expect_positional ≡ false
      → (parse_from arg_map sep bool_values args p).positional ≡ p.positional
  parse_from_unexpecting args p h =
      (parse_from_induction (λ q. (q.expect_positional ≡ false) × (q.positional ≡ p.positional))
        (step_keeps_unexpecting p.positional) args p (h, refl)).1

  -- A flag with its value behind `=` is read as the flag with its value in the next token.
  pub parse_from_joined :
      (joined bare word key key' name : String) (negated : Bool) (c : String → Option (Value R))
      (rest : List String) (p : Parse R)
      → is_flag_token joined ≡ true
      → is_flag_token bare ≡ true
      → is_flag_token word ≡ false
      → split_flag joined sep ≡ (key, some word)
      → split_flag bare sep ≡ (key, none)
      → negation arg_map sep bool_values key ≡ (key', negated)
      → Dict.lookup key' arg_map ≡ some (name, conv c)
      → parse_from arg_map sep bool_values (joined ∷ rest) p
        ≡ parse_from arg_map sep bool_values (bare ∷ word ∷ rest) p
  unfolding parse_from step take_flag take_value
  parse_from_joined joined bare word key key' name negated c [] p fj fb fw sj sb n l = ground arith
  parse_from_joined joined bare word key key' name negated c (next ∷ rest) p fj fb fw sj sb n l =
      ground arith
