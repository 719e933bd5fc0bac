-- ===== src/Command/Convert.antt =====
-- The conversions of flag values. `none` stands for an exception, or for the `None` that
-- `_parse_flags` treats alike. Digits and white space are the ASCII ones.
use Prim.Native.String.{[], ◌∷◌}
use aibom_webhook_service.Base.{
  ℕ, ◌+◌, ◌-◌, ◌*◌, ◌^◌, code, String, Bool, true, false, not, ◌&&◌, ◌||◌, Option, none, some, List,
  ◌==◌, if◌then◌else◌, nat_eq,
}
use aibom_webhook_service.Base.Dict
use aibom_webhook_service.Base.Dict.{Dict}
use aibom_webhook_service.Base.Int.{ℤ, pos, negate}
use aibom_webhook_service.Base.Text.{
  starts_with, is_digit, is_upper, is_alpha, strip, lower, partition, split_on, span, at_end,
}
use aibom_webhook_service.Value.{Value, PyFloat, bool, int, float, text, obj, to_fields}

-- `$` and one of `{`, `(`, `_` and the letters, anywhere
unfoldable pub has_unexpanded_var : String → Bool
has_unexpanded_var [] = false
has_unexpanded_var (c ∷ []) = false
has_unexpanded_var (c ∷ d ∷ s) =
    (nat_eq (code c) b'$'
      && (nat_eq (code d) b'{'
          || nat_eq (code d) b'('
          || nat_eq (code d) b'_'
          || is_alpha (code d)))
    || has_unexpanded_var (d ∷ s)

-- `^-\d+(\.\d+)?$`
number_tail : String → Bool
unfolding at_end span
number_tail s =
    let (digits, rest) = span is_digit s in
    not (digits == "") && (at_end rest || (starts_with_dot rest))
  where
    starts_with_dot : String → Bool
    starts_with_dot [] = false
    starts_with_dot (c ∷ s) =
        let (digits, rest) = span is_digit s in
        nat_eq (code c) b'.' && not (digits == "") && at_end rest

unfoldable pub is_number_token : String → Bool
unfolding number_tail
is_number_token [] = false
is_number_token (c ∷ s) = nat_eq (code c) b'-' && number_tail s

unfoldable pub is_flag_token : String → Bool
unfolding is_number_token starts_with
is_flag_token tok = starts_with tok "-" && not (tok == "-") && not (is_number_token tok)

-- digits of `int(s)`: underscores stand singly between digits
unfoldable pub digits_value : ℕ → Bool → String → Option ℕ
digits_value n after_digit [] = if after_digit then some n else none
digits_value n after_digit (c ∷ s) =
    let digit = digits_value (n * 10 + (code c - 48)) true s in
    let under = digits_value n false s in
    if is_digit (code c) then digit else if nat_eq (code c) b'_' && after_digit then under else none

-- `int(s)` behind its white space
signed_value : String → Option ℤ
signed_value [] = none
signed_value (c ∷ s) = elim (nat_eq (code c) b'-') [
  | true ↦ elim (digits_value 0 false s) [ none ↦ none | some n ↦ some (negate n) ]
  | false ↦ elim (digits_value 0 false (if nat_eq (code c) b'+' then s else c ∷ s)) [
    | none ↦ none
    | some n ↦ some (pos n)
  ]
]

unfoldable pub parse_int : String → Option ℤ
unfolding signed_value digits_value strip
parse_int s = signed_value (strip s)

-- the exponent of `k`, `m`, `g` and `t`
suffix_power : ℕ → Option ℕ
suffix_power c =
    if nat_eq c b'k'
    then some 1
    else if nat_eq c b'm'
    then some 2
    else if nat_eq c b'g'
    then some 3
    else if nat_eq c b't'
    then some 4
    else none

-- `\d+(?:\.\d+)?` at the start: its text, whether it has a fraction, and what follows
unfoldable pub decimal_prefix : String → Option (String × Bool × String)
unfolding span
decimal_prefix s =
    let (whole, rest) = span is_digit s in if whole == "" then none else some (fraction whole rest)
  where
    fraction : String → String → String × Bool × String
    fraction whole [] = (whole, false, [])
    fraction whole (c ∷ rest) =
        let (part, behind) = span is_digit rest in
        if nat_eq (code c) b'.' && not (part == "")
        then (Prim.Native.String.◌++◌ whole (c ∷ part), true, behind)
        else (whole, false, c ∷ rest)

module _ {R : Type 0} (F : PyFloat R) where
  unfoldable pub finite_float : String → Option R
  finite_float val = elim (F.parse val) [
    | none ↦ none
    | some f ↦ if F.is_finite f then some f else none
  ]

  unfoldable pub int_or_float : String → Option (Value R)
  unfolding finite_float
  int_or_float val = elim (finite_float val) [
    | none ↦ none
    | some f ↦ if F.is_integer f then whole (F.trunc f) else some (float f)
  ]
    where
      whole : Option ℤ → Option (Value R)
      whole none = none
      whole (some n) = some (int n)

  -- a suffix of one letter, upper case for powers of 1024 and lower case for powers of 1000
  scaled : String → Bool → ℕ → Option ℤ
  unfolding suffix_power digits_value
  scaled num fraction c =
      if is_upper c
      then (elim (suffix_power (c + 32)) [
        | none ↦ none
        | some k ↦ elim (if fraction then none else digits_value 0 false num) [
          | none ↦ none
          | some n ↦ some (pos (n * 1024 ^ k))
        ]
      ])
      else elim (suffix_power c) [
        | none ↦ none
        | some k ↦ elim (F.parse num) [ none ↦ none | some f ↦ F.trunc (F.scale f (1000 ^ k)) ]
      ]

  sized : String × Bool × String → Option ℤ
  unfolding scaled
  sized (num, fraction, []) = if fraction then none else plain (digits_value 0 false num)
    where
      plain : Option ℕ → Option ℤ
      plain none = none
      plain (some n) = some (pos n)
  sized (num, fraction, c ∷ []) = scaled num fraction (code c)
  sized (num, fraction, c ∷ d ∷ s) = none

  unfoldable pub human_readable_int : String → Option ℤ
  unfolding decimal_prefix sized strip
  human_readable_int val = elim (decimal_prefix (strip val)) [
    | none ↦ none
    | some parts ↦ sized parts
  ]

  -- `true`/`false`, then `int`, then `float`, else the text itself
  unfoldable pub coerce_scalar : String → Value R
  unfolding lower parse_int
  coerce_scalar s =
      if lower s == "true"
      then bool true
      else if lower s == "false"
      then bool false
      else number (parse_int s)
    where
      real : Option R → Value R
      real none = text s
      real (some f) = float f

      number : Option ℤ → Value R
      number none = real (F.parse s)
      number (some n) = int n

  -- the loop over the `key=value` pairs
  pairs_from : List String → Dict (Value R) → Dict (Value R)
  unfolding coerce_scalar partition Dict.insert
  pairs_from List.[] result = result
  pairs_from (List.◌∷◌ pair rest) result = pairs_from rest (add (partition "=" pair))
    where
      add : String × Option String → Dict (Value R)
      add (k, none) = result
      add (k, some v) = Dict.insert (strip k) (coerce_scalar (strip v)) result

  unfoldable pub parse_json_or_kv : String → Option (Value R)
  unfolding pairs_from split_on strip
  parse_json_or_kv val =
      if starts_with (strip val) "{"
      then F.loads (strip val)
      else listed (pairs_from (split_on "," (strip val)) List.[])
    where
      listed : Dict (Value R) → Option (Value R)
      listed List.[] = none
      listed (List.◌∷◌ p d) = some (obj (to_fields (List.◌∷◌ p d)))

-- `val.strip().lower() in ("1", "true", "yes")`
unfoldable pub to_bool : String → Bool
unfolding strip lower
to_bool val = let s = lower (strip val) in (s == "1") || (s == "true") || (s == "yes")
