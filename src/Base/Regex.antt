-- ===== src/Base/Regex.antt =====
-- Regular expressions with one group, matched without regard to case, as Python's backtracking
-- matcher tries them: the ways to match, in its order of preference.
pub mod Case
use Prim.Native.String.{[], ◌∷◌}
use mathlib.Core.List
use mathlib.Core.List.{List, ◌++◌}
use aibom_webhook_service.Base.Tests.{if◌then◌else◌, nat_eq, or_else}
use aibom_webhook_service.Base.Text.{fold_case, is_digit, text_length, take_text}
use Prim.Native.Nat.{ℕ, ◌+◌, ◌-◌}
use Prim.Native.Char.{Char, code}
use Prim.Native.String.{String}
use mathlib.Core.Bool.{Bool, true, false}
use mathlib.Core.Option.{Option, none, some}

pub data Regex : Type 0 where
  empty : Regex
  -- one character, tested in lower case
  char_if : (ℕ → Bool) → Regex
  -- `x+` for a class of characters
  many : (ℕ → Bool) → Regex
  seq : Regex → Regex → Regex
  alt : Regex → Regex → Regex
  group : Regex → Regex
  -- `(?<!x)` and `(?!x)`
  not_behind : (ℕ → Bool) → Regex
  not_ahead : (ℕ → Bool) → Regex

-- where a match has got to: the character before, the text that is left, and the group
pub record At : Type 0 where
  pub before : Option ℕ
  pub left : String
  pub captured : Option String

-- the ways to take one or more characters, longest first
runs : (ℕ → Bool) → Option ℕ → String → Option String → List At
runs p before [] cap = List.[]
runs p before (c ∷ s) cap =
    let longer = runs p (some (fold_case (code c))) s cap in
    let one : At = record { before = some (fold_case (code c)); left = s; captured = cap } in
    if p (fold_case (code c)) then longer ++ List.◌∷◌ one List.[] else List.[]

one_char : (ℕ → Bool) → Option ℕ → String → Option String → List At
one_char p before [] cap = List.[]
one_char p before (c ∷ s) cap =
    let one : At = record { before = some (fold_case (code c)); left = s; captured = cap } in
    if p (fold_case (code c)) then List.◌∷◌ one List.[] else List.[]

holds_of : (ℕ → Bool) → Option ℕ → Bool
holds_of p none = false
holds_of p (some c) = p c

next_of : String → Option ℕ
next_of [] = none
next_of (c ∷ s) = some (fold_case (code c))

each : (At → List At) → List At → List At
each f List.[] = List.[]
each f (List.◌∷◌ a rest) = f a ++ each f rest

close_group : String → List At → List At
close_group start List.[] = List.[]
close_group start (List.◌∷◌ a rest) =
    List.◌∷◌
      (record a { captured = some (take_text (text_length start - text_length a.left) start) })
      (close_group start rest)

unfoldable pub ways : Regex → At → List At
unfolding runs one_char holds_of next_of each close_group take_text
ways empty a = List.◌∷◌ a List.[]
ways (char_if p) a = one_char p a.before a.left a.captured
ways (many p) a = runs p a.before a.left a.captured
ways (seq r s) a = each (ways s) (ways r a)
ways (alt r s) a = ways r a ++ ways s a
ways (group r) a = close_group a.left (ways r a)
ways (not_behind p) a = if holds_of p a.before then List.[] else List.◌∷◌ a List.[]
ways (not_ahead p) a = if holds_of p (next_of a.left) then List.[] else List.◌∷◌ a List.[]

first_way : List At → Option At
first_way List.[] = none
first_way (List.◌∷◌ a rest) = some a

search_from : Regex → Option ℕ → String → Option At
search_from r before [] =
    first_way (ways r (record { before = before; left = []; captured = none }))
search_from r before (c ∷ s) =
    let later = search_from r (some (fold_case (code c))) s in
    or_else (first_way (ways r (record { before = before; left = c ∷ s; captured = none }))) later

-- `pattern.search(s)`
unfoldable pub search_regex : Regex → String → Option At
unfolding ways search_from first_way
search_regex r s = search_from r none s

-- a literal text
abbrev pub lit : String → Regex
lit [] = empty
lit (c ∷ s) = seq (char_if (nat_eq (fold_case (code c)))) (lit s)

abbrev pub optional : Regex → Regex
optional r = alt r empty
