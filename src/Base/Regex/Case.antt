-- ===== src/Base/Regex/Case.antt =====
-- Matching does not see the case of the text.
use Prim.Native.String.{[], ◌∷◌}
use mathlib.Core.List.{List, map, map-append}
use mathlib.Core.Path.{◌≡◌, refl, ◌∙◌, ap}
use Prim.Native.Nat.{ℕ}
use Prim.Native.Char.{Char, code}
use Prim.Native.String.{String}
use mathlib.Core.Logic.{inl, inr}
use mathlib.Core.Bool.{Bool}
use mathlib.Core.Option.{Option, none, some}
use aibom_webhook_service.Base.Tests.{or_else, Bool-cases}
use aibom_webhook_service.Base.Text.{lower, lower_letter, fold_case}
use aibom_webhook_service.Base.Text.Case.{
  code-lower_letter, fold_case_idem, text_length-lower, take_text-lower,
}
use aibom_webhook_service.Base.Regex.{
  Regex, empty, char_if, many, seq, alt, group, not_behind, not_ahead, At, runs, one_char, holds_of,
  next_of, each, close_group, ways, first_way, search_from, search_regex,
}

abbrev pub lower_option : Option String → Option String
lower_option none = none
lower_option (some s) = some (lower s)

abbrev pub lower_at : At → At
lower_at a = record a { left = lower a.left; captured = lower_option a.captured }

abbrev pub lower_match : Option At → Option At
lower_match none = none
lower_match (some a) = some (lower_at a)

fold_lower : (c : Char) → fold_case (code (lower_letter c)) ≡ fold_case (code c)
fold_lower c = ap fold_case (code-lower_letter c) ∙ fold_case_idem (code c)

runs-lower :
    (p : ℕ → Bool) (before : Option ℕ) (s : String) (cap : Option String)
    → runs p before (lower s) (lower_option cap) ≡ map lower_at (runs p before s cap)
unfolding runs lower
runs-lower p before [] cap = refl
runs-lower p before (c ∷ s) cap = elim (Bool-cases (p (fold_case (code c)))) [
  | inl e ↦
      rw (fold_lower c, e) (rw (map-append, runs-lower p (some (fold_case (code c))) s cap) refl)
  | inr e ↦ rw (fold_lower c, e) refl
]

one_char-lower :
    (p : ℕ → Bool) (before : Option ℕ) (s : String) (cap : Option String)
    → one_char p before (lower s) (lower_option cap) ≡ map lower_at (one_char p before s cap)
unfolding one_char lower
one_char-lower p before [] cap = refl
one_char-lower p before (c ∷ s) cap = elim (Bool-cases (p (fold_case (code c)))) [
  | inl e ↦ rw (fold_lower c, e) refl
  | inr e ↦ rw (fold_lower c, e) refl
]

next_of-lower : (s : String) → next_of (lower s) ≡ next_of s
unfolding next_of lower
next_of-lower [] = refl
next_of-lower (c ∷ s) = ap some (fold_lower c)

each-lower :
    (f : At → List At)
    → ((a : At) → f (lower_at a) ≡ map lower_at (f a))
    → (l : List At) → each f (map lower_at l) ≡ map lower_at (each f l)
unfolding each
each-lower f h List.[] = refl
each-lower f h (List.◌∷◌ a rest) = rw (map-append, h a, each-lower f h rest) refl

close_group-lower :
    (start : String) (l : List At)
    → close_group (lower start) (map lower_at l) ≡ map lower_at (close_group start l)
unfolding close_group
close_group-lower start List.[] = refl
close_group-lower start (List.◌∷◌ a rest) =
    rw (text_length-lower, text_length-lower, take_text-lower, close_group-lower start rest) refl

ways-lower : (r : Regex) (a : At) → ways r (lower_at a) ≡ map lower_at (ways r a)
unfolding ways
ways-lower empty a = refl
ways-lower (char_if p) a = one_char-lower p a.before a.left a.captured
ways-lower (many p) a = runs-lower p a.before a.left a.captured
ways-lower (seq r s) a = rw (ways-lower r a) (each-lower (ways s) (ways-lower s) (ways r a))
ways-lower (alt r s) a = rw (map-append, ways-lower r a, ways-lower s a) refl
ways-lower (group r) a = rw (ways-lower r a) (close_group-lower a.left (ways r a))
ways-lower (not_behind p) a = elim (Bool-cases (holds_of p a.before)) [
  | inl e ↦ rw e refl
  | inr e ↦ rw e refl
]
ways-lower (not_ahead p) a = elim (Bool-cases (holds_of p (next_of a.left))) [
  | inl e ↦ rw (next_of-lower, e) refl
  | inr e ↦ rw (next_of-lower, e) refl
]

first_way-lower : (l : List At) → first_way (map lower_at l) ≡ lower_match (first_way l)
unfolding first_way
first_way-lower List.[] = refl
first_way-lower (List.◌∷◌ a rest) = refl

lower_match-or_else :
    (o p : Option At) → lower_match (or_else o p) ≡ or_else (lower_match o) (lower_match p)
lower_match-or_else none p = refl
lower_match-or_else (some a) p = refl

search_from-lower :
    (r : Regex) (before : Option ℕ) (s : String)
    → search_from r before (lower s) ≡ lower_match (search_from r before s)
unfolding search_from lower
search_from-lower r before [] =
    ap first_way (ways-lower r (record { before = before; left = []; captured = none }))
    ∙ first_way-lower _
search_from-lower r before (c ∷ s) =
    rw
      (
        fold_lower c,
        search_from-lower r (some (fold_case (code c))) s,
        lower_match-or_else,
        ap first_way (ways-lower r (record { before = before; left = c ∷ s; captured = none })),
        first_way-lower,
      )
      refl

-- A search in a text and in its lower-case form finds the same match.
pub search_regex-lower :
    (r : Regex) (s : String) → search_regex r (lower s) ≡ lower_match (search_regex r s)
unfolding search_regex
search_regex-lower r s = search_from-lower r none s
