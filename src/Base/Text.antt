-- ===== src/Base/Text.antt =====
-- What the program uses of Python's `str`, over native texts. Letters, digits and white space
-- are the ASCII ones.
pub mod Case
pub mod Span
pub mod Laws
use Prim.Native.Nat.{ℕ, zero, suc, ◌+◌, ◌-◌}
use Prim.Native.Char.{Char, code}
use Prim.Native.String.{String, [], ◌∷◌}
use mathlib.Core.Path.{◌≡◌, refl, sym, ap, ◌∙◌}
use mathlib.Core.Logic.{◌≢◌, inl, inr}
use mathlib.Core.Bool.{Bool, true, false, false≢true, ◌&&◌, ◌||◌}
use mathlib.Core.Option.{Option, none, some}
use mathlib.Core.List.{List}
use text.Mathlib.Text.{◌==◌}
use text.Mathlib.TextEquality.{eq_iff}
use native.Mathlib.Omega.{arith}
use aibom_webhook_service.Base.Tests.{leb, nat_eq, Bool-cases, if◌then◌else◌}

abbrev pub same_char : Char → Char → Bool
same_char c d = nat_eq (code c) (code d)

-- `s.startswith(p)`
unfoldable pub starts_with : String → String → Bool
starts_with s [] = true
starts_with [] (d ∷ p) = false
starts_with (c ∷ s) (d ∷ p) = same_char c d && starts_with s p

-- `s[n:]`
unfoldable pub drop_text : ℕ → String → String
drop_text zero s = s
drop_text (suc n) [] = []
drop_text (suc n) (c ∷ s) = drop_text n s

-- `s[:n]`
unfoldable pub take_text : ℕ → String → String
take_text zero s = []
take_text (suc n) [] = []
take_text (suc n) (c ∷ s) = c ∷ take_text n s

-- `len(s)`
abbrev pub text_length : String → ℕ
text_length [] = 0
text_length (c ∷ s) = suc (text_length s)

-- `p in s` for a text `p`
unfoldable pub contains : String → String → Bool
unfolding starts_with
contains [] p = starts_with [] p
contains (c ∷ s) p = starts_with (c ∷ s) p || contains s p

-- `d in s` for one character
unfoldable pub contains_char : Char → String → Bool
contains_char d [] = false
contains_char d (c ∷ s) = same_char c d || contains_char d s

-- `s.partition(d)`: what stands before the first `d`, and what stands behind it if there is one
unfoldable pub partition : Char → String → String × Option String
partition d [] = ([], none)
partition d (c ∷ s) =
    let (head, tail) = partition d s in if same_char c d then ([], some s) else (c ∷ head, tail)

-- `s.rpartition(d)`: the two sides of the last `d`, if there is one
unfoldable pub rpartition : Char → String → Option (String × String)
rpartition d [] = none
rpartition d (c ∷ s) = elim (rpartition d s) [
  | some (head, tail) ↦ some (c ∷ head, tail)
  | none ↦ if same_char c d then some ([], s) else none
]

-- `s.rpartition(d)[2]`
unfoldable pub after_last : Char → String → String
unfolding rpartition
after_last d s = elim (rpartition d s) [ none ↦ s | some (head, tail) ↦ tail ]

-- `os.path.basename(p)`
unfoldable pub basename : String → String
unfolding after_last
basename = after_last "/"

-- `s.replace(d, e)` for one character
unfoldable pub replace_char : Char → Char → String → String
replace_char d e [] = []
replace_char d e (c ∷ s) = (if same_char c d then e else c) ∷ replace_char d e s

abbrev pub all_text : (ℕ → Bool) → String → Bool
all_text p [] = true
all_text p (c ∷ s) = p (code c) && all_text p s

abbrev pub is_digit : ℕ → Bool
is_digit c = leb b'0' c && leb c b'9'

abbrev pub is_upper : ℕ → Bool
is_upper c = leb b'A' c && leb c b'Z'

abbrev pub is_lower : ℕ → Bool
is_lower c = leb b'a' c && leb c b'z'

abbrev pub is_alpha : ℕ → Bool
is_alpha c = is_upper c || is_lower c

abbrev pub is_alnum : ℕ → Bool
is_alnum c = is_alpha c || is_digit c

-- space, and \t \n \v \f \r
abbrev pub is_space : ℕ → Bool
is_space c = nat_eq c 32 || (leb 9 c && leb c 13)

-- the character at a place, a default past the end
unfoldable pub nth_char : String → ℕ → Char → Char
nth_char [] n d = d
nth_char (c ∷ s) zero d = c
nth_char (c ∷ s) (suc n) d = nth_char s n d

unfoldable pub lower_letter : Char → Char
unfolding nth_char
lower_letter c =
    if is_upper (code c) then nth_char "abcdefghijklmnopqrstuvwxyz" (code c - 65) c else c

-- `s.lower()`
unfoldable pub lower : String → String
unfolding lower_letter
lower [] = []
lower (c ∷ s) = lower_letter c ∷ lower s

abbrev pub fold_case : ℕ → ℕ
fold_case c = if is_upper c then c + 32 else c

-- `s.lstrip()`
unfoldable pub lstrip : String → String
lstrip [] = []
lstrip (c ∷ s) = let rest = lstrip s in if is_space (code c) then rest else c ∷ s

-- `s.rstrip(chars)` for the characters that pass the test
unfoldable pub rstrip_by : (ℕ → Bool) → String → String
rstrip_by p [] = []
rstrip_by p (c ∷ s) = elim (rstrip_by p s) [
  | [] ↦ if p (code c) then [] else c ∷ []
  | d ∷ rest ↦ c ∷ d ∷ rest
]

-- `s.strip()`
unfoldable pub strip : String → String
unfolding lstrip rstrip_by
strip s = rstrip_by is_space (lstrip s)

-- `s.split(d)`
unfoldable pub split_on : Char → String → List String
split_on d [] = List.◌∷◌ [] List.[]
split_on d (c ∷ s) = elim (split_on d s) [
  | List.[] ↦ List.[]
  | List.◌∷◌ part rest ↦
      if same_char c d then List.◌∷◌ [] (List.◌∷◌ part rest) else List.◌∷◌ (c ∷ part) rest
]

-- `s.endswith(p)`
unfoldable pub ends_with : String → String → Bool
unfolding starts_with
ends_with [] p = [] == p
ends_with (c ∷ s) p = ((c ∷ s) == p) || ends_with s p

-- the longest run of characters that pass the test, and what is behind it
unfoldable pub span : (ℕ → Bool) → String → String × String
span p [] = ([], [])
span p (c ∷ s) = let (run, rest) = span p s in if p (code c) then (c ∷ run, rest) else ([], c ∷ s)

-- where a pattern's `$` matches: the end, or before a final line feed
unfoldable pub at_end : String → Bool
at_end [] = true
at_end (c ∷ []) = nat_eq (code c) 10
at_end (c ∷ d ∷ s) = false

-- a text without a line feed at its very end
unfoldable pub chomp : String → String
chomp [] = []
chomp (c ∷ s) = let rest = chomp s in if nat_eq (code c) 10 && (s == "") then [] else c ∷ rest

-- `d.join(parts)`
unfoldable pub join_lines : Char → List String → String
join_lines d List.[] = []
join_lines d (List.◌∷◌ part List.[]) = part
join_lines d (List.◌∷◌ part (List.◌∷◌ next rest)) =
    Prim.Native.String.◌++◌ part (d ∷ join_lines d (List.◌∷◌ next rest))

pub eq-false_of_ne : (s t : String) → s ≢ t → (s == t) ≡ false
eq-false_of_ne s t h = elim (Bool-cases (s == t)) [
  | inl e ↦ absurd (h ((eq_iff s t).0 e))
  | inr e ↦ e
]

pub ne_of_eq-false : (s t : String) → (s == t) ≡ false → s ≢ t
ne_of_eq-false s t h e = false≢true (sym h ∙ (eq_iff s t).1 e)

pub ne_of_text_length : (s t : String) → text_length s ≢ text_length t → s ≢ t
ne_of_text_length s t h e = h (ap text_length e)

pub cons-eq-nil : (c : Char) (s : String) → ((c ∷ s) == "") ≡ false
cons-eq-nil c s = eq-false_of_ne (c ∷ s) "" (ne_of_text_length (c ∷ s) "" (omega arith))
