-- ===== src/Base/Text/Span.antt =====
-- How `span`, `rstrip` and `partition` treat a text whose parts are known.
use Prim.Native.Nat.{ℕ}
use Prim.Native.Char.{Char, code}
use Prim.Native.String.{String, [], ◌∷◌, ◌++◌ as ◌<>◌}
use mathlib.Core.Path.{◌≡◌, refl}
use mathlib.Core.Bool.{Bool, true, false}
pub use text.Mathlib.TextLemmas.{nil-append, cons-append, append-nil, append_assoc}
use aibom_webhook_service.Base.Text.{span, rstrip_by}

-- every character passes the test
abbrev pub Chars : (ℕ → Bool) → String → Type 0
Chars p [] = Unit
Chars p (c ∷ s) = (p (code c) ≡ true) × Chars p s

-- no character passes the test
abbrev pub NoChars : (ℕ → Bool) → String → Type 0
NoChars p [] = Unit
NoChars p (c ∷ s) = (p (code c) ≡ false) × NoChars p s

pub NoChars-append : (p : ℕ → Bool) (a b : String) → NoChars p a → NoChars p b → NoChars p (a <> b)
NoChars-append p [] b h k = rw nil-append k
NoChars-append p (c ∷ a) b h k = rw (cons-append, NoChars) (h.0, NoChars-append p a b h.1 k)

-- the first character, if there is one, fails the test
abbrev pub Stops : (ℕ → Bool) → String → Type 0
Stops p [] = Unit
Stops p (c ∷ s) = p (code c) ≡ false

pub span-append :
    (p : ℕ → Bool) (a rest : String) → Chars p a → Stops p rest → span p (a <> rest) ≡ (a, rest)
unfolding span
span-append p [] [] h k = refl
span-append p [] (c ∷ rest) h k = rw (nil-append (c ∷ rest), span, k) refl
span-append p (c ∷ a) rest h k =
    rw (cons-append c a rest, span, h.0, span-append p a rest h.1 k) refl

pub span_all : (p : ℕ → Bool) (a : String) → Chars p a → span p a ≡ (a, "")
unfolding span
span_all p [] h = refl
span_all p (c ∷ a) h = rw (h.0, span_all p a h.1) refl

pub rstrip_by_none : (p : ℕ → Bool) (s : String) → NoChars p s → rstrip_by p s ≡ s
unfolding rstrip_by
rstrip_by_none p [] h = refl
rstrip_by_none p (c ∷ []) h = rw h.0 refl
rstrip_by_none p (c ∷ d ∷ s) h = rw (rstrip_by_none p (d ∷ s) h.1) refl

keep_first :
    (p : ℕ → Bool) (b c : Char) (s : String)
    → rstrip_by p (c ∷ s) ≡ c ∷ s
    → rstrip_by p (b ∷ c ∷ s) ≡ b ∷ c ∷ s
unfolding rstrip_by
keep_first p b c s h = rw h refl

pub rstrip_by-append :
    (p : ℕ → Bool) (a : String) (c : Char) (s : String)
    → rstrip_by p (c ∷ s) ≡ c ∷ s
    → rstrip_by p (a <> (c ∷ s)) ≡ a <> (c ∷ s)
rstrip_by-append p [] c s h = rw nil-append h
rstrip_by-append p (b ∷ []) c s h = rw (cons-append, nil-append) (keep_first p b c s h)
rstrip_by-append p (b ∷ d ∷ a) c s h =
    rw (cons-append b (d ∷ a) (c ∷ s), cons-append d a (c ∷ s))
      (keep_first p b d _ (rw cons-append at (rstrip_by-append p (d ∷ a) c s h)))
