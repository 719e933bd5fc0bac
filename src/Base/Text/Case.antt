-- ===== src/Base/Text/Case.antt =====
-- `lower` and the case of letters.
use Prim.Native.String.{String, [], ◌∷◌}
use Prim.Native.Nat.{ℕ, zero, suc, ◌+◌, ◌-◌, ◌<◌}
use Prim.Native.Char.{Char, code}
use mathlib.Core.Path.{◌≡◌, refl, ap, ◌∙◌}
use mathlib.Core.Bool.{Bool, true, ◌&&◌}
use mathlib.Core.Logic.{inl, inr}
use native.Mathlib.Omega.{arith}
use aibom_webhook_service.Base.Tests.{nat_eq, nat_eq_iff, Bool-cases}
use aibom_webhook_service.Base.Text.{
  lower, lower_letter, nth_char, fold_case, is_upper, text_length, take_text,
}

-- a test that passes at every number below a bound
below : ℕ → (ℕ → Bool) → Bool
below zero p = true
below (suc n) p = p n && below n p

of_below : (n : ℕ) (p : ℕ → Bool) (k : ℕ) → below n p ≡ true → k < n → p k ≡ true
unfolding below
of_below zero p k h lt = absurd (omega arith)
of_below (suc n) p k h lt = ground (arith, of_below n p k)

abbrev is_lowered : Char → ℕ → Bool
is_lowered d k = nat_eq (code (nth_char "abcdefghijklmnopqrstuvwxyz" k d)) (k + 97)

letters_table : (d : Char) → below 26 (is_lowered d) ≡ true
unfolding below nth_char
letters_table d = refl

pub code-lower_letter : (c : Char) → code (lower_letter c) ≡ fold_case (code c)
unfolding lower_letter
code-lower_letter c = elim (Bool-cases (is_upper (code c))) [
  | inl u ↦ rw u (
      (nat_eq_iff _ _).0 (of_below 26 (is_lowered c) (code c - 65) (letters_table c) (ground arith))
      ∙ ground arith)
  | inr u ↦ rw u refl
]

pub fold_case_idem : (n : ℕ) → fold_case (fold_case n) ≡ fold_case n
fold_case_idem n = ground arith

pub text_length-lower : (s : String) → text_length (lower s) ≡ text_length s
unfolding lower
text_length-lower [] = refl
text_length-lower (c ∷ s) = ap suc (text_length-lower s)

pub take_text-lower : (n : ℕ) (s : String) → take_text n (lower s) ≡ lower (take_text n s)
unfolding lower take_text
take_text-lower zero s = refl
take_text-lower (suc n) [] = refl
take_text-lower (suc n) (c ∷ s) = ap (λ (r : String). lower_letter c ∷ r) (take_text-lower n s)
