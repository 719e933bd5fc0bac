-- ===== src/Model/Quantization/Case.antt =====
-- The quantization read from a model's name does not depend on the name's case.
use Prim.Native.String.{◌∷◌}
use aibom_webhook_service.Base.{
  ℕ, ◌+◌, ◌*◌, ◌-◌, code, String, Bool, true, false, ◌≡◌, refl, ◌∙◌, sym, Option, none, some, List,
  [], arith, ◌==◌, ap,
}
use aibom_webhook_service.Base.Dict.{Dict}
use aibom_webhook_service.Base.Text.{cons-eq-nil, lower, lower_letter}
use aibom_webhook_service.Base.Text.Case.{code-lower_letter}
use aibom_webhook_service.Base.Regex.{Regex, At}
use aibom_webhook_service.Base.Regex.Case.{lower_option, lower_match, search_regex-lower}
use aibom_webhook_service.Value.{Value}
use aibom_webhook_service.Command.Convert.{digits_value}
use aibom_webhook_service.Model.Quantization.{
  described, found, detect_from, detect_quantization_from_name,
}

digits_value-lower :
    (n : ℕ) (b : Bool) (s : String) → digits_value n b (lower s) ≡ digits_value n b s
unfolding digits_value lower
digits_value-lower n b String.[] = refl
digits_value-lower n b (c ∷ s) = ground (
  arith,
  code-lower_letter c,
  digits_value-lower (n * 10 + (code c - 48)) true s,
  digits_value-lower n false s,
)

module _ {R : Type 0} where
  described-lower :
      (method : String) (bits : Option ℕ) (captured : Option String)
      → described {R = R} method bits (lower_option captured) ≡ described method bits captured
  unfolding described
  described-lower method (some n) captured = refl
  described-lower method none none = refl
  described-lower method none (some s) = rw digits_value-lower refl

  found-lower :
      (method : String) (bits : Option ℕ) (o : Option At) (later : Option (Dict (Value R)))
      → found method bits (lower_match o) later ≡ found method bits o later
  unfolding found
  found-lower method bits none later = refl
  found-lower method bits (some m) later = ap some (described-lower method bits m.captured)

  detect_from-lower :
      (l : List (Regex × String × Option ℕ)) (name : String)
      → detect_from {R = R} l (lower name) ≡ detect_from l name
  unfolding detect_from
  detect_from-lower [] name = refl
  detect_from-lower (List.◌∷◌ (r, method, bits) rest) name =
      rw (search_regex-lower, found-lower, detect_from-lower rest name) refl

lower-nil : (name : String) → (lower name == "") ≡ (name == "")
unfolding lower
lower-nil String.[] = refl
lower-nil (c ∷ s) = cons-eq-nil (lower_letter c) (lower s) ∙ sym (cons-eq-nil c s)

-- A model's name and its lower-case form give the same quantization.
pub detect_quantization_from_name-lower :
    {R : Type 0} (name : String)
    → detect_quantization_from_name {R = R} (lower name) ≡ detect_quantization_from_name name
unfolding detect_quantization_from_name
detect_quantization_from_name-lower name = rw (lower-nil, detect_from-lower) refl
