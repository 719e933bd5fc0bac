-- ===== src/Model/Quantization/Keys.antt =====
-- Which keys the detection sets.
use aibom_webhook_service.Base.{
  ℕ, String, ◌≡◌, refl, ◌⊎◌, inl, inr, Option, none, some, List, [], ◌∷◌, Bool-cases, ◌==◌, false,
}
use mathlib.Core.Path.{subst}
use aibom_webhook_service.Base.Dict.{Dict}
use aibom_webhook_service.Base.Dict.Laws.{Entries, eq_of_some}
use aibom_webhook_service.Base.Regex.{Regex, At, search_regex}
use aibom_webhook_service.Command.Convert.{digits_value}
use aibom_webhook_service.Value.{Value}
use aibom_webhook_service.Model.Quantization.{
  with_bits, described, found, detect_from, detect_quantization_from_name, quant_patterns,
}

abbrev pub QuantKey : {R : Type 0} → String → Value R → Type 0
QuantKey k v = (k ≡ "quantization_method") ⊎ (k ≡ "quantization_bits")

module _ (R : Type 0) where
  with_bits-QuantKey : (m : String) (o : Option ℕ) → Entries QuantKey (with_bits {R = R} m o)
  unfolding with_bits
  with_bits-QuantKey m none = (inl refl, tt)
  with_bits-QuantKey m (some n) = (inl refl, (inr refl, tt))

  described-QuantKey :
      (m : String) (bits : Option ℕ) (captured : Option String)
      → Entries QuantKey (described {R = R} m bits captured)
  unfolding described
  described-QuantKey m (some n) captured = with_bits-QuantKey m (some n)
  described-QuantKey m none none = with_bits-QuantKey m none
  described-QuantKey m none (some s) = with_bits-QuantKey m (digits_value 0 false s)

  found-QuantKey :
      (m : String) (bits : Option ℕ) (o : Option At) (later : Option (Dict (Value R)))
      (d : Dict (Value R))
      → (later ≡ some d → Entries QuantKey d)
      → found m bits o later ≡ some d
      → Entries QuantKey d
  unfolding found
  found-QuantKey m bits none later d h e = h e
  found-QuantKey m bits (some a) later d h e =
      subst (Entries QuantKey) (eq_of_some e) (described-QuantKey m bits a.captured)

  detect_from-QuantKey :
      (l : List (Regex × String × Option ℕ)) (name : String) (d : Dict (Value R))
      → detect_from l name ≡ some d
      → Entries QuantKey d
  unfolding detect_from
  detect_from-QuantKey [] name d e = absurd (cc)
  detect_from-QuantKey ((r, m, bits) ∷ l) name d e =
      found-QuantKey m bits (search_regex r name) (detect_from l name) d
        (detect_from-QuantKey l name d) e

  pub detect_quantization_from_name-QuantKey :
      (name : String) (d : Dict (Value R))
      → detect_quantization_from_name name ≡ some d
      → Entries QuantKey d
  unfolding detect_quantization_from_name
  detect_quantization_from_name-QuantKey name d e = elim (Bool-cases (name == "")) [
    | inl q ↦ absurd (cc (rw q at e))
    | inr q ↦ detect_from-QuantKey quant_patterns name d (rw q at e)
  ]
