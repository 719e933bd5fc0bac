-- ===== src/Report/Sections.antt =====
-- The model and training sections of `compile_aibom`, as dicts. What the
-- annotations say stands before what the detectors in the command and at run time saw.
pub mod Laws
use aibom_webhook_service.Base.{
  ℕ, String, Bool, true, false, not, ◌&&◌, ◌||◌, Option, none, some, List, [], ◌∷◌, ◌==◌, map,
  if◌then◌else◌, is_some, ltb,
}
use aibom_webhook_service.Base.Int.{ℤ, pos, negsuc}
use aibom_webhook_service.Base.Dict
use aibom_webhook_service.Base.Dict.{Dict}
use aibom_webhook_service.Value.{
  Value, Fields, null, int, float, text, obj, end, field, PyFloat, truthy,
}
use aibom_webhook_service.Command.Convert.{parse_int}
use aibom_webhook_service.Source.Container.{given, is_text}

-- the annotations, what was detected of the model in the commands, and `runtime_info`
pub record Inputs (R : Type 0) : Type 0 where
  pub annotations : Dict String
  pub dm : Dict (Value R)
  pub runtime_info : Dict (Value R)

abbrev pub or_null : {R : Type 0} → Option (Value R) → Value R
or_null none = null
or_null (some v) = v

-- `d.get(k)`
unfoldable pub get : {R : Type 0} → String → Dict (Value R) → Value R
unfolding Dict.lookup
get k d = or_null (Dict.lookup k d)

abbrev pub is_null : {R : Type 0} → Value R → Bool
is_null null = true
is_null other = false

-- `_first_not_none`
unfoldable pub first_not_none : {R : Type 0} → List (Value R) → Value R
first_not_none [] = null
first_not_none (v ∷ values) = let rest = first_not_none values in if is_null v then rest else v

-- `v > 1`, for the whole numbers that the detector writes
abbrev pub more_than_one : {R : Type 0} → Value R → Bool
more_than_one (int (pos n)) = ltb 1 n
more_than_one other = false

module _ {R : Type 0} (F : PyFloat R) where
  -- `a or b`
  unfoldable pub or_value : Value R → Value R → Value R
  unfolding truthy
  or_value a b = if truthy F a then a else b

  abbrev pub int_or_null : Option ℤ → Value R
  int_or_null none = null
  int_or_null (some n) = int n

  abbrev pub float_or_null : Option R → Value R
  float_or_null none = null
  float_or_null (some f) = float f

  unfoldable pub try_int : Option String → Value R
  unfolding parse_int
  try_int none = null
  try_int (some s) = int_or_null (parse_int s)

  unfoldable pub try_float : Option String → Value R
  try_float none = null
  try_float (some s) = float_or_null (F.parse s)

  -- an entry that is written only if its value is true
  unfoldable pub put_true : String → Value R → Dict (Value R) → Dict (Value R)
  unfolding truthy Dict.insert
  put_true key v section = if truthy F v then Dict.insert key v section else section

  abbrev pub text_or_null : Option String → Value R
  text_or_null none = null
  text_or_null (some s) = text s

  module _ (i : Inputs R) where
    unfoldable pub annotation : String → Option String
    unfolding Dict.lookup
    annotation key = Dict.lookup key i.annotations

    -- the value of an annotation
    unfoldable pub noted : String → Value R
    unfolding annotation
    noted key = text_or_null (annotation key)

    unfoldable pub detected : String → Value R
    unfolding get
    detected key = get key i.dm

    unfoldable pub seen : String → Value R
    unfolding get
    seen key = get key i.runtime_info

    infixr 30 ◌or◌
    abbrev pub ◌or◌ : Value R → Value R → Value R
    a or b = or_value a b

    abbrev pub is_text_value : String → Value R → Bool
    is_text_value name (text s) = s == name
    is_text_value name other = false

    -- `x in (None, "", dm.get("model_name"))` for the annotation
    unfoldable pub names_detected : Bool
    unfolding annotation detected
    names_detected = elim (given (annotation "model-name")) [
      | none ↦ true
      | some name ↦ is_text_value name (detected "model_name")
    ]

    unfoldable pub put_identity : Dict (Value R) → Dict (Value R)
    unfolding names_detected detected put_true
    put_identity section =
        let details = put_true "size_bytes" (detected "model_size_bytes") (
          put_true "base_model" (detected "base_model")
            (put_true "revision" (detected "model_revision") section)) in
        if names_detected then details else section

    unfoldable pub put_name_source : Dict (Value R) → Dict (Value R)
    unfolding noted detected Dict.insert truthy
    put_name_source section =
        let via = detected "model_name_declared_via" in
        let source = if truthy F (noted "model-name") then text "annotation" else via in
        if truthy F via then Dict.insert "name_declared_via" source section else section

    unfoldable pub model_fields : Dict (Value R)
    unfolding noted detected seen or_value try_int annotation
    model_fields =
        ("name", noted "model-name" or detected "model_name" or seen "model_name")
        ∷ ("version", noted "model-version")
        ∷ (
          "architecture",
          noted "model-architecture" or seen "model_architecture" or detected "architecture",
        )
        ∷ (
          "framework",
          noted "model-framework"
              or detected "serving_engine"
              or detected "training_framework"
              or seen "training_framework",
        )
        ∷ (
          "quantization",
          noted "quantization"
              or detected "quantization"
              or detected "quantization_method"
              or seen "quantization_method",
        )
        ∷ (
          "quantization_bits",
          try_int (annotation "quantization-bits")
              or detected "quantization_bits"
              or seen "quantization_bits",
        )
        ∷ ("dtype", noted "dtype" or detected "dtype" or seen "dtype")
        ∷ []

    unfoldable pub model_section : Dict (Value R)
    unfolding model_fields put_name_source put_identity put_true detected
    model_section = put_identity (
        put_name_source
          (put_true "speculative_decoding" (detected "speculative_config") model_fields))

    unfoldable pub training_section : Dict (Value R)
    unfolding noted detected seen or_value try_int try_float annotation first_not_none
    training_section =
        let sharded =
          if more_than_one (seen "model_device_count") then text "model_parallel" else null in
        ("optimizer", noted "optimizer" or seen "optimizer")
        ∷ (
          "learning_rate",
          first_not_none (
              try_float (annotation "learning-rate")
              ∷ seen "learning_rate"
              ∷ detected "learning_rate"
              ∷ []),
        )
        ∷ (
          "batch_size",
          first_not_none
              (try_int (annotation "batch-size") ∷ seen "batch_size" ∷ detected "batch_size" ∷ []),
        )
        ∷ (
          "epochs",
          first_not_none (try_int (annotation "epochs") ∷ seen "epochs" ∷ detected "epochs" ∷ []),
        )
        ∷ (
          "random_seed",
          first_not_none (
              try_int (annotation "random-seed")
              ∷ seen "random_seed"
              ∷ detected "random_seed"
              ∷ []),
        )
        ∷ ("mixed_precision", seen "mixed_precision")
        ∷ (
          "parallelization_strategy",
          noted "parallelization-strategy"
              or seen "parallelization_strategy"
              or detected "parallelization_strategy"
              or sharded,
        )
        ∷ []
