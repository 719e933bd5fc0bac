-- ===== src/Engine/Server/Laws.antt =====
-- What the detectors of serving engines say of the model's name.
use aibom_webhook_service.Base.{
  String, ◌≡◌, refl, ◌∙◌, sym, ap, ◌≢◌, Option, none, some, List, [], ◌∷◌, arith, Bool, true, false,
  not, ◌&&◌, ◌||◌, Bool-cases, inl, inr, if◌then◌else◌, ◌==◌, is_some, eq_refl, ◌⊎◌, drop,
}
use mathlib.Core.Path.{subst}
use aibom_webhook_service.Base.Text.{ne_of_eq-false}
use aibom_webhook_service.Base.Dict
use aibom_webhook_service.Base.Dict.{Dict}
use aibom_webhook_service.Base.Dict.Laws.{
  Entries, insert-Entries, update-Entries, erase-Entries, lookup-Entries, eq_of_some,
}
use aibom_webhook_service.Value.{Value, PyFloat, text}
use aibom_webhook_service.Command.Convert.{has_unexpanded_var}
use aibom_webhook_service.Command.Flags.{ArgMap, Conversion, flag, conv, parse_flags}
use aibom_webhook_service.Command.Flags.Laws.{
  Recorded, from_flag, from_value, parse_flags-AllRecorded,
}
use aibom_webhook_service.Model.Quantization.Keys.{QuantKey, detect_quantization_from_name-QuantKey}
use aibom_webhook_service.Engine.ArgMaps.{
  as_text, str, vllm_arg_map, tgi_arg_map, sglang_arg_map, lmdeploy_arg_map,
}
use aibom_webhook_service.Engine.Server.{
  start, add_positional, merge_quant, quant_of, model_name_of, add_quantization, parse_server_args,
  normalize_speculative, on_args, detect_vllm_from_command, detect_tgi_from_command,
  detect_sglang_from_command, detect_lmdeploy_from_command,
}

-- a model's name that can be recorded: a non-empty text with no unexpanded variable
abbrev pub IsName : {R : Type 0} → Value R → Type 0
IsName v = (name : String) × (v ≡ text name) × (name ≢ "") × (has_unexpanded_var name ≡ false)

abbrev CleanName : {R : Type 0} → String → Value R → Type 0
CleanName k v = (k == "model_name") ≡ true → IsName v

-- a flag of the map that gives the model's name takes it as it is written
abbrev pub NamesAreText : {R : Type 0} → ArgMap R → Type 0
NamesAreText = Entries (λ key (name, c). (name == "model_name") ≡ true → c ≡ str)

module _ {R : Type 0} where
  -- no flag of the map gives the model's name
  abbrev nameless : ArgMap R → Bool
  nameless [] = true
  nameless ((key, (name, c)) ∷ rest) = not (name == "model_name") && nameless rest

  nameless-NamesAreText : (arg_map : ArgMap R) → nameless arg_map ≡ true → NamesAreText arg_map
  nameless-NamesAreText [] h = tt
  nameless-NamesAreText ((key, (name, c)) ∷ rest) h =
      (λ m. absurd (ground (arith, h, m)), nameless-NamesAreText rest (ground (arith, h)))

  applied : String → Conversion R → Option (Value R)
  applied val flag = none
  applied val (conv c) = c val

  text_of : {val : String} {v : Value R} → some v ≡ as_text val → v ≡ text val
  text_of e = eq_of_some e

  Recorded-CleanName :
      (arg_map : ArgMap R) (k : String) (v : Value R)
      → NamesAreText arg_map
      → Recorded arg_map k v
      → CleanName k v
  unfolding applied
  Recorded-CleanName arg_map k _ h (from_flag key b e) m =
      absurd (cc (lookup-Entries _ key _ arg_map h e m))
  Recorded-CleanName arg_map k v h (from_value key val c e q ne clean) m =
      (val, text_of (sym q ∙ ap (applied val) (lookup-Entries _ key _ arg_map h e m)), ne, clean)

  QuantKey-CleanName : (d : Dict (Value R)) → Entries QuantKey d → Entries CleanName d
  QuantKey-CleanName [] h = tt
  QuantKey-CleanName ((k, v) ∷ d) (inl e, h) = (rw e (λ m. absurd (cc (m))), QuantKey-CleanName d h)
  QuantKey-CleanName ((k, v) ∷ d) (inr e, h) = (rw e (λ m. absurd (cc (m))), QuantKey-CleanName d h)

  AllRecorded-CleanName :
      (arg_map : ArgMap R) (d : Dict (Value R))
      → NamesAreText arg_map
      → Entries (Recorded arg_map) d
      → Entries CleanName d
  AllRecorded-CleanName arg_map [] h r = tt
  AllRecorded-CleanName arg_map ((k, v) ∷ d) h r =
      (Recorded-CleanName arg_map k v h r.0, AllRecorded-CleanName arg_map d h r.1)

module _ {R : Type 0} (F : PyFloat R) where
  start-CleanName :
      (engine : String) (d : Dict (Value R))
      → Entries CleanName d
      → Entries CleanName (start F engine d)
  unfolding start
  start-CleanName engine d h = update-Entries CleanName _ d ((λ m. absurd (cc (m))), tt) h

  add_positional-CleanName :
      (o : Option String) (d : Dict (Value R))
      → Entries CleanName d
      → Entries CleanName (add_positional F o d)
  unfolding add_positional
  add_positional-CleanName none d h = h
  add_positional-CleanName (some name) d h =
      elim (Bool-cases (
        not (is_some (Dict.lookup "model_name" d))
        && not (name == "")
        && not (has_unexpanded_var name))) [
          | inl take ↦ rw take (
              insert-Entries CleanName "model_name" (text name) d
                (λ _. (name, refl, ne_of_eq-false name "" (ground arith), ground arith)) h)
          | inr leave ↦ rw leave h
        ]

  quant_of-CleanName :
      (o : Option String) (d : Dict (Value R)) → quant_of F o ≡ some d → Entries CleanName d
  unfolding quant_of
  quant_of-CleanName none d e = absurd (cc)
  quant_of-CleanName (some name) d e =
      QuantKey-CleanName d (detect_quantization_from_name-QuantKey R name d e)

  merge_quant-CleanName :
      (o : Option (Dict (Value R))) (d : Dict (Value R))
      → ((q : Dict (Value R)) → o ≡ some q → Entries CleanName q)
      → Entries CleanName d
      → Entries CleanName (merge_quant F o d)
  unfolding merge_quant
  merge_quant-CleanName none d g h = h
  merge_quant-CleanName (some q) d g h = update-Entries CleanName d q h (g q refl)

  add_quantization-CleanName :
      (d : Dict (Value R)) → Entries CleanName d → Entries CleanName (add_quantization F d)
  unfolding add_quantization
  add_quantization-CleanName d h = elim (Bool-cases (is_some (Dict.lookup "quantization" d))) [
    | inl e ↦ rw e h
    | inr e ↦ rw e (
        merge_quant-CleanName (quant_of F (model_name_of F d)) d
          (quant_of-CleanName (model_name_of F d)) h)
  ]

  parse_server_args-CleanName :
      (args : List String) (engine : String) (arg_map : ArgMap R) (positional_model : Bool)
      → NamesAreText arg_map
      → Entries CleanName (parse_server_args F args engine arg_map positional_model)
  unfolding parse_server_args
  parse_server_args-CleanName args engine arg_map positional_model h =
      let recorded = parse_flags-AllRecorded arg_map "-" false args in
      let (parsed, positional) = parse_flags arg_map "-" false args in
      let begun = start-CleanName engine parsed (AllRecorded-CleanName arg_map parsed h recorded) in
      add_quantization-CleanName _
        (elim positional_model
          as (λ b. Entries CleanName (
            if b
            then add_positional F positional (start F engine parsed)
            else start F engine parsed)) [
              | true ↦ add_positional-CleanName positional (start F engine parsed) begun
              | false ↦ begun
            ])

  normalize_speculative-CleanName :
      (d : Dict (Value R)) → Entries CleanName d → Entries CleanName (normalize_speculative F d)
  unfolding normalize_speculative
  normalize_speculative-CleanName d h =
      elim (Bool-cases (
        not (is_some (Dict.lookup "speculative_config" d))
        && (is_some (Dict.lookup "speculative_model" d)
            || is_some (Dict.lookup "num_speculative_tokens" d)))) [
              | inl e ↦ rw e (
                  insert-Entries CleanName "speculative_config" _ _ (λ m. absurd (cc (m)))
                    (erase-Entries CleanName _ _ (erase-Entries CleanName _ d h)))
              | inr e ↦ rw e h
            ]

  vllm-NamesAreText : NamesAreText (vllm_arg_map F)
  vllm-NamesAreText = (λ m. refl, nameless-NamesAreText (drop 1 (vllm_arg_map F)) refl)

  tgi-NamesAreText : NamesAreText (tgi_arg_map F)
  tgi-NamesAreText = (λ m. refl, nameless-NamesAreText (drop 1 (tgi_arg_map F)) refl)

  sglang-NamesAreText : NamesAreText (sglang_arg_map F)
  sglang-NamesAreText = (λ m. refl, nameless-NamesAreText (drop 1 (sglang_arg_map F)) refl)

  lmdeploy-NamesAreText : NamesAreText (lmdeploy_arg_map F)
  lmdeploy-NamesAreText = nameless-NamesAreText (lmdeploy_arg_map F) refl

  -- what one of the detectors of serving engines found in a command
  abbrev pub DetectedServer : List String → Dict (Value R) → Type 0
  DetectedServer command d =
      (detect_vllm_from_command F command ≡ some d)
      ⊎ (detect_tgi_from_command F command ≡ some d)
      ⊎ (detect_sglang_from_command F command ≡ some d)
      ⊎ (detect_lmdeploy_from_command F command ≡ some d)

  on_args-Entries :
      (parse : List String → Dict (Value R)) (o : Option (List String)) (d : Dict (Value R))
      → ((args : List String) → Entries CleanName (parse args))
      → on_args F parse o ≡ some d
      → Entries CleanName d
  unfolding on_args
  on_args-Entries parse none d h e = absurd (cc)
  on_args-Entries parse (some args) d h e = subst (Entries CleanName) (eq_of_some e) (h args)

  DetectedServer-CleanName :
      (command : List String) (d : Dict (Value R)) → DetectedServer command d → Entries CleanName d
  unfolding detect_vllm_from_command detect_tgi_from_command detect_sglang_from_command
      detect_lmdeploy_from_command
  DetectedServer-CleanName command d (inl e) =
      on_args-Entries _ _ d
        (λ args.
          normalize_speculative-CleanName _
            (parse_server_args-CleanName args "vllm" (vllm_arg_map F) true vllm-NamesAreText))
        e
  DetectedServer-CleanName command d (inr (inl e)) =
      on_args-Entries _ _ d
        (λ args. parse_server_args-CleanName args "tgi" (tgi_arg_map F) false tgi-NamesAreText) e
  DetectedServer-CleanName command d (inr (inr (inl e))) =
      on_args-Entries _ _ d
        (λ args.
          parse_server_args-CleanName args "sglang" (sglang_arg_map F) false sglang-NamesAreText)
        e
  DetectedServer-CleanName command d (inr (inr (inr e))) =
      on_args-Entries _ _ d
        (λ args.
          parse_server_args-CleanName args "lmdeploy" (lmdeploy_arg_map F) true
            lmdeploy-NamesAreText)
        e

  -- Whatever the command of a container, a serving engine's detector records as the model's name
  -- only a non-empty text with no `$VAR` left in it, from a flag or from the positional.
  pub DetectedServer-IsName :
      (command : List String) (d : Dict (Value R)) (v : Value R)
      → DetectedServer command d
      → Dict.lookup "model_name" d ≡ some v
      → IsName v
  DetectedServer-IsName command d v h e =
      lookup-Entries CleanName "model_name" v d (DetectedServer-CleanName command d h) e
        (eq_refl "model_name")
