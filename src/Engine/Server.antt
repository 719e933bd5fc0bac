-- ===== src/Engine/Server.antt =====
-- `_parse_vllm_args`, `_parse_server_args` and the detectors built on them.
pub mod Laws
use aibom_webhook_service.Base.{
  ℕ, code, String, ◌<>◌, Bool, true, false, not, ◌&&◌, ◌||◌, Option, none, some, List, [], ◌∷◌,
  ◌==◌, if◌then◌else◌, nat_eq, is_some, or_else, drop,
}
use aibom_webhook_service.Base.Dict
use aibom_webhook_service.Base.Dict.{Dict}
use aibom_webhook_service.Base.Text.{
  rpartition, partition, ends_with, starts_with, contains_char, after_last, chomp,
}
use aibom_webhook_service.Value.{Value, PyFloat, text, obj, to_fields}
use aibom_webhook_service.Command.Convert.{has_unexpanded_var}
use aibom_webhook_service.Command.Flags.{ArgMap, parse_flags}
use aibom_webhook_service.Model.Quantization.{detect_quantization_from_name}
use aibom_webhook_service.Engine.Invocation.{
  server_args, vllm_here, tgi_here, sglang_here, lmdeploy_here,
}
use aibom_webhook_service.Engine.ArgMaps.{
  vllm_arg_map, tgi_arg_map, sglang_arg_map, lmdeploy_arg_map,
}

-- What the detectors read of an entry of containers.json: `none` is a missing or empty value.
pub record Spec : Type 0 where
  pub image : Option String
  pub command : List String
  pub args : List String

-- the image reference without its tag and digest
unfoldable pub strip_tag_digest : String → String
unfolding rpartition partition
strip_tag_digest ref = elim (rpartition "/" (partition "@" ref).0) [
  | none ↦ (partition ":" (partition "@" ref).0).0
  | some (head, last) ↦ head <> ("/" <> (partition ":" last).0)
]

-- `(?:^|/)name$` at the end of a reference, where a final line feed may follow
unfoldable pub ends_with_part : String → String → Bool
unfolding after_last chomp
ends_with_part ref name = chomp (after_last "/" ref) == name

module _ {R : Type 0} (F : PyFloat R) where
  -- the model's name as a text
  model_name_of : Dict (Value R) → Option String
  unfolding Dict.lookup
  model_name_of d = elim (Dict.lookup "model_name" d) [ some (text name) ↦ some name | _ ↦ none ]

  -- a positional that is the model's name, where no flag gave it
  add_positional : Option String → Dict (Value R) → Dict (Value R)
  unfolding Dict.lookup Dict.insert has_unexpanded_var
  add_positional none d = d
  add_positional (some name) d =
      if not (is_some (Dict.lookup "model_name" d))
        && not (name == "")
        && not (has_unexpanded_var name)
      then Dict.insert "model_name" (text name) d
      else d

  merge_quant : Option (Dict (Value R)) → Dict (Value R) → Dict (Value R)
  unfolding Dict.update
  merge_quant none d = d
  merge_quant (some quant) d = Dict.update d quant

  quant_of : Option String → Option (Dict (Value R))
  quant_of none = none
  quant_of (some name) = detect_quantization_from_name name

  -- the quantization in the model's name, where no flag gave one
  add_quantization : Dict (Value R) → Dict (Value R)
  unfolding Dict.lookup merge_quant model_name_of
  add_quantization d =
      if is_some (Dict.lookup "quantization" d)
      then d
      else merge_quant (quant_of (model_name_of d)) d

  -- `{"serving_engine": engine, **parsed}`
  start : String → Dict (Value R) → Dict (Value R)
  unfolding Dict.update
  start engine parsed = Dict.update (("serving_engine", text engine) ∷ []) parsed

  unfoldable pub parse_server_args : List String → String → ArgMap R → Bool → Dict (Value R)
  unfolding start add_positional add_quantization quant_of parse_flags
  parse_server_args args engine arg_map positional_model =
      let (parsed, positional) = parse_flags arg_map "-" false args in
      add_quantization (
        if positional_model
        then add_positional positional (start engine parsed)
        else start engine parsed)

  moved : String → String → Dict (Value R) → Dict (Value R) → Dict (Value R)
  unfolding Dict.lookup Dict.insert
  moved src dst d into = elim (Dict.lookup src d) [ none ↦ into | some v ↦ Dict.insert dst v into ]

  -- the two older flags in the shape of `--speculative-config`
  normalize_speculative : Dict (Value R) → Dict (Value R)
  unfolding moved Dict.lookup Dict.insert Dict.erase
  normalize_speculative d =
      if not (is_some (Dict.lookup "speculative_config" d))
        && (is_some (Dict.lookup "speculative_model" d)
            || is_some (Dict.lookup "num_speculative_tokens" d))
      then Dict.insert "speculative_config"
          (obj (
            to_fields (
              moved "num_speculative_tokens" "num_speculative_tokens" d
                (moved "speculative_model" "model" d []))))
          (Dict.erase "num_speculative_tokens" (Dict.erase "speculative_model" d))
      else d

  unfoldable pub parse_vllm_args : List String → Dict (Value R)
  unfolding parse_server_args normalize_speculative
  parse_vllm_args args = normalize_speculative (parse_server_args args "vllm" (vllm_arg_map F) true)

  on_args : (List String → Dict (Value R)) → Option (List String) → Option (Dict (Value R))
  on_args parse none = none
  on_args parse (some args) = some (parse args)

  unfoldable pub detect_vllm_from_command : List String → Option (Dict (Value R))
  unfolding on_args parse_vllm_args server_args vllm_here
  detect_vllm_from_command command = on_args parse_vllm_args (server_args vllm_here command)

  unfoldable pub detect_tgi_from_command : List String → Option (Dict (Value R))
  unfolding on_args parse_server_args server_args tgi_here
  detect_tgi_from_command command =
      on_args (λ args. parse_server_args args "tgi" (tgi_arg_map F) false)
        (server_args tgi_here command)

  unfoldable pub detect_sglang_from_command : List String → Option (Dict (Value R))
  unfolding on_args parse_server_args server_args sglang_here
  detect_sglang_from_command command =
      on_args (λ args. parse_server_args args "sglang" (sglang_arg_map F) false)
        (server_args sglang_here command)

  unfoldable pub detect_lmdeploy_from_command : List String → Option (Dict (Value R))
  unfolding on_args parse_server_args server_args lmdeploy_here
  detect_lmdeploy_from_command command =
      on_args (λ args. parse_server_args args "lmdeploy" (lmdeploy_arg_map F) true)
        (server_args lmdeploy_here command)

-- `(?:^|/)vllm-openai$`, `(?:^|/)vllm/[^/]+$` or `(?:^|/)llm-d-(?:xpu|cpu|rocm)(?:-dev)?$`
unfoldable pub is_vllm_name : String → Bool
unfolding ends_with_part rpartition after_last
is_vllm_name ref =
    ends_with_part ref "vllm-openai"
    || under_vllm (rpartition "/" ref)
    || ends_with_part ref "llm-d-xpu"
    || ends_with_part ref "llm-d-cpu"
    || ends_with_part ref "llm-d-rocm"
    || ends_with_part ref "llm-d-xpu-dev"
    || ends_with_part ref "llm-d-cpu-dev"
    || ends_with_part ref "llm-d-rocm-dev"
  where
    under_vllm : Option (String × String) → Bool
    under_vllm none = false
    under_vllm (some (head, last)) = (after_last "/" head == "vllm") && not (last == "")

unfoldable pub is_vllm_image : Option String → Bool
unfolding strip_tag_digest is_vllm_name
is_vllm_image none = false
is_vllm_image (some image) = not (image == "") && is_vllm_name (strip_tag_digest image)

unfoldable pub is_tgi_image : Option String → Bool
unfolding strip_tag_digest ends_with_part
is_tgi_image none = false
is_tgi_image (some image) =
    not (image == "")
    && (ends_with_part (strip_tag_digest image) "text-generation-inference"
        || ends_with_part (strip_tag_digest image) "tgi")

abbrev is_empty : List String → Bool
is_empty [] = true
is_empty (x ∷ xs) = false

-- `args[1:]` where `args[:1] == ["serve"]`
abbrev without_serve : List String → List String
without_serve [] = []
without_serve (tok ∷ rest) = if tok == "serve" then rest else tok ∷ rest

module _ {R : Type 0} (F : PyFloat R) where
  nonempty_args : (List String → Dict (Value R)) → List String → Option (Dict (Value R))
  nonempty_args parse [] = none
  nonempty_args parse (tok ∷ rest) = some (parse (tok ∷ rest))

  unfoldable pub detect_vllm_from_entrypoint_args : Spec → Option (Dict (Value R))
  unfolding nonempty_args is_vllm_image parse_vllm_args
  detect_vllm_from_entrypoint_args c =
      if not (is_empty c.command) || not (is_vllm_image c.image)
      then none
      else nonempty_args (parse_vllm_args F) (without_serve c.args)

  unfoldable pub detect_tgi_from_entrypoint_args : Spec → Option (Dict (Value R))
  unfolding nonempty_args is_tgi_image parse_server_args
  detect_tgi_from_entrypoint_args c =
      if not (is_empty c.command) || not (is_tgi_image c.image)
      then none
      else nonempty_args (λ args. parse_server_args F args "tgi" (tgi_arg_map F) false) c.args
