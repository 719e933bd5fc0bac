-- ===== src/Source/Models.antt =====
-- `detect_model_from_containers`. `lex` stands for the tokens of a shell script.
pub mod Laws
use aibom_webhook_service.Base.{
  String, Bool, true, false, not, ◌&&◌, Option, none, some, List, [], ◌∷◌, ◌++◌, if◌then◌else◌,
  or_else,
}
use aibom_webhook_service.Base.Dict
use aibom_webhook_service.Base.Dict.{Dict}
use aibom_webhook_service.Value.{Value, PyFloat}
use aibom_webhook_service.Command.Segments.{flatten_container_command}
use aibom_webhook_service.Engine.Server.{
  Spec, detect_vllm_from_command, detect_tgi_from_command, detect_sglang_from_command,
  detect_lmdeploy_from_command, detect_vllm_from_entrypoint_args, detect_tgi_from_entrypoint_args,
}
use aibom_webhook_service.Engine.Trl.{detect_trl_from_command}
use aibom_webhook_service.Engine.Launch.{detect_parallelization_from_command}

module _ {V : Type 0} where
  -- whether a result is true: not None and not empty
  abbrev pub holds : Option (Dict V) → Bool
  holds none = false
  holds (some []) = false
  holds (some (p ∷ d)) = true

  -- `x or y` on results
  infixr 30 ◌<|>◌
  abbrev pub ◌<|>◌ : Option (Dict V) → Option (Dict V) → Option (Dict V)
  x <|> y = if holds x then x else y

  -- `dict(x or {})`
  abbrev pub or_empty : Option (Dict V) → Dict V
  or_empty none = []
  or_empty (some d) = d

module _ {R : Type 0} (F : PyFloat R) (lex : String → Option (List String)) where
  pub tokens_of : Spec → List String
  unfolding flatten_container_command
  tokens_of c = flatten_container_command lex (c.command ++ c.args)

  -- the detectors in the order in which a container's command is shown to them
  unfoldable pub model_of : Spec → Option (Dict (Value R))
  unfolding tokens_of detect_vllm_from_command detect_tgi_from_command detect_sglang_from_command
      detect_lmdeploy_from_command detect_trl_from_command detect_vllm_from_entrypoint_args
      detect_tgi_from_entrypoint_args
  model_of c =
      let tokens = tokens_of c in
      detect_vllm_from_command F tokens
      <|> detect_tgi_from_command F tokens
      <|> detect_sglang_from_command F tokens
      <|> detect_lmdeploy_from_command F tokens
      <|> detect_trl_from_command F tokens
      <|> detect_vllm_from_entrypoint_args F c
      <|> detect_tgi_from_entrypoint_args F c

  unfoldable pub parallel_of : Spec → Option (Dict (Value R))
  unfolding tokens_of detect_parallelization_from_command
  parallel_of c = detect_parallelization_from_command (tokens_of c)

  -- the loop, left once both results are there
  unfoldable pub search_from :
      List Spec
      → Option (Dict (Value R))
      → Option (Dict (Value R))
      → Option (Dict (Value R)) × Option (Dict (Value R))
  unfolding model_of parallel_of
  search_from [] model parallel = (model, parallel)
  search_from (c ∷ containers) model parallel =
      let model' = or_else model (model_of c) in
      let parallel' = or_else parallel (parallel_of c) in
      let rest = search_from containers model' parallel' in
      if holds model' && holds parallel' then (model', parallel') else rest

  abbrev pub merged : Option (Dict (Value R)) × Option (Dict (Value R)) → Dict (Value R)
  merged (model, parallel) =
      if holds parallel then Dict.update (or_empty model) (or_empty parallel) else or_empty model

  unfoldable pub detect_model_from_containers : List Spec → Dict (Value R)
  unfolding search_from Dict.update
  detect_model_from_containers containers = merged (search_from containers none none)
