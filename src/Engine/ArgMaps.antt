-- ===== src/Engine/ArgMaps.antt =====
-- The argument maps of the engines and of trl.
use Prim.Native.String.{String}
use aibom_webhook_service.Base.{Option, none, some, [], ◌∷◌}
use aibom_webhook_service.Value.{Value, PyFloat, text, int, float}
use aibom_webhook_service.Command.Convert.{
  parse_int, finite_float, int_or_float, human_readable_int, parse_json_or_kv,
}
use aibom_webhook_service.Command.Flags.{Conversion, flag, conv, ArgMap}

module _ {R : Type 0} where
  -- `str`
  abbrev pub as_text : String → Option (Value R)
  as_text s = some (text s)

  -- `int`
  unfoldable pub as_int : String → Option (Value R)
  unfolding parse_int
  as_int s = elim (parse_int s) [ none ↦ none | some n ↦ some (int n) ]

  abbrev pub str : Conversion R
  str = conv as_text

  abbrev pub whole : Conversion R
  whole = conv as_int

module _ {R : Type 0} (F : PyFloat R) where
  unfoldable pub as_size : String → Option (Value R)
  unfolding human_readable_int
  as_size s = elim (human_readable_int F s) [ none ↦ none | some n ↦ some (int n) ]

  unfoldable pub as_float : String → Option (Value R)
  unfolding finite_float
  as_float s = elim (finite_float F s) [ none ↦ none | some f ↦ some (float f) ]

  abbrev pub vllm_arg_map : ArgMap R
  vllm_arg_map =
      ("--model", ("model_name", str))
      ∷ ("--served-model-name", ("served_model_name", str))
      ∷ ("--quantization", ("quantization", str))
      ∷ ("-q", ("quantization", str))
      ∷ ("--dtype", ("dtype", str))
      ∷ ("--max-model-len", ("max_model_len", conv as_size))
      ∷ ("--tensor-parallel-size", ("tensor_parallel_size", whole))
      ∷ ("-tp", ("tensor_parallel_size", whole))
      ∷ ("--pipeline-parallel-size", ("pipeline_parallel_size", whole))
      ∷ ("-pp", ("pipeline_parallel_size", whole))
      ∷ ("--enable-expert-parallel", ("enable_expert_parallel", flag))
      ∷ ("--data-parallel-size", ("data_parallel_size", whole))
      ∷ ("-dp", ("data_parallel_size", whole))
      ∷ ("--gpu-memory-utilization", ("gpu_memory_utilization", conv as_float))
      ∷ ("--max-num-seqs", ("max_num_seqs", whole))
      ∷ ("--seed", ("seed", whole))
      ∷ ("--trust-remote-code", ("trust_remote_code", flag))
      ∷ ("--enforce-eager", ("enforce_eager", flag))
      ∷ ("--enable-prefix-caching", ("enable_prefix_caching", flag))
      ∷ ("--port", ("port", whole))
      ∷ ("--speculative-model", ("speculative_model", str))
      ∷ ("--num-speculative-tokens", ("num_speculative_tokens", whole))
      ∷ ("--speculative-config", ("speculative_config", conv (parse_json_or_kv F)))
      ∷ ("--override-generation-config", ("generation_config_overrides", conv (parse_json_or_kv F)))
      ∷ []

  abbrev pub tgi_arg_map : ArgMap R
  tgi_arg_map =
      ("--model-id", ("model_name", str))
      ∷ ("--quantize", ("quantization", str))
      ∷ ("--dtype", ("dtype", str))
      ∷ ("--num-shard", ("tensor_parallel_size", whole))
      ∷ ("--max-total-tokens", ("max_model_len", whole))
      ∷ []

  abbrev pub sglang_arg_map : ArgMap R
  sglang_arg_map =
      ("--model-path", ("model_name", str))
      ∷ ("--served-model-name", ("served_model_name", str))
      ∷ ("--dtype", ("dtype", str))
      ∷ ("--quantization", ("quantization", str))
      ∷ ("--tp-size", ("tensor_parallel_size", whole))
      ∷ ("--tp", ("tensor_parallel_size", whole))
      ∷ ("--dp-size", ("data_parallel_size", whole))
      ∷ ("--dp", ("data_parallel_size", whole))
      ∷ ("--context-length", ("max_model_len", whole))
      ∷ ("--mem-fraction-static", ("gpu_memory_utilization", conv as_float))
      ∷ []

  abbrev pub lmdeploy_arg_map : ArgMap R
  lmdeploy_arg_map =
      ("--model-name", ("served_model_name", str))
      ∷ ("--model-format", ("quantization", str))
      ∷ ("--dtype", ("dtype", str))
      ∷ ("--tp", ("tensor_parallel_size", whole))
      ∷ ("--session-len", ("max_model_len", whole))
      ∷ ("--cache-max-entry-count", ("gpu_memory_utilization", conv as_float))
      ∷ []

  abbrev pub trl_arg_map : ArgMap R
  trl_arg_map =
      ("--model_name_or_path", ("model_name", str))
      ∷ ("--use_peft", ("use_peft", flag))
      ∷ ("--lora_r", ("lora_rank", whole))
      ∷ ("--lora_alpha", ("lora_alpha", whole))
      ∷ ("--use_dora", ("use_dora", flag))
      ∷ ("--use_rslora", ("use_rslora", flag))
      ∷ ("--load_in_4bit", ("load_in_4bit", flag))
      ∷ ("--load_in_8bit", ("load_in_8bit", flag))
      ∷ ("--learning_rate", ("learning_rate", conv as_float))
      ∷ ("--per_device_train_batch_size", ("batch_size", whole))
      ∷ ("--num_train_epochs", ("epochs", conv (int_or_float F)))
      ∷ ("--seed", ("random_seed", whole))
      ∷ []
