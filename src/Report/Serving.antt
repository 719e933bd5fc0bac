-- ===== src/Report/Serving.antt =====
-- The fine-tuning and inference sections of `compile_aibom`, without the roles and the telemetry of
-- the pods.
use aibom_webhook_service.Base.{String, ◌&&◌, ◌||◌, List, [], ◌∷◌, ◌==◌, map, if◌then◌else◌}
use aibom_webhook_service.Base.Dict.{Dict}
use aibom_webhook_service.Value.{Value, Fields, null, text, obj, end, field, PyFloat, truthy}
use aibom_webhook_service.Report.Sections.{
  Inputs, or_value, try_int, try_float, annotation, noted, detected, seen, is_text_value,
}

-- `_VLLM_EXTRA_KEYS`
abbrev pub vllm_extra_keys : List String
vllm_extra_keys =
    "served_model_name" ∷ "max_num_seqs" ∷ "seed" ∷ "trust_remote_code" ∷ "enforce_eager"
    ∷ "enable_prefix_caching" ∷ []

-- the same for a dict that is a value
unfoldable pub field_get : {R : Type 0} → String → Fields R → Value R
field_get k end = null
field_get k (field j v fs) = let rest = field_get k fs in if j == k then v else rest

unfoldable pub entry_get : {R : Type 0} → String → Value R → Value R
unfolding field_get
entry_get k (obj fs) = field_get k fs
entry_get k other = null

module _ {R : Type 0} (F : PyFloat R) (i : Inputs R) where
  infixr 30 ◌or◌
  abbrev ◌or◌ : Value R → Value R → Value R
  a or b = or_value F a b

  -- the peft hook's lora is qlora if the model is quantized
  unfoldable pub runtime_adaptation : Value R
  unfolding seen truthy
  runtime_adaptation =
      let quantized =
        truthy F (seen F i "quantization_method") || truthy F (seen F i "quantization_bits") in
      if is_text_value F i "lora" (seen F i "adaptation_method") && quantized
      then text "qlora"
      else seen F i "adaptation_method"

  unfoldable pub fine_tuning_section : Dict (Value R)
  unfolding noted detected seen or_value try_int annotation runtime_adaptation
  fine_tuning_section =
      (
        "adaptation_method",
        noted F i "adaptation-method" or detected F i "adaptation_method" or runtime_adaptation,
      )
      ∷ (
        "lora_rank",
        try_int F (annotation F i "lora-rank") or detected F i "lora_rank" or seen F i "lora_rank",
      )
      ∷ (
        "lora_alpha",
        try_int F (annotation F i "lora-alpha")
            or detected F i "lora_alpha"
            or seen F i "lora_alpha",
      )
      ∷ []

  -- `dm.get("generation_config_overrides") or {}`
  unfoldable pub gen_override : String → Value R
  unfolding detected entry_get
  gen_override key = entry_get key (detected F i "generation_config_overrides")

  unfoldable pub inference_section : Dict (Value R)
  unfolding noted detected or_value try_int try_float annotation gen_override
  inference_section =
      ("serving_engine", noted F i "serving-engine" or detected F i "serving_engine")
      ∷ (
        "max_model_len",
        try_int F (annotation F i "max-model-len") or detected F i "max_model_len",
      )
      ∷ (
        "tensor_parallel_size",
        try_int F (annotation F i "tensor-parallel-size") or detected F i "tensor_parallel_size",
      )
      ∷ (
        "pipeline_parallel_size",
        try_int F (annotation F i "pipeline-parallel-size")
            or detected F i "pipeline_parallel_size",
      )
      ∷ ("enable_expert_parallel", detected F i "enable_expert_parallel")
      ∷ (
        "data_parallel_size",
        try_int F (annotation F i "data-parallel-size") or detected F i "data_parallel_size",
      )
      ∷ (
        "gpu_memory_utilization",
        try_float F (annotation F i "gpu-memory-utilization")
            or detected F i "gpu_memory_utilization",
      )
      ∷ ("temperature", try_float F (annotation F i "temperature") or gen_override "temperature")
      ∷ ("top_p", try_float F (annotation F i "top-p") or gen_override "top_p")
      ∷ ("top_k", try_int F (annotation F i "top-k") or gen_override "top_k")
      ∷ ("max_tokens", try_int F (annotation F i "max-tokens"))
      ∷ map (λ k. (k, detected F i k)) vllm_extra_keys
