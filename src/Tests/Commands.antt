-- ===== src/Tests/Commands.antt =====
-- Commands, flags and engines.
use aibom_webhook_service.Base.{
  ℕ, String, ◌≡◌, refl, ◌<>◌, none, some, List, [], ◌∷◌, true, false, inl, All, keep, not,
}
use aibom_webhook_service.Base.Int.{pos}
use aibom_webhook_service.Base.Dict
use aibom_webhook_service.Base.Dict.{Dict}
use aibom_webhook_service.Base.Text.{contains_char}
use aibom_webhook_service.Value.{Value, PyFloat, text, int, bool}
use aibom_webhook_service.Command.Segments.{is_package_install, invocation_segments, is_separator}
use aibom_webhook_service.Command.Segments.Laws.{
  IsWord, IsCommand, script_of, invocation_segments-script_of,
}
use aibom_webhook_service.Command.Flags.{Parse, parse_from, parse_flags, negation, split_flag}
use aibom_webhook_service.Command.Convert.{is_flag_token}
use aibom_webhook_service.Command.Flags.Spelling.{long_flag, parse_from-long_flag}
use aibom_webhook_service.Model.Quantization.{detect_quantization_from_name}
use aibom_webhook_service.Engine.ArgMaps.{tgi_arg_map, as_int, as_size}
use aibom_webhook_service.Engine.Invocation.{server_args, vllm_here}
use aibom_webhook_service.Engine.Invocation.Laws.{vllm, server_args-IsWord}
use aibom_webhook_service.Engine.Server.{detect_vllm_from_command}
use aibom_webhook_service.Engine.Server.Laws.{IsName, DetectedServer-IsName}
use aibom_webhook_service.Engine.Trl.{detect_trl_from_command, adaptation_method}

-- a float is read from its digits only
abbrev pub floats : PyFloat ℕ
floats = record {
  parse = λ s. none;
  is_finite = λ r. true;
  is_integer = λ r. true;
  trunc = λ r. some (pos r);
  scale = λ r n. r;
  is_zero_float = λ r. false;
  loads = λ s. none;
}

abbrev install : List String
install = "pip" ∷ "install" ∷ "vllm" ∷ []

abbrev serve : List String
serve = "exec" ∷ "vllm" ∷ "serve" ∷ "org/m-AWQ" ∷ "--max-model-len" ∷ "32K" ∷ "--seed=7" ∷ []

abbrev script : List String
script = script_of "&&" (install ∷ serve ∷ [])

abbrev served : List String
served = "org/m-AWQ" ∷ "--max-model-len" ∷ "32K" ∷ "--seed=7" ∷ []

abbrev report : Dict (Value ℕ)
report =
    ("serving_engine", text "vllm")
    ∷ ("max_model_len", int (pos 32768))
    ∷ ("seed", int (pos 7))
    ∷ ("model_name", text "org/m-AWQ")
    ∷ ("quantization_method", text "awq")
    ∷ ("quantization_bits", int (pos 4))
    ∷ []

vllm_report : detect_vllm_from_command floats script ≡ some report
unfolding detect_vllm_from_command as_int as_size detect_quantization_from_name
vllm_report = refl

DetectedServer-IsName_example : IsName {R = ℕ} (text "org/m-AWQ")
DetectedServer-IsName_example =
    DetectedServer-IsName floats script report (text "org/m-AWQ") (inl vllm_report)
      (unfold Dict.lookup in refl)

-- one place where the segments are written out
commands : All IsCommand (install ∷ serve ∷ [])
commands = (
  (λ e. cc, (unfold is_separator in (refl, (refl, (refl, tt))))),
  (
    (λ e. cc, (unfold is_separator in (refl, (refl, (refl, (refl, (refl, (refl, (refl, tt))))))))),
    tt,
  ),
)

abbrev bare_words : List String
bare_words = ";" ∷ "a" ∷ "&&" ∷ "\n" ∷ "b" ∷ "c" ∷ []

invocation_segments-script_of_example :
    invocation_segments (script_of "&&" (install ∷ serve ∷ []))
    ≡ keep (λ seg. not (is_package_install seg)) (install ∷ serve ∷ [])
invocation_segments-script_of_example =
    invocation_segments-script_of "&&" (install ∷ serve ∷ []) (unfold is_separator in refl) commands

server_args-IsWord_example : All IsWord served
server_args-IsWord_example =
    server_args-IsWord vllm script served (unfold server_args vllm_here in refl)

abbrev before : Parse ℕ
before = record { result = []; positional = none; expect_positional = true }

abbrev unexpecting : Parse ℕ
unexpecting = record { result = []; positional = none; expect_positional = false }

parse_from-long_flag_example :
    parse_from
      (tgi_arg_map floats)
      "-"
      false
      ((long_flag "num_shard" <> String.◌∷◌ "=" "4") ∷ "m" ∷ [])
      before
    ≡ parse_from (tgi_arg_map floats) "-" false (long_flag "num_shard" ∷ "4" ∷ "m" ∷ []) before
parse_from-long_flag_example =
    parse_from-long_flag (tgi_arg_map floats) "-" false "num_shard" "4" "tensor_parallel_size"
      as_int ("m" ∷ []) before (unfold contains_char in refl) (unfold is_flag_token in refl)
      (unfold parse_flags negation split_flag in refl)

abbrev flags : Dict (Value ℕ)
flags = ("use_peft", bool true) ∷ ("lora_rank", int (pos 8)) ∷ ("load_in_4bit", bool true) ∷ []

qlora : adaptation_method flags ≡ some "qlora"
unfolding adaptation_method
qlora = refl

trl_run :
    detect_trl_from_command floats
      ("trl" ∷ "sft" ∷ "--use-peft" ∷ "--lora_r=8" ∷ "--load_in_4bit" ∷ "yes" ∷ [])
    ≡ some (
        ("training_framework", text "trl")
        ∷ ("lora_rank", int (pos 8))
        ∷ ("adaptation_method", text "qlora")
        ∷ [])
unfolding detect_trl_from_command as_int
trl_run = refl
