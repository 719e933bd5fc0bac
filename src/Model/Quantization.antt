-- ===== src/Model/Quantization.antt =====
-- `detect_quantization_from_name` and its table of patterns.
pub mod Case
pub mod Keys
use aibom_webhook_service.Base.{
  false, ℕ, String, Bool, ◌||◌, Option, none, some, List, [], ◌∷◌, ◌==◌, if◌then◌else◌, nat_eq, not,
}
use aibom_webhook_service.Base.Dict.{Dict}
use aibom_webhook_service.Base.Int.{ℤ, pos}
use aibom_webhook_service.Base.Text.{is_digit, is_alpha, is_alnum}
use aibom_webhook_service.Base.Regex.{
  Regex, empty, char_if, many, seq, alt, group, not_behind, not_ahead, At, search_regex, lit,
  optional,
}
use aibom_webhook_service.Value.{Value, text, int}
use aibom_webhook_service.Command.Convert.{digits_value}

-- `[_-]`
abbrev dash : Regex
dash = char_if (λ c. nat_eq c b'_' || nat_eq c b'-')

-- where a name's segment ends
abbrev name_end : Regex
name_end = not_ahead is_alnum

abbrev digits : Regex
digits = group (many is_digit)

-- a literal behind `[_-]`, up to the end of its segment
abbrev tagged : String → Regex
tagged name = seq dash (seq (lit name) name_end)

-- `K(?:_[SML])?|[01]|XXS|XS|NL`
abbrev block_type : Regex
block_type =
    alt
      (seq (lit "k")
        (optional (seq (lit "_") (char_if (λ c. nat_eq c b's' || nat_eq c b'm' || nat_eq c b'l')))))
      (alt (char_if (λ c. nat_eq c b'0' || nat_eq c b'1'))
        (alt (lit "xxs") (alt (lit "xs") (lit "nl"))))

abbrev pub quant_patterns : List (Regex × String × Option ℕ)
quant_patterns =
    (seq (lit "gptq") (seq dash (lit "int8")), "gptq", some 8)
    ∷ (seq (lit "gptq") (seq dash (lit "int4")), "gptq", some 4)
    ∷ (seq (lit "gptq") (seq dash (lit "4bit")), "gptq", some 4)
    ∷ (lit "gptq", "gptq", some 4)
    ∷ (tagged "awq", "awq", some 4)
    ∷ (seq (lit "aqlm") (seq dash (seq digits (lit "bit"))), "aqlm", none)
    ∷ (lit "aqlm", "aqlm", some 2)
    ∷ (lit "exl2", "exl2", none)
    ∷ (seq (lit "squeezellm") (seq dash (seq digits (lit "bit"))), "squeezellm", none)
    ∷ (lit "squeezellm", "squeezellm", some 4)
    ∷ (seq (lit "hqq") (seq dash (seq digits (lit "bit"))), "hqq", none)
    ∷ (lit "hqq", "hqq", some 4)
    ∷ (seq (not_behind is_alpha) (lit "quip"), "quip", some 2)
    ∷ (lit "eetq", "eetq", some 8)
    ∷ (lit "autoround", "autoround", some 4)
    ∷ (tagged "nvfp4", "fp4", some 4)
    ∷ (tagged "mxfp4", "fp4", some 4)
    ∷ (tagged "fp4", "fp4", some 4)
    ∷ (tagged "fp8", "fp8", some 8)
    ∷ (seq (lit "bnb") (seq dash (lit "4bit")), "bitsandbytes", some 4)
    ∷ (seq (lit "bnb") (seq dash (lit "8bit")), "bitsandbytes", some 8)
    ∷ (tagged "nf4", "bitsandbytes", some 4)
    ∷ (tagged "int4", "int4", some 4)
    ∷ (tagged "int8", "int8", some 8)
    ∷ (tagged "marlin", "marlin", some 4)
    ∷ (
      seq (char_if (λ c. nat_eq c b'.' || nat_eq c b'_' || nat_eq c b'-'))
          (seq (lit "w") (seq digits (seq (lit "a") (seq (many is_digit) name_end)))),
      "compressed-tensors",
      none,
    )
    ∷ (
      seq (not_behind is_alnum) (
          seq (optional (lit "i")) (
            seq (lit "q")
              (seq (group (char_if is_digit)) (seq (lit "_") (seq block_type name_end))))),
      "gguf",
      none,
    )
    ∷ (lit "gguf", "gguf", none)
    ∷ (lit "ggml", "ggml", none)
    ∷ []

module _ {R : Type 0} where
  with_bits : String → Option ℕ → Dict (Value R)
  with_bits method none = ("quantization_method", text method) ∷ []
  with_bits method (some n) =
      ("quantization_method", text method) ∷ ("quantization_bits", int (pos n)) ∷ []

  -- the table's bit width, else the number in the group
  described : String → Option ℕ → Option String → Dict (Value R)
  unfolding with_bits digits_value
  described method (some bits) captured = with_bits method (some bits)
  described method none none = with_bits method none
  described method none (some number) = with_bits method (digits_value 0 false number)

  found : String → Option ℕ → Option At → Option (Dict (Value R)) → Option (Dict (Value R))
  unfolding described
  found method bits none later = later
  found method bits (some m) later = some (described method bits m.captured)

  -- the first pattern that is found decides
  detect_from : List (Regex × String × Option ℕ) → String → Option (Dict (Value R))
  unfolding found
  detect_from [] name = none
  detect_from ((pattern_, method, bits) ∷ rest) name =
      let later = detect_from rest name in found method bits (search_regex pattern_ name) later

  unfoldable pub detect_quantization_from_name : String → Option (Dict (Value R))
  unfolding detect_from search_regex
  detect_quantization_from_name model_name =
      if model_name == "" then none else detect_from quant_patterns model_name
