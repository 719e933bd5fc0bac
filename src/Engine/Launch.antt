-- ===== src/Engine/Launch.antt =====
-- `detect_parallelization_from_command` and what it is made of.
pub mod Laws
use aibom_webhook_service.Base.{
  ℕ, String, ◌<>◌, Bool, true, false, not, ◌&&◌, ◌||◌, Option, none, some, List, [], ◌∷◌, map, ◌==◌,
  if◌then◌else◌, any, nat_eq, ltb, or_else,
}
use aibom_webhook_service.Base.Dict
use aibom_webhook_service.Base.Dict.{Dict}
use aibom_webhook_service.Base.Int.{ℤ, pos, negsuc}
use aibom_webhook_service.Base.Text.{
  starts_with, contains_char, partition, rpartition, basename, all_text,
}
use aibom_webhook_service.Value.{Value, text}
use aibom_webhook_service.Command.Segments.{one_of, command_words, invocation_segments}
use aibom_webhook_service.Command.Convert.{parse_int}
use aibom_webhook_service.Command.Flags.{split_flag}

abbrev launchers : Dict String
launchers =
    ("accelerate", "accelerate")
    ∷ ("deepspeed", "deepspeed")
    ∷ ("torchrun", "torchrun")
    ∷ ("mpirun", "mpirun")
    ∷ ("mpiexec", "mpirun")
    ∷ []

abbrev launcher_modules : Dict String
launcher_modules =
    ("torch.distributed.run", "torchrun")
    ∷ ("torch.distributed.launch", "torchrun")
    ∷ ("accelerate.commands.launch", "accelerate")
    ∷ []

-- `some none` is a configuration that is known to be no parallel one
abbrev accelerate_config_strategies : Dict (Option String)
accelerate_config_strategies =
    ("fsdp1", some "fsdp")
    ∷ ("fsdp2", some "fsdp")
    ∷ ("zero1", some "deepspeed")
    ∷ ("zero2", some "deepspeed")
    ∷ ("zero3", some "deepspeed")
    ∷ ("multi_gpu", some "data_parallel")
    ∷ ("single_gpu", none)
    ∷ []

-- `--flag=value` or `--flag value`, the first one
unfoldable pub find_flag_value : List String → List String → Option String
unfolding starts_with contains_char partition one_of
find_flag_value [] flag_names = none
find_flag_value (tok ∷ []) flag_names =
    let (key, val) = partition "=" tok in
    if starts_with tok "--" && contains_char "=" tok && one_of flag_names key then val else none
find_flag_value (tok ∷ next ∷ rest) flag_names =
    let found = find_flag_value (next ∷ rest) flag_names in
    let (key, val) = partition "=" tok in
    if starts_with tok "--" && contains_char "=" tok
    then (if one_of flag_names key then val else found)
    else if one_of flag_names tok
    then some next
    else found

-- the value behind the first `-m` that has one
module_arg : List String → Option String
module_arg [] = none
module_arg (tok ∷ []) = none
module_arg (tok ∷ next ∷ rest) =
    let found = module_arg (next ∷ rest) in if tok == "-m" then some next else found

unfoldable pub launcher_of : List String → Option String
unfolding command_words basename starts_with module_arg Dict.lookup
launcher_of segment = elim (command_words segment) [
  | [] ↦ none
  | word ∷ rest ↦
      if starts_with (basename word) "python"
      then (elim (module_arg rest) [
        | none ↦ Dict.lookup (basename word) launchers
        | some name ↦ Dict.lookup name launcher_modules
      ])
      else Dict.lookup (basename word) launchers
]

abbrev is_text : String → Option String → Bool
is_text s none = false
is_text s (some t) = t == s

-- `nnodes or "1"`
abbrev or_one : Option String → String
or_one none = "1"
or_one (some s) = if s == "" then "1" else s

unfoldable pub is_single_process_launch : Option String → List String → Bool
unfolding find_flag_value one_of
is_single_process_launch launcher tokens =
    if is_text "torchrun" launcher
    then is_text "1" (find_flag_value tokens ("--nproc_per_node" ∷ []))
      && one_of ("1" ∷ "1:1" ∷ []) (or_one (find_flag_value tokens ("--nnodes" ∷ [])))
    else is_text "mpirun" launcher
      && is_text "1" (find_flag_value tokens ("-np" ∷ "-n" ∷ "--np" ∷ []))

unfoldable pub underscore_flag : String → String
unfolding split_flag
underscore_flag tok =
    let (key, value) = split_flag tok "_" in
    elim value [ none ↦ key | some val ↦ key <> ("=" <> val) ]

-- `os.path.splitext(name)[0]` for a base name
unfoldable pub without_extension : String → String
unfolding rpartition
without_extension name = elim (rpartition "." name) [
  | none ↦ name
  | some (stem, ext) ↦ if all_text (λ c. nat_eq c b'.') stem then name else stem
]

-- the name of a configuration file; an empty or missing one has none
config_strategy : Option String → Option (Option String)
unfolding Dict.lookup without_extension basename
config_strategy none = none
config_strategy (some path) =
    if path == ""
    then none
    else Dict.lookup (without_extension (basename path)) accelerate_config_strategies

-- `_try_int(value)` is above one
more_than_one : Option String → Bool
unfolding parse_int
more_than_one none = false
more_than_one (some s) = elim (parse_int s) [ some (pos n) ↦ ltb 1 n | _ ↦ false ]

-- the tests behind the flags and the launcher, in the order of their `return`s
strategy_of : Option String → List String → Option String
unfolding config_strategy more_than_one is_single_process_launch starts_with one_of find_flag_value
strategy_of launcher tokens =
    if any (λ t. one_of ("--fsdp" ∷ "--use_fsdp" ∷ []) t || starts_with t "--fsdp=") tokens
    then some "fsdp"
    else if any
          (λ t.
            one_of ("--deepspeed" ∷ "--use_deepspeed" ∷ []) t
            || starts_with t "--deepspeed="
            || starts_with t "--deepspeed_config_file")
          tokens
        || is_text "deepspeed" launcher
    then some "deepspeed"
    else configured (
        config_strategy (
          find_flag_value tokens (
            if is_text "accelerate" launcher
            then "--accelerate_config" ∷ "--config_file" ∷ []
            else "--accelerate_config" ∷ [])))
  where
    configured : Option (Option String) → Option String
    configured (some strategy) = strategy
    configured none =
        if one_of tokens "--multi_gpu"
          || ((is_text "torchrun" launcher || is_text "mpirun" launcher)
              && not (is_single_process_launch launcher tokens))
          || more_than_one (find_flag_value tokens ("--num_processes" ∷ []))
        then some "data_parallel"
        else none

unfoldable pub segment_parallelization : List String → Option String
unfolding strategy_of launcher_of underscore_flag
segment_parallelization segment = strategy_of (launcher_of segment) (map underscore_flag segment)

-- the first strategy among the commands'
unfoldable pub first_strategy : List (List String) → Option String
unfolding segment_parallelization
first_strategy [] = none
first_strategy (seg ∷ rest) = or_else (segment_parallelization seg) (first_strategy rest)

unfoldable pub detect_parallelization_from_command :
    {R : Type 0} → List String → Option (Dict (Value R))
unfolding first_strategy invocation_segments
detect_parallelization_from_command tokens = elim (first_strategy (invocation_segments tokens)) [
  | none ↦ none
  | some strategy ↦ some (("parallelization_strategy", text strategy) ∷ [])
]
