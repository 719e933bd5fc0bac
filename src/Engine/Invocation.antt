-- ===== src/Engine/Invocation.antt =====
-- The arguments of an engine's own invocation: `_vllm_server_args`, `_tgi_server_args`,
-- `_sglang_server_args`, `_lmdeploy_server_args` and `_trl_args`.
pub mod Laws
use Prim.Native.String.{◌++◌ as ◌<>◌}
use aibom_webhook_service.Base.{
  ℕ, code, String, Bool, true, false, ◌&&◌, ◌||◌, not, Option, none, some, List, [], ◌∷◌, ◌==◌,
  if◌then◌else◌, nat_eq, drop, or_else,
}
use aibom_webhook_service.Base.Text.{
  basename, starts_with, contains, is_lower, all_text, at_end, span,
}
use aibom_webhook_service.Command.Segments.{invocation_segments}

-- Where an invocation's arguments begin: from the token before, the token and those behind it.
abbrev pub Here : Type 0
Here = Option String → String → List String → Option (List String)

-- the loop over the tokens of one command
unfoldable pub args_in : Here → Option String → List String → Option (List String)
args_in here before [] = none
args_in here before (tok ∷ rest) =
    let later = args_in here (some tok) rest in or_else (here before tok rest) later

-- the loop over the commands
unfoldable pub first_args : Here → List (List String) → Option (List String)
unfolding args_in
first_args here [] = none
first_args here (seg ∷ segs) =
    let later = first_args here segs in or_else (args_in here none seg) later

-- `rest[:1] == [word]`
abbrev next_is : String → List String → Bool
next_is word [] = false
next_is word (tok ∷ rest) = tok == word

-- `rest[:2] == [first, second]`
abbrev next_two : String → String → List String → Bool
next_two first second [] = false
next_two first second (tok ∷ rest) = (tok == first) && next_is second rest

abbrev after_m : Option String → Bool
after_m none = false
after_m (some tok) = tok == "-m"

unfoldable pub vllm_here : Here
unfolding basename starts_with contains
vllm_here before tok rest =
    if (basename tok == "vllm") && next_is "serve" rest
    then some (drop 1 rest)
    else if starts_with tok "vllm.entrypoints." && contains tok "api_server"
    then some rest
    else none

unfoldable pub tgi_here : Here
unfolding basename
tgi_here before tok rest = if basename tok == "text-generation-launcher" then some rest else none

unfoldable pub sglang_here : Here
unfolding starts_with
sglang_here before tok rest =
    if after_m before && ((tok == "sglang.launch_server") || starts_with tok "sglang.launch_server")
    then some rest
    else none

unfoldable pub lmdeploy_here : Here
unfolding basename
lmdeploy_here before tok rest =
    if ((basename tok == "lmdeploy") || (after_m before && (tok == "lmdeploy")))
      && next_two "serve" "api_server" rest
    then some (drop 2 rest)
    else none

-- `^[a-z][a-z_]*$`
unfoldable pub is_subcommand : String → Bool
unfolding span at_end
is_subcommand String.[] = false
is_subcommand (String.◌∷◌ c s) =
    is_lower (code c) && at_end (span (λ d. is_lower d || nat_eq d b'_') s).1

abbrev has_subcommand : List String → Bool
has_subcommand [] = false
has_subcommand (tok ∷ rest) = is_subcommand tok

unfoldable pub trl_here : Here
unfolding basename starts_with is_subcommand
trl_here before tok rest =
    if (basename tok == "trl") && has_subcommand rest
    then some (drop 1 rest)
    else if after_m before && ((tok == "trl") || starts_with tok "trl.")
    then some rest
    else none

unfoldable pub server_args : Here → List String → Option (List String)
unfolding first_args invocation_segments
server_args here tokens = first_args here (invocation_segments tokens)
