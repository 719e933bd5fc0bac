-- ===== src/Command/Segments.antt =====
-- The tokens of a shell script, cut into commands. `lex` stands for the tokens that
-- `shlex.shlex` gives for a script, `none` for its `ValueError`.
pub mod Laws
use aibom_webhook_service.Base.{
  ℕ, zero, suc, ◌+◌, Char, code, String, ◌<>◌, Bool, true, false, not, ◌&&◌, ◌||◌, Option, none,
  some, List, [], ◌∷◌, ◌++◌, ◌==◌, if◌then◌else◌, nat_eq, drop, take, any, keep, leb, length, ltb,
}
use aibom_webhook_service.Base.Text.{
  starts_with, drop_text, contains_char, basename, all_text, is_alpha, is_alnum, partition, lower,
}

-- `tok in words`
unfoldable pub one_of : List String → String → Bool
one_of words tok = any (λ w. tok == w) words

abbrev pub shells : List String
shells = "sh" ∷ "bash" ∷ "zsh" ∷ "dash" ∷ "ash" ∷ []

-- one of `;&|` and the line feed
abbrev pub is_separator_char : ℕ → Bool
is_separator_char c = nat_eq c b';' || nat_eq c b'&' || nat_eq c b'|' || nat_eq c 10

abbrev pub command_prefixes : List String
command_prefixes = "exec" ∷ "nohup" ∷ "env" ∷ "time" ∷ "sudo" ∷ "command" ∷ []

abbrev pub package_managers : List String
package_managers =
    "pip" ∷ "pip3" ∷ "conda" ∷ "mamba" ∷ "micromamba" ∷ "apt" ∷ "apt-get" ∷ "apk" ∷ "yum" ∷ "dnf"
    ∷ "poetry" ∷ []

-- `^[A-Za-z_][A-Za-z0-9_]*=`, matched at the start of a token
name_then_equals : String → Bool
name_then_equals String.[] = false
name_then_equals (String.◌∷◌ c s) =
    nat_eq (code c) b'=' || ((is_alnum (code c) || nat_eq (code c) b'_') && name_then_equals s)

unfoldable pub is_assignment : String → Bool
unfolding name_then_equals
is_assignment String.[] = false
is_assignment (String.◌∷◌ c s) = (is_alpha (code c) || nat_eq (code c) b'_') && name_then_equals s

-- `tok and set(tok) <= _SEPARATOR_CHARS`
unfoldable pub is_separator : String → Bool
is_separator tok = not (tok == "") && all_text is_separator_char tok

-- the loop of `_split_segments`; `current` is the command that is being read
split_from : List String → List String → List (List String)
split_from [] [] = []
split_from (c ∷ current) [] = (c ∷ current) ∷ []
split_from [] (tok ∷ tokens) =
    let skip = split_from [] tokens in
    let start = split_from (tok ∷ []) tokens in if is_separator tok then skip else start
split_from (c ∷ current) (tok ∷ tokens) =
    let cut = split_from [] tokens in
    let same = split_from (c ∷ current ++ (tok ∷ [])) tokens in
    if is_separator tok then (c ∷ current) ∷ cut else same

unfoldable pub split_segments : List String → List (List String)
unfolding split_from is_separator
split_segments tokens = split_from [] tokens

-- `segment[_command_start(segment):]`: the command word and what follows it
unfoldable pub command_words : List String → List String
unfolding is_assignment one_of
command_words [] = []
command_words (tok ∷ rest) =
    let more = command_words rest in
    if is_assignment tok || one_of command_prefixes tok then more else tok ∷ rest

-- `rest` holds at most the two tokens behind the command word
installs : String → List String → Bool
installs word rest =
    if one_of package_managers word
    then true
    else if word == "uv"
    then any (one_of ("pip" ∷ "add" ∷ "sync" ∷ [])) (take 1 rest)
    else starts_with word "python" && is_pip rest
  where
    is_pip : List String → Bool
    is_pip (a ∷ b ∷ []) = (a == "-m") && (b == "pip")
    is_pip other = false

unfoldable pub is_package_install : List String → Bool
unfolding installs command_words
is_package_install segment = elim (command_words segment) [
  | [] ↦ false
  | word ∷ rest ↦ installs (basename word) (take 2 rest)
]

unfoldable pub invocation_segments : List String → List (List String)
unfolding split_segments is_package_install
invocation_segments tokens = keep (λ seg. not (is_package_install seg)) (split_segments tokens)

-- a separator token with a line feed in it
unfoldable pub ends_line : String → Bool
ends_line tok = contains_char "\n" tok && all_text is_separator_char tok

-- the loop of `_strip_comments`
unfoldable pub strip_from : Bool → List String → List String
unfolding ends_line starts_with
strip_from in_comment [] = []
strip_from in_comment (tok ∷ tokens) =
    let kept = strip_from false tokens in
    let dropped = strip_from true tokens in
    if ends_line tok
    then tok ∷ kept
    else if in_comment || starts_with tok "#"
    then dropped
    else tok ∷ kept

unfoldable pub strip_comments : List String → List String
unfolding strip_from
strip_comments tokens = strip_from false tokens

-- `" ".join(tokens)`
abbrev pub join_words : List String → String
join_words [] = ""
join_words (w ∷ []) = w
join_words (w ∷ v ∷ rest) = w <> (" " <> join_words (v ∷ rest))

-- the loop of `_shell_script` over the tokens behind the shell; the last one is never a flag
script_from : List String → Option String
script_from [] = none
script_from (tok ∷ []) = none
script_from (tok ∷ next ∷ rest) =
    let skip_value = script_from rest in
    let go_on = script_from (next ∷ rest) in
    if (tok == "-o") || (tok == "+o")
    then skip_value
    else if not (starts_with tok "-" || starts_with tok "+")
    then none
    else if not (starts_with tok "--") && contains_char "c" (drop_text 1 tok)
    then some (join_words (next ∷ rest))
    else go_on

unfoldable pub shell_script : List String → Option String
unfolding script_from one_of
shell_script [] = none
shell_script (shell ∷ rest) =
    if ltb (length rest) 2 || not (one_of shells (basename shell)) then none else script_from rest

-- `re.sub(r"\\\n", " ", script)`: a backslash and a line feed become a space
unfoldable pub join_continuations : String → String
join_continuations String.[] = String.[]
join_continuations (String.◌∷◌ c String.[]) = String.◌∷◌ c String.[]
join_continuations (String.◌∷◌ c (String.◌∷◌ d s)) =
    let joined = join_continuations s in
    let rest = join_continuations (String.◌∷◌ d s) in
    if nat_eq (code c) 92 && nat_eq (code d) 10 then String.◌∷◌ " " joined else String.◌∷◌ c rest

-- `command` is the container's `command` followed by its `args`
unfoldable pub flatten_container_command :
    (String → Option (List String)) → List String → List String
unfolding shell_script strip_comments join_continuations
flatten_container_command lex command = elim (shell_script command) [
  | none ↦ command
  | some script ↦ elim (lex (join_continuations script)) [
    | none ↦ command
    | some tokens ↦ strip_comments tokens
  ]
]
