-- ===== src/Runtime/Capture.antt =====
-- What a flush captures beside the datasets: `_find_repo`, `_git_remote_url`, `_redact_git_url` and
-- `_capture_git_provenance`, with the part of `_flush` that calls the latter, and
-- `_capture_training_args`. The files, configparser and the git binary are parameters.
pub mod Laws
use aibom_webhook_service.Base.{
  String, Bool, true, false, not, ◌&&◌, ◌||◌, Option, none, some, List, [], ◌∷◌, ◌==◌, map,
  if◌then◌else◌,
}
use aibom_webhook_service.Base.Int.{ℤ}
use aibom_webhook_service.Base.Dict
use aibom_webhook_service.Base.Dict.{Dict}
use aibom_webhook_service.Base.Text.{starts_with, drop_text, strip, partition}
use aibom_webhook_service.Value.{Value, PyFloat, int, float, text, bool}
use aibom_webhook_service.Command.Convert.{parse_int, int_or_float}
use aibom_webhook_service.Command.Segments.{one_of}
use aibom_webhook_service.Source.Container.{given}
use aibom_webhook_service.Source.Path.{join_path, normpath}
use aibom_webhook_service.Source.Url
use aibom_webhook_service.Runtime.GitRefs.{
  Files, dirname, max_walk, find_git_dir, git_common_dir, resolve_git_ref,
}

-- a config file as configparser reads it
pub record Config : Type 0 where
  pub sections : List String
  -- the `url` of a section, `none` where there is none or reading it raises
  pub url : String → Option String

pub record Process : Type 0 where
  -- `__main__`'s file and `sys.argv[0]`
  pub main_file : Option String
  pub script : Option String
  pub cwd : String

pub record World : Type 0 where
  pub files : Files
  -- `none` where there is no config file, or one that cannot be read
  pub config : String → Option Config
  -- what `git status` prints, `none` where it fails
  pub status : String → Option String
  pub valid_netloc : String → Bool
  pub process : Process

-- `os.path.abspath(p)`
abbrev abspath : Process → String → String
abspath p path = normpath (join_path p.cwd path)

-- of the sections of remotes, origin's or else the first one
unfoldable pub remote_section : List String → Option String
unfolding one_of
remote_section [] = none
remote_section (r ∷ remotes) =
    if one_of (r ∷ remotes) "remote \"origin\"" then some "remote \"origin\"" else some r

unfoldable pub remotes_of : List String → List String
unfolding starts_with
remotes_of [] = []
remotes_of (s ∷ sections) =
    let rest = remotes_of sections in if starts_with s "remote \"" then s ∷ rest else rest

-- the branch that HEAD names, without refs/heads/
unfoldable pub head_branch : String → Option String
unfolding starts_with drop_text strip
head_branch head =
    let branch = strip (drop_text 4 head) in
    if starts_with head "ref:"
    then some (if starts_with branch "refs/heads/" then drop_text 11 branch else branch)
    else none

abbrev pub text_entry : {R : Type 0} → String → Option String → Dict (Value R)
text_entry key none = []
text_entry key (some s) = (key, text s) ∷ []

abbrev pub flag_entry : {R : Type 0} → String → Option Bool → Dict (Value R)
flag_entry key none = []
flag_entry key (some b) = (key, bool b) ∷ []

module _ (world : World) where
  -- `_redact_git_url`, the same code as postprocess.py's
  unfoldable pub redact_remote : Option String → Option String
  unfolding Url.redact_git_url
  redact_remote none = none
  redact_remote (some url) = some (Url.redact_git_url world.valid_netloc url)

  -- the repository of a script that is a file
  unfoldable pub repo_of_script : Option String → Option (String × String)
  unfolding find_git_dir normpath dirname join_path
  repo_of_script script = elim (given script) [
    | none ↦ none
    | some s ↦ elim (world.files.content s) [
      | none ↦ none
      | some content ↦
          find_git_dir world.files (max_walk world.files) (dirname (abspath world.process s))
    ]
  ]

  unfoldable pub find_repo : Option (String × String)
  unfolding repo_of_script find_git_dir normpath
  find_repo = elim (repo_of_script world.process.main_file) [
    | some found ↦ some found
    | none ↦ elim (repo_of_script world.process.script) [
      | some found ↦ some found
      | none ↦ find_git_dir world.files (max_walk world.files) (normpath world.process.cwd)
    ]
  ]

  url_of_section : Config → Option String → Option String
  unfolding redact_remote
  url_of_section config none = none
  url_of_section config (some section) = redact_remote (config.url section)

  unfoldable pub git_remote_url : String → Option String
  unfolding url_of_section remotes_of remote_section join_path
  git_remote_url git_dir = elim (world.config (join_path git_dir "config")) [
    | none ↦ none
    | some config ↦ url_of_section config (remote_section (remotes_of config.sections))
  ]

  -- `_git_dirty`, `none` also where it is not asked
  unfoldable pub git_dirty : Bool → String → Option Bool
  unfolding strip
  git_dirty check worktree =
      if check
      then (elim (world.status worktree) [ none ↦ none | some out ↦ some (not (strip out == "")) ])
      else none

  module _ {R : Type 0} where
    -- the entries of a checkout
    unfoldable pub checkout_info : Bool → String → String → String → String → Dict (Value R)
    unfolding head_branch git_remote_url git_dirty Dict.update Dict.insert
    checkout_info check worktree common head commit =
        Dict.update
          (Dict.update
            (Dict.update (("git_commit", text commit) ∷ [])
              (text_entry "git_branch" (head_branch head)))
            (text_entry "git_repository" (given (git_remote_url common))))
          (flag_entry "git_dirty" (git_dirty check worktree))

    -- what is captured: the entries, if HEAD is resolved to a commit
    unfoldable pub captured_info : Bool → Option (Dict (Value R))
    unfolding find_repo git_common_dir resolve_git_ref checkout_info join_path strip
    captured_info check = elim find_repo [
      | none ↦ none
      | some (worktree, git_dir) ↦ elim (world.files.content (join_path git_dir "HEAD")) [
        | none ↦ none
        | some content ↦
            let common = git_common_dir world.files git_dir in
            elim (resolve_git_ref world.files common (strip content)) [
              | none ↦ none
              | some commit ↦ some (checkout_info check worktree common (strip content) commit)
            ]
      ]
    ]

    unfoldable pub capture_git_provenance : Bool → Dict (Value R) → Dict (Value R)
    unfolding captured_info Dict.update
    capture_git_provenance check info = elim (captured_info check) [
      | none ↦ info
      | some found ↦ Dict.update info found
    ]

    -- a flush captures if it is the final one or the first one: `runtime_info` and `_git_captured`
    unfoldable pub flush_captures : Bool → Bool → Dict (Value R) × Bool → Dict (Value R) × Bool
    unfolding capture_git_provenance
    flush_captures final in_signal (info, git_captured) =
        if final || not git_captured
        then (capture_git_provenance (not in_signal) info, true)
        else (info, git_captured)

module _ {R : Type 0} (F : PyFloat R) where
  abbrev pub int_value : Option ℤ → Option (Value R)
  int_value none = none
  int_value (some n) = some (int n)

  abbrev pub float_value : Option R → Option (Value R)
  float_value none = none
  float_value (some r) = some (float r)

  abbrev pub as_int : String → Option (Value R)
  as_int s = int_value (parse_int s)

  abbrev pub as_float : String → Option (Value R)
  as_float s = float_value (F.parse s)

  -- `_arg_map`
  abbrev pub arg_map : Dict (String × (String → Option (Value R)))
  arg_map =
      ("--epochs", ("epochs", int_or_float F))
      ∷ ("--num-epochs", ("epochs", int_or_float F))
      ∷ ("--num_epochs", ("epochs", int_or_float F))
      ∷ ("--num-train-epochs", ("epochs", int_or_float F))
      ∷ ("--num_train_epochs", ("epochs", int_or_float F))
      ∷ ("--batch-size", ("batch_size", as_int))
      ∷ ("--batch_size", ("batch_size", as_int))
      ∷ ("--per-device-train-batch-size", ("batch_size", as_int))
      ∷ ("--per_device_train_batch_size", ("batch_size", as_int))
      ∷ ("--lr", ("learning_rate", as_float))
      ∷ ("--learning-rate", ("learning_rate", as_float))
      ∷ ("--learning_rate", ("learning_rate", as_float))
      ∷ []

  -- the value behind the equals sign, or else the next argument
  abbrev pub value_of_arg : Option String → List String → Option String
  value_of_arg (some s) [] = given (some s)
  value_of_arg none [] = none
  value_of_arg val (next ∷ rest) = given (elim (given val) [ none ↦ some next | some s ↦ some s ])

  abbrev pub put_value : String → Option (Value R) → Dict (Value R) → Dict (Value R)
  put_value name none info = info
  put_value name (some v) info = Dict.insert name v info

  -- one argument and those behind it; a value that cannot be converted changes nothing
  unfoldable pub capture_arg : String → List String → Dict (Value R) → Dict (Value R)
  unfolding Dict.lookup Dict.insert partition int_or_float parse_int
  capture_arg arg rest info = elim (Dict.lookup (partition "=" arg).0 arg_map) [
    | none ↦ info
    | some (name, conv) ↦ elim (value_of_arg (partition "=" arg).1 rest) [
      | none ↦ info
      | some val ↦ put_value name (conv val) info
    ]
  ]

  unfoldable pub capture_training_args : List String → Dict (Value R) → Dict (Value R)
  unfolding capture_arg
  capture_training_args [] info = info
  capture_training_args (arg ∷ rest) info = capture_training_args rest (capture_arg arg rest info)
