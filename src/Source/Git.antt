-- ===== src/Source/Git.antt =====
-- The loop of `detect_git_clone_from_command` and what it is made of: the clones of a script, their
-- checkouts, and the clone that is reported.
pub mod Laws
use aibom_webhook_service.Base.{
  ℕ, zero, suc, code, String, Bool, true, false, not, ◌&&◌, ◌||◌, Option, none, some, List, [], ◌∷◌,
  ◌++◌, ◌-◌, ◌==◌, if◌then◌else◌, nat_eq, leb, or_else, get_elem?, length, is_some,
}
use aibom_webhook_service.Base.Text.{
  starts_with, ends_with, after_last, rstrip_by, take_text, text_length, basename, all_text,
  is_digit,
}
use aibom_webhook_service.Command.Segments.{one_of, command_words, split_segments}
use aibom_webhook_service.Command.Convert.{has_unexpanded_var}
use aibom_webhook_service.Engine.Launch.{find_flag_value}
use aibom_webhook_service.Source.Container.{given}
use aibom_webhook_service.Source.Path.{join_path, normpath}
use aibom_webhook_service.Source.Storage.{is_slash}

abbrev git_global_value_opts : List String
git_global_value_opts = "-C" ∷ "-c" ∷ "--git-dir" ∷ "--work-tree" ∷ "--namespace" ∷ []

abbrev git_clone_value_opts : List String
git_clone_value_opts =
    "-b" ∷ "--branch" ∷ "-o" ∷ "--origin" ∷ "--depth" ∷ "--reference" ∷ "--reference-if-able" ∷ "-u"
    ∷ "--upload-pack" ∷ "--template" ∷ "-c" ∷ "--config" ∷ "--separate-git-dir" ∷ "--shallow-since"
    ∷ "--shallow-exclude" ∷ "-j" ∷ "--jobs" ∷ "--filter" ∷ "--server-option" ∷ "--bundle-uri"
    ∷ "--revision" ∷ []

abbrev git_new_branch_opts : List String
git_new_branch_opts = "-b" ∷ "-B" ∷ "-c" ∷ "-C" ∷ "--orphan" ∷ []

abbrev git_unpinned_refs : List String
git_unpinned_refs = "HEAD" ∷ "FETCH_HEAD" ∷ "ORIG_HEAD" ∷ "-" ∷ "@" ∷ []

-- `os.path.join(a or "", b)`
joined : Option String → String → String
unfolding join_path
joined none b = join_path "" b
joined (some a) b = join_path a b

-- the tokens behind `git`: the subcommand, its arguments and the `-C` directory
git_from : List String → Option String → Option (String × List String × Option String)
unfolding joined one_of starts_with
git_from [] cdir = none
git_from (tok ∷ []) cdir = if starts_with tok "-" then none else some (tok, [], cdir)
git_from (tok ∷ next ∷ rest) cdir =
    let moved = git_from rest (some (joined cdir next)) in
    let skip = git_from rest cdir in
    let go_on = git_from (next ∷ rest) cdir in
    if not (starts_with tok "-")
    then some (tok, next ∷ rest, cdir)
    else if tok == "-C"
    then moved
    else if one_of git_global_value_opts tok
    then skip
    else go_on

unfoldable pub git_invocation : List String → Option (String × List String × Option String)
unfolding git_from command_words basename
git_invocation segment = elim (command_words segment) [
  | [] ↦ none
  | word ∷ rest ↦ if basename word == "git" then git_from rest none else none
]

-- an argument that is an option
is_option : String → Bool
unfolding starts_with
is_option a = starts_with a "-" && not (a == "-")

unfoldable pub positionals : List String → List String → Bool → List String
unfolding is_option one_of
positionals [] value_opts stop_at_dashdash = []
positionals (a ∷ []) value_opts stop_at_dashdash = if (a == "--") || is_option a then [] else a ∷ []
positionals (a ∷ next ∷ rest) value_opts stop_at_dashdash =
    let skip = positionals rest value_opts stop_at_dashdash in
    let go_on = positionals (next ∷ rest) value_opts stop_at_dashdash in
    if a == "--"
    then (if stop_at_dashdash then [] else next ∷ rest)
    else if is_option a
    then (if one_of value_opts a then skip else go_on)
    else a ∷ go_on

unfoldable pub clone_dir_name : String → String
unfolding after_last rstrip_by ends_with take_text
clone_dir_name repo =
    let name = after_last ":" (after_last "/" (rstrip_by is_slash repo)) in
    if ends_with name ".git" then take_text (text_length name - 4) name else name

unfoldable pub usable_ref : String → Bool
unfolding one_of has_unexpanded_var
usable_ref ref =
    not (ref == "") && not (one_of git_unpinned_refs ref) && not (has_unexpanded_var ref)

abbrev pub is_hex : ℕ → Bool
is_hex c = is_digit c || (leb b'a' c && leb c b'f') || (leb b'A' c && leb c b'F')

-- `_COMMIT_SHA_RE.fullmatch(ref)`
unfoldable pub is_sha : String → Bool
is_sha ref =
    all_text is_hex ref
    && ((leb 7 (text_length ref) && leb (text_length ref) 40) || nat_eq (text_length ref) 64)

unfoldable pub is_commit_ref : String → Bool
unfolding usable_ref is_sha
is_commit_ref ref = usable_ref ref && is_sha ref && not (all_text is_digit ref)

pub record Clone : Type 0 where
  pub repo : String
  pub dir : String
  pub commit : Option String
  pub branch : Option String

-- The variables of the loop; `primary` is a place in `clones`, whose entries are shared.
pub record Script : Type 0 where
  pub clones : List Clone
  pub cwd : Option String
  pub primary : Option ℕ

-- a text that passes a test
abbrev pub where_ok : (String → Bool) → Option String → Option String
where_ok test none = none
where_ok test (some ref) = if test ref then some ref else none

-- the place of the first clone with a directory
unfoldable place_of : String → List Clone → Option ℕ
place_of name [] = none
place_of name (c ∷ clones) = elim (place_of name clones) [
  | none ↦ if c.dir == name then some 0 else none
  | some i ↦ if c.dir == name then some 0 else some (suc i)
]

unfoldable clone_at : Option String → List Clone → Option ℕ
unfolding place_of basename normpath
clone_at path clones = elim (given path) [
  | none ↦ none
  | some p ↦ place_of (basename (normpath p)) clones
]

-- the clone at a place, changed
unfoldable pub changed : (Clone → Clone) → ℕ → List Clone → List Clone
changed f i [] = []
changed f zero (c ∷ clones) = f c ∷ clones
changed f (suc i) (c ∷ clones) = c ∷ changed f i clones

-- `cd target`
unfoldable pub run_cd : List String → Script → Script
unfolding clone_at joined
run_cd args s =
    let there = target args in
    record { clones = s.clones; cwd = there; primary = or_else (clone_at there s.clones) s.primary }
  where
    target : List String → Option String
    target [] = none
    target (t ∷ rest) = if (t == "-") || (t == "~") then none else some (joined s.cwd t)

-- the directory of a clone, given or made of the repository's name
dir_of : String → List String → String
unfolding clone_dir_name basename normpath
dir_of repo [] = clone_dir_name repo
dir_of repo (d ∷ rest) = basename (normpath d)

-- a clone with the value of its branch option and its positionals
unfoldable cloned : Option String → List String → Script → Script
unfolding dir_of usable_ref has_unexpanded_var
cloned branch [] s = s
cloned branch (repo ∷ rest) s = if has_unexpanded_var repo then s else record s {
  clones =
      s.clones
      ++ (record {
        repo = repo;
        dir = dir_of repo rest;
        commit = none;
        branch = where_ok usable_ref branch;
      }
          ∷ []);
}

-- `git clone args`
unfoldable pub run_clone : List String → Script → Script
unfolding cloned positionals find_flag_value
run_clone args s =
    cloned (find_flag_value args ("-b" ∷ "--branch" ∷ []))
      (positionals args git_clone_value_opts false) s

-- what a checkout makes of its clone, from the new branch and the first positional
unfoldable pub checked_out : Option String → Option String → Clone → Clone
unfolding usable_ref is_commit_ref
checked_out (some new_branch) target c = record c {
  branch = where_ok usable_ref (some new_branch);
  commit = where_ok is_commit_ref target;
}
checked_out none (some target) c = record c {
  commit = where_ok is_commit_ref (some target);
  branch = where_ok (λ t. usable_ref t && not (is_commit_ref t)) (some target);
}
checked_out none none c = c

abbrev first_of : List String → Option String
first_of [] = none
first_of (t ∷ rest) = some t

-- the only clone, if there is but one
abbrev only_clone : List Clone → Option ℕ
only_clone (c ∷ []) = some 0
only_clone other = none

-- a checkout of a place, if it was found; `named` says whether `-C` named it
unfoldable checkout_at : (Clone → Clone) → Bool → Option ℕ → Script → Script
unfolding changed
checkout_at f named none s = s
checkout_at f named (some i) s = record s {
  clones = changed f i s.clones;
  primary = if named then some i else s.primary;
}

-- `git checkout args` or `git switch args`, run with `-C cdir`
unfoldable pub run_checkout : List String → Option String → Script → Script
unfolding clone_at joined checked_out checkout_at find_flag_value positionals
run_checkout args cdir s =
    checkout_at
      (checked_out (given (find_flag_value args git_new_branch_opts))
        (given (first_of (positionals args git_new_branch_opts true))))
      (is_some (given cdir))
      (or_else (clone_at (there (given cdir)) s.clones) (only_clone s.clones)) s
  where
    there : Option String → Option String
    there none = s.cwd
    there (some d) = some (joined s.cwd d)

unfoldable run_git : Option (String × List String × Option String) → Script → Script
unfolding run_clone run_checkout
run_git none s = s
run_git (some (sub, args, cdir)) s =
    if sub == "clone"
    then run_clone args s
    else if (sub == "checkout") || (sub == "switch")
    then run_checkout args cdir s
    else s

-- one command of the script
unfoldable pub run_segment : List String → Script → Script
unfolding run_cd run_git git_invocation command_words
run_segment segment s = elim (command_words segment) [
  | [] ↦ run_git (git_invocation segment) s
  | word ∷ rest ↦ if word == "cd" then run_cd rest s else run_git (git_invocation segment) s
]

unfoldable pub run_segments : List (List String) → Script → Script
unfolding run_segment
run_segments [] s = s
run_segments (segment ∷ rest) s = run_segments rest (run_segment segment s)

-- `primary or (clones[0] if clones else None)`
abbrev chosen_from : Option ℕ → List Clone → Option Clone
chosen_from none clones = get_elem? clones 0
chosen_from (some i) clones = get_elem? clones i

unfoldable pub chosen : Script → Option Clone
chosen s = chosen_from s.primary s.clones

abbrev pub no_clones : Script
no_clones = record { clones = []; cwd = none; primary = none }

unfoldable pub clone_of_command : List String → Option Clone
unfolding chosen run_segments split_segments
clone_of_command tokens = chosen (run_segments (split_segments tokens) no_clones)
