-- ===== src/Runtime/GitRefs.antt =====
-- `_find_git_dir`, `_git_common_dir`, `_is_sha` and `_resolve_git_ref`. The files are a parameter:
-- the content of each, `none` where there is no file, and which paths are directories.
pub mod Laws
use Prim.Native.String.{[], ◌∷◌, ◌++◌ as ◌<>◌}
use aibom_webhook_service.Base.{
  ℕ, zero, suc, code, String, Bool, true, false, not, ◌&&◌, ◌||◌, Option, none, some, List, ◌==◌,
  if◌then◌else◌, nat_eq, leb,
}
use aibom_webhook_service.Base.Text.{
  starts_with, drop_text, strip, split_on, all_text, text_length, is_digit, is_space, rpartition,
  rstrip_by,
}
use aibom_webhook_service.Source.Path.{join_path, normpath}
use aibom_webhook_service.Source.Storage.{is_slash}

pub record Files : Type 0 where
  pub is_dir : String → Bool
  pub content : String → Option String

abbrev pub is_lower_hex : ℕ → Bool
is_lower_hex c = is_digit c || (leb b'a' c && leb c b'f')

unfoldable pub is_sha : String → Bool
is_sha value =
    (nat_eq (text_length value) 40 || nat_eq (text_length value) 64) && all_text is_lower_hex value

-- `os.path.dirname(p)`
unfoldable pub dirname : String → String
unfolding rpartition rstrip_by
dirname p = elim (rpartition "/" p) [
  | none ↦ ""
  | some (head, tail) ↦ if all_text is_slash head then head <> "/" else rstrip_by is_slash head
]

module _ (files : Files) where
  -- what a `.git` file says, of a worktree
  from_file : String → String → Option (String × String)
  unfolding join_path normpath strip starts_with drop_text
  from_file path content =
      let line = strip content in
      if not (starts_with line "gitdir:")
      then none
      else some (path, normpath (join_path path (strip (drop_text 7 line))))

  -- the steps up that are left
  unfoldable pub find_git_dir : ℕ → String → Option (String × String)
  unfolding from_file join_path dirname
  find_git_dir zero path = none
  find_git_dir (suc n) path =
      let dot_git = join_path path ".git" in
      let above = find_git_dir n (dirname path) in
      if files.is_dir dot_git then some (path, dot_git) else (elim (files.content dot_git) [
        | some content ↦ from_file path content
        | none ↦ if dirname path == path then none else above
      ])

  abbrev pub max_walk : ℕ
  max_walk = 20

  unfoldable pub git_common_dir : String → String
  unfolding join_path normpath strip
  git_common_dir git_dir = elim (files.content (join_path git_dir "commondir")) [
    | none ↦ git_dir
    | some content ↦ normpath (join_path git_dir (strip content))
  ]

  abbrev pub sha_or_none : String → Option String
  sha_or_none value = if is_sha value then some value else none

  -- the words of a line, as `split()` gives them
  unfoldable words : String → List String
  words [] = List.[]
  words (c ∷ s) = elim (words s) [
    | List.[] ↦ if is_space (code c) then List.[] else List.◌∷◌ (c ∷ []) List.[]
    | List.◌∷◌ w ws ↦
        if is_space (code c)
        then List.◌∷◌ w ws
        else if starts_word s
        then List.◌∷◌ (c ∷ w) ws
        else List.◌∷◌ (c ∷ []) (List.◌∷◌ w ws)
  ]
    where
      starts_word : String → Bool
      starts_word [] = false
      starts_word (d ∷ t) = not (is_space (code d))

  -- a line with two words, whose second one is the reference
  found : String → List String → Option String → Option String
  unfolding is_sha
  found ref_path (List.◌∷◌ value (List.◌∷◌ name List.[])) rest =
      if name == ref_path then sha_or_none value else rest
  found ref_path other rest = rest

  -- the first line of `packed-refs` that names the reference
  unfoldable pub packed_ref : String → List String → Option String
  unfolding words found
  packed_ref ref_path List.[] = none
  packed_ref ref_path (List.◌∷◌ line lines) =
      found ref_path (words line) (packed_ref ref_path lines)

  in_packed : String → Option String → Option String
  unfolding packed_ref split_on
  in_packed ref_path none = none
  in_packed ref_path (some content) = packed_ref ref_path (split_on "\n" content)

  -- `n` symbolic references may still be followed
  unfoldable pub resolve_from : ℕ → String → String → Option String
  unfolding in_packed join_path strip starts_with drop_text is_sha
  resolve_from zero git_dir ref =
      if starts_with (strip ref) "ref:" then none else sha_or_none (strip ref)
  resolve_from (suc n) git_dir ref =
      let ref_path = strip (drop_text 4 (strip ref)) in
      if not (starts_with (strip ref) "ref:")
      then sha_or_none (strip ref)
      else (elim (files.content (join_path git_dir ref_path)) [
        | some content ↦ resolve_from n git_dir content
        | none ↦ in_packed ref_path (files.content (join_path git_dir "packed-refs"))
      ])

  unfoldable pub resolve_git_ref : String → String → Option String
  unfolding resolve_from
  resolve_git_ref = resolve_from 5
