-- ===== src/Source/Url.antt =====
-- `redact_git_url` and `_normalize_repo`. `valid_netloc` stands for the check of bracketed hosts
-- and of Unicode that `urlsplit` makes of an authority, whose failure is its `ValueError`.
mod Segments
pub mod Laws
use Prim.Native.String.{[], ◌∷◌, ◌++◌ as ◌<>◌}
use aibom_webhook_service.Base.{
  ℕ, code, String, Bool, true, false, not, ◌&&◌, ◌||◌, Option, none, some, List, ◌==◌,
  if◌then◌else◌, nat_eq, leb, ◌-◌,
}
use aibom_webhook_service.Base.Text.{
  starts_with, ends_with, drop_text, take_text, text_length, contains, contains_char, partition,
  rpartition, all_text, is_alpha, is_lower, is_digit, is_alnum, lower, strip, span, at_end,
  rstrip_by,
}
use aibom_webhook_service.Command.Segments.{one_of}
use aibom_webhook_service.Source.Storage.{is_slash, on_one_line}

-- the characters that `urlsplit` drops everywhere: \t, \n and \r
abbrev pub is_unsafe : ℕ → Bool
is_unsafe c = nat_eq c 9 || nat_eq c 10 || nat_eq c 13

unfoldable pub drop_unsafe : String → String
drop_unsafe [] = []
drop_unsafe (c ∷ s) = let rest = drop_unsafe s in if is_unsafe (code c) then rest else c ∷ rest

-- the control characters and the space, dropped in front
unfoldable pub drop_controls : String → String
drop_controls [] = []
drop_controls (c ∷ s) = let rest = drop_controls s in if leb (code c) 32 then rest else c ∷ s

abbrev pub is_scheme_char : ℕ → Bool
is_scheme_char c = is_alnum c || nat_eq c b'+' || nat_eq c b'-' || nat_eq c b'.'

-- a scheme starts with a letter
is_scheme : String → Bool
is_scheme [] = false
is_scheme (c ∷ s) = is_alpha (code c) && all_text is_scheme_char (c ∷ s)

-- the scheme in lower case, and what is behind its colon
unfoldable split_scheme : String → String × String
unfolding partition is_scheme lower
split_scheme url =
    let (scheme, rest) = partition ":" url in
    elim rest [
      | none ↦ ("", url)
      | some behind ↦ if is_scheme scheme then (lower scheme, behind) else ("", url)
    ]

abbrev pub ends_netloc : ℕ → Bool
ends_netloc c = nat_eq c b'/' || nat_eq c b'?' || nat_eq c b'#'

-- the authority behind `//`, up to one of `/?#`
unfoldable split_netloc : String → String × String
unfolding starts_with drop_text span
split_netloc rest =
    if starts_with rest "//" then span (λ c. not (ends_netloc c)) (drop_text 2 rest) else ("", rest)

pub record Parts : Type 0 where
  pub scheme : String
  pub netloc : String
  pub path : String

-- the authority and the path of what stands behind the scheme
unfoldable parts_of : String → String → Parts
unfolding split_netloc partition
parts_of scheme rest =
    let (netloc, behind) = split_netloc rest in
    record { scheme = scheme; netloc = netloc; path = (partition "?" (partition "#" behind).0).0 }

abbrev pub web_schemes : List String
web_schemes = List.◌∷◌ "http" (List.◌∷◌ "https" (List.◌∷◌ "ftp" (List.◌∷◌ "ftps" List.[])))

-- an authority without its secrets, given the two sides of its last `@`
redact_sides : String → String → Option (String × String) → String
unfolding partition one_of lower
redact_sides scheme netloc none = netloc
redact_sides scheme netloc (some (userinfo, hostport)) =
    let user = (partition ":" userinfo).0 in
    if one_of web_schemes (lower scheme) || (user == "")
    then hostport
    else user <> ("@" <> hostport)

unfoldable pub redact_netloc : String → String → String
unfolding redact_sides rpartition
redact_netloc scheme netloc = redact_sides scheme netloc (rpartition "@" netloc)

-- `re.sub(r"[?#].*$", "", s)`: a line feed at the very end stays
unfoldable cut_query : String → String
unfolding on_one_line ends_with
cut_query [] = []
cut_query (c ∷ s) =
    let rest = cut_query s in
    if (nat_eq (code c) b'?' || nat_eq (code c) b'#') && on_one_line s
    then (if ends_with s "\n" then "\n" else "")
    else c ∷ rest

-- `re.sub(r"^([^:/]+://)[^/]*@", r"\1", s)`
unfoldable cut_userinfo : String → String
unfolding span starts_with drop_text rpartition
cut_userinfo url =
    let (scheme, rest) = span (λ c. not (nat_eq c b':' || is_slash c)) url in
    let (authority, path) = span (λ c. not (is_slash c)) (drop_text 3 rest) in
    if not (scheme == "") && starts_with rest "://"
    then (elim (rpartition "@" authority) [
      | none ↦ url
      | some (userinfo, hostport) ↦ scheme <> ("://" <> (hostport <> path))
    ])
    else url

-- `^[a-z][a-z0-9+.-]*://`, cut off
unfoldable without_scheme : String → String
unfolding span starts_with drop_text
without_scheme [] = []
without_scheme (c ∷ s) =
    let (scheme, rest) =
      span (λ d. is_lower d || is_digit d || nat_eq d b'+' || nat_eq d b'.' || nat_eq d b'-') s in
    if is_lower (code c) && starts_with rest "://" then drop_text 3 rest else c ∷ s

-- `^[^@/]*@`, cut off
unfoldable without_user : String → String
unfolding span
without_user s =
    let (user, rest) = span (λ c. not (nat_eq c b'@' || is_slash c)) s in
    elim rest [ [] ↦ s | d ∷ behind ↦ if nat_eq (code d) b'@' then behind else s ]

-- the first colon becomes a slash
unfoldable colon_to_slash : String → String
unfolding partition
colon_to_slash s =
    let (head, rest) = partition ":" s in elim rest [ none ↦ s | some tail ↦ head <> ("/" <> tail) ]

-- `re.sub(r"(\.git)?/*$", "", s)`
unfoldable without_git : String → String
unfolding rstrip_by ends_with take_text
without_git s =
    let bare = rstrip_by is_slash s in
    if ends_with bare ".git" then take_text (text_length bare - 4) bare else bare

module _ (valid_netloc : String → Bool) where
  -- `urllib.parse.urlsplit`, without the query and the fragment
  unfoldable pub urlsplit : String → Option Parts
  unfolding split_scheme parts_of drop_unsafe drop_controls
  urlsplit url =
      let (scheme, rest) = split_scheme (drop_unsafe (drop_controls url)) in
      let parts = parts_of scheme rest in if valid_netloc parts.netloc then some parts else none

  unfoldable pub redact_git_url : String → String
  unfolding urlsplit redact_netloc cut_query cut_userinfo contains
  redact_git_url url = if not (contains url "://") then url else (elim (urlsplit url) [
    | none ↦ cut_query (cut_userinfo url)
    | some parts ↦
        parts.scheme <> ("://" <> (redact_netloc parts.scheme parts.netloc <> parts.path))
  ])

  unfoldable pub normalize_repo : String → String
  unfolding redact_git_url without_scheme without_user colon_to_slash without_git strip lower
      contains
  normalize_repo url =
      let u = lower (strip (redact_git_url url)) in
      let rest = without_user (without_scheme u) in
      without_git (if contains u "://" then rest else colon_to_slash rest)
