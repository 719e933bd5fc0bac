-- ===== src/Image/Ref.antt =====
-- `_parse_image_ref`: the registry and the repository of an image reference.
use Prim.Native.String.{◌++◌ as ◌<>◌}
use aibom_webhook_service.Base.{
  ℕ, String, Bool, not, ◌&&◌, ◌||◌, Option, none, some, ◌==◌, if◌then◌else◌, nat_eq,
}
use aibom_webhook_service.Base.Text.{
  starts_with, drop_text, contains_char, partition, is_lower, span,
}
use aibom_webhook_service.Engine.Server.{strip_tag_digest}

abbrev pub is_transport_char : ℕ → Bool
is_transport_char c = is_lower c || nat_eq c b'-'

-- `re.sub(r"^[a-z-]+://", "", ref)`
unfoldable pub without_transport : String → String
unfolding span starts_with drop_text
without_transport ref =
    let (transport, rest) = span is_transport_char ref in
    if not (transport == "") && starts_with rest "://" then drop_text 3 rest else ref

-- whether the first part of a name is a host
unfoldable pub is_host : String → Bool
unfolding contains_char
is_host s = contains_char "." s || contains_char ":" s || (s == "localhost")

-- the host and the repository of a name, before Docker Hub's are filled in
unfoldable pub host_and_repo : String → String × String
unfolding partition is_host
host_and_repo name =
    let (head, rest) = partition "/" name in
    elim rest [
      | none ↦ ("docker.io", name)
      | some repo ↦ if not (repo == "") && is_host head then (head, repo) else ("docker.io", name)
    ]

unfoldable pub fill_hub : String → String → String × String
unfolding contains_char
fill_hub host repo =
    if (host == "docker.io") || (host == "index.docker.io")
    then ("registry-1.docker.io", if contains_char "/" repo then repo else "library/" <> repo)
    else (host, repo)

unfoldable pub parse_image_ref : Option String → Option (String × String)
unfolding without_transport strip_tag_digest starts_with host_and_repo fill_hub
parse_image_ref none = none
parse_image_ref (some ref) =
    let name = strip_tag_digest (without_transport ref) in
    let (host, repo) = host_and_repo name in
    if (name == "") || starts_with name "sha256" then none else some (fill_hub host repo)
