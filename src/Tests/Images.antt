-- ===== src/Tests/Images.antt =====
-- Image references, and a registry that asks for a token and redirects to another host.
use aibom_webhook_service.Base.{
  String, true, ◌≡◌, refl, Option, none, some, List, [], ◌∷◌, ◌==◌, ◌⊎◌, map, if◌then◌else◌,
  is_some, Some,
}
use aibom_webhook_service.Base.Dict.{Dict}
use aibom_webhook_service.Source.Container.{Container}
use aibom_webhook_service.Source.Provenance.{Provenance}
use aibom_webhook_service.Source.Url.{urlsplit}
use aibom_webhook_service.Cluster.Api
use aibom_webhook_service.Cluster.Api.{Answer}
use aibom_webhook_service.Image.Ref.{parse_image_ref}
use aibom_webhook_service.Image.Http
use aibom_webhook_service.Image.Http.{
  Request, Reply, Net, done, failed, netloc_of, split, registry_get,
}
use aibom_webhook_service.Image.Registry.{Documents, Session, pinned_labels, find_params}
use aibom_webhook_service.Image.Registry.Tokens.{Adds, ToRegistry, pinned_labels-ToRegistry}
use aibom_webhook_service.Image.Registry.Digests.{OfDigest, pinned_labels-OfDigest}
use aibom_webhook_service.Image.Labels.{ImageObject, detect_git_provenance_from_containers}
use aibom_webhook_service.Image.Labels.Laws.{Names, detect_git_provenance_from_containers-Names}

hub_image :
    parse_image_ref (some "docker-pullable://busybox:1.36")
    ≡ some ("registry-1.docker.io", "library/busybox")
unfolding parse_image_ref
hub_image = refl

hosted_image :
    parse_image_ref (some "localhost:5000/team/app@sha256:ab") ≡ some ("localhost:5000", "team/app")
unfolding parse_image_ref
hosted_image = refl

bare_digest : parse_image_ref (some "sha256:ab") ≡ none
unfolding parse_image_ref
bare_digest = refl

challenge_of_hub :
    find_params 40 "Bearer realm=\"https://a/t\",service=\"reg\""
    ≡ ("realm", "https://a/t") ∷ ("service", "reg") ∷ []
unfolding find_params
challenge_of_hub = refl

abbrev challenge : String
challenge = "Bearer realm=\"https://ghcr.io/token\",service=\"ghcr.io\""

-- the manifest needs a token, the blob is stored elsewhere
abbrev answers : List Request → Request → Reply String
answers log r =
    if r.url == "https://ghcr.io/v2/org/app/manifests/sha256:M"
    then (if is_some r.token then done "M" else Http.http_error 401 none challenge)
    else if r.url == "https://ghcr.io/v2/org/app/blobs/sha256:C"
    then Http.http_error 307 (some "https://cdn.io/blob") ""
    else if r.url == "https://cdn.io/blob"
    then (if is_some r.token then failed else done "C")
    else done "T"

abbrev registry : Net
registry = record {
  answer = answers;
  urljoin = λ base location. location;
  valid_netloc = λ _. true;
}

abbrev commit_labels : Dict String
commit_labels = ("org.opencontainers.image.revision", "abc") ∷ []

abbrev documents : Documents
documents = record {
  manifest = λ body.
      if body == "M"
      then some (record { manifests = none; config_digest = some "sha256:C" })
      else none;
  labels = λ body. if body == "C" then some commit_labels else none;
  token_answer = λ body. some (record { token = some body; access_token = none });
  sha256 = λ body. body;
  urlencode = λ params. "q";
}

abbrev unused : Session
unused = record { auth = none; log = [] }

sent_tokens :
    map {B = String × Option String}
      (λ (r : Request). (r.url, r.token))
      (pinned_labels registry documents "ghcr.io" "org/app" "sha256:M" unused).1.log
    ≡ ("https://cdn.io/blob", none)
      ∷ ("https://ghcr.io/v2/org/app/blobs/sha256:C", some "T")
      ∷ ("https://ghcr.io/v2/org/app/manifests/sha256:M", some "T")
      ∷ ("https://ghcr.io/token?q", none)
      ∷ ("https://ghcr.io/v2/org/app/manifests/sha256:M", none)
      ∷ []
unfolding pinned_labels urlsplit
sent_tokens = refl

pinned :
    (pinned_labels registry documents "ghcr.io" "org/app" "sha256:M" unused).0 ≡ done commit_labels
unfolding pinned_labels urlsplit
pinned = refl

pinned_labels-ToRegistry_example :
    Adds
      (ToRegistry registry documents "ghcr.io" "org/app")
      []
      (pinned_labels registry documents "ghcr.io" "org/app" "sha256:M" unused).1.log
pinned_labels-ToRegistry_example =
    pinned_labels-ToRegistry registry documents "ghcr.io" "org/app" "sha256:M" unused

pinned_labels-OfDigest_example :
    (commit_labels ≡ []) ⊎ OfDigest registry documents "ghcr.io" "org/app" "sha256:M" commit_labels
pinned_labels-OfDigest_example =
    pinned_labels-OfDigest registry documents "ghcr.io" "org/app" "sha256:M" unused pinned

abbrev running : String → Container
running name = record {
  pod_name = some "p";
  name = some name;
  spec = record { image = some "ghcr.io/org/app:1"; command = []; args = [] };
  image_id = some "ghcr.io/org/app@sha256:M";
  terminated_reason = none;
  exit_code = none;
  job_result = none;
  serving_role = none;
  restart_count = none;
  last_terminated_reason = none;
  last_exit_code = none;
  memory_limit_bytes = none;
  cpu_limit_millis = none;
  gpu_limit = none;
  finished_at = none;
}

abbrev found : Provenance
found = record {
  git_commit = some "abc";
  git_repository = none;
  git_branch = none;
  git_dirty = none;
  detected_via = some "oci_image_label";
}

abbrev no_images : String → Answer ImageObject
no_images digest = Api.http_error 404

detected :
    (detect_git_provenance_from_containers
      (λ _. true)
      no_images
      registry
      documents
      true
      (running "istio-proxy" ∷ running "main" ∷ [])
      []).0
    ≡ some found
unfolding detect_git_provenance_from_containers urlsplit
detected = refl

detect_git_provenance_from_containers-Names_example :
    Some
      (Names (λ _. true) no_images registry documents true found)
      (running "istio-proxy" ∷ running "main" ∷ [])
detect_git_provenance_from_containers-Names_example =
    detect_git_provenance_from_containers-Names (λ _. true) no_images registry documents true
      (running "istio-proxy" ∷ running "main" ∷ []) [] found detected
