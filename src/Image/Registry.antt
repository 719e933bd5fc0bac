-- ===== src/Image/Registry.antt =====
-- `_registry_token`, `_registry_blob` and `_registry_image_labels`. The JSON documents are read by
-- their schemas: a parameter gives what `json.loads` makes of a text, `none` for an exception.
pub mod Tokens
pub mod Digests
use Prim.Native.String.{◌++◌ as ◌<>◌}
use Prim.Native.String
use aibom_webhook_service.Base.{
  ℕ, zero, suc, code, String, Bool, true, false, not, ◌&&◌, ◌||◌, Option, none, some, List, [], ◌∷◌,
  ◌++◌, ◌==◌, if◌then◌else◌, nat_eq, keep, is_some,
}
use aibom_webhook_service.Base.Dict
use aibom_webhook_service.Base.Dict.{Dict}
use aibom_webhook_service.Base.Text.{
  starts_with, drop_text, contains, lower, span, is_alnum, text_length,
}
use aibom_webhook_service.Source.Container.{given}
use aibom_webhook_service.Source.Storage.{image_digest}
use aibom_webhook_service.Image.Ref.{parse_image_ref}
use aibom_webhook_service.Image.Http.{Request, Reply, done, http_error, failed, Net, registry_get}

-- An entry of an index. `os` is that of its platform.
pub record Child : Type 0 where
  pub digest : Option String
  pub os : Option String

-- a manifest, or an index of manifests
pub record Manifest : Type 0 where
  pub manifests : Option (List Child)
  pub config_digest : Option String

pub record TokenAnswer : Type 0 where
  pub token : Option String
  pub access_token : Option String

pub record Documents : Type 0 where
  pub manifest : String → Option Manifest
  -- the labels of an image config
  pub labels : String → Option (Dict String)
  pub token_answer : String → Option TokenAnswer
  -- `hashlib.sha256(body).hexdigest()`
  pub sha256 : String → String
  -- `urllib.parse.urlencode`
  pub urlencode : Dict String → String

-- `auth`, whose entry `token` may be None, and the requests so far
pub record Session : Type 0 where
  pub auth : Option (Option String)
  pub log : List Request

abbrev pub M : Type 0 → Type 0
M A = Session → Reply A × Session

abbrev pub pure : {A : Type 0} → A → M A
pure a s = (done a, s)

abbrev pub throw : {A : Type 0} → M A
throw s = (failed, s)

abbrev pub and_then : {A B : Type 0} → Reply A → (A → M B) → M B
and_then (done a) f s = f a s
and_then (http_error code location challenge) f s = (http_error code location challenge, s)
and_then failed f s = (failed, s)

infixl 5 ◌>>=◌
abbrev pub ◌>>=◌ : {A B : Type 0} → M A → (A → M B) → M B
◌>>=◌ m f s = let (reply, s') = m s in and_then reply f s'

abbrev pub is_word : ℕ → Bool
is_word c = is_alnum c || nat_eq c b'_'

abbrev pub is_quote : ℕ → Bool
is_quote c = nat_eq c b'"'

-- `re.findall(r'(\w+)="([^"]*)"', s)`, with the length of the text as fuel
unfoldable pub find_params : ℕ → String → Dict String
unfolding span starts_with drop_text
find_params zero s = []
find_params (suc n) String.[] = []
find_params (suc n) (String.◌∷◌ c s) =
    let (name, behind) = span is_word (String.◌∷◌ c s) in
    let (val, rest) = span (λ d. not (is_quote d)) (drop_text 2 behind) in
    let matches = not (name == "") && starts_with behind "=\"" && starts_with rest "\"" in
    elim matches [ true ↦ (name, val) ∷ find_params n (drop_text 1 rest) | false ↦ find_params n s ]

-- `dict(re.findall(...))`
unfoldable pub challenge_params : String → Dict String
unfolding find_params Dict.update
challenge_params challenge = Dict.update [] (find_params (text_length challenge) challenge)

-- `setdefault`
unfoldable pub set_default : String → String → Dict String → Dict String
unfolding Dict.lookup
set_default k v d = if is_some (Dict.lookup k d) then d else d ++ (k, v) ∷ []

abbrev pub is_query_param : String × String → Bool
is_query_param (k, v) = (k == "service") || (k == "scope")

-- the URL of a token, if the challenge names a realm
unfoldable pub token_url : (Dict String → String) → String → String → Option String
unfolding challenge_params set_default Dict.lookup Dict.erase contains starts_with lower
token_url urlencode challenge repo =
    let params = challenge_params challenge in
    let scope = "repository:" <> (repo <> ":pull") in
    let query =
      urlencode (keep is_query_param (set_default "scope" scope (Dict.erase "realm" params))) in
    if not (starts_with (lower challenge) "bearer ")
    then none
    else (elim (given (Dict.lookup "realm" params)) [
      | none ↦ none
      | some realm ↦ some (realm <> ((if contains realm "?" then "&" else "?") <> query))
    ])

-- `data.get("token") or data.get("access_token")`
abbrev pub token_in : TokenAnswer → Option String
token_in a = elim (given a.token) [ none ↦ a.access_token | some t ↦ some t ]

-- `_REGISTRY_MANIFEST_ACCEPT`
abbrev pub registry_manifest_accept : String
registry_manifest_accept =
    "application/vnd.oci.image.index.v1+json, application/vnd.oci.image.manifest.v1+json, "
    <> ("application/vnd.docker.distribution.manifest.list.v2+json, "
        <> "application/vnd.docker.distribution.manifest.v2+json")

abbrev pub joined : Option (Option String) → Option String
joined none = none
joined (some t) = t

abbrev pub blob_url : String → String → String → String → String
blob_url host repo kind digest =
    "https://" <> (host <> ("/v2/" <> (repo <> ("/" <> (kind <> ("/" <> digest))))))

abbrev pub accept_of : String → Option String
accept_of kind = if kind == "manifests" then some registry_manifest_accept else none

-- what `json.loads` gives
abbrev pub loaded : {A : Type 0} → Option A → M A
loaded none = throw
loaded (some a) = pure a

-- whether a failed GET is tried again with a token
abbrev pub wants_token : ℕ → Option (Option String) → Bool
wants_token code auth = nat_eq code 401 && not (is_some auth)

module _ (net : Net) (docs : Documents) where
  abbrev pub get : String → Option String → Option String → M String
  get url accept token s =
      let (reply, log) = registry_get net url accept token s.log in (reply, record s { log = log })

  unfoldable pub registry_token : String → String → M (Option String)
  unfolding token_url registry_get
  registry_token challenge repo = elim (token_url docs.urlencode challenge repo) [
    | none ↦ pure none
    | some url ↦ get url none none >>= λ body.
        loaded (docs.token_answer body) >>= λ answer. pure (token_in answer)
  ]

  -- `auth["token"] = …`, and the second GET, or the error of the first one again
  unfoldable pub with_token : String → Option String → Reply String → Option String → M String
  unfolding registry_get
  with_token url accept refused token s =
      let s' = record s { auth = some token } in
      elim (given token) [ none ↦ (refused, s') | some t ↦ get url accept (some t) s' ]

  -- the first GET was answered
  unfoldable pub after_get : String → Option String → String → Reply String → M String
  unfolding registry_token with_token
  after_get url accept repo (done body) s = (done body, s)
  after_get url accept repo failed s = (failed, s)
  after_get url accept repo (http_error code location challenge) s =
      let refused = http_error code location challenge in
      let retried =
        (registry_token challenge repo >>= λ token. with_token url accept refused token) s in
      if wants_token code s.auth then retried else (refused, s)

  unfoldable pub authorized_get : String → Option String → String → M String
  unfolding after_get registry_get
  authorized_get url accept repo s =
      let (reply, s') = get url accept (joined s.auth) s in after_get url accept repo reply s'

  -- the body, if it has the digest
  unfoldable pub checked : {A : Type 0} → (String → Option A) → String → String → M A
  checked read digest body =
      if ("sha256:" <> docs.sha256 body) == digest then loaded (read body) else throw

  unfoldable pub registry_blob :
      {A : Type 0} → (String → Option A) → String → String → String → String → M A
  unfolding authorized_get checked
  registry_blob read host repo kind digest =
      authorized_get (blob_url host repo kind digest) (accept_of kind) repo >>= checked read digest

  -- the labels of the config that a manifest names
  unfoldable pub config_labels : String → String → Manifest → M (Dict String)
  unfolding registry_blob
  config_labels host repo m = elim (given m.config_digest) [
    | none ↦ pure []
    | some digest ↦ registry_blob docs.labels host repo "blobs" digest
  ]

  abbrev pub is_platform : Child → Bool
  is_platform c = elim c.os [ none ↦ true | some os ↦ not (os == "unknown") ]

  -- of the images of an index that are no attestation
  unfoldable pub first_child : String → String → List Child → M (Dict String)
  unfolding registry_blob config_labels
  first_child host repo [] = pure []
  first_child host repo (child ∷ others) = elim child.digest [
    | none ↦ throw
    | some digest ↦
        registry_blob docs.manifest host repo "manifests" digest >>= config_labels host repo
  ]

  unfoldable pub manifest_labels : String → String → Manifest → M (Dict String)
  unfolding config_labels first_child
  manifest_labels host repo m = elim m.manifests [
    | none ↦ config_labels host repo m
    | some children ↦ first_child host repo (keep is_platform children)
  ]

  unfoldable pub pinned_labels : String → String → String → M (Dict String)
  unfolding registry_blob manifest_labels
  pinned_labels host repo digest =
      registry_blob docs.manifest host repo "manifests" digest >>= manifest_labels host repo

  -- every exception is caught
  abbrev pub or_empty : Reply (Dict String) → Dict String
  or_empty (done labels) = labels
  or_empty reply = []

  -- `lookup` is REGISTRY_LABEL_LOOKUP, `log` the requests for other images
  unfoldable pub registry_image_labels :
      Bool → Option String → List Request → Dict String × List Request
  unfolding parse_image_ref image_digest pinned_labels
  registry_image_labels lookup image_ref log = elim (parse_image_ref image_ref) [
    | none ↦ ([], log)
    | some (host, repo) ↦ elim (given (image_digest image_ref)) [
      | none ↦ ([], log)
      | some digest ↦
          let (reply, s) = pinned_labels host repo digest (record { auth = none; log = log }) in
          if lookup then (or_empty reply, s.log) else ([], log)
    ]
  ]
