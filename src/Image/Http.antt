-- ===== src/Image/Http.antt =====
-- `_registry_get`: a GET whose redirects are followed by hand. The network is a parameter: what
-- it answers to a request, given the requests before it, which are kept in a log, the last first.
pub mod Laws
use aibom_webhook_service.Base.{
  ℕ, zero, suc, ◌*◌, ◌+◌, String, Bool, true, false, ◌&&◌, ◌||◌, Option, none, some, List, [], ◌∷◌,
  ◌==◌, if◌then◌else◌, nat_eq, ltb, any, is_some,
}
use aibom_webhook_service.Base.Text.{text_length, take_text}
use aibom_webhook_service.Source.Container.{given}
use aibom_webhook_service.Source.Url.{Parts, urlsplit}

pub record Request : Type 0 where
  pub url : String
  pub accept : Option String
  -- the bearer token of the `Authorization` header
  pub token : Option String

-- What a request ends with: a body, an `HTTPError` with its `Location` and its
-- `WWW-Authenticate`, or another exception.
pub data Reply (A : Type 0) : Type 0 where
  done : A → Reply A
  http_error : ℕ → Option String → String → Reply A
  failed : Reply A

-- The network, and `urllib.parse.urljoin` with the check of an authority, that of `urlsplit`.
pub record Net : Type 0 where
  pub answer : List Request → Request → Reply String
  pub urljoin : String → String → String
  pub valid_netloc : String → Bool

-- `_REGISTRY_MAX_BYTES`
abbrev pub registry_max_bytes : ℕ
registry_max_bytes = 4 * 1024 * 1024

abbrev pub is_redirect : ℕ → Bool
is_redirect code = any (nat_eq code) (301 ∷ 302 ∷ 303 ∷ 307 ∷ 308 ∷ [])

abbrev pub netloc_of : Option Parts → Option String
netloc_of none = none
netloc_of (some p) = some p.netloc

abbrev pub is_https : Option Parts → Bool
is_https none = false
is_https (some p) = p.scheme == "https"

abbrev pub same_netloc : Option Parts → Option Parts → Bool
same_netloc (some p) (some q) = p.netloc == q.netloc
same_netloc p q = false

-- what `read(limit + 1)` gives, refused if it is longer than the limit
unfoldable pub within_size : ℕ → Reply String → Reply String
unfolding take_text
within_size limit (done content) =
    let body = take_text (limit + 1) content in
    if ltb limit (text_length body) then failed else done body
within_size limit reply = reply

module _ (net : Net) where
  abbrev pub split : String → Option Parts
  split = urlsplit net.valid_netloc

  -- the target of a redirect
  unfoldable pub target_of : String → Reply String → Option String
  target_of url (http_error code location challenge) = elim (given location) [
    | none ↦ none
    | some l ↦ if is_redirect code then some (net.urljoin url l) else none
  ]
  target_of url reply = none

  -- the token is kept on the same host
  unfoldable pub kept_token : String → String → Option String → Option String
  kept_token url target token = if same_netloc (split url) (split target) then token else none

  abbrev pub request : String → Option String → Option String → Request
  request url accept token = record { url = url; accept = given accept; token = given token }

  -- `hops` redirects may still be followed. A target that cannot be split is refused as one whose
  -- scheme is not https.
  unfoldable pub registry_get_from :
      ℕ → String → Option String → Option String → List Request → Reply String × List Request
  unfolding target_of kept_token within_size
  registry_get_from zero url accept token log =
      let asked = request url accept token in
      if is_https (split url)
      then (within_size registry_max_bytes (net.answer log asked), asked ∷ log)
      else (failed, log)
  registry_get_from (suc hops) url accept token log = elim (is_https (split url)) [
    | false ↦ (failed, log)
    | true ↦
        let asked = request url accept token in
        let reply = net.answer log asked in
        elim (target_of url reply) [
          | none ↦ (within_size registry_max_bytes reply, asked ∷ log)
          | some target ↦
              registry_get_from hops target accept (kept_token url target token) (asked ∷ log)
        ]
  ]

  unfoldable pub registry_get :
      String → Option String → Option String → List Request → Reply String × List Request
  unfolding registry_get_from
  registry_get = registry_get_from 3
