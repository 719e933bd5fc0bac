-- ===== src/Image/Registry/Tokens.antt =====
-- Where the registry's bearer token goes.
use mathlib.Core.List.{append_assoc}
use aibom_webhook_service.Base.{
  String, ◌≡◌, refl, sym, ap, ◌∙◌, true, Option, none, some, List, [], ◌∷◌, ◌++◌, All, All-append,
  ◌==◌, ◌<>◌, Bool-cases, Option-cases, inl, inr, is_some, keep, if◌then◌else◌,
}
use aibom_webhook_service.Base.Dict.{Dict}
use aibom_webhook_service.Source.Container.{given}
use aibom_webhook_service.Image.Http.{
  Request, Reply, done, http_error, failed, Net, netloc_of, is_https, split,
}
use aibom_webhook_service.Image.Http.Laws.{
  IsGuarded, registry_get-IsGuarded, registry_get_anonymous,
}
use aibom_webhook_service.Image.Registry.{
  Documents, Session, Child, Manifest, M, pure, throw, and_then, ◌>>=◌, blob_url, loaded, accept_of,
  get, joined, token_in, wants_token, token_url, registry_token, with_token, after_get,
  authorized_get, checked, registry_blob, config_labels, is_platform, first_child, manifest_labels,
  pinned_labels,
}

-- the log has grown by requests with `P`
abbrev pub Adds : (Request → Type 0) → List Request → List Request → Type 0
Adds P log log' = (new : List Request) × (log' ≡ new ++ log) × All P new

module _ (P : Request → Type 0) where
  Adds-refl : (log : List Request) → Adds P log log
  Adds-refl log = ([], refl, tt)

  Adds-trans : (a b c : List Request) → Adds P a b → Adds P b c → Adds P a c
  Adds-trans a b c (n, e, h) (m, f, g) = (
    m ++ n,
    f ∙ ap (λ (l : List Request). m ++ l) e ∙ sym (append_assoc m n a),
    All-append P m n g h,
  )

  -- an action makes only requests with `P`
  abbrev pub Sends : {A : Type 0} → M A → Type 0
  Sends m = (s : Session) → Adds P s.log (m s).1.log

  and_then-Sends :
      {A B : Type 0} (r : Reply A) (f : A → M B) → ((a : A) → Sends (f a)) → Sends (and_then r f)
  and_then-Sends (done a) f h s = h a s
  and_then-Sends (http_error code location challenge) f h s = Adds-refl s.log
  and_then-Sends failed f h s = Adds-refl s.log

  bind-Sends :
      {A B : Type 0} (m : M A) (f : A → M B) → Sends m → ((a : A) → Sends (f a)) → Sends (m >>= f)
  bind-Sends m f hm hf s =
      Adds-trans s.log (m s).1.log _ (hm s) (and_then-Sends (m s).0 f hf (m s).1)

  pure-Sends : {A : Type 0} (a : A) → Sends (pure a)
  pure-Sends a s = Adds-refl s.log

  throw-Sends : (A : Type 0) → Sends (throw {A = A})
  throw-Sends A s = Adds-refl s.log

  -- a case split on an option sends what its cases send
  option-Sends :
      {A B : Type 0} (o : Option A) (m : M B) (f : A → M B)
      → Sends m
      → ((a : A) → Sends (f a))
      → Sends (elim o [ none ↦ m | some a ↦ f a ])
  option-Sends none m f hm hf = hm
  option-Sends (some a) m f hm hf = hf a

  loaded-Sends : {A : Type 0} (o : Option A) → Sends (loaded o)
  loaded-Sends none s = Adds-refl s.log
  loaded-Sends (some a) s = Adds-refl s.log

module _ (net : Net) (docs : Documents) (host repo : String) where
  -- sent by https, and with a token only to the authority of one of the registry's URLs
  abbrev pub ToRegistry : Request → Type 0
  ToRegistry r =
      (is_https (split net r.url) ≡ true)
      × (is_some r.token ≡ true
          → (kind : String) × (digest : String) × (netloc_of (split net r.url)
              ≡ netloc_of (split net (blob_url host repo kind digest))))

  guarded_to :
      (kind digest : String) (rs : List Request)
      → All (IsGuarded net (netloc_of (split net (blob_url host repo kind digest)))) rs
      → All ToRegistry rs
  guarded_to kind digest [] h = tt
  guarded_to kind digest (r ∷ rs) h =
      ((h.0.0, λ k. (kind, digest, h.0.1 k)), guarded_to kind digest rs h.1)

  get-Sends :
      (kind digest : String) (accept token : Option String)
      → Sends ToRegistry (get net docs (blob_url host repo kind digest) accept token)
  get-Sends kind digest accept token s =
      let g = registry_get-IsGuarded net (blob_url host repo kind digest) accept token s.log in
      (g.new, g.grown, guarded_to kind digest g.new g.safe)

  anonymous-Sends :
      (url : String) (accept : Option String) → Sends ToRegistry (get net docs url accept none)
  anonymous-Sends url accept s =
      let g =
        registry_get_anonymous net url accept (netloc_of (split net (blob_url host repo "" "")))
          s.log in
      (g.new, g.grown, guarded_to "" "" g.new g.safe)

  registry_token-Sends :
      (challenge name : String) → Sends ToRegistry (registry_token net docs challenge name)
  unfolding registry_token
  registry_token-Sends challenge name =
      option-Sends ToRegistry (token_url docs.urlencode challenge name) _ _
        (pure-Sends ToRegistry {A = Option String} none)
        (λ url.
          bind-Sends ToRegistry (get net docs url none none) _ (anonymous-Sends url none) (λ body.
            bind-Sends ToRegistry (loaded (docs.token_answer body)) _
              (loaded-Sends ToRegistry (docs.token_answer body))
              (λ answer. pure-Sends ToRegistry (token_in answer))))

  with_token-Sends :
      (kind digest : String) (accept : Option String) (refused : Reply String)
      (token : Option String)
      → Sends ToRegistry (with_token net docs (blob_url host repo kind digest) accept refused token)
  unfolding with_token
  with_token-Sends kind digest accept refused token s = elim (Option-cases (given token)) [
    | inl e ↦ rw (e, with_token) (Adds-refl ToRegistry s.log)
    | inr (t, e) ↦
        rw (e, with_token) (get-Sends kind digest accept (some t) (record s { auth = some token }))
  ]

  after_get-Sends :
      (kind digest : String) (accept : Option String) (reply : Reply String)
      → Sends ToRegistry (after_get net docs (blob_url host repo kind digest) accept repo reply)
  unfolding after_get
  after_get-Sends kind digest accept (done body) s = Adds-refl ToRegistry s.log
  after_get-Sends kind digest accept failed s = Adds-refl ToRegistry s.log
  after_get-Sends kind digest accept (http_error code location challenge) s =
      elim (Bool-cases (wants_token code s.auth)) [
        | inr e ↦ rw (e, if◌then◌else◌) (Adds-refl ToRegistry s.log)
        | inl e ↦
            rw (e, if◌then◌else◌)
              (bind-Sends ToRegistry (registry_token net docs challenge repo)
                (with_token net docs (blob_url host repo kind digest) accept
                  (http_error code location challenge))
                (registry_token-Sends challenge repo)
                (with_token-Sends kind digest accept (http_error code location challenge)) s)
      ]

  checked-Sends :
      {A : Type 0} (read : String → Option A) (digest body : String)
      → Sends ToRegistry (checked net docs read digest body)
  unfolding checked
  checked-Sends read digest body s = elim (Bool-cases (("sha256:" <> docs.sha256 body) == digest)) [
    | inl e ↦ rw (e, if◌then◌else◌) (loaded-Sends ToRegistry (read body) s)
    | inr e ↦ rw (e, if◌then◌else◌) (Adds-refl ToRegistry s.log)
  ]

  registry_blob-Sends :
      {A : Type 0} (read : String → Option A) (kind digest : String)
      → Sends ToRegistry (registry_blob net docs read host repo kind digest)
  unfolding registry_blob authorized_get checked
  registry_blob-Sends read kind digest =
      let url = blob_url host repo kind digest in
      bind-Sends ToRegistry (authorized_get net docs url (accept_of kind) repo) _
        (λ s.
          Adds-trans ToRegistry s.log (get net docs url (accept_of kind) (joined s.auth) s).1.log _
            (get-Sends kind digest (accept_of kind) (joined s.auth) s)
            (after_get-Sends kind digest (accept_of kind)
              (get net docs url (accept_of kind) (joined s.auth) s).0
              (get net docs url (accept_of kind) (joined s.auth) s).1))
        (λ body. checked-Sends read digest body)

  config_labels-Sends : (m : Manifest) → Sends ToRegistry (config_labels net docs host repo m)
  unfolding config_labels
  config_labels-Sends m =
      option-Sends ToRegistry (given m.config_digest) _ _
        (pure-Sends ToRegistry {A = Dict String} [])
        (λ digest. registry_blob-Sends docs.labels "blobs" digest)

  first_child-Sends :
      (children : List Child) → Sends ToRegistry (first_child net docs host repo children)
  unfolding first_child
  first_child-Sends [] = pure-Sends ToRegistry {A = Dict String} []
  first_child-Sends (child ∷ others) =
      option-Sends ToRegistry child.digest _ _ (throw-Sends ToRegistry (Dict String)) (λ digest.
        bind-Sends ToRegistry (registry_blob net docs docs.manifest host repo "manifests" digest)
          (config_labels net docs host repo) (registry_blob-Sends docs.manifest "manifests" digest)
          config_labels-Sends)

  -- Every request for the labels of an image of a registry is sent by https, and those that carry
  -- a bearer token go to the authority of one of that registry's own URLs, whatever the registry,
  -- the token server and the redirects answer.
  pub pinned_labels-ToRegistry :
      (digest : String) (s : Session)
      → Adds ToRegistry s.log (pinned_labels net docs host repo digest s).1.log
  unfolding pinned_labels manifest_labels
  pinned_labels-ToRegistry digest =
      bind-Sends ToRegistry (registry_blob net docs docs.manifest host repo "manifests" digest)
        (manifest_labels net docs host repo) (registry_blob-Sends docs.manifest "manifests" digest)
        (λ m.
          option-Sends ToRegistry m.manifests _ _ (config_labels-Sends m)
            (λ children. first_child-Sends (keep (is_platform net docs) children)))
