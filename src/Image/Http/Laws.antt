-- ===== src/Image/Http/Laws.antt =====
-- Where a bearer token goes, and how many requests are made.
use mathlib.Core.List.{append_assoc}
use aibom_webhook_service.Base.{
  ℕ, zero, suc, ◌≤◌, String, ◌≡◌, refl, sym, ap, ◌∙◌, true, Option, none, some, List, [], ◌∷◌, ◌++◌,
  length, length-append, All, All-append, arith, Bool-cases, Option-cases, inl, inr, is_some,
  eq_iff,
}
use aibom_webhook_service.Source.Container.{given}
use aibom_webhook_service.Source.Url.{Parts}
use aibom_webhook_service.Image.Http.{
  Request, Net, netloc_of, is_https, same_netloc, split, target_of, kept_token, request,
  registry_get_from, registry_get,
}

netloc_of_same : (p q : Option Parts) → same_netloc p q ≡ true → netloc_of q ≡ netloc_of p
netloc_of_same (some p) (some q) h = ap some (sym ((eq_iff p.netloc q.netloc).0 h))
netloc_of_same none q h = cc
netloc_of_same (some p) none h = cc

-- `P` with what is new in a log
pub record Grows (P : Request → Type 0) (limit : ℕ) (log log' : List Request) : Type 0 where
  pub new : List Request
  pub grown : log' ≡ new ++ log
  pub safe : All P new
  pub few : length new ≤ limit

-- one more request before the new ones
pub Grows-cons :
    (P : Request → Type 0) (n : ℕ) (r : Request) (log log' : List Request)
    → P r
    → Grows P n (r ∷ log) log'
    → Grows P (suc n) log log'
Grows-cons P n r log log' p g = record {
  new = g.new ++ r ∷ [];
  grown = g.grown ∙ sym (append_assoc g.new (r ∷ []) log);
  safe = All-append P g.new (r ∷ []) g.safe (p, tt);
  few = omega (arith, length-append g.new (r ∷ []), g.few);
}

pub Grows-none : (P : Request → Type 0) (n : ℕ) (log : List Request) → Grows P n log log
Grows-none P n log = record { new = []; grown = refl; safe = tt; few = omega arith }

pub Grows-one :
    (P : Request → Type 0) (n : ℕ) (r : Request) (log : List Request)
    → P r
    → Grows P (suc n) log (r ∷ log)
Grows-one P n r log p = Grows-cons P n r log (r ∷ log) p (Grows-none P n (r ∷ log))

module _ (net : Net) where
  -- sent by https, and with a token only to this authority
  abbrev pub IsGuarded : Option String → Request → Type 0
  IsGuarded origin r =
      (is_https (split net r.url) ≡ true)
      × (is_some r.token ≡ true → netloc_of (split net r.url) ≡ origin)

  kept_token-origin :
      (url target : String) (token origin : Option String)
      → (is_some (given token) ≡ true → netloc_of (split net url) ≡ origin)
      → is_some (given (kept_token net url target token)) ≡ true
      → netloc_of (split net target) ≡ origin
  unfolding kept_token
  kept_token-origin url target token origin h k =
      elim (Bool-cases (same_netloc (split net url) (split net target))) [
        | inl e ↦ netloc_of_same (split net url) (split net target) e ∙ h (rw e at k)
        | inr e ↦ absurd (ground (arith, k))
      ]

  registry_get_from-Grows :
      (hops : ℕ) (url : String) (accept token origin : Option String) (log : List Request)
      → (is_some (given token) ≡ true → netloc_of (split net url) ≡ origin)
      → Grows (IsGuarded origin) (suc hops) log (registry_get_from net hops url accept token log).1
  unfolding registry_get_from
  registry_get_from-Grows zero url accept token origin log h =
      elim (Bool-cases (is_https (split net url))) [
        | inl e ↦
            rw (e, registry_get_from)
              (Grows-one (IsGuarded origin) 0 (request net url accept token) log (e, h))
        | inr e ↦ rw (e, registry_get_from) (Grows-none (IsGuarded origin) 1 log)
      ]
  registry_get_from-Grows (suc hops) url accept token origin log h =
      let asked = request net url accept token in
      elim (Bool-cases (is_https (split net url))) [
        | inr e ↦ rw (e, registry_get_from) (Grows-none (IsGuarded origin) (suc (suc hops)) log)
        | inl e ↦ elim (Option-cases (target_of net url (net.answer log asked))) [
          | inl t ↦
              rw (e, t, registry_get_from)
                (Grows-one (IsGuarded origin) (suc hops) asked log (e, h))
          | inr (target, t) ↦
              rw (e, t, registry_get_from)
                (Grows-cons (IsGuarded origin) (suc hops) asked log _ (e, h)
                  (registry_get_from-Grows hops target accept (kept_token net url target token)
                    origin (asked ∷ log) (kept_token-origin url target token origin h)))
        ]
      ]

  -- A GET makes at most four requests, whatever it is redirected to: all are sent by https, and
  -- those that carry a bearer token go to the authority of the URL that was asked for.
  pub registry_get-IsGuarded :
      (url : String) (accept token : Option String) (log : List Request)
      → Grows
          (IsGuarded (netloc_of (split net url)))
          4
          log
          (registry_get net url accept token log).1
  unfolding registry_get
  registry_get-IsGuarded url accept token log =
      registry_get_from-Grows 3 url accept token (netloc_of (split net url)) log (λ h. refl)

  -- no request of a GET without a token has one, so they may go to any authority
  pub registry_get_anonymous :
      (url : String) (accept origin : Option String) (log : List Request)
      → Grows (IsGuarded origin) 4 log (registry_get net url accept none log).1
  unfolding registry_get
  registry_get_anonymous url accept origin log =
      registry_get_from-Grows 3 url accept none origin log (λ h. absurd (cc))
