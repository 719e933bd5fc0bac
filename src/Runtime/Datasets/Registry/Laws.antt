-- ===== src/Runtime/Datasets/Registry/Laws.antt =====
-- What the registry of keys remembers: the one entry of a key, if there is only one.
use mathlib.Core.Path.{subst}
use aibom_webhook_service.Base.{
  ℕ, String, true, ◌≡◌, refl, ap, ◌∙◌, ◌↔◌, Option, none, some, List, [], ◌∷◌, if◌then◌else◌,
  nat_eq, nat_eq_iff, all, arith, Bool-cases, inl, inr, eq_iff,
}
use aibom_webhook_service.Runtime.Datasets.Registry.{
  Key, Keys, same_option, same_key, key_get, key_set, claimed, register_key,
}

same_option_iff : (a b : Option String) → (same_option a b ≡ true) ↔ (a ≡ b)
same_option_iff none none = (λ e. refl, λ e. refl)
same_option_iff none (some b) = (λ e. cc, λ e. cc)
same_option_iff (some a) none = (λ e. cc, λ e. cc)
same_option_iff (some a) (some b) =
    (λ e. ap some ((eq_iff a b).0 e), λ e. ground (arith, eq_iff a b, e))

same_key_iff : (a b : Key) → (same_key a b ≡ true) ↔ (a ≡ b)
unfolding same_key
same_key_iff a b = (
  λ e. ground (
    arith,
    e,
    eq_iff a.builder_name b.builder_name,
    same_option_iff a.config_name b.config_name,
    same_option_iff a.split b.split,
    same_option_iff a.cache_dir b.cache_dir,
  ),
  λ e. subst (λ c. same_key a c ≡ true) e (same a),
)
  where
    same : (a : Key) → same_key a a ≡ true
    same a = ground (
      arith,
      eq_iff a.builder_name a.builder_name,
      same_option_iff a.config_name a.config_name,
      same_option_iff a.split a.split,
      same_option_iff a.cache_dir a.cache_dir,
    )

key_get-key_set :
    (k j : Key) (v : Option ℕ) (keys : Keys)
    → key_get j (key_set k v keys) ≡ (if same_key k j then some v else key_get j keys)
unfolding key_get key_set
key_get-key_set k j v [] = refl
key_get-key_set k j v ((i, w) ∷ keys) =
    ground (arith, same_key_iff i k, same_key_iff i j, same_key_iff k j, key_get-key_set k j v keys)

-- the loads that are registered under a key, in order
abbrev pub owners : Key → List (Option Key × ℕ) → List ℕ
owners k [] = []
owners k ((none, entry) ∷ registrations) = owners k registrations
owners k ((some j, entry) ∷ registrations) =
    let rest = owners k registrations in if same_key j k then entry ∷ rest else rest

-- one entry if all are this one, else None
abbrev pub only_one : List ℕ → Option (Option ℕ)
only_one [] = none
only_one (entry ∷ rest) = some (if all (nat_eq entry) rest then some entry else none)

abbrev pub register_keys : List (Option Key × ℕ) → Keys → Keys
register_keys [] keys = keys
register_keys ((k, entry) ∷ registrations) keys =
    register_keys registrations (register_key k entry keys)

-- what further claims make of an entry
claims : Option (Option ℕ) → List ℕ → Option (Option ℕ)
claims o [] = o
claims o (entry ∷ rest) = claims (some (claimed o entry)) rest

claims-none : (rest : List ℕ) → claims (some none) rest ≡ some none
unfolding claims
claims-none [] = refl
claims-none (entry ∷ rest) = claims-none rest

claims-some :
    (entry : ℕ) (rest : List ℕ)
    → claims (some (some entry)) rest ≡ some (if all (nat_eq entry) rest then some entry else none)
unfolding claims
claims-some entry [] = refl
claims-some entry (other ∷ rest) = elim (Bool-cases (nat_eq entry other)) [
  | inl e ↦
      rw (e, if◌then◌else◌)
        (subst
          (λ i.
            claims (some (some i)) rest
            ≡ some (if all (nat_eq entry) rest then some entry else none))
          ((nat_eq_iff entry other).0 e) (claims-some entry rest))
  | inr e ↦ rw (e, if◌then◌else◌) (claims-none rest)
]

claims-only_one : (entries : List ℕ) → claims none entries ≡ only_one entries
unfolding claims
claims-only_one [] = refl
claims-only_one (entry ∷ rest) = claims-some entry rest

register_keys-claims :
    (k : Key) (registrations : List (Option Key × ℕ)) (keys : Keys)
    → key_get k (register_keys registrations keys)
      ≡ claims (key_get k keys) (owners k registrations)
unfolding claims register_key
register_keys-claims k [] keys = refl
register_keys-claims k ((none, entry) ∷ registrations) keys =
    register_keys-claims k registrations keys
register_keys-claims k ((some j, entry) ∷ registrations) keys =
    let v = claimed (key_get j keys) entry in
    register_keys-claims k registrations (key_set j v keys) ∙ (elim (Bool-cases (same_key j k)) [
      | inl e ↦
          rw (key_get-key_set j k v keys, e, if◌then◌else◌)
            (ap (λ i. claims (some (claimed (key_get i keys) entry)) (owners k registrations))
              ((same_key_iff j k).0 e))
      | inr e ↦ rw (key_get-key_set j k v keys, e, if◌then◌else◌) refl
    ])

-- After any registrations, a key that one load alone was registered with gives that load's entry,
-- a key that different loads share gives None, and any other key gives nothing.
pub register_key_lem :
    (k : Key) (registrations : List (Option Key × ℕ))
    → key_get k (register_keys registrations []) ≡ only_one (owners k registrations)
unfolding key_get
register_key_lem k registrations =
    register_keys-claims k registrations [] ∙ claims-only_one (owners k registrations)
