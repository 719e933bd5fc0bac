-- ===== src/Base/Dict/Laws.antt =====
-- Predicates on the entries of a dict, and lookups after `update`.
use Prim.Native.String.{String}
use mathlib.Core.Path.{◌≡◌, refl, ◌∙◌, subst}
use mathlib.Core.Logic.{inl, inr}
use mathlib.Core.Option.{none, some}
use mathlib.Core.List.{[], ◌∷◌}
use native.Mathlib.Omega.{arith}
use text.Mathlib.Text.{◌==◌}
use text.Mathlib.TextEquality.{eq_iff}
use aibom_webhook_service.Base.Tests.{Bool-cases, or_else}
use aibom_webhook_service.Base.Dict.{Dict, lookup, insert, erase, update, lookup-insert}

-- `P k v` for every entry
abbrev pub Entries {ℓ κ} : {V : Type ℓ} → (String → V → Type κ) → Dict V → Type κ
Entries P [] = Unit
Entries P ((k, v) ∷ d) = P k v × Entries P d

pub eq_of_some {ℓ} : {A : Type ℓ} {a b : A} → some a ≡ some b → a ≡ b
eq_of_some e = cc

module _ {ℓ κ} {V : Type ℓ} (P : String → V → Type κ) where
  pub insert-Entries :
      (k : String) (v : V) (d : Dict V) → P k v → Entries P d → Entries P (insert k v d)
  unfolding insert
  insert-Entries k v [] r h = (r, tt)
  insert-Entries k v ((j, w) ∷ d) r h = elim (Bool-cases (j == k)) [
    | inl e ↦ rw (e, Entries) (rw ((eq_iff j k).0 e) r, h.1)
    | inr e ↦ rw (e, Entries) (h.0, insert-Entries k v d r h.1)
  ]

  pub erase-Entries : (k : String) (d : Dict V) → Entries P d → Entries P (erase k d)
  unfolding erase
  erase-Entries k [] h = tt
  erase-Entries k ((j, w) ∷ d) h = elim (Bool-cases (j == k)) [
    | inl e ↦ rw (e, Entries) (erase-Entries k d h.1)
    | inr e ↦ rw (e, Entries) (h.0, erase-Entries k d h.1)
  ]

  pub update-Entries : (d e : Dict V) → Entries P d → Entries P e → Entries P (update d e)
  unfolding update
  update-Entries d [] h g = h
  update-Entries d ((k, v) ∷ e) h g =
      update-Entries (insert k v d) e (insert-Entries k v d g.0 h) g.1

  pub lookup-Entries : (k : String) (v : V) (d : Dict V) → Entries P d → lookup k d ≡ some v → P k v
  unfolding lookup
  lookup-Entries k v [] h e = absurd (cc)
  lookup-Entries k v ((j, w) ∷ d) h e = elim (Bool-cases (j == k)) [
    | inl q ↦ subst (P k) (eq_of_some (rw q at e)) (subst (λ i. P i w) ((eq_iff j k).0 q) h.0)
    | inr q ↦ lookup-Entries k v d h.1 (rw q at e)
  ]

module _ {ℓ} {V : Type ℓ} where
  abbrev pub NodupKeys : Dict V → Type ℓ
  NodupKeys [] = Unit
  NodupKeys ((k, v) ∷ d) = (lookup k d ≡ none) × NodupKeys d

  pub lookup-update :
      (j : String) (d e : Dict V)
      → NodupKeys e
      → lookup j (update d e) ≡ or_else (lookup j e) (lookup j d)
  unfolding update lookup
  lookup-update j d [] u = refl
  lookup-update j d ((k, v) ∷ e) (fresh, u) =
      lookup-update j (insert k v d) e u ∙ ground (arith, lookup-insert k j v d, eq_iff k j)

  pub insert-NodupKeys : (k : String) (v : V) (d : Dict V) → NodupKeys d → NodupKeys (insert k v d)
  unfolding insert
  insert-NodupKeys k v [] u = (unfold lookup in refl, tt)
  insert-NodupKeys k v ((j, w) ∷ d) (fresh, u) = elim (Bool-cases (j == k)) [
    | inl e ↦ rw (e, NodupKeys) (fresh, u)
    | inr e ↦
        rw (e, NodupKeys)
          (rw lookup-insert (ground (arith, eq_iff k j, eq_iff j k)), insert-NodupKeys k v d u)
  ]
