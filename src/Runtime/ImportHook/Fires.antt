-- ===== src/Runtime/ImportHook/Fires.antt =====
-- A module that was looked up through the finder and has executed has had its hook run.
use mathlib.Core.Path.{subst}
use aibom_webhook_service.Base.{
  ℕ, String, Bool, true, false, ◌≡◌, refl, ◌∙◌, Option, none, some, List, ◌∷◌, ◌==◌, ◌⊎◌,
  if◌then◌else◌, nat_eq, nat_eq_iff, arith, Bool-cases, Option-cases, inl, inr, eq_iff, eq_refl,
}
use aibom_webhook_service.Command.Segments.{one_of}
use aibom_webhook_service.Runtime.ImportHook.{
  Exec, original, wrapped, Loader, ModuleSpec, Call, Finder, claimed, fire, set_exec, unwrapped,
  wrap_loader, wrap_spec, returned, lazy_triggers,
}
use aibom_webhook_service.Runtime.ImportHook.Laws.{
  Accounted, set_exec-Accounted, returned-Accounted,
}

abbrev pub HasFired : String → Finder → Type 0
HasFired n s = one_of s.fired n ≡ true

cons-HasFired :
    (name n : String) (fired : List String) → one_of fired n ≡ true → one_of (name ∷ fired) n ≡ true
unfolding one_of
cons-HasFired name n fired h = ground (arith, h)

fire-HasFired : (name n : String) (s : Finder) → HasFired n s → HasFired n (fire name s)
unfolding fire claimed
fire-HasFired name n s h = elim (Bool-cases (one_of s.pending name)) [
  | inl e ↦ rw (e, if◌then◌else◌) (cons-HasFired name n s.fired h)
  | inr e ↦ rw (e, if◌then◌else◌) h
]

-- a trigger has fired after its `fire`
fire_self :
    (name : String) (s : Finder)
    → Accounted s
    → one_of lazy_triggers name ≡ true
    → HasFired name (fire name s)
unfolding fire claimed
fire_self name s a h = elim (Bool-cases (one_of s.pending name)) [
  | inl e ↦ rw (e, if◌then◌else◌) (unfold one_of in rw (eq_refl name) refl)
  | inr e ↦ rw (e, if◌then◌else◌) (ground (arith, a.each name, h, e))
]

unwrapped-HasFired :
    (name n : String) (raised : Bool) (call : Call) (s : Finder)
    → HasFired n s
    → HasFired n (unwrapped name raised call s)
unfolding unwrapped
unwrapped-HasFired name n raised call s h = elim (Bool-cases (call.name == name)) [
  | inr k ↦ rw (k, if◌then◌else◌) h
  | inl y ↦ rw (y, if◌then◌else◌) (either raised)
]
  where
    either :
        (r : Bool)
        → HasFired n (
            if r
            then set_exec call.loader original s
            else fire name (set_exec call.loader original s))
    either true = h
    either false = fire-HasFired name n (set_exec call.loader original s) h

pub returned-HasFired :
    (n : String) (e : Exec) (raised : Bool) (call : Call) (s : Finder)
    → HasFired n s
    → HasFired n (returned e raised call s)
unfolding returned
returned-HasFired n original raised call s h = h
returned-HasFired n (wrapped name e) raised call s h =
    unwrapped-HasFired name n raised call _ (returned-HasFired n e raised call s h)

-- a wrapper for the module is among those of a loader
abbrev pub Wraps : String → Exec → Type 0
Wraps n original = ⊥
Wraps n (wrapped name e) = (n ≡ name) ⊎ Wraps n e

unwrapped_self :
    (name : String) (call : Call) (s : Finder)
    → Accounted s
    → one_of lazy_triggers call.name ≡ true
    → call.name ≡ name
    → HasFired call.name (unwrapped name false call s)
unfolding unwrapped
unwrapped_self name call s a h same =
    rw ((eq_iff call.name name).1 same, if◌then◌else◌)
      (subst (λ n. HasFired call.name (fire n (set_exec call.loader original s))) same
        (fire_self call.name _ (set_exec-Accounted call.loader original s a) h))

fire-exec : (name : String) (s : Finder) (loader : ℕ) → (fire name s).exec loader ≡ s.exec loader
unfolding fire claimed
fire-exec name s loader = elim (Bool-cases (one_of s.pending name)) [
  | inl e ↦ rw (e, if◌then◌else◌) refl
  | inr e ↦ rw (e, if◌then◌else◌) refl
]

pub returned-fires :
    (e : Exec) (call : Call) (s : Finder)
    → Accounted s
    → one_of lazy_triggers call.name ≡ true
    → Wraps call.name e
    → HasFired call.name (returned e false call s)
unfolding returned
returned-fires original call s a h w = absurd w
returned-fires (wrapped name e) call s a h (inl same) =
    unwrapped_self name call _ (returned-Accounted e false call s a) h same
returned-fires (wrapped name e) call s a h (inr w) =
    unwrapped-HasFired name call.name false call (returned e false call s)
      (returned-fires e call s a h w)

-- the wrappers of a loader after the steps of other loaders
unwrapped-exec :
    (loader : ℕ) (name : String) (raised : Bool) (call : Call) (s : Finder)
    → nat_eq loader call.loader ≡ false
    → (unwrapped name raised call s).exec loader ≡ s.exec loader
unfolding unwrapped
unwrapped-exec loader name raised call s h = elim (Bool-cases (call.name == name)) [
  | inr k ↦ rw (k, if◌then◌else◌) refl
  | inl y ↦ rw (y, if◌then◌else◌) (either raised)
]
  where
    either :
        (r : Bool)
        → (if r
              then set_exec call.loader original s
              else fire name (set_exec call.loader original s)).exec
            loader
          ≡ s.exec loader
    either true = rw (h, if◌then◌else◌) refl
    either false =
        fire-exec name (set_exec call.loader original s) loader ∙ rw (h, if◌then◌else◌) refl

pub returned-exec :
    (loader : ℕ) (e : Exec) (raised : Bool) (call : Call) (s : Finder)
    → nat_eq loader call.loader ≡ false
    → (returned e raised call s).exec loader ≡ s.exec loader
unfolding returned
returned-exec loader original raised call s h = refl
returned-exec loader (wrapped name e) raised call s h =
    unwrapped-exec loader name raised call _ h ∙ returned-exec loader e raised call s h

set_exec-Wraps :
    (n name : String) (id loader : ℕ) (s : Finder)
    → Wraps n (s.exec loader)
    → Wraps n ((set_exec id (wrapped name (s.exec id)) s).exec loader)
set_exec-Wraps n name id loader s w = elim (Bool-cases (nat_eq loader id)) [
  | inl e ↦
      rw (e, if◌then◌else◌) (inr (subst (λ i. Wraps n (s.exec i)) ((nat_eq_iff loader id).0 e) w))
  | inr e ↦ rw (e, if◌then◌else◌) w
]

pub wrap_spec-Wraps :
    (n name : String) (spec : Option ModuleSpec) (loader : ℕ) (s : Finder)
    → Wraps n (s.exec loader)
    → Wraps n ((wrap_spec spec name s).exec loader)
unfolding wrap_loader
wrap_spec-Wraps n name none loader s w = w
wrap_spec-Wraps n name (some spec) loader s w = elim (Option-cases spec.loader) [
  | inl e ↦ rw (e, wrap_spec) w
  | inr (l, e) ↦ elim (Bool-cases l.can_wrap) [
    | inl c ↦ rw (e, c, wrap_spec) (set_exec-Wraps n name l.id loader s w)
    | inr c ↦ rw (e, c, wrap_spec) w
  ]
]

pub wrap_spec-fired :
    (spec : Option ModuleSpec) (name : String) (s : Finder)
    → (wrap_spec spec name s).fired ≡ s.fired
unfolding wrap_loader
wrap_spec-fired none name s = refl
wrap_spec-fired (some spec) name s = elim (Option-cases spec.loader) [
  | inl e ↦ rw (e, wrap_spec) refl
  | inr (l, e) ↦ elim (Bool-cases l.can_wrap) [
    | inl c ↦ rw (e, c, wrap_spec) refl
    | inr c ↦ rw (e, c, wrap_spec) refl
  ]
]

-- a spec whose loader can be wrapped
abbrev pub CanWrap : Option ModuleSpec → ℕ → Type 0
CanWrap o id =
    (spec : ModuleSpec) × (o ≡ some spec)
    × (l : Loader) × (spec.loader ≡ some l)
    × (l.can_wrap ≡ true)
    × (l.id ≡ id)

pub wrap_spec_lem :
    (o : Option ModuleSpec) (name : String) (id : ℕ) (s : Finder)
    → CanWrap o id
    → Wraps name ((wrap_spec o name s).exec id)
unfolding wrap_loader
wrap_spec_lem o name id s (spec, e, l, f, c, g) =
    rw (e, f, c, wrap_spec)
      (subst (λ i. Wraps name ((set_exec l.id (wrapped name (s.exec l.id)) s).exec i)) g
        (rw ((nat_eq_iff l.id l.id).1 refl, if◌then◌else◌) (inl refl)))
