-- ===== src/Runtime/ImportHook/Laws.antt =====
-- Every hook runs at most once, a module that has executed has had its hook run, and the finder
-- leaves the path when none is left.
use mathlib.Core.Path.{subst}
use aibom_webhook_service.Base.{
  ℕ, String, Bool, true, false, not, ◌&&◌, ◌||◌, ◌≡◌, refl, sym, Option, none, some, List, [], ◌∷◌,
  ◌==◌, if◌then◌else◌, arith, keep, Bool-cases, Option-cases, inl, inr, eq_iff,
}
use aibom_webhook_service.Command.Segments.{one_of}
use aibom_webhook_service.Runtime.ImportHook.{
  Exec, original, wrapped, Loader, ModuleSpec, Call, Finder, is_empty, without, claimed, fire,
  set_exec, unwrapped, wrap_loader, wrap_spec, first_spec, find_spec, returned, exec_returns,
  fire_all, lazy_triggers, install_hooks_lazy, finds, returns, Reaches, here, then_step,
}

-- no name twice
abbrev pub Nodup : List String → Type 0
Nodup [] = Unit
Nodup (n ∷ names) = (one_of names n ≡ false) × Nodup names

pub record Accounted (s : Finder) : Type 0 where
  pub once : Nodup s.fired
  pub each : (n : String) → (one_of s.pending n || one_of s.fired n) ≡ one_of lazy_triggers n
  pub apart : (n : String) → (one_of s.pending n && one_of s.fired n) ≡ false
  pub listed : s.on_path ≡ true → is_empty s.pending ≡ false

one_of-without :
    (name n : String) (names : List String)
    → one_of (without name names) n ≡ (one_of names n && not (n == name))
unfolding one_of
one_of-without name n [] = refl
one_of-without name n (m ∷ names) =
    ground (arith, eq_iff m name, eq_iff n m, eq_iff n name, one_of-without name n names)

one_of-cons :
    (name n : String) (names : List String)
    → one_of (name ∷ names) n ≡ ((n == name) || one_of names n)
unfolding one_of
one_of-cons name n names = refl

-- what is known of the names before and after one of them is moved
moved :
    (p f l same : Bool)
    → (p || f) ≡ l
    → (p && f) ≡ false
    → (same ≡ true → p ≡ true)
    → (((p && not same) || (same || f)) ≡ l) × (((p && not same) && (same || f)) ≡ false)
moved true true l same h k m = absurd (ne k)
  where
    ne : true ≡ false → ⊥
    ne e = cc
moved true false l true h k m = (h, refl)
moved true false l false h k m = (h, refl)
moved false f l true h k m = absurd (ne (m refl))
  where
    ne : false ≡ true → ⊥
    ne e = cc
moved false f l false h k m = (h, refl)

claimed-Accounted :
    (name : String) (s : Finder)
    → one_of s.pending name ≡ true
    → Accounted s
    → Accounted (claimed name s)
unfolding claimed
claimed-Accounted name s h a = record {
  once = (ground (arith, a.apart name), a.once);
  each = λ n. rw (one_of-without name n s.pending, one_of-cons name n s.fired) (moves n).0;
  apart = λ n. rw (one_of-without name n s.pending, one_of-cons name n s.fired) (moves n).1;
  listed = λ k. ground (arith, k);
}
  where
    moves :
        (n : String)
        → (((one_of s.pending n && not (n == name)) || ((n == name) || one_of s.fired n))
            ≡ one_of lazy_triggers n)
          × (((one_of s.pending n && not (n == name)) && ((n == name) || one_of s.fired n)) ≡ false)
    moves n =
        moved (one_of s.pending n) (one_of s.fired n) (one_of lazy_triggers n) (n == name)
          (a.each n) (a.apart n)
          (λ e. subst (λ m. one_of s.pending m ≡ true) (sym ((eq_iff n name).0 e)) h)

pub fire-Accounted : (name : String) (s : Finder) → Accounted s → Accounted (fire name s)
unfolding fire
fire-Accounted name s a = elim (Bool-cases (one_of s.pending name)) [
  | inl e ↦ rw (e, if◌then◌else◌) (claimed-Accounted name s e a)
  | inr e ↦
      rw (e, if◌then◌else◌)
        (record { once = a.once; each = a.each; apart = a.apart; listed = λ k. ground (arith, k) })
]

pub set_exec-Accounted :
    (id : ℕ) (e : Exec) (s : Finder) → Accounted s → Accounted (set_exec id e s)
set_exec-Accounted id e s a = record {
  once = a.once;
  each = a.each;
  apart = a.apart;
  listed = a.listed;
}

unwrapped-Accounted :
    (name : String) (raised : Bool) (call : Call) (s : Finder)
    → Accounted s
    → Accounted (unwrapped name raised call s)
unfolding unwrapped
unwrapped-Accounted name raised call s a = elim (Bool-cases (call.name == name)) [
  | inr n ↦ rw (n, if◌then◌else◌) a
  | inl y ↦ rw (y, if◌then◌else◌) (either raised)
]
  where
    either :
        (r : Bool)
        → Accounted (
            if r
            then set_exec call.loader original s
            else fire name (set_exec call.loader original s))
    either true = set_exec-Accounted call.loader original s a
    either false = fire-Accounted name _ (set_exec-Accounted call.loader original s a)

pub returned-Accounted :
    (e : Exec) (raised : Bool) (call : Call) (s : Finder)
    → Accounted s
    → Accounted (returned e raised call s)
unfolding returned
returned-Accounted original raised call s a = a
returned-Accounted (wrapped name e) raised call s a =
    unwrapped-Accounted name raised call _ (returned-Accounted e raised call s a)

wrap_loader-Accounted :
    (loader : Loader) (n : String) (s : Finder) → Accounted s → Accounted (wrap_loader loader n s)
unfolding wrap_loader
wrap_loader-Accounted loader n s a = elim (Bool-cases loader.can_wrap) [
  | inl e ↦ rw (e, if◌then◌else◌) (set_exec-Accounted loader.id _ s a)
  | inr e ↦ rw (e, if◌then◌else◌) a
]

wrap_spec-Accounted :
    (spec : Option ModuleSpec) (n : String) (s : Finder)
    → Accounted s
    → Accounted (wrap_spec spec n s)
wrap_spec-Accounted none n s a = a
wrap_spec-Accounted (some spec) n s a = elim (Option-cases spec.loader) [
  | inl e ↦ rw (e, wrap_spec) a
  | inr (loader, e) ↦ rw (e, wrap_spec) (wrap_loader-Accounted loader n s a)
]

module _ (finders : List (String → Option ModuleSpec)) where
  find_spec-Accounted :
      (resolving : List String) (n : String) (s : Finder)
      → Accounted s
      → Accounted (find_spec finders resolving n s).1
  unfolding find_spec
  find_spec-Accounted resolving n s a =
      elim (Bool-cases (not (one_of s.pending n) || one_of resolving n)) [
        | inl e ↦ rw (e, if◌then◌else◌) a
        | inr e ↦ rw (e, if◌then◌else◌) (wrap_spec-Accounted (first_spec finders n) n s a)
      ]

  pub Reaches-Accounted : {s t : Finder} → Reaches finders s t → Accounted s → Accounted t
  unfolding exec_returns
  Reaches-Accounted here a = a
  Reaches-Accounted (then_step r (finds resolving n s)) a =
      find_spec-Accounted resolving n s (Reaches-Accounted r a)
  Reaches-Accounted (then_step r (returns raised call s)) a =
      returned-Accounted call.exec raised call s (Reaches-Accounted r a)

fire_all-Accounted : (names : List String) (s : Finder) → Accounted s → Accounted (fire_all names s)
unfolding fire_all
fire_all-Accounted [] s a = a
fire_all-Accounted (name ∷ names) s a = fire_all-Accounted names _ (fire-Accounted name s a)

pub install_hooks_lazy-Accounted :
    (imported : String → Bool) → Accounted (install_hooks_lazy imported)
unfolding install_hooks_lazy one_of
install_hooks_lazy-Accounted imported = fire_all-Accounted (keep imported lazy_triggers) _ (record {
  once = tt;
  each = λ n. or_false (one_of lazy_triggers n);
  apart = λ n. and_false (one_of lazy_triggers n);
  listed = λ k. refl;
})
  where
    or_false : (b : Bool) → (b || false) ≡ b
    or_false true = refl
    or_false false = refl

    and_false : (b : Bool) → (b && false) ≡ false
    and_false true = refl
    and_false false = refl

-- Whatever is imported already, and in whatever order modules are looked up and calls of their
-- loaders return, no hook runs twice, each trigger's hook either ran or is pending and not both,
-- and the finder is on the path only while a hook is pending.
pub install_hooks_lazy-Reaches :
    (imported : String → Bool) (finders : List (String → Option ModuleSpec)) (t : Finder)
    → Reaches finders (install_hooks_lazy imported) t
    → Accounted t
install_hooks_lazy-Reaches imported finders t r =
    Reaches-Accounted finders r (install_hooks_lazy-Accounted imported)
