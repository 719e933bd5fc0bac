-- ===== src/Runtime/ImportHook/Imports.antt =====
-- An import of a trigger runs its hook.
use mathlib.Core.Path.{subst}
use aibom_webhook_service.Base.{
  ℕ, String, Bool, true, false, not, ◌||◌, ◌≡◌, sym, ap, ◌∙◌, Option, List, if◌then◌else◌, arith,
  Bool-cases, inl, inr,
}
use aibom_webhook_service.Command.Segments.{one_of}
use aibom_webhook_service.Runtime.ImportHook.{
  ModuleSpec, Finder, first_spec, find_spec, exec_returns, call_of, lazy_triggers,
  install_hooks_lazy, finds, returns, Reaches, here, then_step, QuietReaches, quiet_here,
  quiet_finds, quiet_returns,
}
use aibom_webhook_service.Runtime.ImportHook.Laws.{install_hooks_lazy-Reaches, Reaches-Accounted}
use aibom_webhook_service.Runtime.ImportHook.Fires.{
  HasFired, Wraps, CanWrap, returned-HasFired, returned-fires, returned-exec, wrap_spec-Wraps,
  wrap_spec-fired, wrap_spec_lem,
}

module _ (finders : List (String → Option ModuleSpec)) where
  find_spec-HasFired :
      (n : String) (resolving : List String) (fullname : String) (s : Finder)
      → HasFired n s
      → HasFired n (find_spec finders resolving fullname s).1
  unfolding find_spec
  find_spec-HasFired n resolving fullname s h =
      elim (Bool-cases (not (one_of s.pending fullname) || one_of resolving fullname)) [
        | inl e ↦ rw (e, if◌then◌else◌) h
        | inr e ↦
            rw (e, if◌then◌else◌)
              (ap (λ fired. one_of fired n)
                  (wrap_spec-fired (first_spec finders fullname) fullname s)
                ∙ h)
      ]

  Reaches-HasFired : (n : String) {s t : Finder} → Reaches finders s t → HasFired n s → HasFired n t
  unfolding exec_returns
  Reaches-HasFired n here h = h
  Reaches-HasFired n (then_step r (finds resolving fullname s)) h =
      find_spec-HasFired n resolving fullname s (Reaches-HasFired n r h)
  Reaches-HasFired n (then_step r (returns raised call s)) h =
      returned-HasFired n call.exec raised call s (Reaches-HasFired n r h)

  find_spec-Wraps :
      (n : String) (loader : ℕ) (resolving : List String) (fullname : String) (s : Finder)
      → Wraps n (s.exec loader)
      → Wraps n ((find_spec finders resolving fullname s).1.exec loader)
  unfolding find_spec
  find_spec-Wraps n loader resolving fullname s w =
      elim (Bool-cases (not (one_of s.pending fullname) || one_of resolving fullname)) [
        | inl e ↦ rw (e, if◌then◌else◌) w
        | inr e ↦
            rw (e, if◌then◌else◌)
              (wrap_spec-Wraps n fullname (first_spec finders fullname) loader s w)
      ]

  QuietReaches-Wraps :
      (n : String) (loader : ℕ) {s t : Finder}
      → QuietReaches finders loader s t
      → Wraps n (s.exec loader)
      → Wraps n (t.exec loader)
  unfolding exec_returns
  QuietReaches-Wraps n loader quiet_here w = w
  QuietReaches-Wraps n loader (quiet_finds {t} resolving fullname r) w =
      find_spec-Wraps n loader resolving fullname t (QuietReaches-Wraps n loader r w)
  QuietReaches-Wraps n loader (quiet_returns {t} raised call r h) w =
      subst (Wraps n) (sym (returned-exec loader call.exec raised call t h))
        (QuietReaches-Wraps n loader r w)

  QuietReaches-Reaches :
      (loader : ℕ) {s t : Finder} → QuietReaches finders loader s t → Reaches finders s t
  QuietReaches-Reaches loader quiet_here = here
  QuietReaches-Reaches loader (quiet_finds {t} resolving fullname r) =
      then_step (QuietReaches-Reaches loader r) (finds resolving fullname t)
  QuietReaches-Reaches loader (quiet_returns {t} raised call r h) =
      then_step (QuietReaches-Reaches loader r) (returns raised call t)

  -- a lookup of a pending name wraps its loader
  find_spec_lem :
      (name : String) (id : ℕ) (resolving : List String) (s : Finder)
      → one_of s.pending name ≡ true
      → one_of resolving name ≡ false
      → CanWrap (first_spec finders name) id
      → Wraps name ((find_spec finders resolving name s).1.exec id)
  unfolding find_spec
  find_spec_lem name id resolving s h k c =
      rw (h, k, if◌then◌else◌) (wrap_spec_lem (first_spec finders name) name id s c)

  -- If a trigger is looked up, by a thread that is not looking it up already, and its loader can be
  -- wrapped, then its module is executed before any call on that loader has returned, and in the
  -- end the call returns without an exception, the trigger's hook has run, whatever else was
  -- looked up and returned in between.
  pub import-HasFired :
      (imported : String → Bool) (name : String) (id : ℕ) (resolving : List String) (s t u : Finder)
      → one_of lazy_triggers name ≡ true
      → one_of resolving name ≡ false
      → CanWrap (first_spec finders name) id
      → Reaches finders (install_hooks_lazy imported) s
      → QuietReaches finders id (find_spec finders resolving name s).1 t
      → Reaches finders t u
      → HasFired name (exec_returns false (call_of id name t) u)
  unfolding exec_returns
  import-HasFired imported name id resolving s t u l k c before quiet after =
      let a = install_hooks_lazy-Reaches imported finders s before in
      let found = then_step before (finds resolving name s) in
      elim (Bool-cases (one_of s.pending name)) [
        | inl p ↦
            returned-fires (t.exec id) (call_of id name t) u
              (Reaches-Accounted finders after (
                Reaches-Accounted finders (QuietReaches-Reaches id quiet) (
                  Reaches-Accounted finders found
                    (install_hooks_lazy-Reaches imported finders _ here))))
              l (QuietReaches-Wraps name id quiet (find_spec_lem name id resolving s p k c))
        | inr p ↦ returned-HasFired name (t.exec id) false (call_of id name t) u (
            Reaches-HasFired name after (
              Reaches-HasFired name (QuietReaches-Reaches id quiet)
                (find_spec-HasFired name resolving name s (ground (arith, a.each name, l, p)))))
      ]
