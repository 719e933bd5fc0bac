-- ===== src/Tests/Hooks.antt =====
-- The import hooks on a run where torch is imported while transformers executes.
use aibom_webhook_service.Base.{
  String, Bool, true, false, ◌≡◌, refl, Option, none, some, List, [], ◌∷◌, ◌==◌, if◌then◌else◌,
}
use aibom_webhook_service.Command.Segments.{one_of}
use aibom_webhook_service.Runtime.ImportHook.{
  ModuleSpec, Finder, install_hooks_lazy, first_spec, find_spec, exec_returns, call_of, here,
  then_step, finds, returns, quiet_here,
}
use aibom_webhook_service.Runtime.ImportHook.Laws.{Accounted, install_hooks_lazy-Reaches}
use aibom_webhook_service.Runtime.ImportHook.Fires.{HasFired}
use aibom_webhook_service.Runtime.ImportHook.Imports.{import-HasFired}

-- each module has a loader of its own
abbrev files : String → Option ModuleSpec
files name =
    if name == "torch"
    then some (record { loader = some (record { id = 1; can_wrap = true }) })
    else if name == "transformers"
    then some (record { loader = some (record { id = 2; can_wrap = true }) })
    else none

abbrev finders : List (String → Option ModuleSpec)
finders = files ∷ []

abbrev nothing_imported : String → Bool
nothing_imported name = false

abbrev started : Finder
started = install_hooks_lazy nothing_imported

abbrev looked_up : Finder
looked_up = (find_spec finders [] "transformers" started).1

abbrev torch_found : Finder
torch_found = (find_spec finders [] "torch" looked_up).1

abbrev torch_done : Finder
torch_done = exec_returns false (call_of 1 "torch" torch_found) torch_found

both_fired :
    (exec_returns false (call_of 2 "transformers" looked_up) torch_done).fired
    ≡ "transformers" ∷ "torch" ∷ []
unfolding install_hooks_lazy find_spec exec_returns
both_fired = refl

install_hooks_lazy-Reaches_example : Accounted torch_done
install_hooks_lazy-Reaches_example =
    install_hooks_lazy-Reaches nothing_imported finders torch_done (
      then_step
        (then_step (then_step here (finds [] "transformers" started)) (finds [] "torch" looked_up))
        (returns false (call_of 1 "torch" torch_found) torch_found))

import-HasFired_example :
    HasFired "transformers" (exec_returns false (call_of 2 "transformers" looked_up) torch_done)
unfolding one_of first_spec
import-HasFired_example =
    import-HasFired finders nothing_imported "transformers" 2 [] started looked_up torch_done refl
      refl
      (
        record { loader = some (record { id = 2; can_wrap = true }) },
        refl,
        record { id = 2; can_wrap = true },
        refl,
        refl,
        refl,
      )
      here quiet_here
      (then_step (then_step here (finds [] "torch" looked_up))
        (returns false (call_of 1 "torch" torch_found) torch_found))
