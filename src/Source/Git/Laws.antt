-- ===== src/Source/Git/Laws.antt =====
-- What the clone that a script runs is recorded with.
use aibom_webhook_service.Base.{
  ℕ, zero, suc, String, ◌≡◌, Bool, true, false, not, ◌&&◌, Option, none, some, List, [], ◌∷◌, arith,
  Bool-cases, inl, inr, All, All-append, get_elem?, is_some,
}
use aibom_webhook_service.Command.Segments.{split_segments}
use aibom_webhook_service.Command.Convert.{has_unexpanded_var}
use aibom_webhook_service.Engine.Launch.{find_flag_value}
use aibom_webhook_service.Source.Container.{given}
use aibom_webhook_service.Source.Git.{
  Clone, Script, usable_ref, is_commit_ref, where_ok, changed, checked_out, run_cd, cloned,
  run_clone, checkout_at, git_invocation, run_checkout, run_git, run_segment, run_segments, chosen,
  chosen_from, no_clones, positionals, git_clone_value_opts, git_new_branch_opts, first_of,
  clone_of_command,
}

-- a text, if there is one, passes the test
abbrev pub Passes : (String → Bool) → Option String → Type 0
Passes test none = Unit
Passes test (some s) = test s ≡ true

-- the commit is a commit's hash, and the branch a reference that names something
abbrev pub IsPinned : Clone → Type 0
IsPinned c =
    Passes is_commit_ref c.commit × Passes usable_ref c.branch × (has_unexpanded_var c.repo ≡ false)

abbrev pub AllPinned : Script → Type 0
AllPinned s = All IsPinned s.clones

where_ok-Passes : (test : String → Bool) (o : Option String) → Passes test (where_ok test o)
where_ok-Passes test none = tt
where_ok-Passes test (some s) = elim (Bool-cases (test s)) [
  | inl e ↦ rw (e, Passes) e
  | inr e ↦ rw (e, Passes) tt
]

branch-Passes :
    (t : String)
    → Passes usable_ref (where_ok (λ r. usable_ref r && not (is_commit_ref r)) (some t))
branch-Passes t = elim (Bool-cases (usable_ref t && not (is_commit_ref t))) [
  | inl e ↦ rw (e, Passes) (ground (arith, e))
  | inr e ↦ rw (e, Passes) tt
]

checked_out-IsPinned :
    (new_branch target : Option String) (c : Clone)
    → IsPinned c
    → IsPinned (checked_out new_branch target c)
unfolding checked_out
checked_out-IsPinned (some b) target c h =
    (where_ok-Passes is_commit_ref target, where_ok-Passes usable_ref (some b), h.2)
checked_out-IsPinned none (some t) c h =
    (where_ok-Passes is_commit_ref (some t), branch-Passes t, h.2)
checked_out-IsPinned none none c h = h

changed-IsPinned :
    (f : Clone → Clone) (i : ℕ) (clones : List Clone)
    → ((c : Clone) → IsPinned c → IsPinned (f c))
    → All IsPinned clones
    → All IsPinned (changed f i clones)
unfolding changed
changed-IsPinned f i [] k h = h
changed-IsPinned f zero (c ∷ clones) k h = (k c h.0, h.1)
changed-IsPinned f (suc i) (c ∷ clones) k h = (h.0, changed-IsPinned f i clones k h.1)

cloned-AllPinned :
    (branch : Option String) (pos : List String) (s : Script)
    → AllPinned s
    → AllPinned (cloned branch pos s)
unfolding cloned
cloned-AllPinned branch [] s h = h
cloned-AllPinned branch (repo ∷ rest) s h = elim (Bool-cases (has_unexpanded_var repo)) [
  | inl e ↦ rw (e, cloned) h
  | inr e ↦
      rw (e, cloned)
        (All-append IsPinned s.clones _ h ((tt, where_ok-Passes usable_ref branch, e), tt))
]

run_clone-AllPinned : (args : List String) (s : Script) → AllPinned s → AllPinned (run_clone args s)
unfolding run_clone
run_clone-AllPinned args s h =
    cloned-AllPinned (find_flag_value args ("-b" ∷ "--branch" ∷ []))
      (positionals args git_clone_value_opts false) s h

checkout_at-AllPinned :
    (f : Clone → Clone) (named : Bool) (place : Option ℕ) (s : Script)
    → ((c : Clone) → IsPinned c → IsPinned (f c))
    → AllPinned s
    → AllPinned (checkout_at f named place s)
unfolding checkout_at
checkout_at-AllPinned f named none s k h = h
checkout_at-AllPinned f named (some i) s k h = changed-IsPinned f i s.clones k h

run_checkout-AllPinned :
    (args : List String) (cdir : Option String) (s : Script)
    → AllPinned s
    → AllPinned (run_checkout args cdir s)
unfolding run_checkout
run_checkout-AllPinned args cdir s h =
    let new_branch = given (find_flag_value args git_new_branch_opts) in
    let target = given (first_of (positionals args git_new_branch_opts true)) in
    checkout_at-AllPinned (checked_out new_branch target) (is_some (given cdir)) _ s
      (checked_out-IsPinned new_branch target) h

run_git-AllPinned :
    (o : Option (String × List String × Option String)) (s : Script)
    → AllPinned s
    → AllPinned (run_git o s)
unfolding run_git
run_git-AllPinned none s h = h
run_git-AllPinned (some (sub, args, cdir)) s h =
    ground (arith, run_clone-AllPinned args s h, run_checkout-AllPinned args cdir s h, h)

run_segment-AllPinned :
    (segment : List String) (s : Script) → AllPinned s → AllPinned (run_segment segment s)
unfolding run_segment run_cd
run_segment-AllPinned segment s h =
    ground (arith, h, run_git-AllPinned (git_invocation segment) s h)

run_segments-AllPinned :
    (segments : List (List String)) (s : Script) → AllPinned s → AllPinned (run_segments segments s)
unfolding run_segments
run_segments-AllPinned [] s h = h
run_segments-AllPinned (segment ∷ rest) s h =
    run_segments-AllPinned rest (run_segment segment s) (run_segment-AllPinned segment s h)

abbrev pub WherePinned : Option Clone → Type 0
WherePinned none = Unit
WherePinned (some c) = IsPinned c

get_elem?-WherePinned :
    (i : ℕ) (clones : List Clone) → All IsPinned clones → WherePinned (get_elem? clones i)
get_elem?-WherePinned i [] h = tt
get_elem?-WherePinned zero (c ∷ clones) h = h.0
get_elem?-WherePinned (suc i) (c ∷ clones) h = get_elem?-WherePinned i clones h.1

chosen_from-WherePinned :
    (primary : Option ℕ) (clones : List Clone)
    → All IsPinned clones
    → WherePinned (chosen_from primary clones)
chosen_from-WherePinned none clones h = get_elem?-WherePinned 0 clones h
chosen_from-WherePinned (some i) clones h = get_elem?-WherePinned i clones h

chosen-WherePinned : (s : Script) → AllPinned s → WherePinned (chosen s)
unfolding chosen
chosen-WherePinned s h = chosen_from-WherePinned s.primary s.clones h

-- Whatever commands a script runs, the clone that is reported has a repository without an
-- unexpanded variable; its commit, if it has one, is a hash that is no date and no variable; and
-- its branch, if it has one, is not empty, no `HEAD` and no variable.
pub clone_of_command-WherePinned : (tokens : List String) → WherePinned (clone_of_command tokens)
unfolding clone_of_command
clone_of_command-WherePinned tokens =
    chosen-WherePinned (run_segments (split_segments tokens) no_clones)
      (run_segments-AllPinned (split_segments tokens) no_clones tt)
