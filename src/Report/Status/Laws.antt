-- ===== src/Report/Status/Laws.antt =====
-- What the status of a workload says of its pods and Jobs.
use aibom_webhook_service.Base.{
  String, ◌≡◌, refl, ◌∙◌, Bool, true, false, not, ◌&&◌, ◌||◌, Option, none, some, List, [], ◌∷◌,
  ◌==◌, arith, any, first, Bool-cases, inl, inr, is_some, eq_iff,
}
use aibom_webhook_service.Source.Container.{Container, is_text}
use aibom_webhook_service.Pod.Status.{pod_job_result}
use aibom_webhook_service.Report.Status.{
  counted, not_completed, is_empty, or_completed, roll_up, with_jobs, workload_status,
}

oom-not_completed : (s : String) → (s == "OOMKilled") ≡ true → not_completed s ≡ true
oom-not_completed s h = rw ((eq_iff s "OOMKilled").0 h) refl

any-oom : (xs : List String) → any (λ s. s == "OOMKilled") xs ≡ true → any not_completed xs ≡ true
any-oom [] h = h
any-oom (x ∷ xs) h = ground (arith, h, any-oom xs, oom-not_completed x)

completed-or_completed :
    (xs statuses : List String)
    → is_text "Completed" (or_completed (first not_completed xs) statuses)
      ≡ (not (any not_completed xs) && not (is_empty statuses))
completed-or_completed [] [] = refl
completed-or_completed [] (s ∷ statuses) = refl
completed-or_completed (x ∷ xs) statuses = ground (arith, completed-or_completed xs statuses)

oom-or_completed :
    (xs statuses : List String)
    → any (λ s. s == "OOMKilled") xs ≡ false
    → is_text "OOMKilled" (or_completed (first not_completed xs) statuses) ≡ false
oom-or_completed [] [] h = refl
oom-or_completed [] (s ∷ statuses) h = refl
oom-or_completed (x ∷ xs) statuses h = ground (arith, h, oom-or_completed xs statuses)

completed-roll_up :
    (xs : List String)
    → is_text "Completed" (roll_up xs) ≡ (not (any not_completed xs) && not (is_empty xs))
unfolding roll_up
completed-roll_up xs = elim (Bool-cases (any (λ s. s == "OOMKilled") xs)) [
  | inl e ↦ rw (e, any-oom xs e) refl
  | inr e ↦ rw e (completed-or_completed xs xs)
]

oom-roll_up : (xs : List String) → is_text "OOMKilled" (roll_up xs) ≡ any (λ s. s == "OOMKilled") xs
unfolding roll_up
oom-roll_up xs = elim (Bool-cases (any (λ s. s == "OOMKilled") xs)) [
  | inl e ↦ rw e refl
  | inr e ↦ rw e (oom-or_completed xs xs e)
]

is_some-or_completed :
    (xs statuses : List String)
    → is_some (or_completed (first not_completed xs) statuses)
      ≡ (any not_completed xs || not (is_empty statuses))
is_some-or_completed [] [] = refl
is_some-or_completed [] (s ∷ statuses) = refl
is_some-or_completed (x ∷ xs) statuses = ground (arith, is_some-or_completed xs statuses)

some-roll_up : (xs : List String) → is_some (roll_up xs) ≡ not (is_empty xs)
unfolding roll_up
some-roll_up [] = refl
some-roll_up (x ∷ xs) = elim (Bool-cases (any (λ s. s == "OOMKilled") (x ∷ xs))) [
  | inl e ↦ rw e refl
  | inr e ↦ rw e (is_some-or_completed (x ∷ xs) (x ∷ xs) ∙ ground arith)
]

completed-with_jobs :
    (c f : Bool) (o : Option String)
    → is_text "Completed" (with_jobs c f o)
      ≡ ((is_text "Completed" o || (not (is_some o) && c)) && not f)
unfolding with_jobs
completed-with_jobs c f none = ground arith
completed-with_jobs c f (some s) = ground arith

oom-with_jobs :
    (c f : Bool) (o : Option String) → is_text "OOMKilled" (with_jobs c f o) ≡ is_text "OOMKilled" o
unfolding with_jobs
oom-with_jobs c f none = ground arith
oom-with_jobs c f (some s) = ground (arith, oom-not_completed s)

-- A workload was killed for memory exactly if a pod that counts was. It is completed exactly if no
-- pod that counts failed, one of them or a Job says that it completed, and no Job says that it
-- failed.
pub workload_status_lem :
    (containers : List Container) (pods : List String)
    → (is_text "OOMKilled" (workload_status containers pods)
        ≡ any (λ s. s == "OOMKilled") (counted containers pods))
      × (is_text "Completed" (workload_status containers pods) ≡ (
          not (any not_completed (counted containers pods))
          && (not (is_empty (counted containers pods))
              || any (λ p. is_text "Complete" (pod_job_result p containers)) pods)
          && not (any (λ p. is_text "Failed" (pod_job_result p containers)) pods)))
unfolding workload_status
workload_status_lem containers pods =
    let xs = counted containers pods in
    (
      oom-with_jobs _ _ (roll_up xs) ∙ oom-roll_up xs,
      completed-with_jobs _ _ (roll_up xs)
          ∙ rw (completed-roll_up xs, some-roll_up xs) (joined xs _ _),
    )
  where
    joined :
        (xs : List String) (c f : Bool)
        → (((not (any not_completed xs) && not (is_empty xs)) || (not (not (is_empty xs)) && c))
            && not f)
          ≡ (not (any not_completed xs) && (not (is_empty xs) || c) && not f)
    joined [] c f = ground arith
    joined (x ∷ xs) c f = ground arith
