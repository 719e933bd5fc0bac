-- ===== src/Report/Status.antt =====
-- The workload's status and its intent in `compile_aibom`.
pub mod Laws
use aibom_webhook_service.Base.{
  String, Bool, true, false, not, ◌&&◌, ◌||◌, Option, none, some, List, [], ◌∷◌, ◌==◌,
  if◌then◌else◌, any, first, is_some,
}
use aibom_webhook_service.Base.Dict
use aibom_webhook_service.Base.Dict.{Dict}
use aibom_webhook_service.Value.{Value, PyFloat, truthy}
use aibom_webhook_service.Source.Container.{Container, given, is_text}
use aibom_webhook_service.Pod.Status.{pod_status_from_containers, pod_job_result}

-- a failed pod of a Job that went on to complete
unfoldable pub is_retried_attempt : Option String → Option String → Bool
is_retried_attempt job_result status =
    is_text "Complete" job_result && is_some status && not (is_text "Completed" status)

-- the statuses that count: given ones, of pods that were not retried
unfoldable pub counted : List Container → List String → List String
unfolding pod_status_from_containers pod_job_result is_retried_attempt
counted containers [] = []
counted containers (pod_name ∷ pod_names) =
    let status = (pod_status_from_containers pod_name containers).0 in
    let rest = counted containers pod_names in
    if is_retried_attempt (pod_job_result pod_name containers) status
    then rest
    else (elim (given status) [ none ↦ rest | some s ↦ s ∷ rest ])

abbrev pub not_completed : String → Bool
not_completed s = not (s == "Completed")

abbrev pub is_empty : List String → Bool
is_empty [] = true
is_empty (x ∷ xs) = false

-- with the first status that is no completion
abbrev pub or_completed : Option String → List String → Option String
or_completed (some s) statuses = some s
or_completed none statuses = if is_empty statuses then none else some "Completed"

unfoldable pub roll_up : List String → Option String
roll_up statuses =
    if any (λ s. s == "OOMKilled") statuses
    then some "OOMKilled"
    else or_completed (first not_completed statuses) statuses

-- the Jobs' own outcomes, where the pods do not tell
unfoldable pub with_jobs : Bool → Bool → Option String → Option String
with_jobs some_complete some_failed status =
    let known = if not (is_some status) && some_complete then some "Completed" else status in
    if (not (is_some known) || is_text "Completed" known) && some_failed
    then some "Failed"
    else known

unfoldable pub workload_status : List Container → List String → Option String
unfolding with_jobs roll_up counted pod_job_result
workload_status containers pod_names =
    with_jobs (any (λ p. is_text "Complete" (pod_job_result p containers)) pod_names)
      (any (λ p. is_text "Failed" (pod_job_result p containers)) pod_names)
      (roll_up (counted containers pod_names))

module _ {R : Type 0} (F : PyFloat R) where
  has : String → Dict (Value R) → Bool
  unfolding Dict.lookup truthy
  has key d = elim (Dict.lookup key d) [ none ↦ false | some v ↦ truthy F v ]

  -- the intent, and how it was declared
  unfoldable pub experiment_intent : Option String → Dict (Value R) → String × Option String
  unfolding has
  experiment_intent declared_intent dm = elim (given declared_intent) [
    | some intent ↦ (intent, some "annotation")
    | none ↦
        if has "serving_engine" dm
        then ("inference", some "inferred_from_model_detection")
        else if has "training_framework" dm
        then (
          if has "adaptation_method" dm then "sft" else "training",
          some "inferred_from_model_detection",
        )
        else ("unknown", none)
  ]
