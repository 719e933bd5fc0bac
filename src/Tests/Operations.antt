-- ===== src/Tests/Operations.antt =====
-- Pods, the cluster, the runtime's output and telemetry.
use aibom_webhook_service.Base.{
  ℕ, String, ◌≡◌, refl, Option, none, some, List, [], ◌∷◌, false, ◌⊎◌, ◌+◌, any, ◌&&◌, ◌||◌, map,
  if◌then◌else◌, or_else, arith, nat_eq, leb, true,
}
use aibom_webhook_service.Base.Int.{pos}
use aibom_webhook_service.Base.Dict
use aibom_webhook_service.Base.Dict.{Dict}
use aibom_webhook_service.Source.Container.{Container, is_text}
use aibom_webhook_service.Pod.Status.{
  pod_status_from_containers, terminated, is_oom, failed, is_failure,
}
use aibom_webhook_service.Pod.Status.Laws.{pod_status_from_containers_lem}
use aibom_webhook_service.Cluster.Api.{ConfigMapApi, Answer, ok, http_error, patch_configmap}
use aibom_webhook_service.Cluster.Api.Laws.{Documented, Written, patch_configmap-Written}
use aibom_webhook_service.Cluster.Sidecar.{
  World, Settings, Outcome.published, Outcome.gave_up, unset, updates_of, run_once, publish_final,
}
use aibom_webhook_service.Cluster.Sidecar.Laws.{
  Sent, IsStable, taken, run_once-Sent, publish_final_lem,
}
use aibom_webhook_service.Runtime.Output.{
  Entry, dataset_identity, merge_datasets, merge_info, has_git, is_git_key,
}
use aibom_webhook_service.Runtime.Output.Laws.{
  identities_after, merge_datasets-identities, merge_info-lookup,
}
use aibom_webhook_service.Telemetry.Retry.{collect_metrics_with_retry}
use aibom_webhook_service.Telemetry.Retry.Laws.{answers, collect_metrics_with_retry-lookup}
use aibom_webhook_service.Telemetry.Series.{Points, Doc}
use aibom_webhook_service.Telemetry.Fit.{fit_series_doc, reduce_from, out_of_fuel}
use aibom_webhook_service.Telemetry.Fit.Ends.{
  FitsWell, fit_series_doc-FitsWell, reduce_from_endless,
}

abbrev ended : String → ℕ → Container
ended reason code = record {
  pod_name = some "p";
  name = some "main";
  spec = record { image = none; command = []; args = [] };
  image_id = none;
  terminated_reason = some reason;
  exit_code = some (pos code);
  job_result = none;
  serving_role = none;
  restart_count = some 2;
  last_terminated_reason = some "Error";
  last_exit_code = some (pos 1);
  memory_limit_bytes = some 8;
  cpu_limit_millis = none;
  gpu_limit = none;
  finished_at = none;
}

abbrev pub pod : List Container
pod = ended "Completed" 0 ∷ ended "Error" 1 ∷ ended "OOMKilled" 137 ∷ []

pod_status_from_containers_lem_example :
    (is_text "OOMKilled" (pod_status_from_containers "p" pod).0
      ≡ any (λ c. terminated "p" c && is_oom c) pod)
    × ((is_text "OOMKilled" (pod_status_from_containers "p" pod).0
          || is_failure (pod_status_from_containers "p" pod).1)
        ≡ any (λ c. terminated "p" c && (is_oom c || failed c)) pod)
pod_status_from_containers_lem_example = pod_status_from_containers_lem "p" pod

-- a ConfigMap that is there or not, and that another writer creates between two requests
abbrev Store : Type 0
Store = Option (Dict String)

abbrev patch_store : Dict String → Store → Answer Unit × Store
patch_store u none = (http_error 404, none)
patch_store u (some d) = (ok tt, some (Dict.update d u))

abbrev create_store : Dict String → Store → Answer Unit × Store
create_store u none = (ok tt, some u)
create_store u (some d) = (http_error 409, some d)

abbrev created_by_other : Store → Store
created_by_other none = some []
created_by_other (some d) = some d

abbrev racing : ConfigMapApi Store
racing = record { patch = patch_store; create = create_store; between = created_by_other }

racing-Documented : Documented racing
racing-Documented = record {
  read = λ s. s;
  patch_found = λ u s d e. rw e (refl, refl);
  patch_missing = λ u s e. rw e refl;
  create_missing = λ u s e. rw e (refl, refl);
  create_found = λ u s d e. rw e (refl, refl);
  between_kept = λ s d e. rw e refl;
}

patch_configmap-Written_example :
    Written racing racing-Documented
      (("a.json", "1") ∷ [])
      (patch_configmap racing (("a.json", "1") ∷ []) none)
patch_configmap-Written_example =
    patch_configmap-Written racing racing-Documented (("a.json", "1") ∷ []) none
      (unfold Dict.lookup in (refl, tt))

abbrev failing : World ℕ
failing = record {
  mtime = λ w. some w;
  payload = λ w. some "{}";
  sign = λ s. none;
  patch = λ u w. (false, w);
  sleep = λ n w. w + n;
}

abbrev settings : Settings
settings = record { pod_name = "p"; pod_namespace = "n"; data_configmap = "c" }

run_once-Sent_example :
    ((run_once failing settings (some 3) 5).0 ≡ some 3)
    ⊎ Sent failing settings 5 (run_once failing settings (some 3) 5).0
run_once-Sent_example = run_once-Sent failing settings (some 3) 5

-- the API server is back after three seconds, so the third write succeeds
abbrev recovering : World ℕ
recovering = record {
  mtime = λ w. some 7;
  payload = λ w. some "{}";
  sign = λ s. some "sig";
  patch = λ u w. (leb 3 w, w);
  sleep = λ n w. w + n;
}

recovering-IsStable : IsStable recovering settings
recovering-IsStable = record {
  patched_time = λ u w. refl;
  slept_time = λ n w. refl;
  patched_payload = λ u w. refl;
  slept_payload = λ n w. refl;
}

publish_final_lem_example :
    let (last, end, outcome) = publish_final recovering settings (some 3) 0 in
    let sent = taken recovering settings (updates_of recovering settings "{}") 4 0 0 in
    (last ≡ (if sent then some 7 else some 3)) × (outcome ≡ (if sent then published else gave_up))
publish_final_lem_example =
    publish_final_lem recovering settings recovering-IsStable 7 "{}" (some 3) 0
      (unfold unset in refl) (λ e. cc) refl refl

sent_third : taken recovering settings (updates_of recovering settings "{}") 4 0 0 ≡ true
sent_third = refl

abbrev imdb : String → Entry
imdb seen = record { fields = ("dataset_name", "imdb") ∷ []; seen_via = seen ∷ [] }

merge_datasets-identities_example :
    map dataset_identity (merge_datasets (imdb "hub" ∷ []) (imdb "loader" ∷ []))
    ≡ identities_after
        (map dataset_identity (imdb "hub" ∷ []))
        (map dataset_identity (imdb "loader" ∷ []))
merge_datasets-identities_example =
    merge_datasets-identities (imdb "loader" ∷ []) (imdb "hub" ∷ [])
      ((unfold Dict.lookup in (refl, tt)), tt)

merged_once :
    merge_datasets (imdb "hub" ∷ []) (imdb "loader" ∷ [])
    ≡ record { fields = ("dataset_name", "imdb") ∷ []; seen_via = "hub" ∷ "loader" ∷ [] } ∷ []
unfolding merge_datasets
merged_once = refl

abbrev old_info : Dict String
old_info = ("git_commit", "1") ∷ ("git_branch", "main") ∷ ("lr", "2") ∷ []

merge_info-lookup_example :
    Dict.lookup "git_branch" (merge_info old_info (("git_commit", "3") ∷ [])) ≡ (
      if has_git (("git_commit", "3") ∷ []) && is_git_key "git_branch"
      then Dict.lookup "git_branch" (("git_commit", "3") ∷ [])
      else or_else
          (Dict.lookup "git_branch" (("git_commit", "3") ∷ []))
          (Dict.lookup "git_branch" old_info))
merge_info-lookup_example =
    merge_info-lookup "git_branch" old_info (("git_commit", "3") ∷ [])
      (unfold Dict.lookup in (refl, tt))

-- the second attempt answers
abbrev late : ℕ → String → Option ℕ
late attempt promql = if nat_eq attempt 2 then some 7 else none

collect_metrics_with_retry-lookup_example :
    Dict.lookup "cpu" (collect_metrics_with_retry late 3 (("cpu", "q") ∷ []))
    ≡ answers late 3 1 (Dict.lookup "cpu" (("cpu", "q") ∷ []))
collect_metrics_with_retry-lookup_example =
    collect_metrics_with_retry-lookup late "cpu" 3 (("cpu", "q") ∷ [])
      (unfold Dict.lookup in (refl, tt))

abbrev first_value : List ℕ → ℕ
first_value [] = 0
first_value (v ∷ vs) = v

abbrev points : Points ℕ
points = (100, 1) ∷ (115, 2) ∷ (130, 3) ∷ []

abbrev doc : Doc ℕ
doc = record {
  start = 100;
  end_at = 145;
  step_seconds = 15;
  metrics =
      record {
        name = "cpu";
        unit = "cores";
        aggregate = points;
        aggregate_max = none;
        series = some [];
        series_omitted = false;
      }
      ∷ [];
}

abbrev size : Doc ℕ → ℕ
size d = 500

fit_series_doc-FitsWell_example :
    FitsWell first_value first_value size
      (λ m. 9)
      400
      doc
      (fit_series_doc first_value first_value size (λ m. 9) 2 doc 400)
fit_series_doc-FitsWell_example =
    fit_series_doc-FitsWell first_value first_value size (λ m. 9) 2 doc 400 (omega arith)

reduce_from_endless_example :
    reduce_from first_value first_value size (λ m. 9) 50 1 400 doc 2 doc ≡ out_of_fuel
reduce_from_endless_example =
    reduce_from_endless first_value first_value size (λ m. 9) 50 1 400 doc 2 doc (omega arith)
      (unfold fit_series_doc in omega arith) (omega arith) (λ f. refl)
