-- ===== src/Cluster/Api.antt =====
-- `patch_configmap` and the requests for objects. The API server is a parameter: what it answers
-- to a request in a state `S` of the cluster, and the state after it.
pub mod Laws
use aibom_webhook_service.Base.{
  ℕ, String, Bool, true, false, ◌||◌, Option, none, some, List, [], ◌∷◌, if◌then◌else◌, nat_eq,
}
use aibom_webhook_service.Base.Dict.{Dict}

-- a response, or the code of an `HTTPError`
pub data Answer (A : Type 0) : Type 0 where
  ok : A → Answer A
  http_error : ℕ → Answer A

-- The requests about one ConfigMap; `between` is what others do between two requests.
pub record ConfigMapApi (S : Type 0) : Type 0 where
  pub patch : Dict String → S → Answer Unit × S
  pub create : Dict String → S → Answer Unit × S
  pub between : S → S

module _ {S : Type 0} (api : ConfigMapApi S) where
  -- the patch after a lost race
  after_create : Dict String → Answer Unit × S → Answer Unit × S
  after_create data_updates (ok x, s) = (ok x, s)
  after_create data_updates (http_error code, s) =
      if nat_eq code 409 then api.patch data_updates (api.between s) else (http_error code, s)

  after_patch : Dict String → Answer Unit × S → Answer Unit × S
  unfolding after_create
  after_patch data_updates (ok x, s) = (ok x, s)
  after_patch data_updates (http_error code, s) =
      if nat_eq code 404
      then after_create data_updates (api.create data_updates (api.between s))
      else (http_error code, s)

  unfoldable pub patch_configmap : Dict String → S → Answer Unit × S
  unfolding after_patch
  patch_configmap data_updates s = after_patch data_updates (api.patch data_updates s)

-- an object or `none`, else the code of the error that is raised
unfoldable pub get_custom_object : {A : Type 0} → Answer A → Answer (Option A)
get_custom_object (ok x) = ok (some x)
get_custom_object (http_error code) = if nat_eq code 404 then ok none else http_error code

unfoldable pub get_cluster_object : {A : Type 0} → Answer A → Answer (Option A)
get_cluster_object (ok x) = ok (some x)
get_cluster_object (http_error code) =
    if nat_eq code 404 || nat_eq code 403 then ok none else http_error code
