-- ===== src/Cluster/Names.antt =====
-- `_postprocess_job_name` and `resolve_data_configmap_name`.
pub mod Laws
use Prim.Native.String.{◌++◌ as ◌<>◌}
use aibom_webhook_service.Base.{ℕ, String, ◌==◌, ◌-◌, if◌then◌else◌, nat_eq}
use aibom_webhook_service.Base.Text.{take_text, rstrip_by, text_length}

abbrev pub max_job_name_length : ℕ
max_job_name_length = 63

abbrev pub postprocess_suffix : String
postprocess_suffix = "-aibom-postprocess"

abbrev pub configmap_suffix : String
configmap_suffix = "-data"

abbrev pub workload_identity_suffix_len : ℕ
workload_identity_suffix_len = text_length "-aibom-workload-identity"

-- the trigger's name, cut off
unfoldable pub base_name : String → String
unfolding take_text rstrip_by
base_name trigger_name =
    rstrip_by (λ c. nat_eq c b'-')
      (take_text (max_job_name_length - workload_identity_suffix_len) trigger_name)

unfoldable pub postprocess_job_name : String → String
unfolding base_name
postprocess_job_name trigger_name = base_name trigger_name <> postprocess_suffix

-- from the two environment variables, empty where they are not set
unfoldable pub resolve_data_configmap_name : String → String → String
unfolding postprocess_job_name
resolve_data_configmap_name configmap_name pod_name =
    if configmap_name == ""
    then (if pod_name == "" then "" else postprocess_job_name pod_name <> configmap_suffix)
    else configmap_name
