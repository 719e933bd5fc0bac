-- ===== src/Pod/Limits.antt =====
-- `pod_resource_limit`, `pod_gpu_count` and `compute_metric_limit`. `ratio n d` stands for the
-- rounded float of n * scale / d, for the metric's scale.
pub mod Laws
use aibom_webhook_service.Base.{
  ℕ, String, Bool, true, false, Option, none, some, List, [], ◌∷◌, ◌+◌, ◌==◌, if◌then◌else◌, min,
}
use aibom_webhook_service.Source.Container.{Container, is_text}

-- two sums of which either may be missing
abbrev pub add_limits : Option ℕ → Option ℕ → Option ℕ
add_limits none y = y
add_limits (some n) none = some n
add_limits (some n) (some m) = some (n + m)

abbrev pub min_limits : Option ℕ → Option ℕ → Option ℕ
min_limits none y = y
min_limits (some n) none = some n
min_limits (some n) (some m) = some (min n m)

-- the sum of a resource over the containers of a pod that have it
unfoldable pub pod_resource_limit : String → List Container → (Container → Option ℕ) → Option ℕ
pod_resource_limit pod_name [] resource = none
pod_resource_limit pod_name (c ∷ containers) resource =
    let rest = pod_resource_limit pod_name containers resource in
    if is_text pod_name c.pod_name then add_limits (resource c) rest else rest

unfoldable pub pod_gpu_count : String → List Container → Option ℕ
unfolding pod_resource_limit
pod_gpu_count pod_name containers = pod_resource_limit pod_name containers (λ c. c.gpu_limit)

-- the smallest limit among the pods that have one
unfoldable pub tightest_limit : List String → List Container → (Container → Option ℕ) → Option ℕ
unfolding pod_resource_limit
tightest_limit [] containers resource = none
tightest_limit (pod_name ∷ pod_names) containers resource =
    min_limits (pod_resource_limit pod_name containers resource)
      (tightest_limit pod_names containers resource)

module _ {R : Type 0} (ratio : ℕ → ℕ → R) where
  over : ℕ → Option ℕ → Option R
  over d none = none
  over d (some n) = some (ratio n d)

  unfoldable pub compute_metric_limit : String → List String → List Container → Option R
  unfolding tightest_limit over
  compute_metric_limit metric_name pod_names containers =
      if metric_name == "memory_usage"
      then over 1 (tightest_limit pod_names containers (λ c. c.memory_limit_bytes))
      else if metric_name == "cpu_usage"
      then over 1000 (tightest_limit pod_names containers (λ c. c.cpu_limit_millis))
      else none
