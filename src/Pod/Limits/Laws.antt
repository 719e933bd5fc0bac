-- ===== src/Pod/Limits/Laws.antt =====
-- How the limits of containers and pods add up.
use aibom_webhook_service.Base.{
  ℕ, String, ◌≡◌, refl, Bool, true, false, Option, none, some, List, [], ◌∷◌, ◌++◌, ◌≤◌, arith, All,
  any, nat_eq, ◌||◌,
}
use aibom_webhook_service.Source.Container.{Container}
use aibom_webhook_service.Pod.Limits.{add_limits, min_limits, pod_resource_limit, tightest_limit}

-- The limit of a pod is the sum of what any split of its containers gives, where a part without a
-- limit counts for nothing rather than for a limit of zero.
pub pod_resource_limit-append :
    (pod_name : String) (xs ys : List Container) (resource : Container → Option ℕ)
    → pod_resource_limit pod_name (xs ++ ys) resource
      ≡ add_limits
          (pod_resource_limit pod_name xs resource)
          (pod_resource_limit pod_name ys resource)
unfolding pod_resource_limit
pod_resource_limit-append pod_name [] ys resource = refl
pod_resource_limit-append pod_name (c ∷ xs) ys resource =
    ground (arith, pod_resource_limit-append pod_name xs ys resource)

-- a limit that there may be is at most another one
abbrev pub Below : Option ℕ → Option ℕ → Type 0
Below o none = Unit
Below none (some n) = ⊥
Below (some m) (some n) = m ≤ n

abbrev pub is_limit : ℕ → Option ℕ → Bool
is_limit n none = false
is_limit n (some m) = nat_eq m n

Below-min_limits : (x y z : Option ℕ) → Below y z → Below (min_limits x y) z
Below-min_limits none y z h = h
Below-min_limits (some a) none none h = tt
Below-min_limits (some a) none (some c) h = absurd h
Below-min_limits (some a) (some b) none h = tt
Below-min_limits (some a) (some b) (some c) h = omega (arith, h)

Below-min_first : (x y : Option ℕ) → Below (min_limits x y) x
Below-min_first none y = ground arith
Below-min_first (some a) none = omega arith
Below-min_first (some a) (some b) = omega arith

is_limit-min_limits :
    (m : ℕ) (x y : Option ℕ)
    → is_limit m (min_limits x y) ≡ true
    → (is_limit m x || is_limit m y) ≡ true
is_limit-min_limits m none y h = h
is_limit-min_limits m (some a) none h = ground (arith, h)
is_limit-min_limits m (some a) (some b) h = ground (arith, h)

module _ (containers : List Container) (resource : Container → Option ℕ) where
  limit : String → Option ℕ
  limit pod_name = pod_resource_limit pod_name containers resource

  All-Below :
      (pods : List String) (x y : Option ℕ)
      → All (λ pod. Below y (limit pod)) pods
      → All (λ pod. Below (min_limits x y) (limit pod)) pods
  All-Below [] x y h = tt
  All-Below (pod ∷ pods) x y h = (Below-min_limits x y (limit pod) h.0, All-Below pods x y h.1)

  tightest_limit-Below :
      (pods : List String)
      → All (λ pod. Below (tightest_limit pods containers resource) (limit pod)) pods
  unfolding tightest_limit limit
  tightest_limit-Below [] = tt
  tightest_limit-Below (pod ∷ pods) = (
    Below-min_first (limit pod) (tightest_limit pods containers resource),
    All-Below pods (limit pod) (tightest_limit pods containers resource)
        (tightest_limit-Below pods),
  )

  tightest_limit-attained :
      (m : ℕ) (pods : List String)
      → is_limit m (tightest_limit pods containers resource) ≡ true
      → any (λ pod. is_limit m (limit pod)) pods ≡ true
  unfolding tightest_limit limit
  tightest_limit-attained m [] h = h
  tightest_limit-attained m (pod ∷ pods) h = ground (
    arith,
    tightest_limit-attained m pods,
    is_limit-min_limits m (limit pod) (tightest_limit pods containers resource) h,
  )

  -- The limit of a workload is the tightest of its pods' limits: it is at most each of them, is
  -- there if one of them is, and is one of them.
  pub tightest_limit-IsLeast :
      (pods : List String)
      → All
          (λ pod.
            Below
              (tightest_limit pods containers resource)
              (pod_resource_limit pod containers resource))
          pods
        × ((m : ℕ)
            → is_limit m (tightest_limit pods containers resource) ≡ true
            → any (λ pod. is_limit m (pod_resource_limit pod containers resource)) pods ≡ true)
  unfolding limit
  tightest_limit-IsLeast pods = (tightest_limit-Below pods, λ m. tightest_limit-attained m pods)
