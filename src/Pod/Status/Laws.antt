-- ===== src/Pod/Status/Laws.antt =====
-- What the status of a pod says of its containers.
use aibom_webhook_service.Base.{
  String, ◌≡◌, refl, ◌∙◌, Bool, true, false, ◌&&◌, ◌||◌, Option, none, some, List, [], ◌∷◌, arith,
  any, keep, first, Bool-cases, inl, inr, or_else,
}
use aibom_webhook_service.Source.Container.{Container, is_text}
use aibom_webhook_service.Pod.Status.{
  is_failure, terminated, is_oom, failed, representative, first_of, status_of,
  pod_status_from_containers,
}

-- a test of a container that there may be
abbrev pub holds : {A : Type 0} → (A → Bool) → Option A → Bool
holds p none = false
holds p (some x) = p x

module _ {A : Type 0} (p : A → Bool) where
  holds-first : (xs : List A) → holds p (first p xs) ≡ any p xs
  holds-first [] = refl
  holds-first (x ∷ xs) = ground (arith, holds-first xs)

  first-none : (xs : List A) → any p xs ≡ false → first p xs ≡ none
  first-none [] h = refl
  first-none (x ∷ xs) h = ground (arith, h, first-none xs)

  first-other : (q : A → Bool) (xs : List A) → any p xs ≡ false → holds p (first q xs) ≡ false
  first-other q [] h = refl
  first-other q (x ∷ xs) h = ground (arith, h, first-other q xs)

  first_of-other : (xs : List A) → any p xs ≡ false → holds p (first_of xs) ≡ false
  first_of-other [] h = refl
  first_of-other (x ∷ xs) h = ground (arith, h)

  pub any-keep : (q : A → Bool) (xs : List A) → any p (keep q xs) ≡ any (λ x. q x && p x) xs
  any-keep q [] = refl
  any-keep q (x ∷ xs) = ground (arith, any-keep q xs)

holds-or_else :
    {A : Type 0} (p : A → Bool) (x y : Option A) → holds p x ≡ true → holds p (or_else x y) ≡ true
holds-or_else p none y h = absurd (cc)
holds-or_else p (some x) y h = h

holds-or :
    {A : Type 0} (p q : A → Bool) (o : Option A)
    → holds (λ x. p x || q x) o ≡ (holds p o || holds q o)
holds-or p q none = refl
holds-or p q (some x) = refl

any-or :
    {A : Type 0} (p q : A → Bool) (xs : List A) → any (λ x. p x || q x) xs ≡ (any p xs || any q xs)
any-or p q [] = refl
any-or p q (x ∷ xs) = ground (arith, any-or p q xs)

-- one that passes the first test is chosen if there is one, and else one that passes the second
module _ (oom fails : Container → Bool) (xs : List Container) where
  representative-first : holds oom (representative oom fails xs) ≡ any oom xs
  unfolding representative
  representative-first = elim (Bool-cases (any oom xs)) [
    | inl e ↦
        rw
          (holds-or_else oom _ (or_else (first fails xs) (first_of xs)) (holds-first oom xs ∙ e), e)
          refl
    | inr e ↦
        rw (first-none oom xs e, e)
          (either oom (first fails xs) (first_of xs) (first-other oom fails xs e)
            (first_of-other oom xs e))
  ]
    where
      either :
          (p : Container → Bool) (x y : Option Container)
          → holds p x ≡ false
          → holds p y ≡ false
          → holds p (or_else x y) ≡ false
      either p none y h k = k
      either p (some c) y h k = h

  representative-second :
      any oom xs ≡ false → holds fails (representative oom fails xs) ≡ any fails xs
  unfolding representative
  representative-second e = rw (first-none oom xs e) (elim (Bool-cases (any fails xs)) [
    | inl f ↦ rw (holds-or_else fails _ (first_of xs) (holds-first fails xs ∙ f), f) refl
    | inr f ↦ rw (first-none fails xs f, f) (first_of-other fails xs f)
  ])

  representative-either :
      holds (λ c. oom c || fails c) (representative oom fails xs) ≡ any (λ c. oom c || fails c) xs
  representative-either =
      rw (holds-or oom fails, any-or oom fails, representative-first)
        (elim (Bool-cases (any oom xs)) [
          | inl e ↦ rw e refl
          | inr e ↦ rw (e, representative-second e) refl
        ])

status_of-oom : (o : Option Container) → is_text "OOMKilled" (status_of o).0 ≡ holds is_oom o
status_of-oom none = refl
status_of-oom (some c) = refl

status_of-failed :
    (o : Option Container)
    → (is_text "OOMKilled" (status_of o).0 || is_failure (status_of o).1)
      ≡ holds (λ c. is_oom c || failed c) o
status_of-failed none = refl
status_of-failed (some c) = refl

-- A pod's status is `OOMKilled` exactly if one of its containers was killed for memory, and it
-- shows a failure, by that reason or by an exit code, exactly if one of its containers failed, in
-- whatever order they stand.
pub pod_status_from_containers_lem :
    (pod_name : String) (containers : List Container)
    → (is_text "OOMKilled" (pod_status_from_containers pod_name containers).0
        ≡ any (λ c. terminated pod_name c && is_oom c) containers)
      × ((is_text "OOMKilled" (pod_status_from_containers pod_name containers).0
            || is_failure (pod_status_from_containers pod_name containers).1)
          ≡ any (λ c. terminated pod_name c && (is_oom c || failed c)) containers)
unfolding pod_status_from_containers
pod_status_from_containers_lem pod_name containers =
    let mine = keep (terminated pod_name) containers in
    let chosen = representative is_oom failed mine in
    (
      status_of-oom chosen
          ∙ representative-first is_oom failed mine
          ∙ any-keep is_oom (terminated pod_name) containers,
      status_of-failed chosen
          ∙ representative-either is_oom failed mine
          ∙ any-keep (λ c. is_oom c || failed c) (terminated pod_name) containers,
    )
