-- ===== src/Source/Models/Laws.antt =====
-- The loop of `detect_model_from_containers` against two searches of their own.
use aibom_webhook_service.Base.{
  String, ◌≡◌, refl, ◌&&◌, if◌then◌else◌, Option, none, some, List, [], ◌∷◌, arith, or_else,
}
use aibom_webhook_service.Base.Dict.{Dict}
use aibom_webhook_service.Value.{Value, PyFloat}
use aibom_webhook_service.Engine.Server.{Spec}
use aibom_webhook_service.Source.Models.{
  model_of, parallel_of, search_from, merged, holds, detect_model_from_containers,
}

-- the first result that a detector gives for a container
pub first_of : {V : Type 0} → (Spec → Option (Dict V)) → List Spec → Option (Dict V)
first_of detect [] = none
first_of detect (c ∷ containers) = or_else (detect c) (first_of detect containers)

module _ {R : Type 0} (F : PyFloat R) (lex : String → Option (List String)) where
  joined :
      {V : Type 0} (m p mc pc mr pr : Option (Dict V)) (rest : Option (Dict V) × Option (Dict V))
      → rest ≡ (or_else (or_else m mc) mr, or_else (or_else p pc) pr)
      → (if holds (or_else m mc) && holds (or_else p pc)
          then (or_else m mc, or_else p pc)
          else rest)
        ≡ (or_else m (or_else mc mr), or_else p (or_else pc pr))
  joined m p mc pc mr pr rest h = ground (arith, h)

  search_from_lem :
      (containers : List Spec) (model parallel : Option (Dict (Value R)))
      → search_from F lex containers model parallel ≡ (
        or_else model (first_of (model_of F lex) containers),
        or_else parallel (first_of (parallel_of F lex) containers),
      )
  unfolding search_from first_of
  search_from_lem [] none none = refl
  search_from_lem [] none (some p) = refl
  search_from_lem [] (some m) none = refl
  search_from_lem [] (some m) (some p) = refl
  search_from_lem (c ∷ containers) model parallel =
      joined model parallel (model_of F lex c) (parallel_of F lex c)
        (first_of (model_of F lex) containers) (first_of (parallel_of F lex) containers)
        (search_from F lex containers (or_else model (model_of F lex c))
          (or_else parallel (parallel_of F lex c)))
        (search_from_lem containers _ _)

  -- Leaving the loop early loses nothing: what is reported of a pod's containers is the first model
  -- that a container's detectors give, with the first strategy that any container's command gives,
  -- be it another container.
  pub detect_model_from_containers_first :
      (containers : List Spec)
      → detect_model_from_containers F lex containers
        ≡ merged F lex
            (first_of (model_of F lex) containers, first_of (parallel_of F lex) containers)
  unfolding detect_model_from_containers
  detect_model_from_containers_first containers =
      rw (search_from_lem containers none none, merged) refl
