-- ===== src/Telemetry/Aggregate/Laws.antt =====
-- Which metrics a workload reports, and the extremes of its pods.
use mathlib.Core.Path.{subst}
use aibom_webhook_service.Base.{
  String, ◌≡◌, refl, sym, ap, ◌∙◌, true, false, Option, none, some, List, [], ◌∷◌, map, ◌==◌,
  if◌then◌else◌, Bool-cases, inl, inr, eq_iff,
}
use aibom_webhook_service.Base.Dict
use aibom_webhook_service.Base.Dict.{Dict}
use aibom_webhook_service.Base.Dict.Laws.{NodupKeys}
use aibom_webhook_service.Telemetry.Stats.{Samples, Stats, min_of, max_of}
use aibom_webhook_service.Telemetry.Stats.Order.{IsOrder}
use aibom_webhook_service.Telemetry.Stats.Laws.{
  Least, Leq, Geq, Geq-trans, min_of-Least, max_of-Least,
}
use aibom_webhook_service.Telemetry.Aggregate.{
  DisplayUnit, Details, stats_named, details_of, put_details, aggregate_pod_metrics,
}

module _ {T R : Type 0} (S : Samples T R) (rounded : R → R → R) where
  -- what there is of a metric
  abbrev pub details_if : DisplayUnit R → List (Stats R) → Option (Details R)
  details_if u [] = none
  details_if u (s ∷ stats) = some (details_of S rounded u s stats)

  -- the same for a metric that may have no unit
  abbrev pub details_by : Option (DisplayUnit R) → List (Stats R) → Option (Details R)
  details_by none stats = none
  details_by (some u) stats = details_if u stats

  put_details_other :
      (name k : String) (u : DisplayUnit R) (stats : List (Stats R)) (rest : Dict (Details R))
      → (name == k) ≡ false
      → Dict.lookup k (put_details S rounded name u stats rest) ≡ Dict.lookup k rest
  unfolding put_details Dict.lookup
  put_details_other name k u [] rest h = refl
  put_details_other name k u (s ∷ stats) rest h = rw (h, if◌then◌else◌) refl

  put_details_self :
      (name k : String) (u : DisplayUnit R) (stats : List (Stats R)) (rest : Dict (Details R))
      → (name == k) ≡ true
      → Dict.lookup k rest ≡ none
      → Dict.lookup k (put_details S rounded name u stats rest) ≡ details_if u stats
  unfolding put_details Dict.lookup
  put_details_self name k u [] rest h e = e
  put_details_self name k u (s ∷ stats) rest h e = rw (h, if◌then◌else◌) refl

  -- A metric is reported if it has a unit and a pod has it, by the statistics of all those pods.
  pub aggregate_pod_metrics-lookup :
      (pods : List (Dict (Stats R))) (units : Dict (DisplayUnit R)) (k : String)
      → NodupKeys units
      → Dict.lookup k (aggregate_pod_metrics S rounded pods units)
        ≡ details_by (Dict.lookup k units) (stats_named k pods)
  unfolding aggregate_pod_metrics
  aggregate_pod_metrics-lookup pods [] k u = unfold Dict.lookup in refl
  aggregate_pod_metrics-lookup pods ((name, unit) ∷ units) k (fresh, u) =
      let ih = aggregate_pod_metrics-lookup pods units k u in
      elim (Bool-cases (name == k)) [
        | inl e ↦
            let same = (eq_iff name k).0 e in
            let gone : Dict.lookup k units ≡ none =
              subst (λ j. Dict.lookup j units ≡ none) same fresh in
            let at_k : Dict.lookup k ((name, unit) ∷ units) ≡ some unit =
              unfold Dict.lookup in rw (e, if◌then◌else◌) refl in
            put_details_self name k unit (stats_named name pods) _ e (rw gone at ih)
            ∙ ap (λ j. details_if unit (stats_named j pods)) same
            ∙ ap (λ o. details_by o (stats_named k pods)) (sym at_k)
        | inr e ↦
            let at_k : Dict.lookup k ((name, unit) ∷ units) ≡ Dict.lookup k units =
              unfold Dict.lookup in rw (e, if◌then◌else◌) refl in
            put_details_other name k unit (stats_named name pods) _ e
            ∙ ih
            ∙ ap (λ o. details_by o (stats_named k pods)) (sym at_k)
      ]

  -- Where floats are ordered, the extremes that are reported of a metric are, scaled to its unit and
  -- rounded, the least of the minima and the greatest of the maxima of the pods that have it.
  pub aggregate_pod_metrics-extremes :
      (o : IsOrder S.leq) (pods : List (Dict (Stats R))) (units : Dict (DisplayUnit R)) (k : String)
      (u : DisplayUnit R) (s : Stats R) (stats : List (Stats R))
      → NodupKeys units
      → Dict.lookup k units ≡ some u
      → stats_named k pods ≡ s ∷ stats
      → (d : Details R) × (lo : R) × (hi : R) × (Dict.lookup k
            (aggregate_pod_metrics S rounded pods units)
          ≡ some d)
        × (d.display_unit ≡ u.display_unit)
        × (d.min ≡ rounded lo u.scale)
        × (d.max ≡ rounded hi u.scale)
        × Least (Leq S o) o.trans lo (map (λ (t : Stats R). t.min) (s ∷ stats))
        × Least (Geq S o) (Geq-trans S o) hi (map (λ (t : Stats R). t.max) (s ∷ stats))
  unfolding details_of
  aggregate_pod_metrics-extremes o pods units k u s stats nodup h there = (
    details_of S rounded u s stats,
    min_of S s.min (map (λ (t : Stats R). t.min) stats),
    max_of S s.max (map (λ (t : Stats R). t.max) stats),
    aggregate_pod_metrics-lookup pods units k nodup ∙ rw (h, there) refl,
    refl,
    refl,
    refl,
    min_of-Least S o s.min _,
    max_of-Least S o s.max _,
  )
