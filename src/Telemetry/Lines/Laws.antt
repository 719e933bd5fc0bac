-- ===== src/Telemetry/Lines/Laws.antt =====
-- What an aggregate is made of.
use aibom_webhook_service.Base.{
  ℕ, String, ◌+◌, ◌<◌, ◌≡◌, refl, sym, ◌∙◌, List, [], ◌∷◌, ◌++◌, map, if◌then◌else◌, nat_eq, ltb,
  arith, Bool-cases, inl, inr,
}
use mathlib.Core.List.{append_assoc, append-nil}
use aibom_webhook_service.Telemetry.Series.{Points, put, Line}
use aibom_webhook_service.Telemetry.Series.Laws.{Above, put-Above}
use aibom_webhook_service.Telemetry.Lines.{
  Reading, Labels, by_time, all_points, reducer_of, aggregate_points,
}

module _ {R : Type 0} where
  -- the values of the points at a time, in their order
  abbrev pub values_at : ℕ → Points R → List R
  values_at t [] = []
  values_at t ((ts, v) ∷ points) =
      let rest = values_at t points in if nat_eq ts t then v ∷ rest else rest

  -- the values of a group
  abbrev pub group_at : ℕ → List (ℕ × List R) → List R
  group_at t [] = []
  group_at t ((ts, vs) ∷ groups) = let rest = group_at t groups in if nat_eq ts t then vs else rest

  group_at-below :
      (t lo : ℕ) (groups : List (ℕ × List R)) → t < lo → Above lo groups → group_at t groups ≡ []
  group_at-below t lo [] h a = refl
  group_at-below t lo ((j, vs) ∷ groups) h a =
      ground (arith, h, a.0, group_at-below t (j + 1) groups (omega (arith, h, a.0)) a.2)

  group_at-put :
      (t k lo : ℕ) (v : R) (groups : List (ℕ × List R))
      → Above lo groups
      → group_at t (put k v groups)
        ≡ (if nat_eq k t then group_at t groups ++ v ∷ [] else group_at t groups)
  unfolding put
  group_at-put t k lo v [] a = ground arith
  group_at-put t k lo v ((j, vs) ∷ groups) a = elim (Bool-cases (nat_eq k j)) [
    | inl e ↦ rw (e, group_at) (ground (arith, e))
    | inr e ↦ elim (Bool-cases (ltb k j)) [
      | inl f ↦
          rw (e, f, group_at)
            (ground (arith, e, f, group_at-below k (j + 1) groups (ground (arith, f)) a.2))
      | inr f ↦ rw (e, f, group_at) (ground (arith, e, f, group_at-put t k (j + 1) v groups a.2))
    ]
  ]

  by_time-group_at :
      (t : ℕ) (points : Points R) (groups : List (ℕ × List R))
      → Above 0 groups
      → group_at t (by_time points groups) ≡ group_at t groups ++ values_at t points
  unfolding by_time
  by_time-group_at t [] groups a = sym (append-nil (group_at t groups))
  by_time-group_at t ((ts, v) ∷ points) groups a =
      by_time-group_at t points (put ts v groups) (put-Above 0 ts v groups (omega arith) a)
      ∙ (elim (Bool-cases (nat_eq ts t)) [
        | inl e ↦
            rw (group_at-put t ts 0 v groups a, e, if◌then◌else◌)
              (append_assoc (group_at t groups) (v ∷ []) (values_at t points))
        | inr e ↦ rw (group_at-put t ts 0 v groups a, e, if◌then◌else◌) refl
      ])

  by_time-Above :
      (points : Points R) (groups : List (ℕ × List R))
      → Above 0 groups
      → Above 0 (by_time points groups)
  unfolding by_time
  by_time-Above [] groups a = a
  by_time-Above ((ts, v) ∷ points) groups a =
      by_time-Above points (put ts v groups) (put-Above 0 ts v groups (omega arith) a)

  by_time_lem :
      (points : Points R)
      → Above 0 (by_time points [])
        × ((t : ℕ) → group_at t (by_time points []) ≡ values_at t points)
  by_time_lem points = (by_time-Above points [] tt, λ t. by_time-group_at t points [] tt)

  -- The points of an aggregate stand at strictly rising times, and the value at each is that of the
  -- metric's reducer on the values, one or more, that the lines have at that time, in their order.
  pub aggregate_points_lem :
      {V : Type 0} (reading : Reading V R) (labelling : Labels) (lines : List (Line R))
      (how : String)
      → (groups : List (ℕ × List R)) × (aggregate_points reading labelling lines how
          ≡ map (λ (g : ℕ × List R). (g.0, reducer_of reading labelling how g.1)) groups)
        × Above 0 groups
        × ((t : ℕ) → group_at t groups ≡ values_at t (all_points lines))
  unfolding aggregate_points
  aggregate_points_lem reading labelling lines how =
      let (above, same) = by_time_lem (all_points lines) in
      (by_time (all_points lines) [], refl, above, same)
