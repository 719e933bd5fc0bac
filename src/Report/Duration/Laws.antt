-- ===== src/Report/Duration/Laws.antt =====
-- Where the span of a workload starts and ends.
use mathlib.Core.Path.{subst}
use aibom_webhook_service.Base.{
  ℕ, String, ◌≡◌, refl, sym, ap, ◌∙◌, ◌≤◌, ◌<◌, ◌*◌, Option, none, some, List, [], ◌∷◌, min, max,
  All, arith, Option-cases, inl, inr,
}
use aibom_webhook_service.Base.Dict.Laws.{eq_of_some}
use aibom_webhook_service.Source.Container.{Container}
use aibom_webhook_service.Pod.Window.{pod_finished_ms}
use aibom_webhook_service.Report.Duration.{
  PodMeta, start_times, earliest, last_finish, end_us, duration_span,
}

All-le_trans : (m n : ℕ) (ts : List ℕ) → m ≤ n → All (λ t. n ≤ t) ts → All (λ t. m ≤ t) ts
All-le_trans m n [] h k = tt
All-le_trans m n (t ∷ ts) h k = (omega (arith, h, k.0), All-le_trans m n ts h k.1)

earliest-some : (t : ℕ) (ts : List ℕ) → (m : ℕ) × (earliest (t ∷ ts) ≡ some m)
unfolding earliest
earliest-some t ts = elim (Option-cases (earliest ts)) [
  | inl h ↦ (t, rw (h, earliest) refl)
  | inr (u, h) ↦ (min t u, rw (h, earliest) refl)
]

earliest-le : (m : ℕ) (ts : List ℕ) → earliest ts ≡ some m → All (λ t. m ≤ t) ts
unfolding earliest
earliest-le m [] e = tt
earliest-le m (t ∷ []) e = (omega (arith, eq_of_some e), tt)
earliest-le m (t ∷ u ∷ ts) e =
    let (v, h) = earliest-some u ts in
    let same : min t v ≡ m = eq_of_some (rw (h, earliest) at e) in
    (
      omega (arith, same),
      All-le_trans m v (u ∷ ts) (omega (arith, same)) (earliest-le v (u ∷ ts) h),
    )

-- every pod has finished by a time
abbrev pub FinishedBy : (String → Option ℕ) → ℕ → List Container → ℕ → List PodMeta → Type 0
FinishedBy parse scrape containers last pods =
    All (λ p. (ms : ℕ) × (pod_finished_ms parse scrape p.name containers ≡ some ms) × (ms ≤ last))
      pods

All-FinishedBy :
    (parse : String → Option ℕ) (scrape : ℕ) (containers : List Container) (a b : ℕ)
    (pods : List PodMeta)
    → a ≤ b
    → FinishedBy parse scrape containers a pods
    → FinishedBy parse scrape containers b pods
All-FinishedBy parse scrape containers a b [] h k = tt
All-FinishedBy parse scrape containers a b (p ∷ pods) h k =
    ((k.0.0, k.0.1, omega (arith, h, k.0.2)), All-FinishedBy parse scrape containers a b pods h k.1)

none-ne-number : (n : ℕ) → ◌≡◌ {A = Option ℕ} none (some n) → ⊥
none-ne-number n e = cc

last_finish-FinishedBy :
    (parse : String → Option ℕ) (scrape : ℕ) (pods : List PodMeta) (containers : List Container)
    (last : ℕ)
    → last_finish parse scrape pods containers ≡ some last
    → FinishedBy parse scrape containers last pods
unfolding last_finish
last_finish-FinishedBy parse scrape [] containers last e = tt
last_finish-FinishedBy parse scrape (p ∷ []) containers last e = ((last, e, omega arith), tt)
last_finish-FinishedBy parse scrape (p ∷ q ∷ pods) containers last e =
    elim (Option-cases (pod_finished_ms parse scrape p.name containers)) [
      | inl h ↦ absurd (none-ne-number last (rw (h, last_finish) at e))
      | inr (ms, h) ↦ elim (Option-cases (last_finish parse scrape (q ∷ pods) containers)) [
        | inl k ↦ absurd (none-ne-number last (rw (h, k, last_finish) at e))
        | inr (later, k) ↦
            let same : max ms later ≡ last = eq_of_some (rw (h, k, last_finish) at e) in
            (
              (ms, h, omega (arith, same)),
              All-FinishedBy parse scrape containers later last (q ∷ pods) (omega (arith, same))
                  (last_finish-FinishedBy parse scrape (q ∷ pods) containers later k),
            )
      ]
    ]

end_us-le : (now : ℕ) (o : Option ℕ) → end_us now o ≤ now
unfolding end_us
end_us-le now none = omega arith
end_us-le now (some ms) = omega arith

end_us_early :
    (now : ℕ) (o : Option ℕ)
    → end_us now o < now
    → (last : ℕ) × (o ≡ some last) × (end_us now o ≡ last * 1000)
unfolding end_us
end_us_early now none h = absurd (omega (arith, h))
end_us_early now (some ms) h = (ms, refl, omega (arith, h))

none-ne-pair : (p : ℕ × ℕ) → ◌≡◌ {A = Option (ℕ × ℕ)} none (some p) → ⊥
none-ne-pair p e = cc

-- The span that a duration measures starts no later than any pod that gives a start, and ends no
-- later than now: before now only if every pod has finished, and then no earlier than any of them.
pub duration_span_bounds :
    (parse : String → Option ℕ) (scrape now : ℕ) (pods : List PodMeta) (containers : List Container)
    (start end : ℕ)
    → duration_span parse scrape now pods containers ≡ some (start, end)
    → (starts : List ℕ) × (start_times parse pods ≡ some starts)
      × All (λ t. start ≤ t) starts
      × (end ≤ now)
      × (end < now
          → (last : ℕ) × (end ≡ last * 1000) × FinishedBy parse scrape containers last pods)
unfolding duration_span
duration_span_bounds parse scrape now pods containers start end e =
    elim (Option-cases (start_times parse pods)) [
      | inl h ↦ absurd (none-ne-pair (start, end) (rw (h, duration_span) at e))
      | inr (starts, h) ↦ elim (Option-cases (earliest starts)) [
        | inl k ↦ absurd (none-ne-pair (start, end) (rw (h, k, duration_span) at e))
        | inr (first, k) ↦
            let same = eq_of_some (rw (h, k, duration_span) at e) in
            let last = last_finish parse scrape pods containers in
            let begins : first ≡ start = ap (λ (p : ℕ × ℕ). p.0) same in
            let ends : end_us now last ≡ end = ap (λ (p : ℕ × ℕ). p.1) same in
            (
              starts,
              h,
              subst (λ m. All (λ t. m ≤ t) starts) begins (earliest-le first starts k),
              subst (λ n. n ≤ now) ends (end_us-le now last),
              λ early.
                  let (ms, finished, at_last) =
                    end_us_early now last (omega (arith, ends, early)) in
                  (
                    ms,
                    sym ends ∙ at_last,
                    last_finish-FinishedBy parse scrape pods containers ms finished,
                  ),
            )
      ]
    ]
