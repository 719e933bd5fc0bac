-- ===== src/Telemetry/Retry/Laws.antt =====
-- What is collected of metrics that may answer late.
use aibom_webhook_service.Base.{
  ℕ, zero, suc, String, ◌≡◌, refl, ◌∙◌, sym, ap, Bool, true, false, Option, none, some, [], ◌∷◌,
  ◌+◌, ◌==◌, arith, eq_iff, if◌then◌else◌, is_some, or_else, Bool-cases, inl, inr,
}
use aibom_webhook_service.Base.Dict
use aibom_webhook_service.Base.Dict.{Dict, lookup-insert}
use aibom_webhook_service.Base.Dict.Laws.{NodupKeys}
use aibom_webhook_service.Telemetry.Retry.{
  pending, record_stats, attempt_all, is_empty, collect_from, collect_metrics_with_retry,
}

module _ {St : Type 0} (query : ℕ → String → Option St) where
  lookup-pending :
      (k : String) (metrics : Dict String) (collected : Dict St)
      → Dict.lookup k (pending query metrics collected)
        ≡ (if is_some (Dict.lookup k collected) then none else Dict.lookup k metrics)
  unfolding pending
  lookup-pending k [] collected = unfold Dict.lookup in ground arith
  lookup-pending k ((name, q) ∷ metrics) collected =
      elim (Bool-cases (is_some (Dict.lookup name collected))) [
        | inl b ↦
            rw b
              (lookup-pending k metrics collected ∙ unfold Dict.lookup in ground (arith, b, same))
        | inr b ↦
            rw b (unfold Dict.lookup in ground (arith, b, same, lookup-pending k metrics collected))
      ]
    where
      same : (name == k) ≡ true → Dict.lookup name collected ≡ Dict.lookup k collected
      same e = ap (λ n. Dict.lookup n collected) ((eq_iff name k).0 e)

  pending-NodupKeys :
      (metrics : Dict String) (collected : Dict St)
      → NodupKeys metrics
      → NodupKeys (pending query metrics collected)
  unfolding pending
  pending-NodupKeys [] collected u = tt
  pending-NodupKeys ((name, q) ∷ metrics) collected u =
      elim (Bool-cases (is_some (Dict.lookup name collected))) [
        | inl e ↦ rw (e, NodupKeys) (pending-NodupKeys metrics collected u.1)
        | inr e ↦
            rw (e, NodupKeys)
              (
                lookup-pending name metrics collected ∙ ground (arith, e, u.0),
                pending-NodupKeys metrics collected u.1,
              )
      ]

  -- what an attempt answers for a metric that there may be
  abbrev answer : ℕ → Option String → Option St
  answer attempt none = none
  answer attempt (some promql) = query attempt promql

  lookup-record_stats :
      (k name : String) (o : Option St) (collected : Dict St)
      → Dict.lookup k (record_stats query name o collected)
        ≡ (if name == k then or_else o (Dict.lookup k collected) else Dict.lookup k collected)
  unfolding record_stats
  lookup-record_stats k name none collected = ground arith
  lookup-record_stats k name (some s) collected = rw lookup-insert refl

  lookup-attempt_all :
      (k : String) (attempt : ℕ) (metrics : Dict String) (collected : Dict St)
      → NodupKeys metrics
      → Dict.lookup k (attempt_all query attempt metrics collected)
        ≡ or_else (answer attempt (Dict.lookup k metrics)) (Dict.lookup k collected)
  unfolding attempt_all
  lookup-attempt_all k attempt [] collected u = unfold Dict.lookup in refl
  lookup-attempt_all k attempt ((name, q) ∷ metrics) collected u =
      lookup-attempt_all k attempt metrics (record_stats query name (query attempt q) collected) u.1
      ∙ rw (lookup-record_stats k name (query attempt q) collected) (
          unfold Dict.lookup in
          merged (name == k) (Dict.lookup k metrics) (Dict.lookup k collected) fresh)
    where
      fresh : (name == k) ≡ true → Dict.lookup k metrics ≡ none
      fresh e = sym (ap (λ n. Dict.lookup n metrics) ((eq_iff name k).0 e)) ∙ u.0

      merged :
          (b : Bool) (m : Option String) (c : Option St)
          → (b ≡ true → m ≡ none)
          → or_else (answer attempt m) (if b then or_else (query attempt q) c else c)
            ≡ or_else (answer attempt (if b then some q else m)) c
      merged true m c h = rw (h refl) refl
      merged false m c h = refl

  -- the first of `n` attempts that answers
  pub first_answer : ℕ → ℕ → String → Option St
  first_answer zero attempt promql = none
  first_answer (suc n) attempt promql =
      or_else (query attempt promql) (first_answer n (attempt + 1) promql)

  -- the first answer for a metric that there may be
  abbrev pub answers : ℕ → ℕ → Option String → Option St
  answers n attempt none = none
  answers n attempt (some promql) = first_answer n attempt promql

  answers-suc :
      (n attempt : ℕ) (c : Option St) (m : Option String)
      → or_else
          (or_else (answer attempt (if is_some c then none else m)) c)
          (answers n (attempt + 1) m)
        ≡ or_else c (answers (suc n) attempt m)
  unfolding first_answer
  answers-suc n attempt none none = refl
  answers-suc n attempt none (some q) = ground arith
  answers-suc n attempt (some s) m = refl

  answers-none :
      (n attempt : ℕ) (c : Option St) (m : Option String)
      → (if is_some c then none else m) ≡ none
      → c ≡ or_else c (answers n attempt m)
  answers-none n attempt none none h = refl
  answers-none n attempt none (some q) h = absurd (cc)
  answers-none n attempt (some s) m h = refl

  answers_zero :
      (attempt : ℕ) (c : Option St) (m : Option String) → c ≡ or_else c (answers 0 attempt m)
  unfolding first_answer
  answers_zero attempt none none = refl
  answers_zero attempt none (some q) = refl
  answers_zero attempt (some s) m = refl

  lookup_empty : (k : String) (d : Dict String) → is_empty query d ≡ true → Dict.lookup k d ≡ none
  lookup_empty k [] h = unfold Dict.lookup in refl
  lookup_empty k (p ∷ d) h = absurd (cc)

  collect_from-lookup :
      (k : String) (n attempt : ℕ) (metrics : Dict String) (collected : Dict St)
      → NodupKeys metrics
      → Dict.lookup k (collect_from query n attempt metrics collected)
        ≡ or_else (Dict.lookup k collected) (answers n attempt (Dict.lookup k metrics))
  unfolding collect_from
  collect_from-lookup k zero attempt metrics collected u =
      answers_zero attempt (Dict.lookup k collected) (Dict.lookup k metrics)
  collect_from-lookup k (suc n) attempt metrics collected u =
      let missing = pending query metrics collected in
      let nothing = lookup-pending k metrics collected in
      elim (Bool-cases (is_empty query missing)) [
        | inl e ↦ rw e (
            answers-none (suc n) attempt (Dict.lookup k collected) (Dict.lookup k metrics)
              (sym nothing ∙ lookup_empty k missing e))
        | inr e ↦ rw e (
            collect_from-lookup k n (attempt + 1) metrics
              (attempt_all query attempt missing collected) u
            ∙ rw
                (
                  lookup-attempt_all k attempt missing collected
                      (pending-NodupKeys metrics collected u),
                  nothing,
                )
                (answers-suc n attempt (Dict.lookup k collected) (Dict.lookup k metrics)))
      ]

  -- Of metrics with different names, each has the statistics of the first of the attempts that
  -- answers it, and none if no attempt does, although only missing metrics are asked for again.
  pub collect_metrics_with_retry-lookup :
      (k : String) (attempts : ℕ) (metrics : Dict String)
      → NodupKeys metrics
      → Dict.lookup k (collect_metrics_with_retry query attempts metrics)
        ≡ answers attempts 1 (Dict.lookup k metrics)
  unfolding collect_metrics_with_retry
  collect_metrics_with_retry-lookup k attempts metrics u =
      collect_from-lookup k attempts 1 metrics [] u ∙ (unfold Dict.lookup in refl)
