-- ===== src/Telemetry/Fit/Laws.antt =====
-- What a series document that fits has kept, and when the search for one ends.
use mathlib.Core.Path.{subst}
use aibom_webhook_service.Base.{
  ℕ, zero, suc, String, ◌≡◌, refl, ap, true, ◌&&◌, Option, none, some, List, [], ◌∷◌, ◌+◌, ◌≤◌,
  ◌==◌, arith, eq_refl, if◌then◌else◌, leb, leb→le, map, length, any, Bool-cases, Option-cases, inl,
  inr,
}
use aibom_webhook_service.Telemetry.Series.{Metric, Doc, Points}
use aibom_webhook_service.Telemetry.Fit.{
  Fitted, encoded, too_large, unfinished, has_series, less, larger, largest, without_series,
  drop_series, drop_from,
}

module _ {R : Type 0} where
  -- the aggregate lines of a document, with the names of their metrics
  abbrev pub line_of : Metric R → String × Points R
  line_of m = (m.name, m.aggregate)

  abbrev pub lines : Doc R → List (String × Points R)
  lines doc = map line_of doc.metrics

  drop_series-lines :
      (name : String) (metrics : List (Metric R))
      → map line_of (drop_series name metrics) ≡ map line_of metrics
  unfolding drop_series without_series
  drop_series-lines name [] = refl
  drop_series-lines name (m ∷ metrics) = elim (Bool-cases (m.name == name)) [
    | inl e ↦ rw e (ap (λ l. line_of m ∷ l) (drop_series-lines name metrics))
    | inr e ↦ rw e (ap (λ l. line_of m ∷ l) (drop_series-lines name metrics))
  ]

  -- the metrics that have series
  unfoldable pub count : List (Metric R) → ℕ
  count [] = 0
  count (m ∷ metrics) = (if has_series m then 1 else 0) + count metrics

  drop_series-count :
      (name : String) (metrics : List (Metric R)) → count (drop_series name metrics) ≤ count metrics
  unfolding drop_series without_series count
  drop_series-count name [] = omega arith
  drop_series-count name (m ∷ metrics) = ground (arith, drop_series-count name metrics)

  drop_series-less :
      (name : String) (metrics : List (Metric R))
      → any (λ m. (m.name == name) && has_series m) metrics ≡ true
      → count (drop_series name metrics) + 1 ≤ count metrics
  unfolding drop_series without_series count
  drop_series-less name [] h = absurd (cc)
  drop_series-less name (m ∷ metrics) h =
      ground (arith, h, drop_series-less name metrics, drop_series-count name metrics)

  pub count-length : (metrics : List (Metric R)) → count metrics ≤ length metrics
  unfolding count
  count-length [] = omega arith
  count-length (m ∷ metrics) = ground (arith, count-length metrics)

module _ {R : Type 0} (series_size : Metric R → ℕ) where
  -- the name that is found is one of a metric with series
  Found : List (Metric R) → Option (ℕ × String) → Type 0
  Found metrics none = Unit
  Found metrics (some (n, name)) = any (λ m. (m.name == name) && has_series m) metrics ≡ true

  larger-Found :
      (m : Metric R) (metrics : List (Metric R)) (o : Option (ℕ × String))
      → Found metrics o
      → Found (m ∷ metrics) (larger series_size m o)
  unfolding larger Found
  larger-Found m metrics none h = elim (Bool-cases (has_series m)) [
    | inl e ↦ rw (e, Found) (ground (arith, eq_refl m.name, e))
    | inr e ↦ rw (e, Found) tt
  ]
  larger-Found m metrics (some (n, name)) h =
      elim (Bool-cases (has_series m && less (n, name) (series_size m, m.name))) [
        | inl e ↦ rw (e, Found) (ground (arith, eq_refl m.name, e))
        | inr e ↦ rw (e, Found) (ground (arith, h))
      ]

  largest-Found : (metrics : List (Metric R)) → Found metrics (largest series_size metrics)
  unfolding largest
  largest-Found [] = unfold Found in tt
  largest-Found (m ∷ metrics) =
      larger-Found m metrics (largest series_size metrics) (largest-Found metrics)

  Found-less :
      (metrics : List (Metric R)) (found : ℕ × String)
      → largest series_size metrics ≡ some found
      → count (drop_series found.1 metrics) + 1 ≤ count metrics
  Found-less metrics found e =
      drop_series-less found.1 metrics
        (unfold Found in subst (Found metrics) e (largest-Found metrics))

module _ {R : Type 0} (size : Doc R → ℕ) (series_size : Metric R → ℕ) where
  -- A result that was found: it fits, and it has the given lines.
  unfoldable pub Good : ℕ → List (String × Points R) → Fitted R → Type 0
  Good max_bytes ls (encoded doc) = (size doc ≤ max_bytes) × (lines doc ≡ ls)
  Good max_bytes ls too_large = Unit
  Good max_bytes ls unfinished = ⊥

  dropped : String → Doc R → Doc R
  dropped name doc = record doc { metrics = drop_series name doc.metrics }

  pub drop_from-Good :
      (fuel max_bytes : ℕ) (doc : Doc R)
      → count doc.metrics ≤ fuel
      → Good max_bytes (lines doc) (drop_from size series_size fuel max_bytes doc)
  unfolding drop_from dropped
  drop_from-Good zero max_bytes doc h = elim (Bool-cases (leb (size doc) max_bytes)) [
    | inl e ↦ rw e (unfold Good in (leb→le (size doc) max_bytes e, refl))
    | inr e ↦ elim (Option-cases (largest series_size doc.metrics)) [
      | inl none_left ↦ rw (e, none_left) (unfold Good in tt)
      | inr (found, f) ↦ absurd (omega (arith, h, Found-less series_size doc.metrics found f))
    ]
  ]
  drop_from-Good (suc fuel) max_bytes doc h = elim (Bool-cases (leb (size doc) max_bytes)) [
    | inl e ↦ rw e (unfold Good in (leb→le (size doc) max_bytes e, refl))
    | inr e ↦ elim (Option-cases (largest series_size doc.metrics)) [
      | inl none_left ↦ rw (e, none_left) (unfold Good in tt)
      | inr (found, f) ↦
          rw (e, f)
            (subst
              (λ ls.
                Good max_bytes ls (drop_from size series_size fuel max_bytes (dropped found.1 doc)))
              (drop_series-lines found.1 doc.metrics)
              (drop_from-Good fuel max_bytes (dropped found.1 doc)
                (omega (arith, h, Found-less series_size doc.metrics found f))))
    ]
  ]
