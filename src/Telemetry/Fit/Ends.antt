-- ===== src/Telemetry/Fit/Ends.antt =====
-- When the search of `_fit_series_doc` ends, and with what.
use mathlib.Core.Path.{subst}
use native.Mathlib.Nat.{div-lt_iff_lt-mul}
use aibom_webhook_service.Base.{
  ℕ, zero, suc, String, ◌≡◌, refl, sym, false, List, ◌+◌, ◌-◌, ◌≤◌, arith, leb, leb→le, length,
  Bool-cases, inl, inr,
}
use aibom_webhook_service.Telemetry.Series.{Metric, Doc, Points, rebucket_series_doc}
use aibom_webhook_service.Telemetry.Fit.{
  most_points, ceil_div, Search, fits, exhausted, out_of_fuel, Fitted, encoded, too_large,
  unfinished, drop_from, reduce_from, after_search, fit_series_doc,
}
use aibom_webhook_service.Telemetry.Fit.Laws.{lines, Good, drop_from-Good, count-length}

ceil_div_small :
    (points factor min_points : ℕ)
    → 1 ≤ factor
    → points ≤ factor
    → 2 ≤ min_points
    → leb min_points (ceil_div points factor) ≡ false
ceil_div_small points factor min_points f p m =
    ground
      (arith, m, (div-lt_iff_lt-mul {x = points + factor - 1} {y = 2} f).1 (omega (arith, f, p)))

ceil_div_positive : (points factor : ℕ) → 1 ≤ factor → 1 ≤ points → 1 ≤ ceil_div points factor
ceil_div_positive points factor f p =
    grind (arith, (div-lt_iff_lt-mul {x = points + factor - 1} {y = 1} f).0, f, p)

module _ {R : Type 0} (average peak : List R → R) (size : Doc R → ℕ)
    (series_size : Metric R → ℕ) where
  -- the lines of a document, or those of the document on a coarser grid
  pub data Origin (original : Doc R) (ls : List (String × Points R)) : Type 0 where
    as_is : lines original ≡ ls → Origin original ls
    coarser :
        (factor : ℕ)
        → lines (rebucket_series_doc average peak original factor) ≡ ls
        → Origin original ls

  Searched : ℕ → Doc R → Search R → Type 0
  Searched max_bytes original (fits doc) = (size doc ≤ max_bytes) × Origin original (lines doc)
  Searched max_bytes original (exhausted doc) = Origin original (lines doc)
  Searched max_bytes original out_of_fuel = ⊥

  reduce_from-Searched :
      (fuel min_points max_bytes : ℕ) (original : Doc R) (factor : ℕ) (doc : Doc R)
      → 2 ≤ min_points
      → 1 ≤ factor
      → most_points original.metrics ≤ factor + fuel
      → Origin original (lines doc)
      → Searched max_bytes original
          (reduce_from average peak size series_size fuel min_points max_bytes original factor doc)
  unfolding reduce_from
  reduce_from-Searched zero min_points max_bytes original factor doc m f p o =
      rw (ceil_div_small (most_points original.metrics) factor min_points f (omega (arith, p)) m)
        (unfold Searched in o)
  reduce_from-Searched (suc fuel) min_points max_bytes original factor doc m f p o =
      let next = rebucket_series_doc average peak original factor in
      elim (Bool-cases (leb min_points (ceil_div (most_points original.metrics) factor))) [
        | inr e ↦ rw e (unfold Searched in o)
        | inl e ↦ rw e (elim (Bool-cases (leb (size next) max_bytes)) [
          | inl g ↦ rw g (unfold Searched in (leb→le (size next) max_bytes g, coarser factor refl))
          | inr g ↦ rw g (
              reduce_from-Searched fuel min_points max_bytes original (factor + 1) next m
                (omega arith) (omega (arith, p)) (coarser factor refl))
        ])
      ]

  -- A document that is encoded fits, and has the aggregate lines of the original or of a coarser
  -- grid of it; and the search has ended.
  pub FitsWell : ℕ → Doc R → Fitted R → Type 0
  FitsWell max_bytes original (encoded doc) = (size doc ≤ max_bytes) × Origin original (lines doc)
  FitsWell max_bytes original too_large = Unit
  FitsWell max_bytes original unfinished = ⊥

  of_Good :
      (max_bytes : ℕ) (original : Doc R) (ls : List (String × Points R)) (r : Fitted R)
      → Origin original ls
      → Good size series_size max_bytes ls r
      → FitsWell max_bytes original r
  unfolding FitsWell Good
  of_Good max_bytes original ls (encoded doc) o g = (g.0, subst (Origin original) (sym g.1) o)
  of_Good max_bytes original ls too_large o g = tt
  of_Good max_bytes original ls unfinished o g = g

  after_search-FitsWell :
      (max_bytes : ℕ) (original : Doc R) (found : Search R)
      → Searched max_bytes original found
      → FitsWell max_bytes original (after_search average peak size series_size max_bytes found)
  unfolding after_search Searched FitsWell
  after_search-FitsWell max_bytes original (fits doc) h = h
  after_search-FitsWell max_bytes original (exhausted doc) h =
      of_Good max_bytes original (lines doc)
        (drop_from size series_size (length doc.metrics) max_bytes doc) h
        (drop_from-Good size series_size (length doc.metrics) max_bytes doc
          (count-length doc.metrics))
  after_search-FitsWell max_bytes original out_of_fuel h = h

  -- If a line keeps two points or more, the search ends, within as many rounds as the longest line
  -- has points and the document metrics; what it then gives fits into the bytes, and each metric
  -- still has its aggregate line, as it was or on a coarser grid.
  pub fit_series_doc-FitsWell :
      (min_points : ℕ) (doc : Doc R) (max_bytes : ℕ)
      → 2 ≤ min_points
      → FitsWell max_bytes doc
          (fit_series_doc average peak size series_size min_points doc max_bytes)
  unfolding fit_series_doc
  fit_series_doc-FitsWell min_points doc max_bytes m =
      elim (Bool-cases (leb (size doc) max_bytes)) [
        | inl e ↦ rw e (unfold FitsWell in (leb→le (size doc) max_bytes e, as_is refl))
        | inr e ↦ rw e (
            after_search-FitsWell max_bytes doc _ (
              reduce_from-Searched (most_points doc.metrics) min_points max_bytes doc 2 doc m
                (omega arith) (omega arith) (as_is refl)))
      ]

  -- If a line may be reduced to one point and no coarser grid of the document fits, the reduction
  -- never comes to an end: it uses up any fuel, and no series is ever dropped.
  pub reduce_from_endless :
      (fuel min_points max_bytes : ℕ) (original : Doc R) (factor : ℕ) (doc : Doc R)
      → min_points ≤ 1
      → 1 ≤ most_points original.metrics
      → 1 ≤ factor
      → ((f : ℕ) → leb (size (rebucket_series_doc average peak original f)) max_bytes ≡ false)
      → reduce_from average peak size series_size fuel min_points max_bytes original factor doc
        ≡ out_of_fuel
  unfolding reduce_from
  reduce_from_endless zero min_points max_bytes original factor doc m p f h =
      ground (arith, m, ceil_div_positive (most_points original.metrics) factor f p)
  reduce_from_endless (suc fuel) min_points max_bytes original factor doc m p f h = ground (
    arith,
    m,
    ceil_div_positive (most_points original.metrics) factor f p,
    h factor,
    reduce_from_endless fuel min_points max_bytes original (factor + 1)
        (rebucket_series_doc average peak original factor) m p (omega arith) h,
  )
