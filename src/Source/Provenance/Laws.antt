-- ===== src/Source/Provenance/Laws.antt =====
-- When two sources of provenance are merged.
use aibom_webhook_service.Base.{
  String, ◌≡◌, refl, Bool, true, false, Option, none, some, arith, eq_refl, or_else, Bool-cases,
  ◌⊎◌, inl, inr,
}
use aibom_webhook_service.Base.Text.Laws.{starts_with_refl}
use aibom_webhook_service.Source.Url.{normalize_repo}
use aibom_webhook_service.Source.Provenance.{
  Provenance, same_commit, same_repository, agree, merge_provenance, filled, both_agree,
}

both_agree_refl :
    (same : String → String → Bool) (a : Option String)
    → ((s : String) → same s s ≡ true)
    → both_agree same a a ≡ true
both_agree_refl same none h = refl
both_agree_refl same (some s) h = ground (arith, h s)

-- a value that is filled in agrees with both of its sources
both_agree-or_else :
    (same : String → String → Bool) (a b : Option String)
    → ((s : String) → same s s ≡ true)
    → both_agree same a b ≡ true
    → (both_agree same (or_else a b) a ≡ true) × (both_agree same (or_else a b) b ≡ true)
both_agree-or_else same none none h e = (refl, refl)
both_agree-or_else same none (some b) h e = (refl, both_agree_refl same (some b) h)
both_agree-or_else same (some a) b h e = (both_agree_refl same (some a) h, e)

same_commit_refl : (s : String) → same_commit s s ≡ true
unfolding same_commit
same_commit_refl s = rw starts_with_refl refl

module _ (valid_netloc : String → Bool) where
  same_repository_refl : (s : String) → same_repository valid_netloc s s ≡ true
  unfolding same_repository
  same_repository_refl s = eq_refl (normalize_repo valid_netloc s)

  -- A merge that agrees with both of its sources on the commit and on the repository.
  pub record Merge (primary fallback : Provenance) : Type 0 where
    pub merged : Provenance
    pub result : merge_provenance valid_netloc (some primary) (some fallback) ≡ some merged
    pub with_primary : agree valid_netloc merged primary ≡ true
    pub with_fallback : agree valid_netloc merged fallback ≡ true

  -- Two checkouts are never mixed: either the two sources name different commits or different
  -- repositories, and then the first is kept as it is, or what they are merged into agrees with
  -- both.
  pub merge_provenance_lem :
      (primary fallback : Provenance)
      → ((agree valid_netloc primary fallback ≡ false)
          × (merge_provenance valid_netloc (some primary) (some fallback) ≡ some primary))
        ⊎ Merge primary fallback
  unfolding merge_provenance agree filled
  merge_provenance_lem primary fallback = elim (Bool-cases (agree valid_netloc primary fallback)) [
    | inr e ↦ inl (e, rw (e, agree) refl)
    | inl e ↦
        let commit =
          both_agree-or_else same_commit primary.git_commit fallback.git_commit same_commit_refl
            (ground (arith, e)) in
        let repository =
          both_agree-or_else (same_repository valid_netloc) primary.git_repository
            fallback.git_repository same_repository_refl (ground (arith, e)) in
        inr (record {
          merged = filled primary fallback;
          result = rw (e, agree) refl;
          with_primary = rw (commit.0, repository.0) refl;
          with_fallback = rw (commit.1, repository.1) refl;
        })
  ]
