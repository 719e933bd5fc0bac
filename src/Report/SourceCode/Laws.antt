-- ===== src/Report/SourceCode/Laws.antt =====
-- What the source code section says where there are annotations.
use aibom_webhook_service.Base.{
  String, ◌≡◌, refl, Bool, true, Option, none, some, arith, Bool-cases, inl, inr, is_some, ap, ◌∙◌,
}
use aibom_webhook_service.Source.Container.{given}
use aibom_webhook_service.Source.Url.{redact_git_url}
use aibom_webhook_service.Source.Provenance.{
  Provenance, option_map, agree, filled, merge_provenance,
}
use aibom_webhook_service.Report.SourceCode.{
  GitAnnotations, given_of, annotated, or_nothing, declared_via, is_annotated, section_of,
  source_code,
}

annotated_lem : (a : GitAnnotations) → is_annotated a ≡ true → annotated a ≡ some (given_of a)
unfolding annotated
annotated_lem a h = rw h refl

module _ (valid_netloc : String → Bool) where
  -- a merge keeps what its first source has
  merged-field :
      (p : Provenance) (o : Option Provenance)
      → let m = or_nothing (merge_provenance valid_netloc (some p) o) in
        ((is_some p.git_commit ≡ true) → m.git_commit ≡ p.git_commit)
        × ((is_some p.git_repository ≡ true) → m.git_repository ≡ p.git_repository)
        × ((is_some p.git_branch ≡ true) → m.git_branch ≡ p.git_branch)
  unfolding merge_provenance filled
  merged-field p none = (λ h. refl, λ h. refl, λ h. refl)
  merged-field p (some f) = elim (Bool-cases (agree valid_netloc p f)) [
    | inl e ↦ rw e (λ h. ground (arith, h), λ h. ground (arith, h), λ h. ground (arith, h))
    | inr e ↦ rw e (λ h. refl, λ h. refl, λ h. refl)
  ]

  -- An annotation that is given is what is reported, whatever was detected, with the repository's
  -- URL redacted, and one such annotation makes the whole section declared by annotation.
  pub source_code_annotated :
      (a : GitAnnotations) (detected : Option Provenance)
      → is_annotated a ≡ true
      → let s = source_code valid_netloc a detected in
        (s.declared_via ≡ some "annotation")
        × (is_some (given a.git_commit) ≡ true → s.git_commit ≡ given a.git_commit)
        × (is_some (given a.git_repository) ≡ true
            → s.git_repository ≡ option_map (redact_git_url valid_netloc) (given a.git_repository))
        × (is_some (given a.git_branch) ≡ true → s.git_branch ≡ given a.git_branch)
  unfolding source_code section_of given_of declared_via
  source_code_annotated a detected h =
      let e = annotated_lem a h in
      let m = merged-field (given_of a) detected in
      let merge =
        λ (o : Option Provenance). or_nothing (merge_provenance valid_netloc o detected) in
      (
        rw h refl,
        λ k. ap (λ o. (merge o).git_commit) e ∙ m.0 k,
        λ k.
            ap (λ o. option_map (redact_git_url valid_netloc) (merge o).git_repository) e
            ∙ ap (option_map (redact_git_url valid_netloc)) (m.1 k),
        λ k. ap (λ o. (merge o).git_branch) e ∙ m.2 k,
      )
