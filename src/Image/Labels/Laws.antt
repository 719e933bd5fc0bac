-- ===== src/Image/Labels/Laws.antt =====
-- What a commit that labels name is backed by.
use aibom_webhook_service.Base.{
  String, ◌≡◌, sym, ap, ◌∙◌, Bool, false, Option, none, some, List, [], ◌∷◌, arith, Bool-cases,
  Option-cases, inl, inr, eq_iff, if◌then◌else◌, or_else, Some,
}
use aibom_webhook_service.Base.Dict
use aibom_webhook_service.Base.Dict.{Dict}
use aibom_webhook_service.Source.Container.{Container, given}
use aibom_webhook_service.Source.Provenance.{Provenance}
use aibom_webhook_service.Cluster.Api.{Answer}
use aibom_webhook_service.Image.Http.{Request, Net}
use aibom_webhook_service.Image.Registry.{Documents}
use aibom_webhook_service.Image.Labels.{
  ImageObject, build_label_commit, oci_label_revision, is_sidecar, digest_ref, conflicting,
  reported, labelled, labels_of, container_provenance, detect_git_provenance_from_containers,
}

abbrev pub build_commit : Dict String → Option String
build_commit labels = given (Dict.lookup build_label_commit labels)

abbrev pub oci_commit : Dict String → Option String
oci_commit labels = given (Dict.lookup oci_label_revision labels)

-- the commit is one of the two labels', and no other label names another one
abbrev pub IsCommitOf : Dict String → Option String → Type 0
IsCommitOf labels commit =
    (commit ≡ or_else (build_commit labels) (oci_commit labels))
    × ((a b : String) → build_commit labels ≡ some a → oci_commit labels ≡ some b → a ≡ b)

none-ne-some : (p : Provenance) → ◌≡◌ {A = Option Provenance} none (some p) → ⊥
none-ne-some p e = cc

eq_of_not_conflicting :
    (o o' : Option String) (a b : String)
    → conflicting o o' ≡ false
    → o ≡ some a
    → o' ≡ some b
    → a ≡ b
eq_of_not_conflicting (some c) (some d) a b h e k = ground (arith, eq_iff c d)
eq_of_not_conflicting (some c) none a b h e k = cc
eq_of_not_conflicting none o' a b h e k = cc

commit_of : Option Provenance → Option String
commit_of none = none
commit_of (some q) = q.git_commit

reported-commit :
    (valid_netloc : String → Bool) (labels : Dict String) (o o' : Option String) (p : Provenance)
    → reported valid_netloc labels o o' ≡ some p
    → p.git_commit ≡ or_else o o'
unfolding reported commit_of
reported-commit valid_netloc labels (some c) o' p e = ap commit_of (sym e)
reported-commit valid_netloc labels none (some c) p e = ap commit_of (sym e)
reported-commit valid_netloc labels none none p e = absurd (cc)

labelled-IsCommitOf :
    (valid_netloc : String → Bool) (labels : Dict String) (p : Provenance)
    → labelled valid_netloc labels ≡ some p
    → IsCommitOf labels p.git_commit
unfolding labelled
labelled-IsCommitOf valid_netloc labels p e =
    elim (Bool-cases (conflicting (build_commit labels) (oci_commit labels))) [
      | inl h ↦ absurd (none-ne-some p (rw (h, if◌then◌else◌) at e))
      | inr h ↦ (
        reported-commit valid_netloc labels (build_commit labels) (oci_commit labels) p
            (rw (h, if◌then◌else◌) at e),
        λ a b. eq_of_not_conflicting (build_commit labels) (oci_commit labels) a b h,
      )
    ]

module _ (valid_netloc : String → Bool) (images : String → Answer ImageObject) (net : Net)
    (docs : Documents) (lookup : Bool) where
  -- a container of the workload whose labels, looked up by digest, give this provenance
  abbrev pub Names : Provenance → Container → Type 0
  Names p c =
      (is_sidecar c ≡ false)
      × (ref : String) × (digest_ref c ≡ some ref)
      × (log : List Request) × (let labels =
            (labels_of valid_netloc images net docs lookup ref log).0 in
          (labelled valid_netloc labels ≡ some p) × IsCommitOf labels p.git_commit)

  container_provenance-Names :
      (c : Container) (log : List Request) (p : Provenance)
      → (container_provenance valid_netloc images net docs lookup c log).0 ≡ some p
      → Names p c
  unfolding container_provenance
  container_provenance-Names c log p e = elim (Option-cases (digest_ref c)) [
    | inl h ↦ absurd (none-ne-some p (rw (h, container_provenance) at e))
    | inr (ref, h) ↦ elim (Bool-cases (is_sidecar c)) [
      | inl k ↦ absurd (none-ne-some p (rw (h, k, container_provenance) at e))
      | inr k ↦
          let labels = (labels_of valid_netloc images net docs lookup ref log).0 in
          let said : labelled valid_netloc labels ≡ some p = rw (h, k, container_provenance) at e in
          (k, ref, h, log, (said, labelled-IsCommitOf valid_netloc labels p said))
    ]
  ]

  -- The provenance that is detected for a pod is what the labels of one container's image say,
  -- looked up by digest, of a container that is no sidecar: its commit is a label's, and no other
  -- commit label of that image names another one.
  pub detect_git_provenance_from_containers-Names :
      (containers : List Container) (log : List Request) (p : Provenance)
      → (detect_git_provenance_from_containers valid_netloc images net docs lookup containers log).0
        ≡ some p
      → Some (Names p) containers
  unfolding detect_git_provenance_from_containers
  detect_git_provenance_from_containers-Names [] log p e = absurd (cc)
  detect_git_provenance_from_containers-Names (c ∷ containers) log p e =
      let said = container_provenance valid_netloc images net docs lookup c log in
      elim (Option-cases said.0) [
        | inl h ↦ inr (
            detect_git_provenance_from_containers-Names containers said.1 p
              (rw (h, detect_git_provenance_from_containers) at e))
        | inr (q, h) ↦ inl (
            container_provenance-Names c log p
              (h ∙ (rw (h, detect_git_provenance_from_containers) at e)))
      ]
