-- ===== src/Image/Registry/Digests.antt =====
-- That the labels are pinned by the image's digest.
use aibom_webhook_service.Base.{
  String, ◌≡◌, refl, Option, none, some, List, [], ◌∷◌, ◌⊎◌, Bool-cases, Option-cases, inl, inr,
  keep, eq_iff, ◌==◌, ◌<>◌, if◌then◌else◌,
}
use aibom_webhook_service.Base.Dict.{Dict}
use aibom_webhook_service.Source.Container.{given}
use aibom_webhook_service.Image.Http.{Reply, done, http_error, failed, Net}
use aibom_webhook_service.Image.Registry.{
  Documents, Session, Child, Manifest, M, and_then, blob_url, loaded, accept_of, authorized_get,
  checked, registry_blob, config_labels, is_platform, first_child, manifest_labels, pinned_labels,
}

-- inversion of a chain that gives a value
and_then-eq-done :
    {A B : Type 0} (r : Reply A) (f : A → M B) (s : Session) {b : B}
    → (and_then r f s).0 ≡ done b
    → (a : A) × (r ≡ done a) × ((f a s).0 ≡ done b)
and_then-eq-done (done a) f s e = (a, refl, e)
and_then-eq-done (http_error code location challenge) f s e = absurd (cc)
and_then-eq-done failed f s e = absurd (cc)

eq_of_done : {A : Type 0} {a b : A} → done a ≡ done b → b ≡ a
eq_of_done e = cc

ne_failed : {A : Type 0} {a : A} → failed ≡ done a → ⊥
ne_failed e = cc

loaded-eq-done :
    {A : Type 0} (o : Option A) (s : Session) {a : A} → (loaded o s).0 ≡ done a → o ≡ some a
loaded-eq-done none s e = absurd (cc)
loaded-eq-done (some b) s e = cc

module _ (net : Net) (docs : Documents) where
  -- what is read of a body with this digest
  abbrev pub Pinned : {A : Type 0} → (String → Option A) → String → A → Type 0
  Pinned read digest a =
      (body : String) × (("sha256:" <> docs.sha256 body) ≡ digest) × (read body ≡ some a)

  checked-Pinned :
      {A : Type 0} (read : String → Option A) (digest body : String) (s : Session) {a : A}
      → (checked net docs read digest body s).0 ≡ done a
      → Pinned read digest a
  unfolding checked
  checked-Pinned read digest body s e =
      elim (Bool-cases (("sha256:" <> docs.sha256 body) == digest)) [
        | inl same ↦ (
          body,
          (eq_iff _ _).0 same,
          loaded-eq-done (read body) s (rw (same, if◌then◌else◌) at e),
        )
        | inr other ↦ absurd (ne_failed (rw (other, if◌then◌else◌) at e))
      ]

  module _ (host repo : String) where
    registry_blob-Pinned :
        {A : Type 0} (read : String → Option A) (kind digest : String) (s : Session) {a : A}
        → (registry_blob net docs read host repo kind digest s).0 ≡ done a
        → Pinned read digest a
    unfolding registry_blob
    registry_blob-Pinned read kind digest s e =
        let got =
          authorized_get net docs (blob_url host repo kind digest) (accept_of kind) repo s in
        let (body, same, ok) = and_then-eq-done got.0 (checked net docs read digest) got.1 e in
        checked-Pinned read digest body got.1 ok

    -- the labels of the config that the manifest names, pinned by its digest there
    abbrev pub OfConfig : Manifest → Dict String → Type 0
    OfConfig m labels =
        (digest : String) × (given m.config_digest ≡ some digest) × Pinned docs.labels digest labels

    -- the same through the first image of an index that is no attestation
    abbrev pub OfChild : Manifest → Dict String → Type 0
    OfChild m labels =
        (children : List Child) × (m.manifests ≡ some children)
        × (child : Child) × (others : List Child) × (keep (is_platform net docs) children
            ≡ child ∷ others)
        × (digest : String) × (child.digest ≡ some digest)
        × (image : Manifest) × Pinned docs.manifest digest image
        × OfConfig image labels

    config_labels-OfConfig :
        (m : Manifest) (s : Session) {labels : Dict String}
        → (config_labels net docs host repo m s).0 ≡ done labels
        → (labels ≡ []) ⊎ OfConfig m labels
    unfolding config_labels
    config_labels-OfConfig m s e = elim (Option-cases (given m.config_digest)) [
      | inl h ↦ inl (eq_of_done (rw (h, config_labels) at e))
      | inr (digest, h) ↦ inr (
        digest,
        h,
        registry_blob-Pinned docs.labels "blobs" digest s (rw (h, config_labels) at e),
      )
    ]

    named_child-OfChild :
        (m : Manifest) (children : List Child) (child : Child) (others : List Child) (s : Session)
        {labels : Dict String}
        → m.manifests ≡ some children
        → keep (is_platform net docs) children ≡ child ∷ others
        → (first_child net docs host repo (child ∷ others) s).0 ≡ done labels
        → (labels ≡ []) ⊎ OfChild m labels
    unfolding first_child
    named_child-OfChild m children child others s h k e = elim (Option-cases child.digest) [
      | inl d ↦ absurd (ne_failed (rw (d, first_child) at e))
      | inr (digest, d) ↦
          let got = registry_blob net docs docs.manifest host repo "manifests" digest s in
          let (image, pinned, ok) =
            and_then-eq-done got.0 (config_labels net docs host repo) got.1
              (rw (d, first_child) at e) in
          elim (config_labels-OfConfig image got.1 ok) [
            | inl none_there ↦ inl none_there
            | inr config ↦ inr (
              children,
              h,
              child,
              others,
              k,
              digest,
              d,
              image,
              registry_blob-Pinned docs.manifest "manifests" digest s pinned,
              config,
            )
          ]
    ]

    kept-OfChild :
        (m : Manifest) (children kept : List Child) (s : Session) {labels : Dict String}
        → m.manifests ≡ some children
        → keep (is_platform net docs) children ≡ kept
        → (first_child net docs host repo kept s).0 ≡ done labels
        → (labels ≡ []) ⊎ OfChild m labels
    unfolding first_child
    kept-OfChild m children [] s h k e = inl (eq_of_done e)
    kept-OfChild m children (child ∷ others) s h k e =
        named_child-OfChild m children child others s h k e

    -- the labels of the manifest with this digest
    abbrev pub OfDigest : String → Dict String → Type 0
    OfDigest digest labels =
        (m : Manifest) × Pinned docs.manifest digest m × (OfConfig m labels ⊎ OfChild m labels)

    manifest_labels-Pinned :
        (m : Manifest) (s : Session) {labels : Dict String}
        → (manifest_labels net docs host repo m s).0 ≡ done labels
        → (labels ≡ []) ⊎ (OfConfig m labels ⊎ OfChild m labels)
    unfolding manifest_labels
    manifest_labels-Pinned m s e = elim (Option-cases m.manifests) [
      | inl h ↦ elim (config_labels-OfConfig m s (rw (h, manifest_labels) at e)) [
        | inl none_there ↦ inl none_there
        | inr config ↦ inr (inl config)
      ]
      | inr (children, h) ↦
          elim (kept-OfChild m children _ s h refl (rw (h, manifest_labels) at e)) [
            | inl none_there ↦ inl none_there
            | inr child ↦ inr (inr child)
          ]
    ]

    -- Labels that are read for a digest are those of a config whose SHA-256 stands in a manifest
    -- whose SHA-256 is the digest, or stands in an index whose SHA-256 is the digest, as that of
    -- its first image that is no attestation, whatever the registry answers.
    pub pinned_labels-OfDigest :
        (digest : String) (s : Session) {labels : Dict String}
        → (pinned_labels net docs host repo digest s).0 ≡ done labels
        → (labels ≡ []) ⊎ OfDigest digest labels
    unfolding pinned_labels
    pinned_labels-OfDigest digest s e =
        let got = registry_blob net docs docs.manifest host repo "manifests" digest s in
        let (m, pinned, ok) = and_then-eq-done got.0 (manifest_labels net docs host repo) got.1 e in
        elim (manifest_labels-Pinned m got.1 ok) [
          | inl none_there ↦ inl none_there
          | inr labels_of ↦
              inr (m, registry_blob-Pinned docs.manifest "manifests" digest s pinned, labels_of)
        ]
