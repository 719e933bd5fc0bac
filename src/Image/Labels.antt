-- ===== src/Image/Labels.antt =====
-- `_image_labels` and `detect_git_provenance_from_containers`: the commit that an image's labels
-- name. The Image objects of the cluster are a parameter.
pub mod Laws
use aibom_webhook_service.Base.{
  String, Bool, true, false, not, ◌&&◌, Option, none, some, List, [], ◌∷◌, ◌==◌, if◌then◌else◌,
  is_some,
}
use aibom_webhook_service.Base.Dict
use aibom_webhook_service.Base.Dict.{Dict}
use aibom_webhook_service.Command.Segments.{one_of}
use aibom_webhook_service.Source.Container.{Container, given}
use aibom_webhook_service.Source.Storage.{image_digest}
use aibom_webhook_service.Source.Url.{redact_git_url}
use aibom_webhook_service.Source.Provenance.{Provenance, option_map}
use aibom_webhook_service.Cluster.Api.{Answer, ok, http_error, get_cluster_object}
use aibom_webhook_service.Image.Http.{Request, Net}
use aibom_webhook_service.Image.Registry.{Documents, registry_image_labels}

-- an Image object: the labels of its config, and the digests of its manifests
pub record ImageObject : Type 0 where
  pub labels : Dict String
  pub manifests : List (Option String)

-- `_BUILD_LABEL_COMMIT` and its like
abbrev pub build_label_commit : String
build_label_commit = "io.openshift.build.commit.id"

abbrev pub build_label_ref : String
build_label_ref = "io.openshift.build.commit.ref"

abbrev pub build_label_source : String
build_label_source = "io.openshift.build.source-location"

abbrev pub oci_label_revision : String
oci_label_revision = "org.opencontainers.image.revision"

abbrev pub oci_label_source : String
oci_label_source = "org.opencontainers.image.source"

abbrev pub non_workload_containers : List String
non_workload_containers =
    "istio-proxy" ∷ "linkerd-proxy" ∷ "queue-proxy" ∷ "oauth-proxy" ∷ "kube-rbac-proxy"
    ∷ "storage-initializer" ∷ "aibom-discovery" ∷ "aibom-dataset-sidecar" ∷ []

unfoldable pub is_sidecar : Container → Bool
unfolding one_of
is_sidecar c = elim c.name [ none ↦ false | some n ↦ one_of non_workload_containers n ]

-- `x or y` on dicts
abbrev pub or_labels : Dict String → Dict String → Dict String
or_labels [] other = other
or_labels (l ∷ labels) other = l ∷ labels

-- the Image object, none if it is missing or the request fails
abbrev pub found : Answer (Option ImageObject) → Option ImageObject
found (ok o) = o
found (http_error code) = none

module _ (images : String → Answer ImageObject) where
  unfoldable pub image_object : String → Option ImageObject
  unfolding get_cluster_object
  image_object digest = found (get_cluster_object (images digest))

  unfoldable pub own_labels : String → Dict String
  unfolding image_object
  own_labels digest = elim (image_object digest) [ none ↦ [] | some image ↦ image.labels ]

  -- the first manifest of a list whose image has labels
  unfoldable pub manifest_list_labels : List (Option String) → Dict String
  unfolding own_labels
  manifest_list_labels [] = []
  manifest_list_labels (manifest ∷ others) =
      let rest = manifest_list_labels others in
      elim (given manifest) [ none ↦ rest | some digest ↦ or_labels (own_labels digest) rest ]

  unfoldable pub image_labels : String → Dict String
  unfolding image_object manifest_list_labels
  image_labels digest = elim (image_object digest) [
    | none ↦ []
    | some image ↦ or_labels image.labels (manifest_list_labels image.manifests)
  ]

-- the reference of a container that has a digest
unfoldable pub digest_ref : Container → Option String
unfolding image_digest
digest_ref c =
    if is_some (given (image_digest c.image_id))
    then c.image_id
    else if is_some (given (image_digest c.spec.image))
    then c.spec.image
    else none

-- whether there are two commits and they differ
abbrev pub conflicting : Option String → Option String → Bool
conflicting (some a) (some b) = not (a == b)
conflicting a b = false

module _ (valid_netloc : String → Bool) where
  abbrev provenance : String → Option String → Option String → String → Provenance
  provenance commit source branch via = record {
    git_commit = some commit;
    git_repository = option_map (redact_git_url valid_netloc) source;
    git_branch = branch;
    git_dirty = none;
    detected_via = some via;
  }

  -- what the labels of one image say, given their two commits
  unfoldable pub reported : Dict String → Option String → Option String → Option Provenance
  unfolding redact_git_url Dict.lookup
  reported labels (some commit) oci_commit = some (
      provenance commit (Dict.lookup build_label_source labels) (Dict.lookup build_label_ref labels)
        "openshift_build_label")
  reported labels none (some oci_commit) =
      some (provenance oci_commit (Dict.lookup oci_label_source labels) none "oci_image_label")
  reported labels none none = none

  unfoldable pub labelled : Dict String → Option Provenance
  unfolding reported Dict.lookup
  labelled labels =
      let commit = given (Dict.lookup build_label_commit labels) in
      let oci_commit = given (Dict.lookup oci_label_revision labels) in
      if conflicting commit oci_commit then none else reported labels commit oci_commit

  module _ (images : String → Answer ImageObject) (net : Net) (docs : Documents)
      (lookup : Bool) where
    -- the cluster's labels, else the registry's
    unfoldable pub labels_of : String → List Request → Dict String × List Request
    unfolding image_labels registry_image_labels image_digest
    labels_of ref log = elim (given (image_digest (some ref))) [
      | none ↦ ([], log)
      | some digest ↦ elim (image_labels images digest) [
        | [] ↦ registry_image_labels net docs lookup (some ref) log
        | l ∷ labels ↦ (l ∷ labels, log)
      ]
    ]

    -- what one container says
    unfoldable pub container_provenance :
        Container → List Request → Option Provenance × List Request
    unfolding is_sidecar digest_ref labels_of labelled
    container_provenance c log = elim (digest_ref c) [
      | none ↦ (none, log)
      | some ref ↦
          let (labels, after) = labels_of ref log in
          if is_sidecar c then (none, log) else (labelled labels, after)
    ]

    unfoldable pub detect_git_provenance_from_containers :
        List Container → List Request → Option Provenance × List Request
    unfolding container_provenance
    detect_git_provenance_from_containers [] log = (none, log)
    detect_git_provenance_from_containers (c ∷ containers) log =
        let (provenance, after) = container_provenance c log in
        elim provenance [
          | some p ↦ (some p, after)
          | none ↦ detect_git_provenance_from_containers containers after
        ]
