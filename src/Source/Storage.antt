-- ===== src/Source/Storage.antt =====
-- `_parse_storage_uri` and `detect_model_from_storage`.
pub mod Laws
use Prim.Native.String.{[], ◌∷◌}
use aibom_webhook_service.Base.{
  ℕ, code, String, ◌<>◌, Bool, true, false, not, ◌&&◌, ◌||◌, Option, none, some, List, ◌==◌,
  if◌then◌else◌, nat_eq, or_else, is_some,
}
use aibom_webhook_service.Base.Dict
use aibom_webhook_service.Base.Dict.{Dict}
use aibom_webhook_service.Base.Int.{pos}
use aibom_webhook_service.Base.Text.{
  starts_with, drop_text, rstrip_by, span, at_end, contains, after_last,
}
use aibom_webhook_service.Value.{Value, text, int}
use aibom_webhook_service.Engine.Server.{strip_tag_digest}
use aibom_webhook_service.Model.Quantization.{detect_quantization_from_name}
use aibom_webhook_service.Source.Container.{Container, given, is_text}

abbrev pub is_slash : ℕ → Bool
is_slash c = nat_eq c b'/'

-- `s.strip("/")`
unfoldable pub strip_slashes : String → String
unfolding rstrip_by
strip_slashes [] = []
strip_slashes (c ∷ s) =
    let rest = strip_slashes s in if is_slash (code c) then rest else rstrip_by is_slash (c ∷ s)

-- one of `[^/@:]`
abbrev pub is_plain : ℕ → Bool
is_plain c = not (nat_eq c b'/' || nat_eq c b'@' || nat_eq c b':')

-- `.*$` from here
unfoldable pub on_one_line : String → Bool
unfolding at_end
on_one_line [] = true
on_one_line (c ∷ s) = at_end (c ∷ s) || (not (nat_eq (code c) 10) && on_one_line s)

-- `(?:/.*)?$`
subpath : String → Bool
unfolding on_one_line
subpath [] = true
subpath (c ∷ s) = is_slash (code c) && on_one_line s

-- `(?:[@:]([^/]+))?(?:/.*)?$` behind the repository's name
unfoldable revision_of : String → String → Option (String × Option String)
unfolding subpath span
revision_of name [] = some (name, none)
revision_of name (c ∷ s) =
    let (rev, rest) = span (λ d. not (is_slash d)) s in
    if is_slash (code c)
    then (if on_one_line s then some (name, none) else none)
    else if not (rev == "") && subpath rest
    then some (name, some rev)
    else none

-- an organisation and a name, else the organisation alone
unfoldable named : String → String → Option (String × Option String)
unfolding revision_of span
named org [] = revision_of org []
named org (c ∷ s) =
    let (name, rest) = span is_plain s in
    if is_slash (code c) && not (name == "")
    then or_else (revision_of (org <> ("/" ∷ name)) rest) (revision_of org (c ∷ s))
    else revision_of org (c ∷ s)

-- what `_HF_URI_RE` matches
unfoldable pub hf_parts : String → Option (String × Option String)
unfolding named span
hf_parts s = let (org, rest) = span is_plain s in if org == "" then none else named org rest

-- a name, a revision and how they were declared
abbrev pub Declared : Type 0
Declared = String × Option String × String

hub : Option (String × Option String) → Option Declared
hub none = none
hub (some (name, rev)) = some (name, rev, "hf_uri")

registry : String → Option Declared
registry ref = if ref == "" then none else some (ref, none, "oci_uri")

unfoldable pub parse_storage_uri : Option String → Option Declared
unfolding hub registry hf_parts strip_slashes starts_with drop_text strip_tag_digest
parse_storage_uri none = none
parse_storage_uri (some uri) =
    if uri == ""
    then none
    else if starts_with uri "hf://"
    then hub (hf_parts (strip_slashes (drop_text 5 uri)))
    else if starts_with uri "oci://"
    then registry (strip_tag_digest (drop_text 6 uri))
    else none

-- what the discovery container read of the model's directory
pub record ModelFiles : Type 0 where
  pub repo_id : Option String
  pub dtype : Option String
  pub architectures : List String
  pub revision : Option String
  pub base_model : Option String
  pub total_size_bytes : ℕ

pub record Storage : Type 0 where
  pub storage_path : Option String
  pub storage_uri : Option String
  pub model_files : ModelFiles

-- the digest of an image id that is pinned to one
unfoldable pub image_digest : Option String → Option String
unfolding contains after_last
image_digest none = none
image_digest (some image_id) =
    if (image_id == "") || not (contains image_id "@sha256:")
    then none
    else some (after_last "@" image_id)

-- the digest of the first container that runs the image and has one
unfoldable pub running_digest : String → List Container → Option String
unfolding image_digest
running_digest image List.[] = none
running_digest image (List.◌∷◌ c containers) =
    let rest = running_digest image containers in
    if is_text image c.spec.image && is_some (image_digest c.image_id)
    then image_digest c.image_id
    else rest

-- the name, the revision and how they were declared, before the files' own revision
unfoldable pub identity : Storage → List Container → Option Declared
unfolding parse_storage_uri running_digest rstrip_by after_last drop_text
identity storage containers = elim (given storage.model_files.repo_id) [
  | some repo ↦ some (repo, none, "model_files_readme")
  | none ↦ elim (given storage.storage_path) [
    | some path ↦ last_part path
    | none ↦ elim (parse_storage_uri storage.storage_uri) [
      | some parsed ↦ some (resolved parsed)
      | none ↦ elim (given storage.storage_uri) [ none ↦ none | some uri ↦ last_part uri ]
    ]
  ]
]
  where
    last_part : String → Option Declared
    last_part location =
        let name = after_last "/" (rstrip_by is_slash location) in
        if name == "" then none else some (name, none, "storage_path")

    scheme_less : Option String → String
    scheme_less none = ""
    scheme_less (some uri) = drop_text 6 uri

    resolved : Declared → Declared
    resolved (name, rev, via) =
        if via == "oci_uri"
        then (name, or_else (running_digest (scheme_less storage.storage_uri) containers) rev, via)
        else (name, rev, via)

head_of : List String → Option String
head_of List.[] = none
head_of (List.◌∷◌ s rest) = some s

module _ {R : Type 0} where
  merge_quant : Option (Dict (Value R)) → Dict (Value R) → Dict (Value R)
  unfolding Dict.update
  merge_quant none d = d
  merge_quant (some quant) d = Dict.update d quant

  add_text : String → Option String → Dict (Value R) → Dict (Value R)
  unfolding Dict.insert
  add_text key none d = d
  add_text key (some s) d = Dict.insert key (text s) d

  add_size : ℕ → Dict (Value R) → Dict (Value R)
  unfolding Dict.insert
  add_size n d = if nat_eq n 0 then d else Dict.insert "model_size_bytes" (int (pos n)) d

  describe : ModelFiles → Declared → Dict (Value R)
  unfolding merge_quant add_text head_of add_size
  describe files (name, rev, via) =
      let named =
        List.◌∷◌ ("model_name", text name)
          (List.◌∷◌ ("model_name_declared_via", text via) List.[]) in
      let quantized = merge_quant (detect_quantization_from_name name) named in
      let typed = add_text "dtype" (given files.dtype) quantized in
      let built = add_text "architecture" (head_of files.architectures) typed in
      let pinned = add_text "model_revision" (or_else (given files.revision) (given rev)) built in
      let based = add_text "base_model" (given files.base_model) pinned in
      add_size files.total_size_bytes based

  unfoldable pub detect_model_from_storage :
      Option Storage → List Container → Option (Dict (Value R))
  unfolding identity describe
  detect_model_from_storage none containers = none
  detect_model_from_storage (some storage) containers = elim (identity storage containers) [
    | none ↦ none
    | some declared ↦ some (describe storage.model_files declared)
  ]
