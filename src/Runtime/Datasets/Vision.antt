-- ===== src/Runtime/Datasets/Vision.antt =====
-- The hooks of torchvision's and webdataset's constructors: `_patched` of `_install_torchvision_hook`
-- and `_patched_init` of `_install_webdataset_hook`. Classes are numbers.
pub mod Laws
use aibom_webhook_service.Base.{
  ℕ, String, Bool, true, false, Option, none, some, List, [], ◌∷◌, ◌<>◌, if◌then◌else◌, nat_eq,
  take, any,
}
use aibom_webhook_service.Base.Dict
use aibom_webhook_service.Source.Container.{given}
use aibom_webhook_service.Runtime.Datasets.Entry.{Entry, flag, text, texts, put_text}
use aibom_webhook_service.Runtime.Datasets.Registry.{Detected, record_entry}
use aibom_webhook_service.Runtime.Datasets.Loader.{split_name}

-- the object that is constructed, with its classes in the order of `__mro__`
pub record Constructed : Type 0 where
  pub id : ℕ
  pub weak : Bool
  pub mro : List ℕ

-- what the hook reads of the arguments of one constructor
pub record Call : Type 0 where
  -- the patched class whose constructor runs, and its name
  pub owner : ℕ
  pub dataset_name : String
  -- the text of the first argument, and the second one if it is a bool
  pub first_arg : Option String
  pub second_flag : Option Bool
  -- of the named arguments
  pub root : Option String
  pub train : Option Bool
  pub split : Option String
  pub download : Option Bool

-- the most derived class that is patched
unfoldable pub first_patched : List ℕ → List ℕ → Option ℕ
first_patched patched [] = none
first_patched patched (c ∷ mro) =
    let rest = first_patched patched mro in if any (nat_eq c) patched then some c else rest

abbrev pub records : Option ℕ → ℕ → Bool
records none owner = false
records (some c) owner = nat_eq c owner

abbrev first_of : {A : Type 0} → Option A → Option A → Option A
first_of none b = b
first_of (some a) b = some a

abbrev put_download : Option Bool → Entry → Entry
put_download none entry = entry
put_download (some b) entry = Dict.insert "download" (flag b) entry

module _ (path_fingerprint : String → Option String) where
  abbrev fingerprint_of : Option String → Option String
  fingerprint_of root = elim (given root) [ none ↦ none | some p ↦ given (path_fingerprint p) ]

  unfoldable pub vision_entry : Call → Entry
  unfolding put_text Dict.insert
  vision_entry c =
      let root = first_of c.first_arg c.root in
      let entry =
        ("source", text ("torchvision.datasets." <> c.dataset_name))
        ∷ ("dataset_name", text c.dataset_name)
        ∷ [] in
      let entry = put_text "root" root entry in
      let entry = put_text "split" (split_name (first_of c.train c.second_flag)) entry in
      put_text "fingerprint" (fingerprint_of root)
        (put_download c.download (put_text "split" c.split entry))

  -- an entry and the object that it is about
  unfoldable pub record_object : Constructed → Entry → Detected → Detected
  unfolding record_entry
  record_object o entry s =
      let (place, recorded) = record_entry entry s in
      record recorded {
        objects = if o.weak then (o.id, place) ∷ recorded.objects else recorded.objects;
      }

  unfoldable pub patched_constructor : List ℕ → Constructed → Call → Detected → Detected
  unfolding first_patched vision_entry record_object
  patched_constructor patched o c s =
      if records (first_patched patched o.mro) c.owner
      then record_object o (vision_entry c) s
      else s

  -- the patched constructors that run while an object is made, in the order in which they return
  unfoldable pub construct : List ℕ → Constructed → List Call → Detected → Detected
  unfolding patched_constructor
  construct patched o [] s = s
  construct patched o (c ∷ calls) s = construct patched o calls (patched_constructor patched o c s)

-- the URLs of a WebDataset, `none` where they are neither a text nor a sequence
unfoldable pub web_urls : Option (List String) → Entry → Entry
unfolding Dict.insert
web_urls none entry = entry
web_urls (some urls) entry = Dict.insert "urls" (texts (take 10 urls)) entry

unfoldable pub patched_webdataset : Option (List String) → Detected → Detected
unfolding web_urls record_entry
patched_webdataset urls s =
    (record_entry
      (web_urls urls
        (("source", text "webdataset.WebDataset") ∷ ("dataset_name", text "WebDataset") ∷ []))
      s).1
