-- ===== src/Job/Publish.antt =====
-- The end of `main`: telemetry, compilation, the signature, and the objects that are created.
-- The API server answers by what was asked before; `patch_configmap` is one request here.
pub mod Laws
use Prim.Native.String.{◌++◌ as ◌<>◌}
use aibom_webhook_service.Base.{
  ℕ, String, Bool, true, false, not, ◌||◌, Option, none, some, List, [], ◌∷◌, ◌==◌, if◌then◌else◌,
  is_some,
}
use aibom_webhook_service.Command.Segments.{one_of}
use aibom_webhook_service.Source.Container.{given}
use aibom_webhook_service.Cluster.Api.{Answer, ok, http_error}

-- what `publish_series_object` gives; the window is read from the document
pub record SeriesRef : Type 0 where
  pub name : String
  pub sha256 : String
  pub size_bytes : ℕ
  pub window : String

-- a compiled report, with its `telemetry_series_ref`
pub record Report (Body : Type 0) : Type 0 where
  pub body : Body
  pub telemetry_series_ref : Option SeriesRef

pub record Signature : Type 0 where
  pub signature : String
  pub public_key : String

pub data Request (Body : Type 0) : Type 0 where
  create_series : String → String → Request Body
  publish_key : String → Request Body
  -- the report, and its signature in the spec
  create_aibom : Report Body → Option Signature → Request Body
  -- the series object, and the name and uid of its owner
  set_owner : String → String → String → Request Body

-- what the answer to the creation of an object is read for: its name and uid
pub record Created : Type 0 where
  pub name : Option String
  pub uid : Option String

-- The serving engines of `SERVING_TELEMETRY_QUERIES`
abbrev pub serving_engines : List String
serving_engines = "vllm" ∷ "sglang" ∷ "lmdeploy" ∷ "tgi" ∷ []

-- What `main` calls, `none` for an exception. `T` are telemetry documents.
pub record Steps (T Body : Type 0) : Type 0 where
  pub collect_telemetry : Option T
  pub collect_vllm_telemetry : String → Option T
  pub collect_telemetry_series : Option T → Option T → String → Option (Option String)
  pub compile_aibom : Option T → Option T → Option Body
  -- `none` inside where no key is mounted
  pub sign_aibom : Report Body → Option (Option Signature)
  pub sha256 : String → String
  pub byte_length : String → ℕ
  pub window : String → String

-- the environment, and the random end of the series object's name
pub record Settings : Type 0 where
  pub job_name : String
  pub prometheus_url : String
  pub token_hex : String

module _ {T Body : Type 0} (settings : Settings) (steps : Steps T Body)
    (answer : List (Request Body) → Request Body → Answer Created) where
  -- telemetry, telemetry of the serving engine, and series
  abbrev pub Collected : Type 0
  Collected = Option T × Option T × Option String

  abbrev joined : Option (Option String) → Option String
  joined none = none
  joined (some o) = o

  serving_telemetry : Option String → Option T
  unfolding one_of
  serving_telemetry none = none
  serving_telemetry (some engine) =
      if one_of serving_engines engine then steps.collect_vllm_telemetry engine else none

  abbrev or_vllm : Option String → String
  or_vllm engine = elim (given engine) [ none ↦ "vllm" | some e ↦ e ]

  unfoldable pub collected : Option String → Collected
  unfolding serving_telemetry
  collected engine =
      let telemetry = steps.collect_telemetry in
      let vllm_telemetry = serving_telemetry engine in
      let series =
        joined (steps.collect_telemetry_series telemetry vllm_telemetry (or_vllm engine)) in
      if settings.prometheus_url == "" then (none, none, none) else (
        telemetry,
        vllm_telemetry,
        if is_some telemetry || is_some vllm_telemetry then series else none,
      )

  series_name : String
  series_name = settings.job_name <> ("-telemetry-" <> settings.token_hex)

  abbrev pub Log : Type 0
  Log = List (Request Body)

  -- a request and its answer
  abbrev ask : Request Body → Log → Answer Created × Log
  ask r log = (answer log r, r ∷ log)

  ref_of : String → SeriesRef
  unfolding series_name
  ref_of encoded = record {
    name = series_name;
    sha256 = steps.sha256 encoded;
    size_bytes = steps.byte_length encoded;
    window = steps.window encoded;
  }

  stored : String → Answer Created × Log → Option SeriesRef × Log
  unfolding ref_of
  stored encoded (ok created, log) = (some (ref_of encoded), log)
  stored encoded (http_error code, log) = (none, log)

  unfoldable pub publish_series_object : String → Log → Option SeriesRef × Log
  unfolding stored series_name
  publish_series_object encoded log = stored encoded (ask (create_series series_name encoded) log)

  unfoldable pub publish_series : Option String → Log → Option SeriesRef × Log
  unfolding publish_series_object
  publish_series series log = elim (given series) [
    | none ↦ (none, log)
    | some encoded ↦ publish_series_object encoded log
  ]

  -- a signature that is not empty
  abbrev pub signed : Option (Option Signature) → Option Signature
  signed none = none
  signed (some none) = none
  signed (some (some s)) = if s.signature == "" then none else some s

  -- the public key is published, whatever is answered
  unfoldable pub publish_public_key : Option Signature → Log → Log
  publish_public_key none log = log
  publish_public_key (some s) log = publish_key s.public_key ∷ log

  -- the owner of the series object, if the answer names one
  unfoldable pub own_series : Option SeriesRef → Created → Log → Log
  own_series none created log = log
  own_series (some ref) created log = elim created.name [
    | none ↦ log
    | some name ↦ elim created.uid [ none ↦ log | some uid ↦ set_owner ref.name name uid ∷ log ]
  ]

  finish : Option SeriesRef → Answer Created × Log → ℕ × Log
  unfolding own_series
  finish ref (ok created, log) = (0, own_series ref created log)
  finish ref (http_error code, log) = (1, log)

  -- the objects of a report; the exit code, and what was asked
  unfoldable pub publish : Body → Option String → Log → ℕ × Log
  unfolding publish_series publish_public_key finish
  publish body series log =
      let (ref, log) = publish_series series log in
      let report : Report Body = record { body = body; telemetry_series_ref = ref } in
      let signature = signed (steps.sign_aibom report) in
      finish ref (ask (create_aibom report signature) (publish_public_key signature log))

  unfoldable pub main : Option String → ℕ × Log
  unfolding collected publish
  main engine =
      let (telemetry, vllm_telemetry, series) = collected engine in
      if settings.job_name == ""
      then (1, [])
      else (elim (steps.compile_aibom telemetry vllm_telemetry) [
        | none ↦ (1, [])
        | some body ↦ publish body series []
      ])
