-- ===== src/Job/Publish/Laws.antt =====
-- What a run of the Job asks the API server for, and when it succeeds.
use Prim.Native.String.{◌++◌ as ◌<>◌}
use mathlib.Core.Path.{subst}
use aibom_webhook_service.Base.{
  ℕ, String, Bool, true, false, ◌≡◌, refl, sym, ◌∙◌, ◌⊎◌, ◌↔◌, Option, none, some, List, [], ◌∷◌,
  if◌then◌else◌, arith, Bool-cases, Option-cases, inl, inr, ◌==◌,
}
use aibom_webhook_service.Source.Container.{given}
use aibom_webhook_service.Cluster.Api.{Answer, ok, http_error}
use aibom_webhook_service.Job.Publish.{
  SeriesRef, Report, Signature, Request, create_series, publish_key, create_aibom, set_owner,
  Created, Steps, Settings, signed, collected, ref_of, stored, finish, series_name,
  publish_series_object, publish_series, publish_public_key, own_series, publish, main,
}

Answer-cases :
    {A : Type 0} (a : Answer A) → ((x : A) × (a ≡ ok x)) ⊎ ((code : ℕ) × (a ≡ http_error code))
Answer-cases (ok x) = inl (x, refl)
Answer-cases (http_error code) = inr (code, refl)

module _ {T Body : Type 0} (settings : Settings) (steps : Steps T Body)
    (answer : List (Request Body) → Request Body → Answer Created) where
  abbrev Asked : Type 0
  Asked = List (Request Body)

  -- a request was made and succeeded
  abbrev pub Succeeded : Request Body → Asked → Type 0
  Succeeded r [] = ⊥
  Succeeded r (q ∷ log) = ((q ≡ r) × (c : Created) × (answer log q ≡ ok c)) ⊎ Succeeded r log

  -- a reference is that of a stored series document
  abbrev pub Refers : Option SeriesRef → Asked → Type 0
  Refers none log = Unit
  Refers (some ref) log =
      (json : String) × Succeeded (create_series ref.name json) log
      × (ref.sha256 ≡ steps.sha256 json)
      × (ref.size_bytes ≡ steps.byte_length json)

  abbrev pub is_aibom : Request Body → Bool
  is_aibom (create_aibom report signature) = true
  is_aibom (create_series name json) = false
  is_aibom (publish_key key) = false
  is_aibom (set_owner series name uid) = false

  abbrev pub NoAibom : Asked → Type 0
  NoAibom [] = Unit
  NoAibom (r ∷ log) = (is_aibom r ≡ false) × NoAibom log

  abbrev pub OwnedBy : String → String → String → Asked → Type 0
  OwnedBy series name uid [] = ⊥
  OwnedBy series name uid (r ∷ log) =
      (report : Report Body) × (signature : Option Signature) × (ref : SeriesRef) × (c : Created)
      × (r ≡ create_aibom report signature)
      × (answer log r ≡ ok c)
      × (report.telemetry_series_ref ≡ some ref)
      × (ref.name ≡ series)
      × (c.name ≡ some name)
      × (c.uid ≡ some uid)

  -- what a request may follow
  abbrev pub Allowed : Request Body → Asked → Type 0
  Allowed (create_series name json) log = log ≡ []
  Allowed (publish_key key) log = NoAibom log
  Allowed (create_aibom report signature) log =
      NoAibom log
      × Refers report.telemetry_series_ref log
      × (signature ≡ signed settings steps answer (steps.sign_aibom report))
  Allowed (set_owner series name uid) log = OwnedBy series name uid log

  abbrev pub EveryAllowed : Asked → Type 0
  EveryAllowed [] = Unit
  EveryAllowed (r ∷ log) = Allowed r log × EveryAllowed log

  -- an AIBOM was created
  abbrev pub CreatedAibom : Asked → Type 0
  CreatedAibom log =
      (report : Report Body) × (signature : Option Signature) × Succeeded
        (create_aibom report signature) log

  NoAibom-not_created : (log : Asked) → NoAibom log → ¬ CreatedAibom log
  NoAibom-not_created [] h (report, signature, a) = a
  NoAibom-not_created (r ∷ log) h (report, signature, inl (e, c, k)) =
      absurd (differ (subst (λ q. is_aibom q ≡ false) e h.0))
    where
      differ : true ≡ false → ⊥
      differ q = cc
  NoAibom-not_created (r ∷ log) h (report, signature, inr a) =
      NoAibom-not_created log h.1 (report, signature, a)

  -- what is known before the report is created
  abbrev Ready : Option SeriesRef × Asked → Type 0
  Ready (ref, log) = Refers ref log × NoAibom log × EveryAllowed log

  publish_series_object-Ready :
      (json : String) → Ready (publish_series_object settings steps answer json [])
  unfolding publish_series_object stored ref_of series_name
  publish_series_object-Ready json =
      let name = settings.job_name <> ("-telemetry-" <> settings.token_hex) in
      elim (Answer-cases (answer [] (create_series name json))) [
        | inl (c, e) ↦ rw (e, stored) ((json, inl (refl, c, e), refl, refl), (refl, tt), (refl, tt))
        | inr (n, e) ↦ rw (e, stored) (tt, (refl, tt), (refl, tt))
      ]

  publish_series-Ready :
      (series : Option String) → Ready (publish_series settings steps answer series [])
  unfolding publish_series
  publish_series-Ready series = elim (Option-cases (given series)) [
    | inl e ↦ rw (e, publish_series) (tt, tt, tt)
    | inr (json, e) ↦ rw (e, publish_series) (publish_series_object-Ready json)
  ]

  Refers-key :
      (key : String) (ref : Option SeriesRef) (log : Asked)
      → Refers ref log
      → Refers ref (publish_key key ∷ log)
  Refers-key key none log h = tt
  Refers-key key (some ref) log h = (h.0, inr h.1, h.2, h.3)

  publish_public_key-Ready :
      (signature : Option Signature) (ref : Option SeriesRef) (log : Asked)
      → Ready (ref, log)
      → Ready (ref, publish_public_key settings steps answer signature log)
  unfolding publish_public_key
  publish_public_key-Ready none ref log h = h
  publish_public_key-Ready (some s) ref log h =
      (Refers-key s.public_key ref log h.0, (refl, h.1), (h.1, h.2))

  -- the exit code 0 goes with an AIBOM
  abbrev Ends : ℕ × Asked → Type 0
  Ends (code, log) = EveryAllowed log × ((code ≡ 0) ↔ CreatedAibom log)

  own_series-EveryAllowed :
      (report : Report Body) (signature : Option Signature) (c : Created) (log : Asked)
      (o : Option SeriesRef)
      → report.telemetry_series_ref ≡ o
      → answer log (create_aibom report signature) ≡ ok c
      → EveryAllowed (create_aibom report signature ∷ log)
      → EveryAllowed (own_series settings steps answer o c (create_aibom report signature ∷ log))
  unfolding own_series
  own_series-EveryAllowed report signature c log none r h a = a
  own_series-EveryAllowed report signature c log (some ref) r h a = elim (Option-cases c.name) [
    | inl e ↦ rw (e, own_series) a
    | inr (name, e) ↦ elim (Option-cases c.uid) [
      | inl k ↦ rw (e, k, own_series) a
      | inr (uid, k) ↦
          rw (e, k, own_series) ((report, signature, ref, c, refl, h, r, refl, e, k), a)
    ]
  ]

  own_series-Succeeded :
      (r : Request Body) (o : Option SeriesRef) (c : Created) (log : Asked)
      → Succeeded r log
      → Succeeded r (own_series settings steps answer o c log)
  unfolding own_series
  own_series-Succeeded r none c log h = h
  own_series-Succeeded r (some ref) c log h = elim (Option-cases c.name) [
    | inl e ↦ rw (e, own_series) h
    | inr (name, e) ↦ elim (Option-cases c.uid) [
      | inl k ↦ rw (e, k, own_series) h
      | inr (uid, k) ↦ rw (e, k, own_series) (inr h)
    ]
  ]

  not_created :
      (report : Report Body) (signature : Option Signature) (log : Asked) (n : ℕ)
      → answer log (create_aibom report signature) ≡ http_error n
      → NoAibom log
      → ¬ CreatedAibom (create_aibom report signature ∷ log)
  not_created report signature log n e h (r, s, inl (q, c, k)) = absurd (differ (sym e ∙ k))
    where
      differ : http_error n ≡ ok c → ⊥
      differ d = cc
  not_created report signature log n e h (r, s, inr a) = NoAibom-not_created log h (r, s, a)

  finish-Ends :
      (report : Report Body) (signature : Option Signature) (log : Asked)
      → NoAibom log
      → EveryAllowed (create_aibom report signature ∷ log)
      → Ends (
          finish settings steps answer report.telemetry_series_ref
            (answer log (create_aibom report signature), create_aibom report signature ∷ log))
  unfolding finish
  finish-Ends report signature log none_yet a =
      elim (Answer-cases (answer log (create_aibom report signature))) [
        | inl (c, e) ↦
            rw (e, finish)
              (
                own_series-EveryAllowed report signature c log report.telemetry_series_ref refl e a,
                (
                  λ q. (
                    report,
                    signature,
                    own_series-Succeeded (create_aibom report signature) report.telemetry_series_ref
                        c (create_aibom report signature ∷ log) (inl (refl, c, e)),
                  ),
                  λ q. refl,
                ),
              )
        | inr (n, e) ↦
            rw (e, finish)
              (
                a,
                (
                  λ q. absurd (omega (arith, q)),
                  λ made. absurd (not_created report signature log n e none_yet made),
                ),
              )
      ]

  publish-Ends :
      (body : Body) (series : Option String) → Ends (publish settings steps answer body series [])
  unfolding publish
  publish-Ends body series =
      let (ref, log) = publish_series settings steps answer series [] in
      let report : Report Body = record { body = body; telemetry_series_ref = ref } in
      let signature = signed settings steps answer (steps.sign_aibom report) in
      let ready = publish_public_key-Ready signature ref log (publish_series-Ready series) in
      finish-Ends report signature (publish_public_key settings steps answer signature log) ready.1
        ((ready.1, ready.0, refl), ready.2)

  -- Whatever the API server answers, and whichever steps before fail, a run of the Job asks for at
  -- most one AIBOM. Its signature, if it has one, is that of the report in it, and its reference to a
  -- series document, if it has one, is by name, SHA-256 and size that of a document that was stored
  -- before; the series object is given no owner but this AIBOM, once it is there. The Job exits with
  -- 0 exactly if the AIBOM was created.
  pub main-Ends :
      (engine : Option String)
      → let (code, log) = main settings steps answer engine in
        EveryAllowed log × ((code ≡ 0) ↔ CreatedAibom log)
  unfolding main
  main-Ends engine =
      let (telemetry, vllm_telemetry, series) = collected settings steps answer engine in
      elim (Bool-cases (settings.job_name == "")) [
        | inl e ↦ rw (e, if◌then◌else◌) nothing
        | inr e ↦ elim (Option-cases (steps.compile_aibom telemetry vllm_telemetry)) [
          | inl k ↦ rw (e, k, if◌then◌else◌, main) nothing
          | inr (body, k) ↦ rw (e, k, if◌then◌else◌, main) (publish-Ends body series)
        ]
      ]
    where
      nothing : Ends (1, [])
      nothing = (tt, (λ q. absurd (omega (arith, q)), λ made. absurd made.2))
