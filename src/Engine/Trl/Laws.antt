-- ===== src/Engine/Trl/Laws.antt =====
-- What `detect_trl_from_command` reports of an invocation's flags.
use aibom_webhook_service.Base.{
  String, ◌≡◌, refl, ap, Option, none, some, List, [], ◌∷◌, arith, Bool, true, false, if◌then◌else◌,
  ◌==◌, eq_iff, or_else, any,
}
use aibom_webhook_service.Base.Dict
use aibom_webhook_service.Base.Dict.{Dict, lookup-insert, lookup-erase}
use aibom_webhook_service.Base.Dict.Laws.{NodupKeys, lookup-update}
use aibom_webhook_service.Value.{Value, text}
use aibom_webhook_service.Engine.Trl.{
  switch, adaptation_method, without_switches, add_method, trl_result,
}

abbrev pub switches : List String
switches = "use_dora" ∷ "use_rslora" ∷ "load_in_4bit" ∷ "load_in_8bit" ∷ "use_peft" ∷ []

abbrev pub is_switch : String → Bool
is_switch k = any (λ s. s == k) switches

module _ {R : Type 0} where
  lookup-without_switches :
      (k : String) (d : Dict (Value R))
      → Dict.lookup k (without_switches d) ≡ (if is_switch k then none else Dict.lookup k d)
  unfolding without_switches
  lookup-without_switches k d = simp lookup-erase (ground arith)

  abbrev pub as_text_value : Option String → Option (Value R)
  as_text_value none = none
  as_text_value (some s) = some (text s)

  lookup-add_method :
      (k : String) (o : Option String) (d : Dict (Value R))
      → Dict.lookup k (add_method o d) ≡ (
          if "adaptation_method" == k
          then or_else (as_text_value o) (Dict.lookup k d)
          else Dict.lookup k d)
  unfolding add_method
  lookup-add_method k none d = ground arith
  lookup-add_method k (some m) d = rw lookup-insert (ground arith)

  begun : Dict (Value R) → Dict (Value R)
  begun parsed = Dict.update (("training_framework", text "trl") ∷ []) parsed

  lookup-begun :
      (k : String) (parsed : Dict (Value R))
      → NodupKeys parsed
      → ("training_framework" == k) ≡ false
      → Dict.lookup k (begun parsed) ≡ Dict.lookup k parsed
  unfolding begun
  lookup-begun k parsed u e = rw (lookup-update k _ parsed u) (unfold Dict.lookup in ground arith)

  switch-begun :
      (k : String) (parsed : Dict (Value R))
      → NodupKeys parsed
      → ("training_framework" == k) ≡ false
      → switch k (begun parsed) ≡ switch k parsed
  unfolding switch
  switch-begun k parsed u e = rw (lookup-begun k parsed u e, switch) refl

  adaptation_method-begun :
      (parsed : Dict (Value R))
      → NodupKeys parsed
      → adaptation_method (begun parsed) ≡ adaptation_method parsed
  unfolding adaptation_method
  adaptation_method-begun parsed u =
      rw
        (
          switch-begun "use_peft" parsed u refl,
          lookup-begun "lora_rank" parsed u refl,
          switch-begun "use_dora" parsed u refl,
          switch-begun "use_rslora" parsed u refl,
          switch-begun "load_in_4bit" parsed u refl,
          switch-begun "load_in_8bit" parsed u refl,
        )
        refl

  merged :
      (a s f : Bool) (m p : Option (Value R))
      → (a ≡ true → p ≡ none)
      → (a ≡ true → f ≡ false)
      → (f ≡ true → p ≡ none)
      → (if a
          then or_else m (if s then none else or_else p (if f then some (text "trl") else none))
          else if s
          then none
          else or_else p (if f then some (text "trl") else none))
        ≡ (if a then m else if s then none else if f then some (text "trl") else p)
  merged a s f m p ap af fp = ground arith

  -- From the flags of one invocation, none given twice and none named `adaptation_method` or
  -- `training_framework`: the report has the method that the flags name, and none if `use_peft` is
  -- not on; it has no switch; every other flag is passed on as it is.
  pub trl_result-lookup :
      (k : String) (parsed : Dict (Value R))
      → NodupKeys parsed
      → Dict.lookup "adaptation_method" parsed ≡ none
      → Dict.lookup "training_framework" parsed ≡ none
      → Dict.lookup k (trl_result parsed) ≡ (
          if "adaptation_method" == k
          then as_text_value (adaptation_method parsed)
          else if is_switch k
          then none
          else if "training_framework" == k
          then some (text "trl")
          else Dict.lookup k parsed)
  unfolding trl_result begun
  trl_result-lookup k parsed u no_method no_framework =
      rw
        (
          lookup-add_method,
          lookup-without_switches,
          adaptation_method-begun parsed u,
          lookup-update k (("training_framework", text "trl") ∷ []) parsed u,
        )
        (unfold Dict.lookup in
          merged ("adaptation_method" == k) (is_switch k) ("training_framework" == k)
            (as_text_value (adaptation_method parsed)) (Dict.lookup k parsed)
            (λ e. rw (← (eq_iff "adaptation_method" k).0 e) no_method)
            (λ e. rw (← (eq_iff "adaptation_method" k).0 e) refl)
            (λ e. rw (← (eq_iff "training_framework" k).0 e) no_framework))
