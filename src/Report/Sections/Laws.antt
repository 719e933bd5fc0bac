-- ===== src/Report/Sections/Laws.antt =====
-- Whose word stands in the sections.
use mathlib.Core.Path.{subst}
use aibom_webhook_service.Base.{
  String, true, false, ◌≡◌, ◌≢◌, refl, ap, ◌∙◌, Option, none, some, [], ◌∷◌, ◌==◌, if◌then◌else◌,
  arith, Bool-cases, inl, inr, eq_iff,
}
use aibom_webhook_service.Base.Dict
use aibom_webhook_service.Base.Dict.{Dict}
use aibom_webhook_service.Base.Dict.Laws.{eq_of_some}
use aibom_webhook_service.Value.{Value, PyFloat, truthy, null, bool, int, float, text, arr, obj}
use aibom_webhook_service.Source.Container.{given}
use aibom_webhook_service.Report.Sections.{
  Inputs, is_text_value, get, is_null, first_not_none, or_value, try_int, try_float, put_true,
  annotation, noted, detected, seen, names_detected, put_identity, put_name_source, model_fields,
  model_section, training_section,
}

module _ {R : Type 0} where
  -- the first of three that is there
  abbrev pub FirstThere : Value R → Value R → Value R → Value R → Type 0
  FirstThere a b c v =
      (is_null a ≡ false → v ≡ a)
      × (is_null a ≡ true → is_null b ≡ false → v ≡ b)
      × (is_null a ≡ true → is_null b ≡ true → v ≡ c)

  eq_null : (v : Value R) → is_null v ≡ true → null ≡ v
  eq_null null h = refl
  eq_null (bool b) h = absurd (ground (arith, h))
  eq_null (int n) h = absurd (ground (arith, h))
  eq_null (float f) h = absurd (ground (arith, h))
  eq_null (text s) h = absurd (ground (arith, h))
  eq_null (arr xs) h = absurd (ground (arith, h))
  eq_null (obj fs) h = absurd (ground (arith, h))

  first_not_none-FirstThere : (a b c : Value R) → FirstThere a b c (first_not_none (a ∷ b ∷ c ∷ []))
  unfolding first_not_none
  first_not_none-FirstThere a b c = (
    λ h. rw (h, if◌then◌else◌) refl,
    λ h k. rw (h, k, if◌then◌else◌) refl,
    λ h k. rw (h, k, if◌then◌else◌) (last c),
  )
    where
      last : (v : Value R) → (if is_null v then null else v) ≡ v
      last v = elim (Bool-cases (is_null v)) [
        | inl e ↦ rw (e, if◌then◌else◌) (eq_null v e)
        | inr e ↦ rw (e, if◌then◌else◌) refl
      ]

get-insert_other :
    {R : Type 0} (j k : String) (v : Value R) (d : Dict (Value R))
    → (j == k) ≡ false
    → get k (Dict.insert j v d) ≡ get k d
unfolding get
get-insert_other j k v d h = rw (Dict.lookup-insert j k v d, h, if◌then◌else◌) refl

given-some :
    (o : Option String) (s : String) → given o ≡ some s → (o ≡ some s) × ((s == "") ≡ false)
given-some none s h = absurd (cc)
given-some (some t) s h = elim (Bool-cases (t == "")) [
  | inl e ↦ absurd (none-ne (rw (e, if◌then◌else◌) at h))
  | inr e ↦
      let same = eq_of_some (rw (e, if◌then◌else◌) at h) in
      (ap some same, subst (λ u. (u == "") ≡ false) same e)
]
  where
    none-ne : ◌≡◌ {A = Option String} none (some s) → ⊥
    none-ne k = cc

is_text_value-ne :
    {R : Type 0} (F : PyFloat R) (i : Inputs R) (name : String) (v : Value R)
    → v ≢ text name
    → is_text_value F i name v ≡ false
is_text_value-ne F i name (text s) k = elim (Bool-cases (s == name)) [
  | inl e ↦ absurd (k (ap text ((eq_iff s name).0 e)))
  | inr e ↦ e
]
is_text_value-ne F i name null k = refl
is_text_value-ne F i name (bool b) k = refl
is_text_value-ne F i name (int n) k = refl
is_text_value-ne F i name (float f) k = refl
is_text_value-ne F i name (arr xs) k = refl
is_text_value-ne F i name (obj fs) k = refl

module _ {R : Type 0} (F : PyFloat R) (i : Inputs R) where
  -- The learning rate, the batch size, the epochs and the seed that a training section reports are
  -- the annotation's, if it can be read, zero or not, else what was seen at run time, and else what
  -- the command says.
  pub training_section-FirstThere :
      FirstThere
        (try_float F (annotation F i "learning-rate"))
        (seen F i "learning_rate")
        (detected F i "learning_rate")
        (get "learning_rate" (training_section F i))
      × FirstThere
          (try_int F (annotation F i "batch-size"))
          (seen F i "batch_size")
          (detected F i "batch_size")
          (get "batch_size" (training_section F i))
      × FirstThere
          (try_int F (annotation F i "epochs"))
          (seen F i "epochs")
          (detected F i "epochs")
          (get "epochs" (training_section F i))
      × FirstThere
          (try_int F (annotation F i "random-seed"))
          (seen F i "random_seed")
          (detected F i "random_seed")
          (get "random_seed" (training_section F i))
  unfolding training_section
  training_section-FirstThere = (
    first_not_none-FirstThere _ _ _,
    first_not_none-FirstThere _ _ _,
    first_not_none-FirstThere _ _ _,
    first_not_none-FirstThere _ _ _,
  )

  names_detected_other :
      (name : String)
      → given (annotation F i "model-name") ≡ some name
      → detected F i "model_name" ≢ text name
      → names_detected F i ≡ false
  unfolding names_detected
  names_detected_other name h k =
      rw (h, names_detected) (is_text_value-ne F i name (detected F i "model_name") k)

  put_identity_other :
      (section : Dict (Value R)) → names_detected F i ≡ false → put_identity F i section ≡ section
  unfolding put_identity
  put_identity_other section h = rw (h, if◌then◌else◌) refl

  put_name_source-get :
      (k : String) (section : Dict (Value R))
      → ("name_declared_via" == k) ≡ false
      → get k (put_name_source F i section) ≡ get k section
  unfolding put_name_source get
  put_name_source-get k section h =
      elim (Bool-cases (truthy F (detected F i "model_name_declared_via"))) [
        | inr e ↦ rw (e, if◌then◌else◌) refl
        | inl e ↦ rw (e, if◌then◌else◌) (get-insert_other "name_declared_via" k _ section h)
      ]

  put_true-get :
      (k j : String) (v : Value R) (section : Dict (Value R))
      → (j == k) ≡ false
      → get k (put_true F j v section) ≡ get k section
  unfolding put_true get
  put_true-get k j v section h = elim (Bool-cases (truthy F v)) [
    | inr e ↦ rw (e, if◌then◌else◌) refl
    | inl e ↦ rw (e, if◌then◌else◌) (get-insert_other j k v section h)
  ]

  -- a key of a section about another model than the detected one
  model_section-get :
      (k : String)
      → names_detected F i ≡ false
      → ("name_declared_via" == k) ≡ false
      → ("speculative_decoding" == k) ≡ false
      → get k (model_section F i) ≡ get k (model_fields F i)
  unfolding model_section
  model_section-get k h n d =
      ap (get k) (put_identity_other _ h)
      ∙ put_name_source-get k _ n
      ∙ put_true-get k "speculative_decoding" (detected F i "speculative_config") (model_fields F i)
          d

  -- If an annotation names another model than the one that was detected, the section has its name,
  -- and no revision, base model or size, which would be those of the other one.
  pub model_section_other :
      (name : String)
      → given (annotation F i "model-name") ≡ some name
      → detected F i "model_name" ≢ text name
      → (get "name" (model_section F i) ≡ text name)
        × (get "revision" (model_section F i) ≡ null)
        × (get "base_model" (model_section F i) ≡ null)
        × (get "size_bytes" (model_section F i) ≡ null)
  unfolding model_fields get noted or_value truthy
  model_section_other name h k =
      let other = names_detected_other name h k in
      let (noted_name, full) = given-some (annotation F i "model-name") name h in
      let named : get "name" (model_fields F i) ≡ text name =
        rw (noted_name) (rw (full, if◌then◌else◌) refl) in
      (
        model_section-get "name" other refl refl ∙ named,
        model_section-get "revision" other refl refl,
        model_section-get "base_model" other refl refl,
        model_section-get "size_bytes" other refl refl,
      )
