-- ===== src/Job/Detected/Laws.antt =====
-- Where each entry of the model comes from.
use mathlib.Core.Path.{subst}
use aibom_webhook_service.Base.{
  String, false, ◌||◌, ◌≡◌, refl, sym, ap, ◌∙◌, Option, none, some, [], ◌∷◌, ◌==◌, eq_iff,
  if◌then◌else◌, arith, or_else, Bool-cases, Option-cases, inl, inr,
}
use aibom_webhook_service.Base.Dict
use aibom_webhook_service.Base.Dict.{Dict}
use aibom_webhook_service.Base.Dict.Laws.{NodupKeys, lookup-update}
use aibom_webhook_service.Value.{Value, PyFloat, truthy}
use aibom_webhook_service.Job.Detected.{true_value, keep_entry, merged_model}

eq-flip : (s t : String) → (s == t) ≡ false → (t == s) ≡ false
eq-flip s t h = ground (arith, h, eq_iff s t, eq_iff t s)

module _ {R : Type 0} (F : PyFloat R) where
  keep_entry-lookup :
      (key k : String) (detected merged : Dict (Value R))
      → Dict.lookup k (keep_entry F key detected merged) ≡ (
          if key == k
          then or_else (true_value F (Dict.lookup key detected)) (Dict.lookup k merged)
          else Dict.lookup k merged)
  unfolding keep_entry
  keep_entry-lookup key k detected merged =
      elim (Option-cases (true_value F (Dict.lookup key detected))) [
        | inl e ↦ rw (e, keep_entry) (ground (arith, eq_iff key k))
        | inr (v, e) ↦ rw (e, keep_entry) (Dict.lookup-insert key k v merged)
      ]

  true_value-or_else : (o : Option (Value R)) → or_else (true_value F o) o ≡ o
  true_value-or_else none = refl
  true_value-or_else (some v) = elim (Bool-cases (truthy F v)) [
    | inl e ↦ rw (e, if◌then◌else◌) refl
    | inr e ↦ rw (e, if◌then◌else◌) refl
  ]

  kept : Dict (Value R) → String → Option (Value R)
  kept detected k =
      if (k == "dtype") || (k == "architecture")
      then true_value F (Dict.lookup k detected)
      else none

  -- what two entries that are kept make of any lookup
  two_kept : Dict (Value R) → Option (Value R) → String → Option (Value R)
  two_kept detected rest k =
      let by_dtype =
        if "dtype" == k then or_else (true_value F (Dict.lookup "dtype" detected)) rest else rest in
      if "architecture" == k
      then or_else (true_value F (Dict.lookup "architecture" detected)) by_dtype
      else by_dtype

  two_kept-kept :
      (detected : Dict (Value R)) (rest : Option (Value R)) (k : String)
      → two_kept detected rest k ≡ or_else (kept detected k) rest
  unfolding two_kept kept
  two_kept-kept detected rest k = elim (Bool-cases (k == "architecture")) [
    | inl e ↦
        subst (λ j. two_kept detected rest j ≡ or_else (kept detected j) rest)
          (sym ((eq_iff k "architecture").0 e)) refl
    | inr e ↦ elim (Bool-cases (k == "dtype")) [
      | inl d ↦
          subst (λ j. two_kept detected rest j ≡ or_else (kept detected j) rest)
            (sym ((eq_iff k "dtype").0 d)) refl
      | inr d ↦ rw (eq-flip k "architecture" e, eq-flip k "dtype" d, e, d, if◌then◌else◌) refl
    ]
  ]

  keep_entries-lookup :
      (detected merged : Dict (Value R)) (k : String)
      → Dict.lookup k (keep_entry F "architecture" detected (keep_entry F "dtype" detected merged))
        ≡ or_else (kept detected k) (Dict.lookup k merged)
  unfolding two_kept
  keep_entries-lookup detected merged k =
      keep_entry-lookup "architecture" k detected (keep_entry F "dtype" detected merged)
      ∙ rw (keep_entry-lookup "dtype" k detected merged)
          (two_kept-kept detected (Dict.lookup k merged) k)

  kept-or_else :
      (detected : Dict (Value R)) (k : String)
      → or_else (kept detected k) (Dict.lookup k detected) ≡ Dict.lookup k detected
  unfolding kept
  kept-or_else detected k = elim (Bool-cases ((k == "dtype") || (k == "architecture"))) [
    | inl e ↦ rw (e, if◌then◌else◌) (true_value-or_else (Dict.lookup k detected))
    | inr e ↦ rw (e, if◌then◌else◌) refl
  ]

  -- Of the model that is reported, the dtype and the architecture are those of the command where
  -- these are true values; these two otherwise, and every other entry, are those of the storage
  -- where it has them, and else those of the command.
  pub merged_model-lookup :
      (detected : Dict (Value R)) (storage : Dict (Value R)) (k : String)
      → NodupKeys storage
      → Dict.lookup k (merged_model F detected (some storage))
        ≡ or_else
            (if (k == "dtype") || (k == "architecture")
              then true_value F (Dict.lookup k detected)
              else none)
            (or_else (Dict.lookup k storage) (Dict.lookup k detected))
  unfolding merged_model kept
  merged_model-lookup detected [] k u = unfold Dict.lookup in sym (kept-or_else detected k)
  merged_model-lookup detected (s ∷ storage) k u =
      keep_entries-lookup detected (Dict.update detected (s ∷ storage)) k
      ∙ ap (or_else (kept detected k)) (lookup-update k detected (s ∷ storage) u)
