-- ===== src/Runtime/Datasets/Vision/Laws.antt =====
-- A dataset of torchvision is recorded once, however many patched constructors make it.
use aibom_webhook_service.Base.{
  ℕ, String, true, false, ◌≡◌, refl, ap, ◌∙◌, Option, some, List, [], ◌∷◌, ◌++◌, All, if◌then◌else◌,
  nat_eq, nat_eq_iff, length,
}
use aibom_webhook_service.Runtime.Datasets.Registry.{Detected, object_get, record_entry}
use aibom_webhook_service.Runtime.Datasets.Vision.{
  Constructed, Call, first_patched, vision_entry, record_object, patched_constructor, construct,
}

module _ (path_fingerprint : String → Option String) (patched : List ℕ) (o : Constructed) where
  -- constructors of other classes than the most derived one
  abbrev pub Others : ℕ → List Call → Type 0
  Others c calls = All (λ (call : Call). nat_eq c call.owner ≡ false) calls

  construct-Others :
      (c : ℕ) (calls : List Call) (s : Detected)
      → first_patched patched o.mro ≡ some c
      → Others c calls
      → construct path_fingerprint patched o calls s ≡ s
  unfolding construct patched_constructor
  construct-Others c [] s f h = refl
  construct-Others c (call ∷ calls) s f h =
      rw (f, h.0, if◌then◌else◌) (construct-Others c calls s f h.1)

  construct-append :
      (xs ys : List Call) (s : Detected)
      → construct path_fingerprint patched o (xs ++ ys) s
        ≡ construct path_fingerprint patched o ys (construct path_fingerprint patched o xs s)
  unfolding construct
  construct-append [] ys s = refl
  construct-append (x ∷ xs) ys s =
      construct-append xs ys (patched_constructor path_fingerprint patched o x s)

  -- Where patched constructors of several classes run to make one object, in any order, and that of
  -- its most derived patched class once, one entry is recorded: that of this class. An object that
  -- can be referred to weakly is found as that entry.
  pub construct-once :
      (before after : List Call) (call : Call) (s : Detected)
      → first_patched patched o.mro ≡ some call.owner
      → Others call.owner before
      → Others call.owner after
      → let s' = construct path_fingerprint patched o (before ++ call ∷ after) s in
        (s'.entries ≡ s.entries ++ vision_entry path_fingerprint call ∷ [])
        × (o.weak ≡ true → object_get o.id s'.objects ≡ some (length s.entries))
  unfolding construct patched_constructor record_object record_entry object_get
  construct-once before after call s f b a =
      let entry = vision_entry path_fingerprint call in
      let recorded = record_object path_fingerprint o entry s in
      let made : construct path_fingerprint patched o (before ++ call ∷ after) s ≡ recorded =
        construct-append before (call ∷ after) s
        ∙ ap (construct path_fingerprint patched o (call ∷ after))
            (construct-Others call.owner before s f b)
        ∙ ap (construct path_fingerprint patched o after)
            (rw (f, (nat_eq_iff call.owner call.owner).1 refl, if◌then◌else◌) refl)
        ∙ construct-Others call.owner after recorded f a in
      (
        ap (λ (t : Detected). t.entries) made,
        λ w.
            ap (λ (t : Detected). object_get o.id t.objects) made
            ∙ rw (w, if◌then◌else◌, object_get)
                (rw ((nat_eq_iff o.id o.id).1 refl, if◌then◌else◌) refl),
      )
