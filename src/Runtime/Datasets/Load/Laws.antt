-- ===== src/Runtime/Datasets/Load/Laws.antt =====
-- A dataset that was loaded is found again by a DataLoader, and what local files are called.
use Prim.Native.String.{[], ◌∷◌, ◌++◌ as ◌<>◌}
use mathlib.Core.Path.{subst}
use aibom_webhook_service.Base.{
  ℕ, String, Char, code, true, ◌≡◌, refl, sym, ◌⊎◌, Option, none, some, List, ◌++◌, ◌==◌,
  if◌then◌else◌, nat_eq, nat_eq_iff, arith, Bool-cases, Option-cases, inl, inr, length, All, eq_iff,
  or_else,
}
use aibom_webhook_service.Base.Text.{starts_with, same_char, rpartition}
use aibom_webhook_service.Base.Text.Laws.{starts_with_refl}
use aibom_webhook_service.Base.Text.Span.{cons-append}
use aibom_webhook_service.Runtime.Datasets.Registry.{
  Dataset, Detected, object_get, register_hf_dataset, register_all, record_entry,
}
use aibom_webhook_service.Runtime.Datasets.Loader.{existing_entry}
use aibom_webhook_service.Runtime.Datasets.Load.{
  common_prefix, common_prefix_all, join_comma, before_last_slash, common_name, Arguments, Result,
  arguments_entry, result_entry, patched_load,
}

starts_with_trans :
    (s p q : String) → starts_with s p ≡ true → starts_with p q ≡ true → starts_with s q ≡ true
unfolding starts_with
starts_with_trans s p [] h k = refl
starts_with_trans s [] (d ∷ q) h k = absurd (ground (arith, k))
starts_with_trans [] (c ∷ p) (d ∷ q) h k = absurd (ground (arith, h))
starts_with_trans (b ∷ s) (c ∷ p) (d ∷ q) h k = ground (arith, h, k, starts_with_trans s p q)

common_prefix-starts_with :
    (s t : String)
    → (starts_with s (common_prefix s t) ≡ true) × (starts_with t (common_prefix s t) ≡ true)
unfolding starts_with common_prefix
common_prefix-starts_with [] t = (refl, refl)
common_prefix-starts_with (c ∷ s) [] = (refl, refl)
common_prefix-starts_with (c ∷ s) (d ∷ t) = elim (Bool-cases (same_char c d)) [
  | inr e ↦ rw (e, if◌then◌else◌) (refl, refl)
  | inl e ↦
      rw (e, if◌then◌else◌)
        (
          ground (arith, (common_prefix-starts_with s t).0),
          ground (arith, e, (common_prefix-starts_with s t).1),
        )
]

common_prefix_all-starts_with :
    (s : String) (files : List String)
    → (starts_with s (common_prefix_all s files) ≡ true)
      × All (λ f. starts_with f (common_prefix_all s files) ≡ true) files
unfolding common_prefix_all
common_prefix_all-starts_with s List.[] = (starts_with_refl s, tt)
common_prefix_all-starts_with s (List.◌∷◌ t files) =
    let both = common_prefix-starts_with s t in
    let rest = common_prefix_all-starts_with (common_prefix s t) files in
    let p = common_prefix_all (common_prefix s t) files in
    (
      starts_with_trans s (common_prefix s t) p both.0 rest.0,
      (starts_with_trans t (common_prefix s t) p both.1 rest.0, rest.1),
    )

-- the text starts with what stands before its last slash, and the slash
Leads : String → Option (String × String) → Type 0
Leads s none = Unit
Leads s (some (head, tail)) = starts_with s (head <> "/") ≡ true

Leads-cons :
    (c : Char) (s : String) (o : Option (String × String))
    → Leads s o
    → Leads (c ∷ s) (elim o [
      | some (head, tail) ↦ some (c ∷ head, tail)
      | none ↦ if same_char c "/" then some ([], s) else none
    ])
unfolding Leads starts_with
Leads-cons c s (some (head, tail)) h =
    rw cons-append (ground (arith, nat_eq_iff (code c) (code c), h))
Leads-cons c s none h = elim (Bool-cases (same_char c "/")) [
  | inl e ↦ rw (e, if◌then◌else◌, Leads) (ground (arith, e))
  | inr e ↦ rw (e, if◌then◌else◌, Leads) tt
]

rpartition-Leads : (s : String) → Leads s (rpartition "/" s)
unfolding rpartition
rpartition-Leads [] = unfold Leads in tt
rpartition-Leads (c ∷ s) = Leads-cons c s (rpartition "/" s) (rpartition-Leads s)

before_last_slash_lem :
    (s : String) → (before_last_slash s ≡ "") ⊎ (starts_with s (before_last_slash s <> "/") ≡ true)
unfolding before_last_slash Leads
before_last_slash_lem s = elim (Option-cases (rpartition "/" s)) [
  | inl e ↦ inl (rw (e, before_last_slash) refl)
  | inr (parts, e) ↦ inr (rw (e, before_last_slash) (subst (Leads s) e (rpartition-Leads s)))
]

All-starts_with :
    (p q : String) (files : List String)
    → starts_with p q ≡ true
    → All (λ f. starts_with f p ≡ true) files
    → All (λ f. starts_with f q ≡ true) files
All-starts_with p q List.[] h k = tt
All-starts_with p q (List.◌∷◌ f files) h k =
    (starts_with_trans f p q k.0 h, All-starts_with p q files h k.1)

-- Two files or more are called by a directory that all of them stand in, or by all their names.
pub common_name-directory :
    (f : String) (files : List String)
    → (common_name f files ≡ join_comma f files)
      ⊎ All (λ x. starts_with x (common_name f files <> "/") ≡ true) (List.◌∷◌ f files)
unfolding common_name
common_name-directory f files =
    let p = common_prefix_all f files in
    let leads = common_prefix_all-starts_with f files in
    elim (Bool-cases (before_last_slash p == "")) [
      | inl e ↦ inl (rw (e, if◌then◌else◌) refl)
      | inr e ↦ elim (before_last_slash_lem p) [
        | inl none_there ↦ absurd (ground (arith, e, none_there, eq_iff (before_last_slash p) ""))
        | inr h ↦
            let named : common_name f files ≡ before_last_slash p = rw (e, if◌then◌else◌) refl in
            inr (
              subst (λ n. All (λ x. starts_with x (n <> "/") ≡ true) (List.◌∷◌ f files)) (sym named)
                (All-starts_with p (before_last_slash p <> "/") (List.◌∷◌ f files) h leads))
      ]
    ]

-- the place of a dataset's entry, found by its identity, stays
registered-object_get :
    (d c : Dataset) (place : ℕ) (s : Detected)
    → object_get d.id s.objects ≡ some place
    → object_get d.id (register_hf_dataset c place s).objects ≡ some place
unfolding register_hf_dataset object_get
registered-object_get d c place s h = elim (Bool-cases c.weak) [
  | inr e ↦ rw (e, if◌then◌else◌) h
  | inl e ↦ elim (Bool-cases (nat_eq c.id d.id)) [
    | inl k ↦ rw (e, if◌then◌else◌, object_get) (rw (k, if◌then◌else◌) refl)
    | inr k ↦ rw (e, if◌then◌else◌, object_get) (rw (k, if◌then◌else◌) h)
  ]
]

register_all_kept :
    (d : Dataset) (parts : List Dataset) (place : ℕ) (s : Detected)
    → object_get d.id s.objects ≡ some place
    → object_get d.id (register_all parts place s).objects ≡ some place
unfolding register_all
register_all_kept d List.[] place s h = h
register_all_kept d (List.◌∷◌ c parts) place s h =
    register_all_kept d parts place (register_hf_dataset c place s)
      (registered-object_get d c place s h)

register_all-object_get :
    (d : Dataset) (before after : List Dataset) (place : ℕ) (s : Detected)
    → d.weak ≡ true
    → object_get d.id (register_all (before ++ List.◌∷◌ d after) place s).objects ≡ some place
unfolding register_all register_hf_dataset object_get
register_all-object_get d List.[] after place s w =
    register_all_kept d after place (register_hf_dataset d place s)
      (rw (w, if◌then◌else◌, object_get) (rw ((nat_eq_iff d.id d.id).1 refl, if◌then◌else◌) refl))
register_all-object_get d (List.◌∷◌ c before) after place s w =
    register_all-object_get d before after place (register_hf_dataset c place s) w

register_all-entries :
    (parts : List Dataset) (place : ℕ) (s : Detected)
    → (register_all parts place s).entries ≡ s.entries
unfolding register_all register_hf_dataset
register_all-entries List.[] place s = refl
register_all-entries (List.◌∷◌ c parts) place s =
    register_all-entries parts place (register_hf_dataset c place s)

-- A load records one entry behind those that are there, and a DataLoader over any part of what it
-- gave that can be referred to weakly finds this entry.
pub patched_load-existing_entry :
    (a : Arguments) (splits : List String) (r : Result) (before after : List Dataset) (d : Dataset)
    (s : Detected)
    → d.weak ≡ true
    → let s' = patched_load a splits r (before ++ List.◌∷◌ d after) s in
      (s'.entries ≡ s.entries ++ List.◌∷◌ (result_entry splits r (arguments_entry a)) List.[])
      × (existing_entry d s' ≡ some (length s.entries))
unfolding patched_load record_entry existing_entry
patched_load-existing_entry a splits r before after d s w = (
  register_all-entries (before ++ List.◌∷◌ d after) (length s.entries) _,
  rw (register_all-object_get d before after (length s.entries) _ w, or_else) refl,
)
