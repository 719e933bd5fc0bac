-- ===== src/Runtime/Output/Laws.antt =====
-- What a process leaves in the output file that other processes wrote too.
use aibom_webhook_service.Base.{
  String, ◌≡◌, refl, ◌∙◌, sym, ap, Bool, true, false, ◌&&◌, Option, none, some, List, [], ◌∷◌, ◌++◌,
  All, map, arith, any, eq_iff, or_else, if◌then◌else◌, Bool-cases, inl, inr,
}
use aibom_webhook_service.Base.Dict
use aibom_webhook_service.Base.Dict.{Dict}
use aibom_webhook_service.Base.Dict.Laws.{NodupKeys, lookup-update}
use aibom_webhook_service.Base.Text.{starts_with}
use aibom_webhook_service.Runtime.Output.{
  Entry, text_of, values_of, dataset_identity_keys, dataset_identity, same_texts, same_dataset,
  repeated, update_last, add_entry, merge_datasets, is_git_key, has_git, without_git, merge_info,
}

ap2 : {A B C : Type 0} (f : A → B → C) {a a' : A} {b b' : B} → a ≡ a' → b ≡ b' → f a b ≡ f a' b'
ap2 f p q = λ i. f (p i) (q i)

head_eq : {x y : String} {xs ys : List String} → x ∷ xs ≡ y ∷ ys → (x ≡ y) × (xs ≡ ys)
head_eq e = (cc, cc)

same_texts_eq : (a b : List String) → same_texts a b ≡ true → a ≡ b
same_texts_eq [] [] h = refl
same_texts_eq [] (t ∷ ts) h = absurd (cc)
same_texts_eq (s ∷ ss) [] h = absurd (cc)
same_texts_eq (s ∷ ss) (t ∷ ts) h =
    ap2 (λ x xs. x ∷ xs) ((eq_iff s t).0 (ground (arith, h)))
      (same_texts_eq ss ts (ground (arith, h)))

-- a field of a repeated entry, if the two agree on it
text_of-repeated : (x y : Option String) → text_of x ≡ text_of y → text_of (or_else y x) ≡ text_of x
text_of-repeated x none h = refl
text_of-repeated x (some s) h = sym h

values_of-update :
    (keys : List String) (old fields : Dict String)
    → NodupKeys fields
    → values_of keys old ≡ values_of keys fields
    → values_of keys (Dict.update old fields) ≡ values_of keys old
unfolding values_of
values_of-update [] old fields u h = refl
values_of-update (k ∷ keys) old fields u h =
    let e = head_eq h in
    ap2 (λ x xs. x ∷ xs)
      (ap text_of (lookup-update k old fields u)
        ∙ text_of-repeated (Dict.lookup k old) (Dict.lookup k fields) e.0)
      (values_of-update keys old fields u e.1)

lookup-without_git :
    (k : String) (info : Dict String)
    → Dict.lookup k (without_git info) ≡ (if is_git_key k then none else Dict.lookup k info)
unfolding without_git Dict.lookup
lookup-without_git k [] = ground arith
lookup-without_git k ((j, v) ∷ info) = ground (arith, eq_iff j k, lookup-without_git k info)

-- A process that recorded something of its checkout replaces all that was recorded of another: no
-- `git_` entry of the file outlives it. Any other entry is the process's, else the file's.
pub merge_info-lookup :
    (k : String) (existing info : Dict String)
    → NodupKeys info
    → Dict.lookup k (merge_info existing info) ≡ (
        if has_git info && is_git_key k
        then Dict.lookup k info
        else or_else (Dict.lookup k info) (Dict.lookup k existing))
unfolding merge_info
merge_info-lookup k existing info u =
    rw (lookup-update k (if has_git info then without_git existing else existing) info u)
      (elim (Bool-cases (has_git info)) [
        | inl e ↦ rw (e, lookup-without_git k existing) (with_git (starts_with k "git_") _ _)
        | inr e ↦ rw e refl
      ])
  where
    with_git :
        (b : Bool) (x y : Option String)
        → or_else x (if b then none else y) ≡ (if b then x else or_else x y)
    with_git true none y = refl
    with_git true (some s) y = refl
    with_git false x y = refl

-- the identities that are added: one that is there already is not added again
abbrev pub add_identity : List String → List (List String) → List (List String)
add_identity i is = if any (λ j. same_texts j i) is then is else is ++ (i ∷ [])

pub identities_after : List (List String) → List (List String) → List (List String)
identities_after is [] = is
identities_after is (i ∷ more) = identities_after (add_identity i is) more

dataset_identity-repeated :
    (old entry : Entry)
    → NodupKeys entry.fields
    → same_dataset old entry ≡ true
    → dataset_identity (repeated old entry) ≡ dataset_identity old
unfolding same_dataset dataset_identity repeated
dataset_identity-repeated old entry u h =
    values_of-update dataset_identity_keys old.fields entry.fields u (same_texts_eq _ _ h)

abbrev identities : List Entry → List (List String)
identities = map dataset_identity

-- an update keeps the identities, and there is none if the identity is new
Updated : Entry → List Entry → Option (List Entry) → Type 0
Updated entry entries none =
    any (λ j. same_texts j (dataset_identity entry)) (identities entries) ≡ false
Updated entry entries (some updated) =
    (any (λ j. same_texts j (dataset_identity entry)) (identities entries) ≡ true)
    × (identities updated ≡ identities entries)

Updated-cons :
    (entry old : Entry) (entries : List Entry) (o : Option (List Entry))
    → NodupKeys entry.fields
    → Updated entry entries o
    → Updated entry (old ∷ entries) (elim o [
      | some rest ↦ some (old ∷ rest)
      | none ↦ if same_dataset old entry then some (repeated old entry ∷ entries) else none
    ])
unfolding Updated same_dataset
Updated-cons entry old entries (some rest) u h =
    (ground (arith, h.0), ap (λ is. dataset_identity old ∷ is) h.1)
Updated-cons entry old entries none u h = elim (Bool-cases (same_dataset old entry)) [
  | inl e ↦
      rw (e, Updated)
        (
          ground (arith, e),
          ap (λ i. i ∷ identities entries) (dataset_identity-repeated old entry u e),
        )
  | inr e ↦ rw (e, Updated) (ground (arith, h, e))
]

update_last-Updated :
    (entry : Entry) (entries : List Entry)
    → NodupKeys entry.fields
    → Updated entry entries (update_last entry entries)
unfolding update_last
update_last-Updated entry [] u = unfold Updated in refl
update_last-Updated entry (old ∷ entries) u =
    Updated-cons entry old entries (update_last entry entries) u
      (update_last-Updated entry entries u)

identities-append :
    (entries : List Entry) (entry : Entry)
    → identities (entries ++ (entry ∷ [])) ≡ identities entries ++ (dataset_identity entry ∷ [])
identities-append [] entry = refl
identities-append (e ∷ entries) entry =
    ap (λ is. dataset_identity e ∷ is) (identities-append entries entry)

added :
    (entry : Entry) (entries : List Entry) (o : Option (List Entry))
    → Updated entry entries o
    → identities (elim o [ none ↦ entries ++ (entry ∷ []) | some updated ↦ updated ])
      ≡ add_identity (dataset_identity entry) (identities entries)
unfolding Updated
added entry entries none h = rw h (identities-append entries entry)
added entry entries (some updated) h = rw h.0 h.1

-- Each entry that a process adds to a file is a new one exactly if its identity is new; a repeat
-- keeps the identities of all entries and their order, if no entry that is added names a field
-- twice.
pub merge_datasets-identities :
    (entries existing : List Entry)
    → All (λ e. NodupKeys e.fields) entries
    → map dataset_identity (merge_datasets existing entries)
      ≡ identities_after (map dataset_identity existing) (map dataset_identity entries)
unfolding merge_datasets add_entry identities_after
merge_datasets-identities [] existing h = refl
merge_datasets-identities (entry ∷ entries) existing h =
    merge_datasets-identities entries (add_entry entry existing) h.1
    ∙ ap (λ is. identities_after is (identities entries))
        (added entry existing (update_last entry existing) (update_last-Updated entry existing h.0))
