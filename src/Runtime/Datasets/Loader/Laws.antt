-- ===== src/Runtime/Datasets/Loader/Laws.antt =====
-- What a DataLoader changes of what was detected.
use aibom_webhook_service.Base.{
  ℕ, zero, suc, String, Bool, true, false, ◌≡◌, refl, ap, ◌∙◌, Option, none, some, List, [], ◌∷◌,
  ◌==◌, if◌then◌else◌, nat_eq, arith, Bool-cases, inl, inr, get_elem?, length, eq_iff, nat_eq_iff,
}
use aibom_webhook_service.Base.Dict
use aibom_webhook_service.Command.Segments.{one_of}
use aibom_webhook_service.Runtime.Datasets.Entry.{
  Entry, Field, null, flag, number, text, texts, groups, add_seen,
}
use aibom_webhook_service.Runtime.Datasets.Registry.{Dataset, Detected}
use aibom_webhook_service.Runtime.Datasets.Loader.{
  loader_source, existing_entry, is_train, put_batch_size, merged, change_at, patched_init,
}

-- the batch size that an entry has after a loader
abbrev pub size_after : Bool → Option ℕ → Option Field → Option Field
size_after train none old = old
size_after train (some n) none = some (number n)
size_after train (some n) (some old) = if train then some (number n) else some old

put_batch_size-lookup :
    (train : Bool) (n : Option ℕ) (entry : Entry) (k : String)
    → Dict.lookup k (put_batch_size train n entry) ≡ (
        if "batch_size" == k
        then size_after train n (Dict.lookup "batch_size" entry)
        else Dict.lookup k entry)
unfolding put_batch_size
put_batch_size-lookup train none entry k = ground (arith, eq_iff "batch_size" k)
put_batch_size-lookup train (some n) entry k =
    ground (arith, eq_iff "batch_size" k, Dict.lookup-insert "batch_size" k (number n) entry)

add_seen-lookup :
    (name k : String) (o : Option Field) (entry : Entry)
    → ("seen_via" == k) ≡ false
    → Dict.lookup k (add_seen name o entry) ≡ Dict.lookup k entry
unfolding add_seen
add_seen-lookup name k (some (texts names)) entry h = elim (Bool-cases (one_of names name)) [
  | inl e ↦ rw (e, if◌then◌else◌) refl
  | inr e ↦
      rw (e, if◌then◌else◌) (Dict.lookup-insert "seen_via" k _ entry ∙ rw (h, if◌then◌else◌) refl)
]
add_seen-lookup name k none entry h =
    Dict.lookup-insert "seen_via" k _ entry ∙ rw (h, if◌then◌else◌) refl
add_seen-lookup name k (some null) entry h = refl
add_seen-lookup name k (some (flag b)) entry h = refl
add_seen-lookup name k (some (number n)) entry h = refl
add_seen-lookup name k (some (text s)) entry h = refl
add_seen-lookup name k (some (groups d)) entry h = refl

get_elem?-change_at :
    (i j : ℕ) (f : Entry → Entry) (entries : List Entry) (old : Entry)
    → get_elem? entries j ≡ some old
    → get_elem? (change_at i f entries) j ≡ some (if nat_eq i j then f old else old)
unfolding change_at
get_elem?-change_at i j f [] old h = absurd (cc)
get_elem?-change_at zero zero f (e ∷ entries) old h = ground (arith, h)
get_elem?-change_at zero (suc j) f (e ∷ entries) old h = ground (arith, h)
get_elem?-change_at (suc i) zero f (e ∷ entries) old h = ground (arith, h)
get_elem?-change_at (suc i) (suc j) f (e ∷ entries) old h =
    ground (arith, get_elem?-change_at i j f entries old h)

length-change_at :
    (i : ℕ) (f : Entry → Entry) (entries : List Entry)
    → length (change_at i f entries) ≡ length entries
unfolding change_at
length-change_at i f [] = refl
length-change_at zero f (e ∷ entries) = refl
length-change_at (suc i) f (e ∷ entries) = ap suc (length-change_at i f entries)

merged-lookup :
    (train : Bool) (n : Option ℕ) (entry : Entry) (k : String)
    → ("seen_via" == k) ≡ false
    → Dict.lookup k (merged train n entry) ≡ (
        if "batch_size" == k
        then size_after train n (Dict.lookup "batch_size" entry)
        else Dict.lookup k entry)
unfolding merged
merged-lookup train n entry k h =
    let sized = put_batch_size train n entry in
    add_seen-lookup loader_source k (Dict.lookup "seen_via" sized) sized h
    ∙ put_batch_size-lookup train n entry k

-- A DataLoader over a dataset that is recorded and can be referred to weakly adds no entry and changes no other one. Of the
-- dataset's entry it changes what `seen_via` holds and the batch size, and the latter only if the
-- loader has one, and there was none or the dataset is for training.
pub patched_init_merges :
    (d : Dataset) (entry : Entry) (n : Option ℕ) (s : Detected) (i : ℕ)
    → d.weak ≡ true
    → existing_entry d s ≡ some i
    → let s' = patched_init d entry n s in
      (length s'.entries ≡ length s.entries)
      × ((j : ℕ) (old : Entry)
          → get_elem? s.entries j ≡ some old
          → nat_eq i j ≡ false
          → get_elem? s'.entries j ≡ some old)
      × ((old : Entry)
          → get_elem? s.entries i ≡ some old
          → (new : Entry) × (get_elem? s'.entries i ≡ some new)
            × ((k : String)
                → ("seen_via" == k) ≡ false
                → Dict.lookup k new ≡ (
                    if "batch_size" == k
                    then size_after (is_train d) n (Dict.lookup "batch_size" old)
                    else Dict.lookup k old)))
unfolding patched_init
patched_init_merges d entry n s i w e =
    let f = merged (is_train d) n in
    rw (w, e, patched_init, if◌then◌else◌)
      (
        length-change_at i f s.entries,
        λ j old h k. get_elem?-change_at i j f s.entries old h ∙ rw (k, if◌then◌else◌) refl,
        λ old h. (
          f old,
          get_elem?-change_at i i f s.entries old h
              ∙ rw ((nat_eq_iff i i).1 refl, if◌then◌else◌) refl,
          λ k q. merged-lookup (is_train d) n old k q,
        ),
      )
