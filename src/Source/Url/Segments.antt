-- ===== src/Source/Url/Segments.antt =====
-- What the parts of a URL have not.
use Prim.Native.String.{[], ◌∷◌}
use aibom_webhook_service.Base.{
  ℕ, Char, code, String, ◌≡◌, refl, Bool, true, false, not, ◌||◌, Option, none, some, arith, nat_eq,
  if◌then◌else◌, Bool-cases, inl, inr,
}
use aibom_webhook_service.Base.Text.{span, partition, rpartition, same_char, starts_with, drop_text}
use aibom_webhook_service.Base.Text.Span.{NoChars}
use aibom_webhook_service.Source.Url.{ends_netloc, split_netloc, parts_of}

abbrev pub is_query : ℕ → Bool
is_query c = nat_eq c b'?' || nat_eq c b'#'

abbrev pub is_colon : ℕ → Bool
is_colon c = nat_eq c b':'

abbrev pub is_at : ℕ → Bool
is_at c = nat_eq c b'@'

-- a part of a text has no more characters than the text
pub partition-NoChars :
    (p : ℕ → Bool) (d : Char) (s : String) → NoChars p s → NoChars p (partition d s).0
unfolding partition
partition-NoChars p d [] h = tt
partition-NoChars p d (c ∷ s) h = elim (Bool-cases (same_char c d)) [
  | inl e ↦ rw e tt
  | inr e ↦ rw (e, NoChars) (h.0, partition-NoChars p d s h.1)
]

-- what stands before the first `d` has no `d`
pub partition_head : (d : Char) (s : String) → NoChars (λ c. nat_eq c (code d)) (partition d s).0
unfolding partition
partition_head d [] = tt
partition_head d (c ∷ s) = elim (Bool-cases (same_char c d)) [
  | inl e ↦ rw e tt
  | inr e ↦ rw (e, NoChars) (e, partition_head d s)
]

-- the two sides of the last `d`: what they have not if the text has not, and no `d` on the right
unfoldable pub AtLast : (ℕ → Bool) → Char → String → Option (String × String) → Type 0
AtLast p d s none = NoChars (λ c. nat_eq c (code d)) s
AtLast p d s (some (a, b)) = NoChars p a × NoChars p b × NoChars (λ c. nat_eq c (code d)) b

AtLast-cons :
    (p : ℕ → Bool) (d c : Char) (s : String) (o : Option (String × String))
    → NoChars p (c ∷ s)
    → AtLast p d s o
    → AtLast p d (c ∷ s) (elim o [
      | some (head, tail) ↦ some (c ∷ head, tail)
      | none ↦ if same_char c d then some ("", s) else none
    ])
unfolding AtLast
AtLast-cons p d c s none h k = elim (Bool-cases (same_char c d)) [
  | inl e ↦ rw (e, AtLast) (tt, h.1, k)
  | inr e ↦ rw (e, AtLast, NoChars) (e, k)
]
AtLast-cons p d c s (some (a, b)) h k = ((h.0, k.0), k.1, k.2)

pub rpartition-AtLast :
    (p : ℕ → Bool) (d : Char) (s : String) → NoChars p s → AtLast p d s (rpartition d s)
unfolding rpartition
rpartition-AtLast p d [] h = unfold AtLast in tt
rpartition-AtLast p d (c ∷ s) h =
    AtLast-cons p d c s (rpartition d s) h (rpartition-AtLast p d s h.1)

span-NoChars :
    (p q : ℕ → Bool) (s : String) → ((c : ℕ) → q c ≡ true → p c ≡ false) → NoChars p (span q s).0
unfolding span
span-NoChars p q [] h = tt
span-NoChars p q (c ∷ s) h = elim (Bool-cases (q (code c))) [
  | inl e ↦ rw (e, NoChars) (h (code c) e, span-NoChars p q s h)
  | inr e ↦ rw e tt
]

NoChars-or :
    (d e : ℕ) (s : String)
    → NoChars (λ c. nat_eq c d) s
    → NoChars (λ c. nat_eq c e) s
    → NoChars (λ c. nat_eq c d || nat_eq c e) s
NoChars-or d e [] h k = tt
NoChars-or d e (c ∷ s) h k = (rw (h.0, k.0) refl, NoChars-or d e s h.1 k.1)

authority-NoChars :
    (b : Bool) (rest : String) (x : String × String)
    → NoChars is_query x.0
    → NoChars is_query (if b then x else ("", rest)).0
authority-NoChars true rest x h = h
authority-NoChars false rest x h = tt

path_lem : (s : String) → NoChars is_query (partition "?" (partition "#" s).0).0
path_lem s =
    let before = (partition "#" s).0 in
    NoChars-or b'?' b'#' (partition "?" before).0 (partition_head "?" before)
      (partition-NoChars (λ c. nat_eq c b'#') "?" before (partition_head "#" s))

-- the authority and the path of a split URL have no query
pub parts_of-NoChars :
    (scheme rest : String)
    → NoChars is_query (parts_of scheme rest).netloc × NoChars is_query (parts_of scheme rest).path
unfolding parts_of split_netloc
parts_of-NoChars scheme rest = (
  authority-NoChars (starts_with rest "//") rest
      (span (λ c. not (ends_netloc c)) (drop_text 2 rest))
      (span-NoChars is_query (λ c. not (ends_netloc c)) (drop_text 2 rest)
        (λ c h. ground (arith, h))),
  path_lem (split_netloc rest).1,
)

-- nothing, or a slash first
abbrev pub IsPath : String → Type 0
IsPath [] = Unit
IsPath (c ∷ s) = code c ≡ b'/'

-- the rest of a split URL stops the authority
StopsNetloc : String → Type 0
StopsNetloc [] = Unit
StopsNetloc (c ∷ s) = ends_netloc (code c) ≡ true

span-StopsNetloc : (s : String) → StopsNetloc (span (λ c. not (ends_netloc c)) s).1
unfolding span StopsNetloc
span-StopsNetloc [] = tt
span-StopsNetloc (c ∷ s) = elim (Bool-cases (ends_netloc (code c))) [
  | inl e ↦ rw (e, StopsNetloc) e
  | inr e ↦ rw e (span-StopsNetloc s)
]

StopsNetloc-IsPath : (s : String) → StopsNetloc s → IsPath (partition "?" (partition "#" s).0).0
unfolding partition StopsNetloc
StopsNetloc-IsPath [] h = tt
StopsNetloc-IsPath (c ∷ s) h = elim (Bool-cases (same_char c "#")) [
  | inl e ↦ rw e tt
  | inr e ↦ elim (Bool-cases (same_char c "?")) [
    | inl d ↦ rw (e, d) tt
    | inr d ↦ rw (e, d, IsPath) (ground (arith, e, d, h))
  ]
]

pub parts_of-IsPath :
    (scheme rest : String)
    → ¬ ((parts_of scheme rest).netloc ≡ "")
    → IsPath (parts_of scheme rest).path
unfolding parts_of split_netloc
parts_of-IsPath scheme rest = elim (Bool-cases (starts_with rest "//")) [
  | inl e ↦ rw e (λ n. StopsNetloc-IsPath _ (span-StopsNetloc (drop_text 2 rest)))
  | inr e ↦ rw e (λ n. absurd (n refl))
]
