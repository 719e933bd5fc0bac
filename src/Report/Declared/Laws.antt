-- ===== src/Report/Declared/Laws.antt =====
-- What the declared dataset is compared with.
use mathlib.Core.Path.{subst}
use aibom_webhook_service.Base.{
  String, Bool, true, false, ◌≡◌, refl, ap, ◌∙◌, Option, none, some, List, [], ◌∷◌, map,
  if◌then◌else◌, is_some, Bool-cases, inl, inr,
}
use aibom_webhook_service.Base.Dict.Laws.{eq_of_some}
use aibom_webhook_service.Source.Container.{given}
use aibom_webhook_service.Source.Dataset.{dataset_names_match}
use aibom_webhook_service.Report.Declared.{
  Seen, DatasetAnnotations, CliDataset, Declared, DatasetSection, annotated, declared_dataset,
  inferred_from, with_detected, is_inferred, matches_declared, has_section, section_of,
  dataset_section,
}

-- no section of the annotations and the command says that it was inferred
declared_dataset-via :
    (a : DatasetAnnotations) (cli : CliDataset) → is_inferred (declared_dataset a cli) ≡ false
unfolding is_inferred declared_dataset annotated
declared_dataset-via a cli = elim (Bool-cases (is_some (given a.name))) [
  | inl e ↦ rw (e, if◌then◌else◌) refl
  | inr e ↦ elim (Bool-cases (is_some (given cli.dataset_name))) [
    | inl k ↦ rw (e, k, if◌then◌else◌) refl
    | inr k ↦ rw (e, k, if◌then◌else◌) refl
  ]
]

-- The comparisons of a section: with a declared name each entry is compared with it, and without
-- one none is, for then the declared name is the first entry's.
abbrev pub Compared : Declared → Declared → List Seen → List (Seen × Option Bool) → Type 0
Compared said known detected entries =
    (is_some (given said.name) ≡ true
      → (known ≡ said)
        × (entries ≡ map (λ e. (e, some (dataset_names_match e.dataset_name said.name))) detected))
    × ((first : Seen) (rest : List Seen)
        → is_some (given said.name) ≡ false
        → detected ≡ first ∷ rest
        → (known.name ≡ first.dataset_name)
          × (known.source ≡ first.source)
          × (entries ≡ map (λ e. (e, none)) detected))

map-compared :
    (d : Declared) (entries : List Seen)
    → is_inferred d ≡ false
    → map {B = Seen × Option Bool} (λ e. (e, matches_declared d e)) entries
      ≡ map (λ e. (e, some (dataset_names_match e.dataset_name d.name))) entries
unfolding matches_declared
map-compared d [] h = refl
map-compared d (e ∷ entries) h =
    ap (λ (rest : List (Seen × Option Bool)). (e, matches_declared d e) ∷ rest)
      (map-compared d entries h)
    ∙ rw (h, if◌then◌else◌) refl

map-inferred :
    (d : Declared) (entries : List Seen)
    → is_inferred d ≡ true
    → map {B = Seen × Option Bool} (λ e. (e, matches_declared d e)) entries
      ≡ map (λ e. (e, none)) entries
unfolding matches_declared
map-inferred d [] h = refl
map-inferred d (e ∷ entries) h =
    ap (λ (rest : List (Seen × Option Bool)). (e, matches_declared d e) ∷ rest)
      (map-inferred d entries h)
    ∙ rw (h, if◌then◌else◌) refl

eq_head :
    {f first : Seen} {fs rest : List Seen} → ◌≡◌ {A = List Seen} (f ∷ fs) (first ∷ rest) → f ≡ first
eq_head e = cc

with_detected-declared :
    (said : Declared) (detected : List Seen)
    → is_some (given said.name) ≡ true
    → with_detected detected said ≡ said
unfolding with_detected
with_detected-declared said [] h = refl
with_detected-declared said (f ∷ fs) h = rw (h, if◌then◌else◌) refl

with_detected-inferred :
    (said : Declared) (f : Seen) (fs : List Seen)
    → is_some (given said.name) ≡ false
    → with_detected (f ∷ fs) said ≡ inferred_from f said
unfolding with_detected
with_detected-inferred said f fs h = rw (h, if◌then◌else◌) refl

compared-entries : Declared → List Seen → List (Seen × Option Bool)
compared-entries d entries = map (λ e. (e, matches_declared d e)) entries

with_detected-Compared :
    (said : Declared) (detected : List Seen)
    → is_inferred said ≡ false
    → Compared said
        (with_detected detected said)
        detected
        (compared-entries (with_detected detected said) detected)
unfolding compared-entries inferred_from is_inferred
with_detected-Compared said detected k = (
  λ h.
      let same = with_detected-declared said detected h in
      (same, ap (λ d. compared-entries d detected) same ∙ map-compared said detected k),
  λ first rest h e.
      let same =
        ap (λ entries. with_detected entries said) e ∙ with_detected-inferred said first rest h in
      (
        ap (λ d. d.name) same,
        ap (λ d. d.source) same,
        ap (λ d. compared-entries d detected) same
            ∙ map-inferred (inferred_from first said) detected refl,
      ),
)

none-ne-section : (s : DatasetSection) → ◌≡◌ {A = Option DatasetSection} none (some s) → ⊥
none-ne-section s e = cc

-- Where a workload has a dataset section: if the annotations or the command name a dataset, that is
-- what is declared, and each detected entry is compared with its name. If neither does, the first
-- entry's name and source are declared, and no entry is compared.
pub dataset_section-Compared :
    (a : DatasetAnnotations) (cli : CliDataset) (detected : List Seen) (intent : String)
    (section : DatasetSection)
    → dataset_section a cli detected intent ≡ some section
    → Compared (declared_dataset a cli) section.declared detected section.auto_detected
unfolding dataset_section section_of compared-entries
dataset_section-Compared a cli detected intent section e =
    let said = declared_dataset a cli in
    elim (Bool-cases (has_section said detected intent)) [
      | inr n ↦ absurd (none-ne-section section (rw (n, if◌then◌else◌) at e))
      | inl y ↦
          subst (λ t. Compared said t.declared detected t.auto_detected)
            (eq_of_some (rw (y, if◌then◌else◌) at e))
            (with_detected-Compared said detected (declared_dataset-via a cli))
    ]
