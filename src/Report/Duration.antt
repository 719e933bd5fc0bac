-- ===== src/Report/Duration.antt =====
-- `duration_seconds` of `compile_aibom`: from the earliest start of a pod to the last finish, or to
-- now. Times are microseconds since the epoch; `rounded` stands for the rounded seconds between
-- two of them.
pub mod Laws
use aibom_webhook_service.Base.{
  ℕ, String, Bool, true, false, Option, none, some, List, [], ◌∷◌, ◌*◌, min, max, if◌then◌else◌,
}
use aibom_webhook_service.Base.Int.{ℤ}
use aibom_webhook_service.Source.Container.{Container, given}
use aibom_webhook_service.Pod.Window.{pod_finished_ms}

-- of a discovery file
pub record PodMeta : Type 0 where
  pub name : String
  pub start_time : Option String

-- the starts that are given; the outer `none` is a start that cannot be parsed
unfoldable pub start_times : (String → Option ℕ) → List PodMeta → Option (List ℕ)
start_times parse [] = some []
start_times parse (p ∷ pods) =
    let rest = start_times parse pods in
    elim (given p.start_time) [
      | none ↦ rest
      | some t ↦ elim (parse t) [
        | none ↦ none
        | some us ↦ elim rest [ none ↦ none | some starts ↦ some (us ∷ starts) ]
      ]
    ]

unfoldable pub earliest : List ℕ → Option ℕ
earliest [] = none
earliest (t ∷ ts) = elim (earliest ts) [ none ↦ some t | some u ↦ some (min t u) ]

-- the last finish in milliseconds, if every pod has finished
unfoldable pub last_finish : (String → Option ℕ) → ℕ → List PodMeta → List Container → Option ℕ
unfolding pod_finished_ms
last_finish parse scrape [] containers = none
last_finish parse scrape (p ∷ []) containers = pod_finished_ms parse scrape p.name containers
last_finish parse scrape (p ∷ q ∷ pods) containers =
    let rest = last_finish parse scrape (q ∷ pods) containers in
    elim (pod_finished_ms parse scrape p.name containers) [
      | none ↦ none
      | some ms ↦ elim rest [ none ↦ none | some later ↦ some (max ms later) ]
    ]

-- the end of the span
unfoldable pub end_us : ℕ → Option ℕ → ℕ
end_us now none = now
end_us now (some ms) = min (ms * 1000) now

-- the start and the end
unfoldable pub duration_span :
    (String → Option ℕ) → ℕ → ℕ → List PodMeta → List Container → Option (ℕ × ℕ)
unfolding start_times earliest last_finish end_us
duration_span parse scrape now pods containers = elim (start_times parse pods) [
  | none ↦ none
  | some starts ↦ elim (earliest starts) [
    | none ↦ none
    | some start ↦ some (start, end_us now (last_finish parse scrape pods containers))
  ]
]

unfoldable pub duration_seconds :
    (ℕ → ℕ → ℤ) → (String → Option ℕ) → ℕ → ℕ → List PodMeta → List Container → Option ℤ
unfolding duration_span
duration_seconds rounded parse scrape now pods containers =
    elim (duration_span parse scrape now pods containers) [
      | none ↦ none
      | some (start, end) ↦ some (rounded start end)
    ]
