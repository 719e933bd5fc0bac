-- ===== src/Telemetry/Queries/Laws.antt =====
-- What a pod name can put into a query.
use Prim.Native.String.{[], ◌∷◌, ◌++◌ as ◌<>◌}
use mathlib.Core.Path.{subst, sym}
use aibom_webhook_service.Base.{
  ℕ, code, String, Bool, true, false, not, ◌&&◌, ◌||◌, ◌≡◌, refl, Option, none, some, List, ◌==◌,
  if◌then◌else◌, nat_eq, eq_iff, arith, Bool-cases, inl, inr, All,
}
use aibom_webhook_service.Base.Text.{all_text, chomp}
use aibom_webhook_service.Base.Text.Span.{NoChars, NoChars-append}
use aibom_webhook_service.Telemetry.Queries.{
  is_name_char, is_name, matches_pod_name, escape_dots, valid_names, join_bars, pod_regex,
}

-- a quote or a backslash, with which a string of PromQL ends or escapes
abbrev pub is_quoting : ℕ → Bool
is_quoting c = nat_eq c b'"' || nat_eq c b'\\'

not_quoting : (c : ℕ) → is_name_char c ≡ true → is_quoting c ≡ false
not_quoting c h = ground (arith, h)

all_text-NoChars : (s : String) → all_text is_name_char s ≡ true → NoChars is_quoting s
all_text-NoChars [] h = tt
all_text-NoChars (c ∷ s) h =
    (not_quoting (code c) (ground (arith, h)), all_text-NoChars s (ground (arith, h)))

is_name-NoChars : (s : String) → is_name s ≡ true → NoChars is_quoting s
unfolding is_name
is_name-NoChars [] h = tt
is_name-NoChars (c ∷ s) h =
    (not_quoting (code c) (ground (arith, h)), all_text-NoChars s (ground (arith, h)))

NoChars-nil : (s : String) → (s == "") ≡ true → NoChars is_quoting s
NoChars-nil s h = subst (NoChars is_quoting) (sym ((eq_iff s "").0 h)) tt

chomp-NoChars : (s : String) → NoChars is_quoting (chomp s) → NoChars is_quoting s
unfolding chomp
chomp-NoChars [] h = tt
chomp-NoChars (c ∷ s) h = elim (Bool-cases (nat_eq (code c) 10 && (s == ""))) [
  | inl e ↦ (ground (arith, e), NoChars-nil s (ground (arith, e)))
  | inr e ↦
      let kept : NoChars is_quoting (c ∷ chomp s) = (rw (e, if◌then◌else◌) at h) in
      (kept.0, chomp-NoChars s kept.1)
]

escape_dots-NoChars : (s : String) → NoChars is_quoting s → NoChars is_quoting (escape_dots s)
unfolding escape_dots
escape_dots-NoChars [] h = tt
escape_dots-NoChars (c ∷ s) h = elim (Bool-cases (nat_eq (code c) b'.')) [
  | inl e ↦
      rw (e, if◌then◌else◌)
        (NoChars-append is_quoting "[.]" (escape_dots s) (refl, (refl, (refl, tt)))
          (escape_dots-NoChars s h.1))
  | inr e ↦ rw (e, if◌then◌else◌) (h.0, escape_dots-NoChars s h.1)
]

valid_names-NoChars : (names : List (Option String)) → All (NoChars is_quoting) (valid_names names)
unfolding valid_names matches_pod_name
valid_names-NoChars List.[] = tt
valid_names-NoChars (List.◌∷◌ none names) = valid_names-NoChars names
valid_names-NoChars (List.◌∷◌ (some n) names) =
    elim (Bool-cases (not (n == "") && is_name (chomp n))) [
      | inr e ↦ rw (e, if◌then◌else◌) (valid_names-NoChars names)
      | inl e ↦
          rw (e, if◌then◌else◌)
            (
              escape_dots-NoChars n
                  (chomp-NoChars n (is_name-NoChars (chomp n) (ground (arith, e)))),
              valid_names-NoChars names,
            )
    ]

join_bars-NoChars :
    (names : List String) → All (NoChars is_quoting) names → NoChars is_quoting (join_bars names)
unfolding join_bars
join_bars-NoChars List.[] h = tt
join_bars-NoChars (List.◌∷◌ n List.[]) h = h.0
join_bars-NoChars (List.◌∷◌ n (List.◌∷◌ m names)) h =
    NoChars-append is_quoting n ("|" <> join_bars (List.◌∷◌ m names)) h.0 (
      NoChars-append is_quoting "|" (join_bars (List.◌∷◌ m names)) (refl, tt)
        (join_bars-NoChars (List.◌∷◌ m names) h.1))

-- Whatever the discovery files call the pods, their pattern has no quote and no backslash, so it
-- cannot end the string that it stands in or escape in it.
pub pod_regex-NoChars : (names : List (Option String)) → NoChars is_quoting (pod_regex names)
unfolding pod_regex
pod_regex-NoChars names = join_bars-NoChars (valid_names names) (valid_names-NoChars names)
