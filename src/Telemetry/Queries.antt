-- ===== src/Telemetry/Queries.antt =====
-- The pod names in PromQL: `_pod_regex` and `_substitute_pod_query`, and the steps of a grid.
pub mod Laws
use Prim.Native.String.{[], ◌∷◌, ◌++◌ as ◌<>◌}
use aibom_webhook_service.Base.{
  ℕ, zero, suc, code, String, Bool, true, false, not, ◌&&◌, ◌||◌, Option, none, some, List, ◌==◌,
  if◌then◌else◌, nat_eq, ◌+◌, ◌-◌, ◌*◌, ◌/◌, max,
}
use aibom_webhook_service.Base.Text.{starts_with, text_length, all_text, is_lower, is_digit, chomp}

abbrev pub is_name_end : ℕ → Bool
is_name_end c = is_lower c || is_digit c

abbrev pub is_name_char : ℕ → Bool
is_name_char c = is_name_end c || nat_eq c b'-' || nat_eq c b'.'

-- the last character, or the given one
abbrev pub last_code : ℕ → String → ℕ
last_code n [] = n
last_code n (c ∷ s) = last_code (code c) s

-- `[a-z0-9]([-a-z0-9.]*[a-z0-9])?` of a whole text
unfoldable pub is_name : String → Bool
is_name [] = false
is_name (c ∷ s) =
    is_name_end (code c) && all_text is_name_char s && is_name_end (last_code (code c) s)

-- `_POD_NAME_RE.match`, whose `$` also matches before a line feed at the end
unfoldable pub matches_pod_name : String → Bool
unfolding chomp is_name
matches_pod_name s = is_name (chomp s)

-- `n.replace(".", "[.]")`
unfoldable pub escape_dots : String → String
escape_dots [] = []
escape_dots (c ∷ s) =
    let rest = escape_dots s in if nat_eq (code c) b'.' then "[.]" <> rest else c ∷ rest

-- the names that are valid, escaped
unfoldable pub valid_names : List (Option String) → List String
unfolding matches_pod_name escape_dots
valid_names List.[] = List.[]
valid_names (List.◌∷◌ none names) = valid_names names
valid_names (List.◌∷◌ (some n) names) =
    let rest = valid_names names in
    if not (n == "") && matches_pod_name n then List.◌∷◌ (escape_dots n) rest else rest

-- `"|".join(names)`
unfoldable pub join_bars : List String → String
join_bars List.[] = []
join_bars (List.◌∷◌ n List.[]) = n
join_bars (List.◌∷◌ n (List.◌∷◌ m names)) = n <> ("|" <> join_bars (List.◌∷◌ m names))

unfoldable pub pod_regex : List (Option String) → String
unfolding valid_names join_bars
pod_regex names = join_bars (valid_names names)

-- `s.replace(old, new)`; `skip` characters of an occurrence are still to be dropped
unfoldable pub replace_from : ℕ → String → String → String → String
unfolding starts_with
replace_from skip old new [] = []
replace_from (suc skip) old new (c ∷ s) = replace_from skip old new s
replace_from zero old new (c ∷ s) =
    let found = starts_with (c ∷ s) old in
    let rest = replace_from (if found then text_length old - 1 else 0) old new s in
    if found then new <> rest else c ∷ rest

unfoldable pub replace_text : String → String → String → String
unfolding replace_from
replace_text = replace_from 0

unfoldable pub substitute_pod_query : String → String → String → String
unfolding replace_text
substitute_pod_query namespace promql pod_name =
    replace_text "{pod_name}" pod_name (replace_text "{namespace}" namespace promql)

-- `int(span_s / 1000)` of a span of at least a second, at least 15
unfoldable pub range_step_seconds : ℕ → ℕ → ℕ
range_step_seconds start_ms end_ms = max (max (end_ms - start_ms) 1000 / (1000 * 1000)) 15
