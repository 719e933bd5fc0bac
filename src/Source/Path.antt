-- ===== src/Source/Path.antt =====
-- What the program uses of `os.path`, besides the base name.
use Prim.Native.String.{◌++◌ as ◌<>◌}
use aibom_webhook_service.Base.{String, Bool, not, ◌&&◌, ◌||◌, List, ◌==◌, if◌then◌else◌}
use aibom_webhook_service.Base.Text.{starts_with, ends_with, split_on, join_lines}

-- `os.path.join(a, b)`
unfoldable pub join_path : String → String → String
unfolding starts_with ends_with
join_path a b =
    if starts_with b "/"
    then b
    else if (a == "") || ends_with a "/"
    then a <> b
    else a <> ("/" <> b)

-- the parts that `normpath` keeps, the last one first
normal_parts : Bool → List String → List String → List String
normal_parts rooted List.[] kept = kept
normal_parts rooted (List.◌∷◌ part rest) kept = normal_parts rooted rest (
    if (part == "") || (part == ".")
    then kept
    else if not (part == "..")
    then List.◌∷◌ part kept
    else up kept)
  where
    up : List String → List String
    up List.[] = if rooted then List.[] else List.◌∷◌ part List.[]
    up (List.◌∷◌ last more) = if last == ".." then List.◌∷◌ part (List.◌∷◌ last more) else more

reverse_onto : List String → List String → List String
reverse_onto List.[] ys = ys
reverse_onto (List.◌∷◌ x xs) ys = reverse_onto xs (List.◌∷◌ x ys)

-- two leading slashes are kept, one or more than two become one
leading : String → String
unfolding starts_with
leading path =
    if not (starts_with path "/")
    then ""
    else if starts_with path "//" && not (starts_with path "///")
    then "//"
    else "/"

unfoldable pub normpath : String → String
unfolding normal_parts reverse_onto leading split_on join_lines
normpath path =
    let start = leading path in
    let norm =
      start
      <> join_lines "/"
          (reverse_onto (normal_parts (not (start == "")) (split_on "/" path) List.[]) List.[]) in
    if norm == "" then "." else norm
