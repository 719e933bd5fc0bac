-- ===== src/Command/Segments/Laws.antt =====
-- How `_split_segments`, `_invocation_segments` and `_strip_comments` treat the tokens.
use mathlib.Core.List.{flatten, append-nil, append_assoc}
use aibom_webhook_service.Base.{
  String, ◌≡◌, refl, ◌∙◌, ap, Bool, true, false, not, ◌≢◌, List, [], ◌∷◌, ◌++◌, arith, All,
  All-append, keep, Bool-cases, inl, inr,
}
use aibom_webhook_service.Command.Segments.{
  is_separator, split_from, split_segments, is_package_install, invocation_segments, strip_from,
  strip_comments,
}

abbrev pub IsWord : String → Type 0
IsWord tok = is_separator tok ≡ false

abbrev pub IsCommand : List String → Type 0
IsCommand seg = (seg ≢ []) × All IsWord seg

flatten-split_from :
    (current tokens : List String)
    → flatten (split_from current tokens) ≡ current ++ keep (λ tok. not (is_separator tok)) tokens
unfolding split_from flatten
flatten-split_from [] [] = refl
flatten-split_from (c ∷ current) [] = refl
flatten-split_from [] (tok ∷ tokens) = elim (Bool-cases (is_separator tok)) [
  | inl e ↦ rw e (flatten-split_from [] tokens)
  | inr e ↦ rw e (flatten-split_from (tok ∷ []) tokens)
]
flatten-split_from (c ∷ current) (tok ∷ tokens) = elim (Bool-cases (is_separator tok)) [
  | inl e ↦ rw e (ap (λ l. c ∷ current ++ l) (flatten-split_from [] tokens))
  | inr e ↦ rw e (
      flatten-split_from (c ∷ current ++ (tok ∷ [])) tokens
      ∙ append_assoc (c ∷ current) (tok ∷ []) (keep (λ tok. not (is_separator tok)) tokens))
]

split_from-IsCommand :
    (current tokens : List String) → All IsWord current → All IsCommand (split_from current tokens)
unfolding split_from
split_from-IsCommand [] [] h = tt
split_from-IsCommand (c ∷ current) [] h = ((λ e. cc, h), tt)
split_from-IsCommand [] (tok ∷ tokens) h = elim (Bool-cases (is_separator tok)) [
  | inl e ↦ rw e (split_from-IsCommand [] tokens tt)
  | inr e ↦ rw e (split_from-IsCommand (tok ∷ []) tokens (e, tt))
]
split_from-IsCommand (c ∷ current) (tok ∷ tokens) h = elim (Bool-cases (is_separator tok)) [
  | inl e ↦ rw e ((λ e. cc, h), split_from-IsCommand [] tokens tt)
  | inr e ↦ rw e (
      split_from-IsCommand (c ∷ current ++ (tok ∷ [])) tokens
        (All-append IsWord (c ∷ current) (tok ∷ []) h (e, tt)))
]

-- one command per entry, each closed by a separator
abbrev pub script_of : String → List (List String) → List String
script_of sep [] = []
script_of sep (seg ∷ segs) = seg ++ (sep ∷ script_of sep segs)

split_from-append :
    (current seg rest : List String)
    → All IsWord seg
    → split_from current (seg ++ rest) ≡ split_from (current ++ seg) rest
unfolding split_from
split_from-append current [] rest h = rw append-nil
split_from-append [] (tok ∷ seg) rest (w, h) = rw w (split_from-append (tok ∷ []) seg rest h)
split_from-append (c ∷ current) (tok ∷ seg) rest (w, h) = rw w (
    split_from-append (c ∷ current ++ (tok ∷ [])) seg rest h
    ∙ ap (λ l. split_from (c ∷ l) rest) (append_assoc current (tok ∷ []) seg))

split_from_separator :
    (seg : List String) (sep : String) (rest : List String)
    → seg ≢ []
    → is_separator sep ≡ true
    → split_from seg (sep ∷ rest) ≡ seg ∷ split_from [] rest
unfolding split_from
split_from_separator [] sep rest h s = absurd (h refl)
split_from_separator (c ∷ seg) sep rest h s = rw s

pub split_segments_command :
    (seg : List String) (sep : String) (rest : List String)
    → IsCommand seg
    → is_separator sep ≡ true
    → split_segments (seg ++ (sep ∷ rest)) ≡ seg ∷ split_segments rest
unfolding split_segments
split_segments_command seg sep rest (ne, words) s =
    split_from-append [] seg _ words ∙ split_from_separator seg sep rest ne s

pub split_segments-script_of :
    (sep : String) (segs : List (List String))
    → is_separator sep ≡ true
    → All IsCommand segs
    → split_segments (script_of sep segs) ≡ segs
unfolding split_segments
split_segments-script_of sep [] s h = refl
split_segments-script_of sep (seg ∷ segs) s ((ne, words), h) =
    split_segments_command seg sep (script_of sep segs) (ne, words) s
    ∙ ap (λ l. seg ∷ l) (split_segments-script_of sep segs s h)

-- Cutting a script at its separators loses nothing but the separators: the commands hold the other
-- tokens, in order; no command is empty and none holds a separator.
pub split_segments_partition :
    (tokens : List String)
    → (flatten (split_segments tokens) ≡ keep (λ tok. not (is_separator tok)) tokens)
      × All IsCommand (split_segments tokens)
unfolding split_segments
split_segments_partition tokens = (flatten-split_from [] tokens, split_from-IsCommand [] tokens tt)

-- A script of commands, each closed by a separator, runs those that are no package installs.
pub invocation_segments-script_of :
    (sep : String) (segs : List (List String))
    → is_separator sep ≡ true
    → All IsCommand segs
    → invocation_segments (script_of sep segs) ≡ keep (λ seg. not (is_package_install seg)) segs
invocation_segments-script_of sep segs s h =
    unfold invocation_segments in rw (split_segments-script_of sep segs s h)

strip_from_idem :
    (in_comment : Bool) (tokens : List String)
    → strip_from false (strip_from in_comment tokens) ≡ strip_from in_comment tokens
unfolding strip_from
strip_from_idem in_comment [] = refl
strip_from_idem in_comment (tok ∷ tokens) =
    ground (arith, strip_from_idem true tokens, strip_from_idem false tokens)

-- No comment is left: a second pass drops nothing.
pub strip_comments_idem :
    (tokens : List String) → strip_comments (strip_comments tokens) ≡ strip_comments tokens
unfolding strip_comments
strip_comments_idem tokens = strip_from_idem false tokens
