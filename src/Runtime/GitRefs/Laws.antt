-- ===== src/Runtime/GitRefs/Laws.antt =====
-- What a reference is resolved to.
use aibom_webhook_service.Base.{
  ℕ, zero, suc, String, ◌≡◌, true, Option, none, some, List, [], ◌∷◌, ◌==◌, Bool-cases,
  Option-cases, inl, inr,
}
use aibom_webhook_service.Base.Text.{starts_with, drop_text, strip, split_on}
use aibom_webhook_service.Source.Path.{join_path}
use aibom_webhook_service.Runtime.GitRefs.{
  Files, is_sha, sha_or_none, packed_ref, found, in_packed, words, resolve_from, resolve_git_ref,
}

abbrev pub WhereSha : Option String → Type 0
WhereSha none = Unit
WhereSha (some value) = is_sha value ≡ true

module _ (files : Files) where
  sha_or_none-WhereSha : (value : String) → WhereSha (sha_or_none files value)
  sha_or_none-WhereSha value = elim (Bool-cases (is_sha value)) [
    | inl e ↦ rw (e, WhereSha) e
    | inr e ↦ rw (e, WhereSha) tt
  ]

  found-WhereSha :
      (ref_path : String) (ws : List String) (rest : Option String)
      → WhereSha rest
      → WhereSha (found files ref_path ws rest)
  unfolding found
  found-WhereSha ref_path [] rest h = h
  found-WhereSha ref_path (v ∷ []) rest h = h
  found-WhereSha ref_path (v ∷ n ∷ []) rest h = elim (Bool-cases (n == ref_path)) [
    | inl e ↦ rw e (sha_or_none-WhereSha v)
    | inr e ↦ rw e h
  ]
  found-WhereSha ref_path (v ∷ n ∷ m ∷ ws) rest h = h

  packed_ref-WhereSha :
      (ref_path : String) (lines : List String) → WhereSha (packed_ref files ref_path lines)
  unfolding packed_ref
  packed_ref-WhereSha ref_path [] = tt
  packed_ref-WhereSha ref_path (line ∷ lines) =
      found-WhereSha ref_path (words files line) (packed_ref files ref_path lines)
        (packed_ref-WhereSha ref_path lines)

  in_packed-WhereSha :
      (ref_path : String) (o : Option String) → WhereSha (in_packed files ref_path o)
  unfolding in_packed
  in_packed-WhereSha ref_path none = tt
  in_packed-WhereSha ref_path (some content) = packed_ref-WhereSha ref_path (split_on "\n" content)

  resolve_from-WhereSha :
      (n : ℕ) (git_dir ref : String) → WhereSha (resolve_from files n git_dir ref)
  unfolding resolve_from
  resolve_from-WhereSha zero git_dir ref = elim (Bool-cases (starts_with (strip ref) "ref:")) [
    | inl e ↦ rw e tt
    | inr e ↦ rw e (sha_or_none-WhereSha (strip ref))
  ]
  resolve_from-WhereSha (suc n) git_dir ref =
      let ref_path = strip (drop_text 4 (strip ref)) in
      elim (Bool-cases (starts_with (strip ref) "ref:")) [
        | inr e ↦ rw e (sha_or_none-WhereSha (strip ref))
        | inl e ↦ rw e (elim (Option-cases (files.content (join_path git_dir ref_path))) [
          | inl f ↦
              rw f (in_packed-WhereSha ref_path (files.content (join_path git_dir "packed-refs")))
          | inr (content, f) ↦ rw f (resolve_from-WhereSha n git_dir content)
        ])
      ]

  -- Whatever stands in the files, loops of symbolic references included, a reference is resolved to
  -- a full commit hash or to nothing.
  pub resolve_git_ref-WhereSha :
      (git_dir ref : String) → WhereSha (resolve_git_ref files git_dir ref)
  unfolding resolve_git_ref
  resolve_git_ref-WhereSha git_dir ref = resolve_from-WhereSha 5 git_dir ref
