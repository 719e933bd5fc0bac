-- ===== src/Source/Storage/Laws.antt =====
-- What a storage URI of the Hugging Face hub is read as.
use Prim.Native.String.{[], ◌∷◌, ◌++◌ as ◌<>◌}
use aibom_webhook_service.Base.{
  ℕ, Char, code, String, ◌≡◌, refl, ◌∙◌, ap, Bool, true, false, not, ◌||◌, some, arith, nat_eq,
}
use aibom_webhook_service.Base.Text.{cons-eq-nil, starts_with, drop_text}
use aibom_webhook_service.Base.Text.Span.{
  Chars, NoChars, span-append, span_all, rstrip_by_none, rstrip_by-append, nil-append, cons-append,
  append_assoc,
}
use aibom_webhook_service.Source.Storage.{
  is_slash, is_plain, strip_slashes, revision_of, named, hf_parts, hub, parse_storage_uri,
}

plain-slash : (c : ℕ) → is_plain c ≡ true → is_slash c ≡ false
plain-slash c h = ground (arith, h)

strip_slashes_lem :
    (c : Char) (s : String) (d : Char) (t : String)
    → is_slash (code c) ≡ false
    → NoChars is_slash (d ∷ t)
    → strip_slashes (c ∷ (s <> (d ∷ t))) ≡ c ∷ (s <> (d ∷ t))
unfolding strip_slashes
strip_slashes_lem c s d t h n =
    rw h (
      rw cons-append at (rstrip_by-append is_slash (c ∷ s) d t (rstrip_by_none is_slash (d ∷ t) n)))

-- one of the two characters in front of a revision
abbrev pub is_mark : ℕ → Bool
is_mark c = nat_eq c b'@' || nat_eq c b':'

revision_of_lem :
    (name : String) (m r : Char) (rev : String)
    → is_mark (code m) ≡ true
    → Chars (λ d. not (is_slash d)) (r ∷ rev)
    → revision_of name (m ∷ r ∷ rev) ≡ some (name, some (r ∷ rev))
unfolding revision_of
revision_of_lem name m r rev h k =
    rw (span_all (λ d. not (is_slash d)) (r ∷ rev) k) (ground (arith, cons-eq-nil r rev, h))

hub_prefix : (t : String) → "hf://" <> t ≡ "h" ∷ "f" ∷ ":" ∷ "/" ∷ "/" ∷ t
hub_prefix t =
    cons-append "h" "f://" t
    ∙ ap (λ s. "h" ∷ s)
        (cons-append "f" "://" t
          ∙ ap (λ s. "f" ∷ s)
              (cons-append ":" "//" t
                ∙ ap (λ s. ":" ∷ s)
                    (cons-append "/" "/" t
                      ∙ ap (λ s. "/" ∷ s)
                          (cons-append "/" "" t ∙ ap (λ s. "/" ∷ s) (nil-append t)))))

parse_storage_uri_prefix :
    (t : String) → parse_storage_uri (some ("hf://" <> t)) ≡ hub (hf_parts (strip_slashes t))
unfolding parse_storage_uri starts_with drop_text
parse_storage_uri_prefix t = rw hub_prefix (rw (cons-eq-nil "h" ("f" ∷ ":" ∷ "/" ∷ "/" ∷ t)) refl)

no_slash : (s : String) → Chars (λ d. not (is_slash d)) s → NoChars is_slash s
no_slash [] h = tt
no_slash (c ∷ s) h = (ground (arith, h.0), no_slash s h.1)

module _ (o : Char) (org : String) (n : Char) (name : String) (m r : Char) (rev : String)
    (ho : Chars is_plain (o ∷ org)) (hn : Chars is_plain (n ∷ name)) (hm : is_mark (code m) ≡ true)
    (hr : Chars (λ d. not (is_slash d)) (r ∷ rev)) where
  full : String
  full = (o ∷ org) <> ("/" ∷ n ∷ name)

  named_lem : named (o ∷ org) ("/" ∷ ((n ∷ name) <> (m ∷ r ∷ rev))) ≡ some (full, some (r ∷ rev))
  unfolding named full
  named_lem =
      rw
        (
          span-append is_plain (n ∷ name) (m ∷ r ∷ rev) hn (ground (arith, hm)),
          cons-eq-nil n name,
          revision_of_lem full m r rev hm hr,
        )
        refl

  hf_parts_lem :
      hf_parts ((o ∷ org) <> ("/" ∷ ((n ∷ name) <> (m ∷ r ∷ rev)))) ≡ some (full, some (r ∷ rev))
  unfolding hf_parts
  hf_parts_lem =
      rw
        (
          span-append is_plain (o ∷ org) ("/" ∷ ((n ∷ name) <> (m ∷ r ∷ rev))) ho refl,
          cons-eq-nil o org,
        )
        named_lem

  strip_slashes_full :
      strip_slashes (o ∷ (org <> ("/" ∷ ((n ∷ name) <> (m ∷ r ∷ rev)))))
      ≡ o ∷ (org <> ("/" ∷ ((n ∷ name) <> (m ∷ r ∷ rev))))
  strip_slashes_full =
      rw (append_assoc, cons-append "/" (n ∷ name)) at
        (strip_slashes_lem o (org <> ("/" ∷ n ∷ name)) m (r ∷ rev) (plain-slash (code o) ho.0)
          (ground (arith, hm), no_slash (r ∷ rev) hr))

  -- A repository of the hub and a revision that is pinned with `:` or `@`, written as a storage
  -- URI, are read back, where the names hold none of `/`, `@` and `:` and the revision no `/`.
  pub parse_storage_uri_hub :
      parse_storage_uri (some ("hf://" <> ((o ∷ org) <> ("/" ∷ ((n ∷ name) <> (m ∷ r ∷ rev))))))
      ≡ some ((o ∷ org) <> ("/" ∷ n ∷ name), some (r ∷ rev), "hf_uri")
  unfolding hub full
  parse_storage_uri_hub =
      rw (parse_storage_uri_prefix, cons-append o org)
        (rw strip_slashes_full (rw (rw (cons-append o org) at hf_parts_lem) refl))
