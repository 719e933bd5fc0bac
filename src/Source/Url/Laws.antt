-- ===== src/Source/Url/Laws.antt =====
-- What a recorded URL holds.
use Prim.Native.String.{[], ◌∷◌, ◌++◌ as ◌<>◌}
use mathlib.Core.Path.{subst, sym}
use text.Mathlib.TextEquality.{Char-path, eq_iff}
use aibom_webhook_service.Base.{
  Char, code, String, ◌≡◌, refl, Bool, true, false, ◌||◌, Option, none, some, nat_eq_iff, ap,
  if◌then◌else◌, ◌==◌, ◌∙◌, Bool-cases, inl, inr,
}
use aibom_webhook_service.Base.Text.{partition, rpartition, contains, lower, same_char}
use aibom_webhook_service.Base.Text.Span.{NoChars, NoChars-append, cons-append, nil-append}
use aibom_webhook_service.Source.Url.Segments.{
  is_query, is_at, is_colon, IsPath, AtLast, partition-NoChars, partition_head, rpartition-AtLast,
  parts_of-NoChars, parts_of-IsPath,
}
use aibom_webhook_service.Command.Segments.{one_of}
use aibom_webhook_service.Source.Url.{
  Parts, split_scheme, drop_unsafe, drop_controls, parts_of, urlsplit, web_schemes, redact_sides,
  redact_netloc, redact_git_url,
}

-- a host, behind a user and an `@` if there is one
abbrev pub written : Option String → String → String
written none host = host
written (some user) host = user <> ("@" <> host)

-- the sides of the last `@` of a text make it up
Sides : String → Option (String × String) → Type 0
Sides s none = Unit
Sides s (some (a, b)) = s ≡ a <> ("@" <> b)

same_char-cons : (c d : Char) (s : String) → same_char c d ≡ true → c ∷ s ≡ "" <> ((d ∷ "") <> s)
same_char-cons c d s e =
    ap (λ (x : Char). x ∷ s) (Char-path c d ((nat_eq_iff (code c) (code d)).0 e))
    ∙ ap (λ (t : String). d ∷ t) (sym (nil-append s))
    ∙ sym (cons-append d "" s)
    ∙ sym (nil-append _)

Sides-cons :
    (c : Char) (s : String) (o : Option (String × String))
    → Sides s o
    → Sides (c ∷ s) (elim o [
      | some (head, tail) ↦ some (c ∷ head, tail)
      | none ↦ if same_char c "@" then some ("", s) else none
    ])
unfolding Sides
Sides-cons c s (some (a, b)) h = rw cons-append (ap (λ (t : String). c ∷ t) h)
Sides-cons c s none h = elim (Bool-cases (same_char c "@")) [
  | inl e ↦ rw (e, Sides) (same_char-cons c "@" s e)
  | inr e ↦ rw (e, Sides) tt
]

rpartition-Sides : (s : String) → Sides s (rpartition "@" s)
unfolding rpartition
rpartition-Sides [] = unfold Sides in tt
rpartition-Sides (c ∷ s) = Sides-cons c s (rpartition "@" s) (rpartition-Sides s)

-- a name, and behind a colon a password if there is one
abbrev pub with_password : String → Option String → String
with_password name none = name
with_password name (some password) = name <> (":" <> password)

cons-with_password :
    (c : Char) (name : String) (password : Option String)
    → with_password (c ∷ name) password ≡ c ∷ with_password name password
cons-with_password c name none = refl
cons-with_password c name (some password) = cons-append c name (":" <> password)

partition-with_password : (s : String) → s ≡ with_password (partition ":" s).0 (partition ":" s).1
unfolding partition
partition-with_password [] = refl
partition-with_password (c ∷ s) = elim (Bool-cases (same_char c ":")) [
  | inl e ↦ rw e (same_char-cons c ":" s e)
  | inr e ↦ rw e (
      ap (λ (t : String). c ∷ t) (partition-with_password s)
      ∙ sym (cons-with_password c (partition ":" s).0 (partition ":" s).1))
]

-- the user that is recorded for one that is written: none for a web URL, else its name
pub data OfUser (web : Bool) : Option String → Option String → Type 0 where
  no_user : OfUser web none none
  web_user : (userinfo : String) → web ≡ true → OfUser web (some userinfo) none
  nameless : (password : Option String) → OfUser web (some (with_password "" password)) none
  named :
      (name : String) (password : Option String)
      → web ≡ false
      → ¬ (name ≡ "")
      → NoChars is_colon name
      → OfUser web (some (with_password name password)) (some name)

abbrev pub is_web : String → Bool
is_web scheme = one_of web_schemes (lower scheme)

-- A recorded authority, of the one it is made from: the same host, and what `OfUser` says.
pub record RedactedNetloc (scheme netloc recorded : String) : Type 0 where
  pub userinfo : Option String
  pub host : String
  pub kept : Option String
  pub made_of : netloc ≡ written userinfo host
  pub no_at : NoChars is_at host
  pub of_user : OfUser (is_web scheme) userinfo kept
  pub shape : recorded ≡ written kept host

-- A recorded URL, of the parts of the one it is made from.
pub record Redacted (parts : Parts) (url : String) : Type 0 where
  pub netloc : String
  pub authority : RedactedNetloc parts.scheme parts.netloc netloc
  pub shape : url ≡ parts.scheme <> ("://" <> (netloc <> parts.path))
  pub no_query : NoChars is_query netloc × NoChars is_query parts.path
  pub behind : ¬ (parts.netloc ≡ "") → IsPath parts.path

redact_sides-Query :
    (scheme netloc : String) (o : Option (String × String))
    → NoChars is_query netloc
    → AtLast is_query "@" netloc o
    → NoChars is_query (redact_sides scheme netloc o)
unfolding redact_sides AtLast
redact_sides-Query scheme netloc none h k = h
redact_sides-Query scheme netloc (some (user, host)) h k =
    elim (Bool-cases (one_of web_schemes (lower scheme) || ((partition ":" user).0 == ""))) [
      | inl e ↦ rw (e, redact_sides) k.1
      | inr e ↦
          rw (e, redact_sides)
            (NoChars-append is_query _ _ (partition-NoChars is_query ":" user k.0)
              (NoChars-append is_query "@" host (refl, tt) k.1))
    ]

redact_sides-RedactedNetloc :
    (scheme netloc : String) (o : Option (String × String))
    → AtLast is_query "@" netloc o
    → Sides netloc o
    → RedactedNetloc scheme netloc (redact_sides scheme netloc o)
unfolding redact_sides AtLast Sides
redact_sides-RedactedNetloc scheme netloc none k h = record {
  userinfo = none;
  host = netloc;
  kept = none;
  made_of = refl;
  no_at = k;
  of_user = no_user;
  shape = refl;
}
redact_sides-RedactedNetloc scheme netloc (some (user, host)) k h =
    let name = (partition ":" user).0 in
    let password = (partition ":" user).1 in
    let whole = partition-with_password user in
    elim (Bool-cases (is_web scheme)) [
      | inl w ↦
          rw (w, redact_sides)
            (record {
              userinfo = some user;
              host = host;
              kept = none;
              made_of = h;
              no_at = k.2;
              of_user = web_user user w;
              shape = refl;
            })
      | inr w ↦ elim (Bool-cases (name == "")) [
        | inl e ↦
            rw (w, e, redact_sides)
              (record {
                userinfo = some user;
                host = host;
                kept = none;
                made_of = h;
                no_at = k.2;
                of_user =
                    subst (λ (u : String). OfUser (is_web scheme) (some u) none)
                      (sym (whole ∙ ap (λ n. with_password n password) ((eq_iff name "").0 e)))
                      (nameless password);
                shape = refl;
              })
        | inr e ↦
            rw (w, e, redact_sides)
              (record {
                userinfo = some user;
                host = host;
                kept = some name;
                made_of = h;
                no_at = k.2;
                of_user =
                    subst (λ (u : String). OfUser (is_web scheme) (some u) (some name)) (sym whole)
                      (named name password w (λ p. absurd (cc (e, (eq_iff name "").1 p)))
                        (partition_head ":" user));
                shape = refl;
              })
      ]
    ]

redacted :
    (scheme rest : String)
    → Redacted (parts_of scheme rest) (
        scheme
        <> ("://"
            <> (redact_netloc scheme (parts_of scheme rest).netloc <> (parts_of scheme rest).path)))
unfolding redact_netloc
redacted scheme rest =
    let p = parts_of scheme rest in
    let h = parts_of-NoChars scheme rest in
    let k = rpartition-AtLast is_query "@" p.netloc h.0 in
    record {
      netloc = redact_netloc scheme p.netloc;
      authority =
          unfold parts_of in
          redact_sides-RedactedNetloc scheme p.netloc _ k (rpartition-Sides p.netloc);
      shape = unfold parts_of in refl;
      no_query = (redact_sides-Query scheme p.netloc _ h.0 k, h.1);
      behind = parts_of-IsPath scheme rest;
    }

of_if : (b : Bool) (x y : Parts) → (if b then some x else none) ≡ some y → x ≡ y
of_if true x y e = cc
of_if false x y e = absurd (cc)

urlsplit-parts_of :
    (valid_netloc : String → Bool) (url : String) (parts : Parts)
    → urlsplit valid_netloc url ≡ some parts
    → (let x = split_scheme (drop_unsafe (drop_controls url)) in parts_of x.0 x.1) ≡ parts
unfolding urlsplit
urlsplit-parts_of valid_netloc url parts e =
    let x = split_scheme (drop_unsafe (drop_controls url)) in
    let p = parts_of x.0 x.1 in of_if (valid_netloc p.netloc) p parts e

-- A URL that has `://` and can be split is recorded with its scheme, its host and its path, without
-- its query and its fragment. Of the user and the password before its host nothing is recorded if
-- its scheme is one of the web, and else at most the name, which is not empty, without the password.
-- If the URL has an authority, nothing stands behind the host or a path that starts with a slash.
pub redact_git_url-Redacted :
    (valid_netloc : String → Bool) (url : String) (parts : Parts)
    → contains url "://" ≡ true
    → urlsplit valid_netloc url ≡ some parts
    → Redacted parts (redact_git_url valid_netloc url)
unfolding redact_git_url
redact_git_url-Redacted valid_netloc url parts c e =
    rw (c, e)
      (subst (λ p. Redacted p (p.scheme <> ("://" <> (redact_netloc p.scheme p.netloc <> p.path))))
        (urlsplit-parts_of valid_netloc url parts e)
        (unfold parts_of in
          redacted (split_scheme (drop_unsafe (drop_controls url))).0
            (split_scheme (drop_unsafe (drop_controls url))).1))
