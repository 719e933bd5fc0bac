-- ===== src/Cluster/Api/Laws.antt =====
-- `patch_configmap` among other writers.
use aibom_webhook_service.Base.{
  ℕ, String, ◌≡◌, refl, true, Option, none, some, is_some, arith, Option-cases, inl, inr,
}
use aibom_webhook_service.Base.Dict
use aibom_webhook_service.Base.Dict.{Dict}
use aibom_webhook_service.Base.Dict.Laws.{NodupKeys, lookup-update}
use aibom_webhook_service.Cluster.Api.{
  Answer, ok, http_error, ConfigMapApi, after_create, after_patch, patch_configmap,
}

-- What Kubernetes documents of a merge patch and of a creation, with the data that is read after
-- them, and of other writers that they delete nothing.
pub record Documented {S : Type 0} (api : ConfigMapApi S) : Type 0 where
  pub read : S → Option (Dict String)
  pub patch_found :
      (u : Dict String) (s : S) (d : Dict String)
      → read s ≡ some d
      → ((api.patch u s).0 ≡ ok tt) × (read (api.patch u s).1 ≡ some (Dict.update d u))
  pub patch_missing : (u : Dict String) (s : S) → read s ≡ none → (api.patch u s).0 ≡ http_error 404
  pub create_missing :
      (u : Dict String) (s : S)
      → read s ≡ none
      → ((api.create u s).0 ≡ ok tt) × (read (api.create u s).1 ≡ some u)
  pub create_found :
      (u : Dict String) (s : S) (d : Dict String)
      → read s ≡ some d
      → ((api.create u s).0 ≡ http_error 409) × (read (api.create u s).1 ≡ some d)
  pub between_kept :
      (s : S) (d : Dict String) → read s ≡ some d → is_some (read (api.between s)) ≡ true

abbrev the_error : ℕ → Answer Unit
the_error c = http_error c

error_eq : {c d : ℕ} → the_error c ≡ the_error d → c ≡ d
error_eq e = cc

module _ {S : Type 0} (api : ConfigMapApi S) (laws : Documented api) where
  -- The request succeeded, and every update is in the data.
  pub record Written (u : Dict String) (answer : Answer Unit × S) : Type 0 where
    pub content : Dict String
    pub answered : answer.0 ≡ ok tt
    pub now_read : laws.read answer.1 ≡ some content
    pub holds_updates :
        (k : String) (v : String) → Dict.lookup k u ≡ some v → Dict.lookup k content ≡ some v

  lookup-updated :
      (d u : Dict String) (k v : String)
      → NodupKeys u
      → Dict.lookup k u ≡ some v
      → Dict.lookup k (Dict.update d u) ≡ some v
  lookup-updated d u k v n e = rw (lookup-update k d u n, e) refl

  patched :
      (u : Dict String) (s : S) (d : Dict String)
      → NodupKeys u
      → laws.read s ≡ some d
      → Written u (api.patch u s)
  patched u s d n e =
      let p = laws.patch_found u s d e in
      record {
        content = Dict.update d u;
        answered = p.0;
        now_read = p.1;
        holds_updates = λ k v h. lookup-updated d u k v n h;
      }

  after_patch-ok : (u : Dict String) (p : Answer Unit × S) → p.0 ≡ ok tt → after_patch api u p ≡ p
  unfolding after_patch
  after_patch-ok u (ok x, s) e = refl
  after_patch-ok u (http_error c, s) e = absurd (cc)

  after_patch-missing :
      (u : Dict String) (p : Answer Unit × S)
      → p.0 ≡ http_error 404
      → after_patch api u p ≡ after_create api u (api.create u (api.between p.1))
  unfolding after_patch
  after_patch-missing u (ok x, s) e = absurd (cc)
  after_patch-missing u (http_error c, s) e = ground (arith, error_eq e)

  after_create-ok : (u : Dict String) (p : Answer Unit × S) → p.0 ≡ ok tt → after_create api u p ≡ p
  unfolding after_create
  after_create-ok u (ok x, s) e = refl
  after_create-ok u (http_error c, s) e = absurd (cc)

  after_create-conflict :
      (u : Dict String) (p : Answer Unit × S)
      → p.0 ≡ http_error 409
      → after_create api u p ≡ api.patch u (api.between p.1)
  unfolding after_create
  after_create-conflict u (ok x, s) e = absurd (cc)
  after_create-conflict u (http_error c, s) e = ground (arith, error_eq e)

  kept :
      (s : S) (d : Dict String) → laws.read s ≡ some d → is_some (laws.read (api.between s)) ≡ true
  kept = laws.between_kept

  created :
      (u : Dict String) (s : S) → NodupKeys u → Written u (after_create api u (api.create u s))
  created u s n = elim (Option-cases (laws.read s)) [
    | inl e ↦
        let p = laws.create_missing u s e in
        rw (after_create-ok u (api.create u s) p.0)
          (record { content = u; answered = p.0; now_read = p.1; holds_updates = λ k v h. h })
    | inr (d, e) ↦
        let p = laws.create_found u s d e in
        let t = (api.create u s).1 in
        rw (after_create-conflict u (api.create u s) p.0) (again t (kept t d p.1))
  ]
    where
      again :
          (t : S)
          → is_some (laws.read (api.between t)) ≡ true
          → Written u (api.patch u (api.between t))
      again t h = elim (Option-cases (laws.read (api.between t))) [
        | inl e ↦ absurd (ground (arith, h, e))
        | inr (d, e) ↦ patched u (api.between t) d n e
      ]

  -- Whatever other writers do between the requests, short of a deletion, and whether or not the
  -- ConfigMap is there, the data is written: no request's failure is left, and every key of the
  -- update has its value.
  pub patch_configmap-Written :
      (u : Dict String) (s : S) → NodupKeys u → Written u (patch_configmap api u s)
  unfolding patch_configmap
  patch_configmap-Written u s n = elim (Option-cases (laws.read s)) [
    | inl e ↦
        rw (after_patch-missing u (api.patch u s) (laws.patch_missing u s e))
          (created u (api.between (api.patch u s).1) n)
    | inr (d, e) ↦ let w = patched u s d n e in rw (after_patch-ok u (api.patch u s) w.answered) w
  ]
