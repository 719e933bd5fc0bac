-- ===== src/Cluster/Sidecar/Laws.antt =====
-- What the sidecar has published when it stops.
use mathlib.Core.Path.{subst}
use aibom_webhook_service.Base.{
  ℕ, zero, suc, String, ◌||◌, ◌^◌, if◌then◌else◌, ◌≡◌, ◌≢◌, refl, Bool, true, false, Option, none,
  some, arith, ◌⊎◌, inl, inr, ◌+◌, ◌∙◌, sym, nat_eq, nat_eq_iff, Bool-cases, Option-cases,
}
use aibom_webhook_service.Base.Dict.{Dict}
use aibom_webhook_service.Cluster.Sidecar.{
  World, Settings, same_time, updates_of, unset, kept_time, publish, check, settle, run_once,
  Outcome, Outcome.published, Outcome.gave_up, publish_from, publish_final,
}

same_time_eq : (a b : Option ℕ) → same_time a b ≡ true → a ≡ b
same_time_eq none none h = refl
same_time_eq none (some b) h = absurd (cc)
same_time_eq (some a) none h = absurd (cc)
same_time_eq (some a) (some b) h = ground (arith, nat_eq_iff a b, h)

same_time_refl : (t : ℕ) → same_time (some t) (some t) ≡ true
same_time_refl t = (nat_eq_iff t t).1 refl

module _ {W : Type 0} (world : World W) (settings : Settings) where
  -- The file of this time was handed to the ConfigMap, or there is no ConfigMap to write.
  pub data Sent (w : W) (time : Option ℕ) : Type 0 where
    nowhere : world.mtime w ≡ time → unset world settings ≡ true → Sent w time
    sent :
        (payload : String)
        → world.mtime w ≡ time
        → world.payload w ≡ some payload
        → (world.patch (updates_of world settings payload) w).0 ≡ true
        → Sent w time

  kept_time-Sent :
      (last_mtime : Option ℕ) (mtime : ℕ) (answer : Bool × W)
      → ((kept_time world settings last_mtime mtime answer).0 ≡ last_mtime)
        ⊎ ((answer.0 ≡ true) × ((kept_time world settings last_mtime mtime answer).0 ≡ some mtime))
  unfolding kept_time
  kept_time-Sent last_mtime mtime (true, w) = inr (refl, refl)
  kept_time-Sent last_mtime mtime (false, w) = inl refl

  publish-Sent :
      (last_mtime : Option ℕ) (mtime : ℕ) (w : W)
      → world.mtime w ≡ some mtime
      → ((publish world settings last_mtime mtime (world.payload w) w).0 ≡ last_mtime)
        ⊎ Sent w (publish world settings last_mtime mtime (world.payload w) w).0
  unfolding publish
  publish-Sent last_mtime mtime w e = elim (Option-cases (world.payload w)) [
    | inl none_there ↦ rw none_there (inl refl)
    | inr (payload, p) ↦ rw p (elim (Bool-cases (unset world settings)) [
      | inl u ↦ rw u (inr (nowhere e u))
      | inr u ↦
          rw u
            (elim (kept_time-Sent last_mtime mtime
              (world.patch (updates_of world settings payload) w)) [
                | inl same ↦ inl same
                | inr (answered, time) ↦ inr (rw time (sent payload e p answered))
              ])
    ])
  ]

  check-Sent :
      (found last_mtime : Option ℕ) (w : W)
      → world.mtime w ≡ found
      → ((check world settings found last_mtime w).0 ≡ last_mtime)
        ⊎ Sent w (check world settings found last_mtime w).0
  unfolding check
  check-Sent none last_mtime w e = inl refl
  check-Sent (some mtime) last_mtime w e = elim (Bool-cases (same_time (some mtime) last_mtime)) [
    | inl s ↦ rw (s, check) (inl refl)
    | inr s ↦ rw (s, check) (publish-Sent last_mtime mtime w e)
  ]

  -- The time that the sidecar remembers moves on only to the time of a file that the ConfigMap took,
  -- or that has no ConfigMap to go to: a failed write is tried again with the same file.
  pub run_once-Sent :
      (last_mtime : Option ℕ) (w : W)
      → ((run_once world settings last_mtime w).0 ≡ last_mtime)
        ⊎ Sent w (run_once world settings last_mtime w).0
  unfolding run_once
  run_once-Sent last_mtime w = check-Sent (world.mtime w) last_mtime w refl

  -- a write and a pause leave the file as it is: its processes have ended
  pub record IsStable : Type 0 where
    pub patched_time : (u : Dict String) (w : W) → world.mtime (world.patch u w).1 ≡ world.mtime w
    pub slept_time : (n : ℕ) (w : W) → world.mtime (world.sleep n w) ≡ world.mtime w
    pub patched_payload :
        (u : Dict String) (w : W) → world.payload (world.patch u w).1 ≡ world.payload w
    pub slept_payload : (n : ℕ) (w : W) → world.payload (world.sleep n w) ≡ world.payload w

  -- whether the ConfigMap takes an update in one of `n` writes, with 2 ^ k seconds behind the k-th
  abbrev pub taken : Dict String → ℕ → ℕ → W → Bool
  taken u zero k w = false
  taken u (suc n) k w =
      let later = taken u n (k + 1) (world.sleep (2 ^ k) (world.patch u w).1) in
      (world.patch u w).0 || later

  -- the file of a time, which has a content and somewhere to go, and is not published
  module _ (stable : IsStable) (u : unset world settings ≡ false) (t : ℕ) (p : String)
      (last_mtime : Option ℕ) (newer : same_time (some t) last_mtime ≡ false) where
    updates : Dict String
    updates = updates_of world settings p

    run_once-unpublished :
        (w : W)
        → world.mtime w ≡ some t
        → world.payload w ≡ some p
        → run_once world settings last_mtime w
          ≡ kept_time world settings last_mtime t (world.patch updates w)
    unfolding run_once check publish updates
    run_once-unpublished w a b =
        rw (a, check) (rw (newer, b, if◌then◌else◌, publish) (rw (u, if◌then◌else◌) refl))

    -- the remembered time and the outcome, if the updates are taken or not
    abbrev Result : Bool → Option ℕ × W × Outcome world settings → Type 0
    Result true (last, w, outcome) = (last ≡ some t) × (outcome ≡ published)
    Result false (last, w, outcome) = (last ≡ last_mtime) × (outcome ≡ gave_up)

    Result-if :
        (sent : Bool) (r : Option ℕ × W × Outcome world settings)
        → Result sent r
        → (r.0 ≡ (if sent then some t else last_mtime))
          × (r.2 ≡ (if sent then published else gave_up))
    Result-if true r h = h
    Result-if false r h = h

    -- after an attempt whose write gave an answer
    after_attempt :
        (later : Bool) (answer : Bool × W)
        (again : Option ℕ → W → Option ℕ × W × Outcome world settings)
        → world.mtime answer.1 ≡ some t
        → Result later (again last_mtime answer.1)
        → let x = kept_time world settings last_mtime t answer in
          Result
            (answer.0 || later)
            (settle world settings (world.mtime x.1) x.0 x.1 (again x.0 x.1))
    unfolding kept_time settle
    after_attempt later (true, w) again e h =
        rw (e, settle) (rw (same_time_refl t, if◌then◌else◌) (refl, refl))
    after_attempt later (false, w) again e h = rw (e, settle) (rw (newer, if◌then◌else◌) h)

    -- there is no pause behind the last attempt
    after_pause :
        (n k : ℕ) (w : W)
        → Result
            (taken updates n (k + 1) (world.sleep (2 ^ k) w))
            (publish_from world settings n (k + 1) last_mtime (world.sleep (2 ^ k) w))
        → Result (taken updates n (k + 1) (world.sleep (2 ^ k) w)) (
            publish_from world settings n
              (k + 1)
              last_mtime
              (if nat_eq n 0 then w else world.sleep (2 ^ k) w))
    after_pause zero k w h = unfold publish_from in (refl, refl)
    after_pause (suc n) k w h =
        let e : nat_eq (suc n) 0 ≡ false = ground arith in rw (e, if◌then◌else◌) h

    publish_from-Result :
        (n k : ℕ) (w : W)
        → world.mtime w ≡ some t
        → world.payload w ≡ some p
        → Result (taken updates n k w) (publish_from world settings n k last_mtime w)
    unfolding publish_from settle
    publish_from-Result zero k w a b = (refl, refl)
    publish_from-Result (suc n) k w a b =
        let answer = world.patch updates w in
        let time = stable.patched_time updates w ∙ a in
        let next = world.sleep (2 ^ k) answer.1 in
        let rest = after_pause n k answer.1 (
          publish_from-Result n (k + 1) next (stable.slept_time (2 ^ k) answer.1 ∙ time)
            (stable.slept_payload (2 ^ k) answer.1 ∙ stable.patched_payload updates w ∙ b)) in
        let step =
          after_attempt (taken updates n (k + 1) next) answer
            (λ last w'.
              publish_from world settings n (k + 1) last
                (if nat_eq n 0 then w' else world.sleep (2 ^ k) w'))
            time rest in
        subst
          (λ x. Result (taken updates (suc n) k w) (
            settle world settings (world.mtime x.1) x.0 x.1 (
              publish_from world settings n (k + 1) x.0
                (if nat_eq n 0 then x.1 else world.sleep (2 ^ k) x.1))))
          (sym (run_once-unpublished w a b)) step

  not_same : (t : ℕ) (o : Option ℕ) → o ≢ some t → same_time (some t) o ≡ false
  not_same t o h = elim (Bool-cases (same_time (some t) o)) [
    | inl e ↦ absurd (h (sym (same_time_eq (some t) o e)))
    | inr e ↦ e
  ]

  -- When the sidecar stops with a file that can be parsed, is newer than what was published and no
  -- longer changes, and the names are set: if the ConfigMap takes the signed content in one of four
  -- writes, 1, 2 and 4 seconds apart, the pass ends as published and remembers the file's time; if
  -- it takes it in none of them, the sidecar gives up and remembers the time that it did.
  pub publish_final_lem :
      (stable : IsStable) (t : ℕ) (p : String) (last_mtime : Option ℕ) (w : W)
      → unset world settings ≡ false
      → last_mtime ≢ some t
      → world.mtime w ≡ some t
      → world.payload w ≡ some p
      → let (last, end, outcome) = publish_final world settings last_mtime w in
        let sent = taken (updates_of world settings p) 4 0 w in
        (last ≡ (if sent then some t else last_mtime))
        × (outcome ≡ (if sent then published else gave_up))
  unfolding publish_final updates
  publish_final_lem stable t p last_mtime w u newer a b =
      let n = not_same t last_mtime newer in
      Result-if stable u t p last_mtime n (taken (updates_of world settings p) 4 0 w)
        (publish_from world settings 4 0 last_mtime w)
        (publish_from-Result stable u t p last_mtime n 4 0 w a b)
