-- ===== src/Cluster/Sidecar.antt =====
-- `_run_once` and `_publish_final` of the dataset sidecar. The world `W` around it is a parameter:
-- the file that it watches, the ConfigMap, and the time that passes while it sleeps.
pub mod Laws
use aibom_webhook_service.Base.{
  ℕ, zero, suc, String, ◌<>◌, Bool, true, false, not, ◌||◌, Option, none, some, List, [], ◌∷◌, ◌++◌,
  ◌*◌, ◌^◌, ◌+◌, ◌-◌, ◌==◌, if◌then◌else◌, nat_eq, is_some,
}
use aibom_webhook_service.Base.Dict.{Dict}
use aibom_webhook_service.Source.Container.{given}

pub record World (W : Type 0) : Type 0 where
  -- the time of the file's last change, if it is there
  pub mtime : W → Option ℕ
  -- the file as the canonical text that is signed, if it can be parsed
  pub payload : W → Option String
  -- the signature of a text, if there is a key
  pub sign : String → Option String
  -- whether the ConfigMap was written, and the world after that
  pub patch : Dict String → W → Bool × W
  -- the world after some seconds
  pub sleep : ℕ → W → W

abbrev pub final_publish_attempts : ℕ
final_publish_attempts = 4

-- `a == b` on times
abbrev pub same_time : Option ℕ → Option ℕ → Bool
same_time none none = true
same_time none (some b) = false
same_time (some a) none = false
same_time (some a) (some b) = nat_eq a b

-- the names from the environment: the pod, its namespace and the ConfigMap
pub record Settings : Type 0 where
  pub pod_name : String
  pub pod_namespace : String
  pub data_configmap : String

module _ {W : Type 0} (world : World W) (settings : Settings) where
  -- the payload and its signature
  unfoldable pub updates_of : String → Dict String
  updates_of payload =
      ("dataset-" <> (settings.pod_name <> ".json"), payload) ∷ signed (given (world.sign payload))
    where
      signed : Option String → Dict String
      signed none = []
      signed (some signature) = ("dataset-" <> (settings.pod_name <> ".sig"), signature) ∷ []

  unfoldable pub unset : Bool
  unset =
      (settings.pod_name == "") || (settings.pod_namespace == "") || (settings.data_configmap == "")

  -- the time that is kept after an attempt to publish
  unfoldable pub kept_time : Option ℕ → ℕ → Bool × W → Option ℕ × W
  kept_time last_mtime mtime (true, w) = (some mtime, w)
  kept_time last_mtime mtime (false, w) = (last_mtime, w)

  unfoldable pub publish : Option ℕ → ℕ → Option String → W → Option ℕ × W
  unfolding updates_of kept_time unset
  publish last_mtime mtime none w = (last_mtime, w)
  publish last_mtime mtime (some payload) w =
      if unset
      then (some mtime, w)
      else kept_time last_mtime mtime (world.patch (updates_of payload) w)

  -- with the time of the file's last change
  unfoldable pub check : Option ℕ → Option ℕ → W → Option ℕ × W
  unfolding publish
  check none last_mtime w = (last_mtime, w)
  check (some mtime) last_mtime w =
      if same_time (some mtime) last_mtime
      then (last_mtime, w)
      else publish last_mtime mtime (world.payload w) w

  unfoldable pub run_once : Option ℕ → W → Option ℕ × W
  unfolding check
  run_once last_mtime w = check (world.mtime w) last_mtime w

  -- how the last pass ended
  pub data Outcome : Type 0 where
    no_file : Outcome
    published : Outcome
    gave_up : Outcome

  -- after a pass, with the time of the file's last change and what the other attempts give
  unfoldable pub settle : Option ℕ → Option ℕ → W → Option ℕ × W × Outcome → Option ℕ × W × Outcome
  settle none last_mtime w again = (last_mtime, w, no_file)
  settle (some current) last_mtime w again =
      if same_time (some current) last_mtime then (last_mtime, w, published) else again

  -- `n` attempts after the first `attempt` ones
  unfoldable pub publish_from : ℕ → ℕ → Option ℕ → W → Option ℕ × W × Outcome
  unfolding run_once settle
  publish_from zero attempt last_mtime w = (last_mtime, w, gave_up)
  publish_from (suc n) attempt last_mtime w =
      let (last, w') = run_once last_mtime w in
      let next = if nat_eq n 0 then w' else world.sleep (2 ^ attempt) w' in
      settle (world.mtime w') last w' (publish_from n (attempt + 1) last next)

  unfoldable pub publish_final : Option ℕ → W → Option ℕ × W × Outcome
  unfolding publish_from
  publish_final = publish_from final_publish_attempts 0
