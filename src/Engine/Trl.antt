-- ===== src/Engine/Trl.antt =====
-- `detect_trl_from_command`.
pub mod Laws
use aibom_webhook_service.Base.{
  String, Bool, true, false, not, ◌&&◌, ◌||◌, Option, none, some, List, [], ◌∷◌, ◌==◌,
  if◌then◌else◌, is_some,
}
use aibom_webhook_service.Base.Dict
use aibom_webhook_service.Base.Dict.{Dict}
use aibom_webhook_service.Value.{Value, PyFloat, bool, text}
use aibom_webhook_service.Command.Flags.{parse_flags}
use aibom_webhook_service.Engine.Invocation.{server_args, trl_here}
use aibom_webhook_service.Engine.ArgMaps.{trl_arg_map}

module _ {R : Type 0} where
  -- `result.pop(key, False)` for a bool flag: its value
  unfoldable pub switch : String → Dict (Value R) → Bool
  unfolding Dict.lookup
  switch key d = elim (Dict.lookup key d) [ some (bool b) ↦ b | _ ↦ false ]

  -- the method that the flags of one invocation name
  unfoldable pub adaptation_method : Dict (Value R) → Option String
  unfolding switch Dict.lookup
  adaptation_method d =
      if not (switch "use_peft" d)
      then none
      else if not (is_some (Dict.lookup "lora_rank" d))
      then some "peft"
      else if switch "use_dora" d
      then some "dora"
      else if switch "use_rslora" d
      then some "rslora"
      else if switch "load_in_4bit" d || switch "load_in_8bit" d
      then some "qlora"
      else some "lora"

  without_switches : Dict (Value R) → Dict (Value R)
  unfolding Dict.erase
  without_switches d = Dict.erase "use_peft" (
      Dict.erase "load_in_8bit"
        (Dict.erase "load_in_4bit" (Dict.erase "use_rslora" (Dict.erase "use_dora" d))))

  add_method : Option String → Dict (Value R) → Dict (Value R)
  unfolding Dict.insert
  add_method none d = d
  add_method (some method) d = Dict.insert "adaptation_method" (text method) d

  pub trl_result : Dict (Value R) → Dict (Value R)
  trl_result parsed =
      let result = Dict.update (("training_framework", text "trl") ∷ []) parsed in
      add_method (adaptation_method result) (without_switches result)

module _ {R : Type 0} (F : PyFloat R) where
  unfoldable pub detect_trl_from_command : List String → Option (Dict (Value R))
  unfolding trl_result adaptation_method without_switches add_method Dict.update parse_flags
      server_args trl_here
  detect_trl_from_command command = elim (server_args trl_here command) [
    | none ↦ none
    | some args ↦ some (trl_result (parse_flags (trl_arg_map F) "_" true args).0)
  ]
