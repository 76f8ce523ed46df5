-- ===== src/Modes/Load.antt =====
-- modes.rs: reading the modes from their file, and the mode that takes over the current settings.
use coolerocontrol.Base.{String, Bool, none, some, List, [], ◌∷◌, string_eq, if◌then◌else◌}
use coolerocontrol.Base.Dict.{Dict, get, insert}
use coolerocontrol.Base.Outcome.{Outcome, ok, err, panic}
use coolerocontrol.Setting.{Setting}
use coolerocontrol.Modes.{
  Mode, ModeConfigFile, ModeController, by_device, save_modes_data, determine_active_mode,
}

unfoldable pub insert_modes : List Mode → Dict String Mode → Dict String Mode
insert_modes [] modes = modes
insert_modes (mode ∷ rest) modes = insert_modes rest (insert mode.uid mode modes)

abbrev pub filled_from : ModeConfigFile → ModeController → ModeController
filled_from file c = record c {
  modes = insert_modes file.modes [];
  mode_order = file.order;
  config_file = file;
}

-- A file that cannot be read is written anew, if it can be, and then it can be read. The JSON of a
-- file is its content. The directory exists.
unfoldable pub fill_data_from_mode_config_file :
    Bool → Bool → ModeController → ModeController × Outcome (Unit {0})
fill_data_from_mode_config_file readable writes c =
    if readable
    then (filled_from c.config_file c, ok tt)
    else if writes
    then (filled_from (record { modes = []; order = [] }) c, ok tt)
    else (c, err "Writing new configuration file")

-- `config_file` is what the file holds when the daemon starts.
unfoldable pub init : Bool → Bool → ModeConfigFile → ModeController × Outcome (Unit {0})
init readable writes config_file =
    fill_data_from_mode_config_file readable writes
      (record { modes = []; mode_order = []; active_mode = none; config_file = config_file })

unfoldable pub update_with :
    Bool
    → String
    → Outcome (Dict String (List Setting))
    → ModeController
    → ModeController × Outcome (Unit {0})
update_with writes mode_uid all_settings c = elim c.active_mode [
  | some _ ↦ (c, err "There is already a Mode with these Device Settings.")
  | none ↦ elim (get mode_uid c.modes) [
    | none ↦ (c, err "Mode not found")
    | some mode ↦ elim all_settings [
      | ok settings ↦ save_modes_data writes (record c {
        modes =
            insert mode_uid (record mode { all_device_settings = by_device settings [] }) c.modes;
      })
      | err e ↦ (c, err e)
      | panic ↦ (c, panic)
    ]
  ]
]

-- The mode that the code returns is the one that `get_mode` finds afterwards.
unfoldable pub update_mode_with_current_settings :
    (String → Outcome (List Setting))
    → List String
    → Bool
    → String
    → Outcome (Dict String (List Setting))
    → ModeController
    → ModeController × Outcome (Unit {0})
update_mode_with_current_settings get_device_settings devices writes mode_uid all_settings c =
    elim (determine_active_mode get_device_settings devices c) [
      | ok determined ↦ update_with writes mode_uid all_settings determined
      | err e ↦ (c, err e)
      | panic ↦ (c, panic)
    ]
