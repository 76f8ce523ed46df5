-- ===== src/Modes/Deleted.antt =====
-- modes.rs: a profile that is deleted leaves all modes.
pub mod Found
pub mod Removed
pub mod Lookup
pub mod Cleaned
use coolerocontrol.Base.{
  String, Bool, true, false, Option, none, some, List, [], ◌∷◌, ◌++◌, string_eq, ◌==◌,
  if◌then◌else◌, is_empty,
}
use coolerocontrol.Base.Dict.{Dict, get, insert, remove}
use coolerocontrol.Base.Outcome.{Outcome, ok, err, panic, unwrap, ◌>>=◌}
use coolerocontrol.Setting.{Setting}
use coolerocontrol.Modes.{AllDeviceSettings, Mode, ModeController, save_modes_data}

-- The mode, the device and the channel of a setting.
abbrev pub Place : Type 0
Place = String × String × String

abbrev pub is_profile : String → Option String → Bool
is_profile profile_uid none = false
is_profile profile_uid (some p_uid) = p_uid == profile_uid

module _ (profile_uid : String) where
  unfoldable pub search_channels : String → String → Dict String Setting → List Place
  search_channels mode_uid device_uid [] = []
  search_channels mode_uid device_uid ((channel_name, setting) ∷ rest) =
      let others = search_channels mode_uid device_uid rest in
      if is_profile profile_uid setting.profile_uid
      then (mode_uid, device_uid, channel_name) ∷ others
      else others

  unfoldable pub search_devices : String → AllDeviceSettings → List Place
  search_devices mode_uid [] = []
  search_devices mode_uid ((device_uid, device_settings) ∷ rest) =
      search_channels mode_uid device_uid device_settings ++ search_devices mode_uid rest

  unfoldable pub search_for_deleted_profile : Dict String Mode → List Place
  search_for_deleted_profile [] = []
  search_for_deleted_profile ((_, mode) ∷ rest) =
      search_devices mode.uid mode.all_device_settings ++ search_for_deleted_profile rest

-- A device without settings goes, too.
unfoldable pub without_setting :
    String → String → Dict String Setting → AllDeviceSettings → AllDeviceSettings
without_setting device_uid channel_name device_settings all_device_settings =
    let left = remove channel_name device_settings in
    if is_empty left
    then remove device_uid all_device_settings
    else insert device_uid left all_device_settings

unfoldable pub remove_affected_setting : Place → Dict String Mode → Outcome (Dict String Mode)
remove_affected_setting (mode_uid, device_uid, channel_name) modes = do
  mode ← unwrap (get mode_uid modes)
  device_settings ← unwrap (get device_uid mode.all_device_settings)
  ok (
      insert mode_uid
        (record mode {
          all_device_settings =
              without_setting device_uid channel_name device_settings mode.all_device_settings;
        })
        modes)

unfoldable pub remove_affected_settings : List Place → Dict String Mode → Outcome (Dict String Mode)
remove_affected_settings [] modes = ok modes
remove_affected_settings (place ∷ rest) modes = do
  removed ← remove_affected_setting place modes
  remove_affected_settings rest removed

unfoldable pub profile_deleted :
    Bool → String → ModeController → ModeController × Outcome (Unit {0})
profile_deleted writes profile_uid c =
    elim (remove_affected_settings (search_for_deleted_profile profile_uid c.modes) c.modes) [
      | ok modes ↦ save_modes_data writes (record c { modes = modes })
      | err e ↦ (c, err e)
      | panic ↦ (c, panic)
    ]
