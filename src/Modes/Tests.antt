-- ===== src/Modes/Tests.antt =====
-- The modes on sample settings, and instances of the theorems.
use coolerocontrol.Base.{
  ◌≡◌, refl, String, Bool, true, Option, none, some, List, [], ◌∷◌, string_eq, Any,
}
use coolerocontrol.Base.Dict.{get, contains_key, insert, remove}
use coolerocontrol.Base.Set
use coolerocontrol.Base.Outcome.{Outcome, ok, Returns}
use coolerocontrol.Setting.{Setting, setting_eqb}
use coolerocontrol.Modes.{
  activate_mode, finish_activation, activate_devices, activate_channels, by_channel, by_device,
  add_mode, save_modes_data, Mode, ModeController, determine_active_mode, create_with, delete_mode,
  get_modes, get_mode,
}
use coolerocontrol.Modes.Active.{IsActive, determine_active_mode-IsActive}
use coolerocontrol.Modes.Activate.{IsActivation, activate_mode-IsActivation}
use coolerocontrol.Modes.Run.{Reachable, started, stepped, created, Reachable-listed}
use coolerocontrol.Modes.Load.{init, insert_modes, fill_data_from_mode_config_file}
use coolerocontrol.Modes.Deleted.{
  search_channels, search_devices, search_for_deleted_profile, without_setting,
  remove_affected_setting, remove_affected_settings, profile_deleted,
}
use coolerocontrol.Modes.Order.{IsConsistent, IsDeleted, delete_mode-IsDeleted}

abbrev fan_setting : Option String → Setting
fan_setting profile_uid = record {
  channel_name = "fan1";
  speed_fixed = none;
  lighting = none;
  lcd = none;
  pwm_mode = none;
  reset_to_default = none;
  profile_uid = profile_uid;
}

abbrev silent : Mode
silent = record {
  uid = "m1";
  name = "silent";
  all_device_settings = ("dev", ("fan1", fan_setting (some "p1")) ∷ []) ∷ [];
}

abbrev controller : Option String → ModeController
controller active = record {
  modes = ("m1", silent) ∷ [];
  mode_order = "m1" ∷ [];
  active_mode = active;
  config_file = record { modes = []; order = [] };
}

abbrev saved_settings : String → Outcome (List Setting)
saved_settings uid = ok (fan_setting (some "p1") ∷ [])

controller-IsConsistent : (active : Option String) → IsConsistent (controller active)
unfolding contains_key Set.contains
controller-IsConsistent active uid = refl

determine_active_mode-IsActive_example :
    Returns (determine_active_mode saved_settings ("dev" ∷ []) (controller none)) λ c'.
      (c' ≡ record (controller none) { active_mode = c'.active_mode })
      × IsActive saved_settings ("dev" ∷ []) (controller none).modes c'.active_mode
determine_active_mode-IsActive_example =
    determine_active_mode-IsActive saved_settings ("dev" ∷ []) (controller none)
      ((fan_setting (some "p1") ∷ [], refl), tt)

delete_mode-IsDeleted_example :
    IsDeleted "m1" (controller none) (delete_mode true "m1" (controller none))
unfolding contains_key
delete_mode-IsDeleted_example =
    delete_mode-IsDeleted true "m1" (controller none) (controller-IsConsistent none) refl

abbrev empty : ModeController
empty = record {
  modes = [];
  mode_order = [];
  active_mode = none;
  config_file = record { modes = []; order = [] };
}

abbrev with_silent : ModeController
with_silent =
    (create_with true "m1" "silent" (ok (("dev", fan_setting (some "p1") ∷ []) ∷ [])) empty).0

empty-Reachable : Reachable empty
unfolding init fill_data_from_mode_config_file insert_modes contains_key Set.contains
empty-Reachable = started true (record { modes = []; order = [] }) tt (λ k. refl)

with_silent-Reachable : Reachable with_silent
with_silent-Reachable =
    stepped empty-Reachable
      (created true "m1" "silent" (("dev", fan_setting (some "p1") ∷ []) ∷ []))

silent_sample : get_mode "m1" with_silent ≡ some silent
unfolding get_mode get create_with add_mode by_device by_channel save_modes_data insert
silent_sample = refl

Reachable-listed_example : Any (λ x. x ≡ silent) (get_modes with_silent)
Reachable-listed_example =
    Reachable-listed with_silent "m1" silent with_silent-Reachable silent_sample

abbrev takes_all : String → Setting → Bool
takes_all device_uid setting = true

abbrev all_present : String → Bool
all_present device_uid = true

activate_sample :
    (activate_mode takes_all
      (λ _. ok (fan_setting none ∷ []))
      all_present
      true
      "m1"
      (controller none)).0.1
    ≡ ("dev", fan_setting (some "p1")) ∷ []
unfolding activate_mode get finish_activation activate_devices activate_channels by_channel insert
    setting_eqb
activate_sample = refl

activate_mode-IsActivation_example :
    IsActivation takes_all saved_settings all_present "m1" silent
      (controller none)
      (activate_mode takes_all saved_settings all_present true "m1" (controller none))
unfolding get
activate_mode-IsActivation_example =
    activate_mode-IsActivation takes_all saved_settings all_present true "m1" silent
      (controller none) refl

-- The only setting of the mode goes, and the device with it.
profile_deleted_sample :
    get_mode "m1" (profile_deleted true "p1" with_silent).0
    ≡ some (record silent { all_device_settings = [] })
unfolding get_mode get create_with add_mode by_device by_channel save_modes_data insert
    profile_deleted search_for_deleted_profile search_devices search_channels remove
    remove_affected_settings remove_affected_setting without_setting
profile_deleted_sample = refl
