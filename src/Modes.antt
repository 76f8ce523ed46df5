-- ===== src/Modes.antt =====
-- modes.rs: snapshots of the settings of all devices, and which of them is active.
pub mod Active
pub mod Order
pub mod Run
pub mod Activate
pub mod Load
pub mod Boot
pub mod Keys
pub mod Reload
pub mod Deleted
pub mod Tests
use coolerocontrol.Base.{
  ℕ, String, Bool, true, false, not, ◌&&◌, Option, none, some, List, [], ◌∷◌, ◌++◌, map, string_eq,
  nat_eq, ◌==◌, if◌then◌else◌, is_empty, length,
}
use coolerocontrol.Base.Dict.{Dict, get, contains_key, insert, remove}
use coolerocontrol.Base.Outcome.{Outcome, ok, err, panic, with_context, ensure, ◌>>=◌, ◌>>◌}
use coolerocontrol.Setting.{Setting, setting_eqb, default_profile_uid}

-- Settings by device UID and channel name.
abbrev pub AllDeviceSettings : Type 0
AllDeviceSettings = Dict String (Dict String Setting)

pub record Mode : Type 0 where
  pub uid : String
  pub name : String
  pub all_device_settings : AllDeviceSettings

-- What is in the configuration file of the modes.
pub record ModeConfigFile : Type 0 where
  pub modes : List Mode
  pub order : List String

pub record ModeController : Type 0 where
  pub modes : Dict String Mode
  pub mode_order : List String
  pub active_mode : Option String
  pub config_file : ModeConfigFile

-- `expect` of what the configuration returns.
abbrev pub expect {ℓ} : {A : Type ℓ} → Outcome A → Outcome A
expect (ok a) = ok a
expect (err e) = panic
expect panic = panic

-- `p_uid == DEFAULT_PROFILE_UID`, where there is one.
abbrev pub is_default_profile : Option String → Bool
is_default_profile none = false
is_default_profile (some uid) = uid == default_profile_uid

-- A channel that the mode does not know matches if it has the default profile.
abbrev pub channel_matches : Setting → Option Setting → Bool
channel_matches channel_setting none = is_default_profile channel_setting.profile_uid
channel_matches channel_setting (some mode_channel_setting) =
    setting_eqb channel_setting mode_channel_setting

unfoldable pub channels_match : Dict String Setting → List Setting → Bool
channels_match mode_channel_settings [] = true
channels_match mode_channel_settings (s ∷ rest) =
    channel_matches s (get s.channel_name mode_channel_settings)
    && channels_match mode_channel_settings rest

-- A device that the mode does not know matches if it has no settings.
abbrev pub device_matches : Option (Dict String Setting) → List Setting → Bool
device_matches none settings = is_empty settings
device_matches (some mode_channel_settings) settings = channels_match mode_channel_settings settings

-- `get_device_settings` is of the configuration.
module _ (get_device_settings : String → Outcome (List Setting)) where
  -- The loop over the present devices, which ends at the first that does not match.
  unfoldable pub mode_matches : AllDeviceSettings → List String → Outcome Bool
  mode_matches all_device_settings [] = ok true
  mode_matches all_device_settings (device_uid ∷ rest) = do
    settings ← expect (get_device_settings device_uid)
    let others = mode_matches all_device_settings rest
    if device_matches (get device_uid all_device_settings) settings then others else ok false

  -- The loop over the modes, which ends at the first that matches.
  unfoldable pub find_active_mode : List String → Dict String Mode → Outcome (Option String)
  find_active_mode devices [] = ok none
  find_active_mode devices ((mode_uid, mode) ∷ rest) = do
    matches ← mode_matches mode.all_device_settings devices
    let others = find_active_mode devices rest
    if matches then ok (some mode_uid) else others

  unfoldable pub determine_active_mode : List String → ModeController → Outcome ModeController
  determine_active_mode devices c = do
    active ← find_active_mode devices c.modes
    ok (record c { active_mode = active })

-- The modes in their order; a UID without a mode is skipped.
unfoldable pub modes_in : Dict String Mode → List String → List Mode
modes_in modes [] = []
modes_in modes (uid ∷ rest) = elim (get uid modes) [
  | none ↦ modes_in modes rest
  | some mode ↦ mode ∷ modes_in modes rest
]

unfoldable pub get_modes : ModeController → List Mode
get_modes c = modes_in c.modes c.mode_order

unfoldable pub get_mode : String → ModeController → Option Mode
get_mode mode_uid c = get mode_uid c.modes

-- The settings of a device by channel, and those of all devices.
unfoldable pub by_channel : List Setting → Dict String Setting → Dict String Setting
by_channel [] found = found
by_channel (s ∷ rest) found = by_channel rest (insert s.channel_name s found)

unfoldable pub by_device : Dict String (List Setting) → AllDeviceSettings → AllDeviceSettings
by_device [] found = found
by_device ((device_uid, settings) ∷ rest) found =
    by_device rest (insert device_uid (by_channel settings []) found)

-- `writes` says whether the file can be written.
unfoldable pub save_modes_data : Bool → ModeController → ModeController × Outcome (Unit {0})
save_modes_data true c = (
  record c { config_file = record { modes = map (λ e. e.1) c.modes; order = c.mode_order } },
  ok tt,
)
save_modes_data false c = (c, err "Writing Modes Configuration File")

-- The new mode is in place before it is saved. `mode_uid` is a new UUID.
unfoldable pub add_mode :
    Bool
    → String
    → String
    → AllDeviceSettings
    → ModeController
    → ModeController × Outcome (Unit {0})
add_mode writes mode_uid name all_device_settings c = save_modes_data writes (record c {
  modes =
      insert mode_uid
        (record { uid = mode_uid; name = name; all_device_settings = all_device_settings }) c.modes;
  mode_order = c.mode_order ++ mode_uid ∷ [];
})

unfoldable pub create_with :
    Bool
    → String
    → String
    → Outcome (Dict String (List Setting))
    → ModeController
    → ModeController × Outcome (Unit {0})
create_with writes mode_uid name all_settings c = elim c.active_mode [
  | some _ ↦ (c, err "A Mode already exists with these Device Settings.")
  | none ↦ elim all_settings [
    | ok settings ↦ add_mode writes mode_uid name (by_device settings []) c
    | err e ↦ (c, err e)
    | panic ↦ (c, panic)
  ]
]

-- The mode that the code returns is the one that `get_mode` finds afterwards.
unfoldable pub create_mode :
    (String → Outcome (List Setting))
    → List String
    → Bool
    → String
    → String
    → Outcome (Dict String (List Setting))
    → ModeController
    → ModeController × Outcome (Unit {0})
create_mode get_device_settings devices writes mode_uid name all_settings c =
    elim (determine_active_mode get_device_settings devices c) [
      | ok determined ↦ create_with writes mode_uid name all_settings determined
      | err e ↦ (c, err e)
      | panic ↦ (c, panic)
    ]

unfoldable pub update_mode :
    Bool → String → String → ModeController → ModeController × Outcome (Unit {0})
update_mode writes mode_uid name c = elim (get mode_uid c.modes) [
  | none ↦ (c, err "Mode not found")
  | some mode ↦
      save_modes_data writes
        (record c { modes = insert mode_uid (record mode { name = name }) c.modes })
]

-- Only the number of UIDs is checked.
unfoldable pub update_mode_order :
    Bool → List String → ModeController → ModeController × Outcome (Unit {0})
update_mode_order writes mode_uids c =
    if not (length c.mode_order == length mode_uids)
    then (c, err "Mode order list length doesn't match the number of modes")
    else save_modes_data writes (record c { mode_order = mode_uids })

-- `retain(|uid| uid != mode_uid)`
unfoldable pub retain_others : String → List String → List String
retain_others mode_uid [] = []
retain_others mode_uid (uid ∷ rest) =
    let others = retain_others mode_uid rest in if uid == mode_uid then others else uid ∷ others

unfoldable pub delete_mode : Bool → String → ModeController → ModeController × Outcome (Unit {0})
delete_mode writes mode_uid c =
    if contains_key mode_uid c.modes
    then save_modes_data writes (record c {
      modes = remove mode_uid c.modes;
      mode_order = retain_others mode_uid c.mode_order;
    })
    else (c, err "Mode not found")

-- `saved_setting == setting`, where there is one.
abbrev pub is_saved : Option Setting → Setting → Bool
is_saved none setting = false
is_saved (some saved_setting) setting = setting_eqb saved_setting setting

-- What is saved after applying: settings by device.
abbrev pub Sent : Type 0
Sent = List (String × Setting)

-- `saves` says whether the configuration can be saved.
unfoldable pub finish_activation :
    Bool
    → String
    → Sent × Outcome (Unit {0})
    → ModeController
    → (ModeController × Sent) × Outcome (Unit {0})
finish_activation saves mode_uid activated c = elim activated.1 [
  | err e ↦ ((c, activated.0), err e)
  | panic ↦ ((c, activated.0), panic)
  | ok _ ↦
      if saves
      then ((record c { active_mode = some mode_uid }, activated.0), ok tt)
      else ((c, activated.0), err "Saving the configuration file")
]

abbrev pub is_active : String → Option String → Bool
is_active mode_uid none = false
is_active mode_uid (some active_mode_uid) = active_mode_uid == mode_uid

-- `applies` says whether the settings controller can apply a setting to a device: only then it is
-- saved.
module _ (applies : String → Setting → Bool) where
  unfoldable pub activate_channels : String → Dict String Setting → Dict String Setting → Sent
  activate_channels device_uid saved [] = []
  activate_channels device_uid saved ((channel_name, setting) ∷ rest) =
      let others = activate_channels device_uid saved rest in
      if is_saved (get channel_name saved) setting
      then others
      else if applies device_uid setting
      then (device_uid, setting) ∷ others
      else others

  -- Devices that are not present are skipped. An error ends the loop; what was applied stays.
  unfoldable pub activate_devices :
      (String → Outcome (List Setting))
      → (String → Bool)
      → AllDeviceSettings
      → Sent × Outcome (Unit {0})
  activate_devices get_device_settings present [] = ([], ok tt)
  activate_devices get_device_settings present ((device_uid, mode_device_settings) ∷ rest) =
      let others = activate_devices get_device_settings present rest in
      if not (present device_uid) then others else elim (get_device_settings device_uid) [
        | ok settings ↦ (
          activate_channels device_uid (by_channel settings []) mode_device_settings ++ others.0,
          others.1,
        )
        | err e ↦ ([], err e)
        | panic ↦ ([], panic)
      ]

  unfoldable pub activate_mode :
      (String → Outcome (List Setting))
      → (String → Bool)
      → Bool
      → String
      → ModeController
      → (ModeController × Sent) × Outcome (Unit {0})
  activate_mode get_device_settings present saves mode_uid c = elim (get mode_uid c.modes) [
    | none ↦ ((c, []), err "Mode not found")
    | some mode ↦
        if is_active mode_uid c.active_mode
        then ((c, []), ok tt)
        else finish_activation saves mode_uid
            (activate_devices get_device_settings present mode.all_device_settings) c
  ]
