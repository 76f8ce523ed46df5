-- ===== src/Processing/Settings/Apply.antt =====
-- processing/settings.rs: a setting is applied to a channel.
use coolerocontrol.Base.{
  ℕ, String, Bool, true, false, not, ◌&&◌, ◌||◌, Option, none, some, List, [], ◌∷◌, map, string_eq,
  ◌==◌, if◌then◌else◌, is_empty, length, filterb, find_by, nat_eqb,
}
use coolerocontrol.Base.Float.{Float}
use coolerocontrol.Base.Outcome.{err, with_context, ensure}
use coolerocontrol.Base.Set.{contains}
use coolerocontrol.Base.State.{Action, lift, done, for_each, ◌>>=◌, ◌>>◌}
use coolerocontrol.Config.DeviceSettings.{is_true}
use coolerocontrol.Device.{Device, SpeedOptions}
use coolerocontrol.Setting.{
  Profile, ProfileType, Function, TempSource, LightingSettings, LcdSettings, Setting,
}
use coolerocontrol.Processing.{graph}
use coolerocontrol.Processing.Sensor.{is_some, is_identity}
use coolerocontrol.Processing.Settings.{
  Machine, SettingsController, apply_setting_speed_fixed, apply_setting_speed_profile,
  apply_setting_lcd, apply_setting_lighting, apply_setting_pwm_mode, apply_setting_reset, clear_mix,
  clear_graph, clear_lcd, get_device_repo, get_channel_info, get_speed_options, call, read_profiles,
  read_functions, store_device_setting, schedule_lcd, schedule_graph_profile, schedule_mix_profile,
}

-- `Setting { channel_name, reset_to_default: Some(true), ..Default::default() }`
abbrev pub reset_setting : String → Setting
reset_setting channel = record {
  channel_name = channel;
  speed_fixed = none;
  lighting = none;
  lcd = none;
  pwm_mode = none;
  reset_to_default = some true;
  profile_uid = none;
}

abbrev pub sync_channel_name : String
sync_channel_name = "sync"

module _ {F Doc : Type 0} (machine : Machine F Doc) where
  unfoldable pub set_fixed_speed :
      String → String → ℕ → Action (SettingsController F Doc) (Unit {0})
  set_fixed_speed uid channel speed_fixed = do
    device ← lift (get_device_repo machine uid)
    clear_mix uid channel
    clear_graph uid channel
    call machine (apply_setting_speed_fixed uid channel speed_fixed)

  unfoldable pub set_reset : String → String → Action (SettingsController F Doc) (Unit {0})
  set_reset uid channel = do
    device ← lift (get_device_repo machine uid)
    clear_mix uid channel
    clear_graph uid channel
    clear_lcd uid channel
    call machine (apply_setting_reset uid channel)

  unfoldable pub set_pwm_mode : String → String → ℕ → Action (SettingsController F Doc) (Unit {0})
  set_pwm_mode uid channel pwm_mode = do
    device ← lift (get_device_repo machine uid)
    call machine (apply_setting_pwm_mode uid channel pwm_mode)

  -- A screen that shows a temperature is updated by the LCD commander.
  abbrev pub show_lcd :
      String → String → LcdSettings → Bool → Action (SettingsController F Doc) (Unit {0})
  show_lcd uid channel lcd_settings true = do
    lift (
        ensure (is_some lcd_settings.temp_source)
          "A Temp Source must be set when scheduling a LCD Temperature display for this device")
    schedule_lcd machine uid channel lcd_settings
  show_lcd uid channel lcd_settings false = do
    clear_lcd uid channel
    call machine (apply_setting_lcd uid channel lcd_settings)

  unfoldable pub set_lcd :
      String → String → LcdSettings → Action (SettingsController F Doc) (Unit {0})
  set_lcd uid channel lcd_settings = do
    device ← lift (get_device_repo machine uid)
    info ← lift (get_channel_info machine device channel)
    lift (ensure (not (is_empty info.lcd_modes)) "LCD Screen modes not enabled for this device")
    show_lcd uid channel lcd_settings (lcd_settings.mode == "temp")

  abbrev pub lighting_channels : Device F → List String
  lighting_channels device =
      map (λ c. c.0) (filterb (λ c. not (is_empty c.1.lighting_modes)) device.info.channels)

  -- The lighting of all channels at once excludes that of a single one: what is stored for the
  -- others is reset.
  unfoldable pub reset_lighting :
      String → String → List String → Action (SettingsController F Doc) (Unit {0})
  reset_lighting uid channel channels =
      if not (contains sync_channel_name channels)
      then done
      else if channel == sync_channel_name
      then for_each
          (λ ch.
            if ch == sync_channel_name
            then done
            else store_device_setting machine uid (reset_setting ch))
          channels
      else store_device_setting machine uid (reset_setting sync_channel_name)

  unfoldable pub set_lighting :
      String → String → LightingSettings → Action (SettingsController F Doc) (Unit {0})
  set_lighting uid channel lighting_settings = do
    device ← lift (get_device_repo machine uid)
    reset_lighting uid channel (lighting_channels device)
    call machine (apply_setting_lighting uid channel lighting_settings)

  module _ ⦃fl : Float F⦄ where
    -- A curve in the firmware, if it can follow the source and the function, or else one that the
    -- graph commander follows.
    unfoldable pub drive_graph :
        String
        → String
        → Profile F
        → TempSource
        → List (F × ℕ)
        → SpeedOptions
        → Function F
        → Action (SettingsController F Doc) (Unit {0})
    drive_graph uid channel profile temp_source speed_profile options profile_function =
        let internal = temp_source.device_uid == uid in
        if options.profiles_enabled && internal && is_identity profile_function.f_type
        then (do
          clear_graph uid channel
          call machine (apply_setting_speed_profile uid channel temp_source speed_profile))
        else if (options.manual_profiles_enabled && internal)
            || (options.fixed_enabled && not internal)
        then schedule_graph_profile machine (graph uid channel) profile
        else lift (err "Speed Profiles not enabled for this device")

    unfoldable pub set_graph_profile :
        String → String → Profile F → Action (SettingsController F Doc) (Unit {0})
    set_graph_profile uid channel profile = do
      speed_profile ← lift (
          with_context "Speed Profile and Temp Source must be present for a Graph Profile"
            profile.speed_profile)
      temp_source ← lift (
          with_context "Speed Profile and Temp Source must be present for a Graph Profile"
            profile.temp_source)
      device ← lift (get_device_repo machine uid)
      speed_options ← lift (get_speed_options machine device channel)
      functions ← read_functions machine
      profile_function ← lift (
          with_context "Function should be present"
            (find_by (λ f. f.uid == profile.function_uid) functions))
      clear_mix uid channel
      drive_graph uid channel profile temp_source speed_profile speed_options profile_function

    abbrev pub all_present : List String → List (Profile F) → Bool
    all_present function_uids [] = true
    all_present function_uids (p ∷ ps) =
        contains p.function_uid function_uids && all_present function_uids ps

    unfoldable pub set_mix_profile :
        String → String → Profile F → Action (SettingsController F Doc) (Unit {0})
    set_mix_profile uid channel profile = do
      lift (
          ensure (not (is_empty profile.member_profile_uids))
            "Mix Profile should have member profiles")
      lift
          (ensure (is_some profile.mix_function_type) "Mix Profile should have a mix function type")
      device ← lift (get_device_repo machine uid)
      speed_options ← lift (get_speed_options machine device channel)
      profiles ← read_profiles machine
      let member_profiles = filterb (λ p. contains p.uid profile.member_profile_uids) profiles in
          do
            lift (
                ensure (nat_eqb (length member_profiles) (length profile.member_profile_uids))
                  "All Member Profiles should be present")
            functions ← read_functions machine
            lift (
                ensure (all_present (map (λ f. f.uid) functions) member_profiles)
                  "All Member Profile Functions should be present")
            lift (ensure speed_options.fixed_enabled "Device Control not enabled for this device")
            clear_graph uid channel
            schedule_mix_profile machine uid channel profile member_profiles

    unfoldable pub apply_profile :
        String → String → Profile F → ProfileType → Action (SettingsController F Doc) (Unit {0})
    apply_profile uid channel profile ProfileType.default = set_reset uid channel
    apply_profile uid channel profile ProfileType.fixed = do
      speed_fixed ←
          lift (with_context "Speed Fixed should be preset for Fixed Profiles" profile.speed_fixed)
      set_fixed_speed uid channel speed_fixed
    apply_profile uid channel profile ProfileType.graph = set_graph_profile uid channel profile
    apply_profile uid channel profile ProfileType.mix = set_mix_profile uid channel profile

    unfoldable pub set_profile :
        String → String → String → Action (SettingsController F Doc) (Unit {0})
    set_profile uid channel profile_uid = do
      profiles ← read_profiles machine
      profile ←
          lift (
            with_context "Profile should be present" (find_by (λ p. p.uid == profile_uid) profiles))
      apply_profile uid channel profile profile.p_type

    -- The first kind of setting that is present.
    abbrev pub set_present :
        String
        → String
        → Option ℕ
        → Option LightingSettings
        → Option LcdSettings
        → Option String
        → Action (SettingsController F Doc) (Unit {0})
    set_present uid channel (some speed_fixed) lighting lcd profile_uid =
        set_fixed_speed uid channel speed_fixed
    set_present uid channel none (some lighting) lcd profile_uid = set_lighting uid channel lighting
    set_present uid channel none none (some lcd) profile_uid = set_lcd uid channel lcd
    set_present uid channel none none none (some profile_uid) = set_profile uid channel profile_uid
    set_present uid channel none none none none = lift (err "Invalid Setting combination")

    unfoldable pub set_config_setting :
        String → Setting → Action (SettingsController F Doc) (Unit {0})
    set_config_setting uid setting =
        if is_true setting.reset_to_default
        then set_reset uid setting.channel_name
        else set_present uid setting.channel_name setting.speed_fixed setting.lighting setting.lcd
            setting.profile_uid
