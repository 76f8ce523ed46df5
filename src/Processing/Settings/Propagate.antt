-- ===== src/Processing/Settings/Propagate.antt =====
-- processing/settings.rs: changes of profiles, functions and custom sensors reach the channels that
-- use them, and what a tick does.
use coolerocontrol.Base.{
  ℕ, ltb, String, Bool, false, not, ◌&&◌, ◌||◌, Option, none, some, List, [], ◌∷◌, ◌++◌, map,
  string_eq, ◌==◌, if◌then◌else◌, is_empty, length, filterb,
}
use coolerocontrol.Base.Float.{Float}
use coolerocontrol.Base.Outcome.{Outcome, ok, err, panic}
use coolerocontrol.Base.Set.{contains}
use coolerocontrol.Base.State.{Action, lift, done, for_each, or_else, attempt, ◌>>=◌, ◌>>◌}
use coolerocontrol.Setting.{Profile, Setting, TempSource, LcdSettings, default_function_uid}
use coolerocontrol.Processing.Graph.{Applied, process_all_profiles}
use coolerocontrol.Processing.Graph
use coolerocontrol.Processing.Mix.{is_mix, MixProfileCommander}
use coolerocontrol.Processing.Mix
use coolerocontrol.Processing.Settings.{
  Machine, SettingsController, apply_setting_speed_fixed, read_profiles, store_device_setting,
  store_profile, with_commander,
}
use coolerocontrol.Processing.Settings.Apply.{set_profile, set_reset, reset_setting}

abbrev pub any {ℓ} : {A : Type ℓ} → (A → Bool) → List A → Bool
any p [] = false
any p (x ∷ xs) = p x || any p xs

abbrev pub is_source : String → Option TempSource → Bool
is_source sensor_id none = false
is_source sensor_id (some source) = source.temp_name == sensor_id

abbrev pub is_source_of : String → String → Option TempSource → Bool
is_source_of uid sensor_id none = false
is_source_of uid sensor_id (some source) = source.device_uid == uid && source.temp_name == sensor_id

abbrev pub is_lcd_source : String → String → Option LcdSettings → Bool
is_lcd_source uid sensor_id none = false
is_lcd_source uid sensor_id (some lcd) = is_source_of uid sensor_id lcd.temp_source

module _ {F : Type 0} where
  -- The mixes that have the profile as a member.
  unfoldable pub mixes_with : String → List (Profile F) → List (Profile F)
  mixes_with profile_uid =
      filterb (λ p. is_mix p.p_type && contains profile_uid p.member_profile_uids)

  abbrev pub is_among : String → List (Profile F) → Bool
  is_among uid = any (λ p. p.uid == uid)

  -- `retain(|p_uid| p_uid != profile_uid)`
  abbrev pub without_member : String → Profile F → Profile F
  without_member profile_uid p = record p {
    member_profile_uids = filterb (λ u. not (u == profile_uid)) p.member_profile_uids;
  }

module _ {F Doc : Type 0} (machine : Machine F Doc) where
  -- Settings that cannot be read count as none.
  abbrev pub settings_of : String → Action (SettingsController F Doc) (List Setting)
  settings_of uid = or_else [] λ s. (s, machine.configuration.get_device_settings uid s.config)

  abbrev pub get_profiles_or_none : Action (SettingsController F Doc) (List (Profile F))
  get_profiles_or_none = or_else [] (read_profiles machine)

  -- For each setting of a channel that has a profile, on every device.
  abbrev pub on_profile :
      (String → String → String → Action (SettingsController F Doc) (Unit {0}))
      → String
      → Setting
      → Option String
      → Action (SettingsController F Doc) (Unit {0})
  on_profile f uid setting none = done
  on_profile f uid setting (some profile_uid) = f uid setting.channel_name profile_uid

  unfoldable pub for_each_channel :
      (String → String → String → Action (SettingsController F Doc) (Unit {0}))
      → Action (SettingsController F Doc) (Unit {0})
  for_each_channel f =
      for_each
        (λ entry. do
          settings ← settings_of entry.0
          for_each (λ setting. on_profile f entry.0 setting setting.profile_uid) settings)
        machine.all_devices

  -- The commanders drop a call's error, so that only the call itself is recorded.
  abbrev pub with_applied : List Applied → SettingsController F Doc → SettingsController F Doc
  with_applied applied s = record s {
    calls =
        s.calls ++ map (λ a. apply_setting_speed_fixed a.device_uid a.channel_name a.duty) applied;
  }

  abbrev pub with_mixed :
      SettingsController F Doc
      → Outcome (MixProfileCommander F × List Applied)
      → SettingsController F Doc × Outcome (Unit {0})
  with_mixed s (ok (c, applied)) = (with_applied applied (record s { mix_commander = c }), ok tt)
  with_mixed s (err e) = (s, err e)
  with_mixed s panic = (s, panic)

  unfoldable pub custom_sensor_deleted :
      String → String → Action (SettingsController F Doc) (Unit {0})
  custom_sensor_deleted cs_device_uid custom_sensor_id = do
    profiles ← get_profiles_or_none
    settings ← λ s. (s, machine.configuration.get_device_settings cs_device_uid s.config)
    lift (
        if any (λ p. is_source custom_sensor_id p.temp_source) profiles
          || any (λ t. is_lcd_source cs_device_uid custom_sensor_id t.lcd) settings
        then err
            "Custom Sensor is being used by another setting. Please remove the custom sensor from your settings before deleting."
        else ok tt)

  module _ ⦃fl : Float F⦄ where
    unfoldable pub update_channel :
        String
        → List (Profile F)
        → String
        → String
        → String
        → Action (SettingsController F Doc) (Unit {0})
    update_channel profile_uid affected_mix_profiles uid channel setting_profile_uid =
        if setting_profile_uid == profile_uid
        then attempt (set_profile machine uid channel profile_uid)
        else if is_among setting_profile_uid affected_mix_profiles
        then attempt (set_profile machine uid channel setting_profile_uid)
        else done

    unfoldable pub profile_updated : String → Action (SettingsController F Doc) (Unit {0})
    profile_updated profile_uid = do
      profiles ← get_profiles_or_none
      for_each_channel (update_channel profile_uid (mixes_with profile_uid profiles))

    unfoldable pub release_channel :
        String
        → List (Profile F)
        → String
        → String
        → String
        → Action (SettingsController F Doc) (Unit {0})
    release_channel profile_uid affected_mix_profiles uid channel setting_profile_uid =
        if setting_profile_uid == profile_uid
        then (do
          store_device_setting machine uid (reset_setting channel)
          attempt (set_reset machine uid channel))
        else if is_among setting_profile_uid affected_mix_profiles
        then set_profile machine uid channel setting_profile_uid
        else done

    -- A mix must not lose its last member.
    unfoldable pub profile_deleted : String → Action (SettingsController F Doc) (Unit {0})
    profile_deleted profile_uid = do
      profiles ← read_profiles machine
      let affected_mix_profiles = mixes_with profile_uid profiles in
          do
            lift (
                if any (λ p. ltb (length p.member_profile_uids) 2) affected_mix_profiles
                then err "Mix Profiles must have at least 1 member profiles"
                else ok tt)
            for_each (λ p. store_profile machine (without_member profile_uid p))
                affected_mix_profiles
            for_each_channel (release_channel profile_uid affected_mix_profiles)

    abbrev pub refresh_channel :
        List (Profile F) → String → String → String → Action (SettingsController F Doc) (Unit {0})
    refresh_channel affected uid channel setting_profile_uid =
        if is_among setting_profile_uid affected
        then attempt (set_profile machine uid channel setting_profile_uid)
        else done

    unfoldable pub function_updated : String → Action (SettingsController F Doc) (Unit {0})
    function_updated function_uid = do
      profiles ← get_profiles_or_none
      let affected = filterb (λ p. p.function_uid == function_uid) profiles in
          if is_empty affected then done else (do
            profiles_again ← get_profiles_or_none
            for_each_channel (
                refresh_channel (
                  affected
                  ++ filterb
                      (λ p. is_mix p.p_type && any (λ u. is_among u affected) p.member_profile_uids)
                      profiles_again)))

    -- If a profile cannot be stored, the loop goes on with the next one.
    unfoldable pub with_default : Profile F → Action (SettingsController F Doc) (Unit {0})
    with_default profile =
        let renewed = record profile { function_uid = default_function_uid } in
        attempt (do store_profile machine renewed; profile_updated renewed.uid)

    unfoldable pub function_deleted : String → Action (SettingsController F Doc) (Unit {0})
    function_deleted function_uid = do
      profiles ← get_profiles_or_none
      for_each with_default (filterb (λ p. p.function_uid == function_uid) profiles)

    -- One tick: the graph profiles are processed before the mixes combine what they gave.
    unfoldable pub process_scheduled_speeds :
        (ℕ → List F → Option (List F)) → Action (SettingsController F Doc) (Unit {0})
    process_scheduled_speeds tma_new_over = do
      λ s.
          with_commander s
            (process_all_profiles tma_new_over machine.all_devices s.mix_commander.graph_commander)
      applied ← λ s. (
        s,
        Graph.update_speeds machine.has_repo machine.all_devices s.mix_commander.graph_commander,
      )
      λ s. (with_applied applied s, ok tt)
      λ s. with_mixed s (Mix.update_speeds machine.has_repo machine.all_devices s.mix_commander)
