-- ===== src/Processing/Settings/Exclusive/Profiles.antt =====
-- A profile, or a setting of any kind, that is applied keeps the commanders apart.
use coolerocontrol.Base.{ℕ, String, Option, none, some, List, string_eq, ◌==◌, not, ◌&&◌, ◌||◌}
use coolerocontrol.Base.Float.{Float}
use coolerocontrol.Base.State.{
  Hoare, Keeps, Hoare-bind, Keeps-lift, Keeps-bind, Keeps-check, Hoare-if,
}
use coolerocontrol.Config.DeviceSettings.{is_true}
use coolerocontrol.Device.{SpeedOptions}
use coolerocontrol.Setting.{
  Profile, ProfileType, Function, TempSource, LightingSettings, LcdSettings, Setting,
}
use coolerocontrol.Processing.Sensor.{is_identity}
use coolerocontrol.Processing.Settings.{
  Machine, apply_setting_speed_profile, clear_mix, clear_graph, read_functions, read_profiles, call,
}
use coolerocontrol.Processing.Settings.Apply.{
  drive_graph, set_graph_profile, set_mix_profile, apply_profile, set_profile, set_present,
  set_config_setting,
}
use coolerocontrol.Processing.Settings.Exclusive.{clear_mix-IsCleared, clear_graph-IsExclusive}
use coolerocontrol.Processing.Settings.Exclusive.Schedules.{
  schedule_mix_setting-IsExclusive, schedule_graph-IsExclusive,
}
use coolerocontrol.Processing.Settings.Exclusive.Applied.{
  Apart, Cleared, Cleared-Apart, clear_graph-Apart, with_commander-Apart, set_fixed_speed-Apart,
  set_reset-Apart, set_lcd-Apart, set_lighting-Apart,
}

module _ {F Doc : Type 0} ⦃fl : Float F⦄ (machine : Machine F Doc) where
  drive_graph-Apart :
      (uid channel : String) (profile : Profile F) (temp_source : TempSource)
      (speed_profile : List (F × ℕ)) (options : SpeedOptions) (f : Function F)
      → Hoare
          (Cleared uid channel)
          (drive_graph machine uid channel profile temp_source speed_profile options f)
          Apart
  unfolding drive_graph
  drive_graph-Apart uid channel profile temp_source speed_profile options f =
      Hoare-if (Cleared uid channel) Apart
        (options.profiles_enabled && (temp_source.device_uid == uid) && is_identity f.f_type) _ _
        (Hoare-bind (Cleared uid channel) Apart Apart (clear_graph uid channel)
          (λ _. call machine (apply_setting_speed_profile uid channel temp_source speed_profile))
          (λ s a. a) (clear_graph-Apart uid channel) (λ _. record { holds = λ s a. a }))
        (Hoare-if (Cleared uid channel) Apart
          ((options.manual_profiles_enabled && (temp_source.device_uid == uid))
            || (options.fixed_enabled && not (temp_source.device_uid == uid)))
          _ _
          (record {
            holds = λ s c. with_commander-Apart s _ (Cleared-Apart uid channel s c) (
                schedule_graph-IsExclusive machine.all_devices _ uid channel profile s.mix_commander
                  c);
          })
          (record { holds = Cleared-Apart uid channel }))

  set_graph_profile-Apart :
      (uid channel : String) (profile : Profile F)
      → Keeps Apart (set_graph_profile machine uid channel profile)
  unfolding set_graph_profile
  set_graph_profile-Apart uid channel profile = Keeps-check Apart _ _ λ speed_profile.
      Keeps-check Apart _ _ λ temp_source. Keeps-check Apart _ _ λ device.
        Keeps-check Apart _ _ λ options.
          Keeps-bind Apart (read_functions machine) _ (record { holds = λ s a. a })
            λ functions. Keeps-check Apart _ _ λ f.
              Hoare-bind Apart (Cleared uid channel) Apart (clear_mix uid channel) _
                (Cleared-Apart uid channel)
                (record { holds = λ s. clear_mix-IsCleared uid channel s.mix_commander })
                λ _. drive_graph-Apart uid channel profile temp_source speed_profile options f

  set_mix_profile-Apart :
      (uid channel : String) (profile : Profile F)
      → Keeps Apart (set_mix_profile machine uid channel profile)
  unfolding set_mix_profile
  set_mix_profile-Apart uid channel profile = Keeps-check Apart _ _ λ _. Keeps-check Apart _ _ λ _.
      Keeps-check Apart _ _ λ device. Keeps-check Apart _ _ λ options.
        Keeps-bind Apart (read_profiles machine) _ (record { holds = λ s a. a })
          λ profiles. Keeps-check Apart _ _ λ _.
            Keeps-bind Apart (read_functions machine) _ (record { holds = λ s a. a })
              λ functions. Keeps-check Apart _ _ λ _. Keeps-check Apart _ _ λ _.
                Keeps-bind Apart (clear_graph uid channel) _
                  (record { holds = λ s. clear_graph-IsExclusive uid channel s.mix_commander })
                  λ _. record {
                    holds = λ s.
                        schedule_mix_setting-IsExclusive machine.all_devices _ uid channel profile _
                          s.mix_commander;
                  }

  apply_profile-Apart :
      (uid channel : String) (profile : Profile F) (p_type : ProfileType)
      → Keeps Apart (apply_profile machine uid channel profile p_type)
  unfolding apply_profile
  apply_profile-Apart uid channel profile ProfileType.default = set_reset-Apart machine uid channel
  apply_profile-Apart uid channel profile ProfileType.fixed =
      Keeps-check Apart _ _ λ duty. set_fixed_speed-Apart machine uid channel duty
  apply_profile-Apart uid channel profile ProfileType.graph =
      set_graph_profile-Apart uid channel profile
  apply_profile-Apart uid channel profile ProfileType.mix =
      set_mix_profile-Apart uid channel profile

  pub set_profile-Apart :
      (uid channel profile_uid : String) → Keeps Apart (set_profile machine uid channel profile_uid)
  unfolding set_profile
  set_profile-Apart uid channel profile_uid =
      Keeps-bind Apart (read_profiles machine) _ (record { holds = λ s a. a })
        λ profiles.
          Keeps-check Apart _ _ λ profile. apply_profile-Apart uid channel profile profile.p_type

  set_present-Apart :
      (uid channel : String) (speed_fixed : Option ℕ) (lighting : Option LightingSettings)
      (lcd : Option LcdSettings) (profile_uid : Option String)
      → Keeps Apart (set_present machine uid channel speed_fixed lighting lcd profile_uid)
  set_present-Apart uid channel (some duty) lighting lcd profile_uid =
      set_fixed_speed-Apart machine uid channel duty
  set_present-Apart uid channel none (some l) lcd profile_uid =
      set_lighting-Apart machine uid channel l
  set_present-Apart uid channel none none (some l) profile_uid = set_lcd-Apart machine uid channel l
  set_present-Apart uid channel none none none (some p) = set_profile-Apart uid channel p
  set_present-Apart uid channel none none none none = Keeps-lift Apart _

  pub set_config_setting-Apart :
      (uid : String) (setting : Setting) → Keeps Apart (set_config_setting machine uid setting)
  unfolding set_config_setting
  set_config_setting-Apart uid setting =
      Hoare-if Apart Apart (is_true setting.reset_to_default) _ _
        (set_reset-Apart machine uid setting.channel_name)
        (set_present-Apart uid setting.channel_name setting.speed_fixed setting.lighting setting.lcd
          setting.profile_uid)
