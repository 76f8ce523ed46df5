-- ===== src/Processing/Settings/Calls/Profiles.antt =====
-- Which calls of a repository a profile, and a setting of any kind, lead to.
use coolerocontrol.Base.{
  ℕ, ◌≡◌, refl, inl, String, not, ◌&&◌, ◌||◌, Option, none, some, List, string_eq, ◌==◌,
}
use coolerocontrol.Base.Float.{Float}
use coolerocontrol.Base.Outcome.{ok}
use coolerocontrol.Base.State.{Hoare, Hoare-if}
use coolerocontrol.Config.DeviceSettings.{is_true}
use coolerocontrol.Device.{Device, SpeedOptions}
use coolerocontrol.Setting.{
  Profile, ProfileType, Function, TempSource, LightingSettings, LcdSettings, Setting,
}
use coolerocontrol.Processing.Sensor.{is_identity}
use coolerocontrol.Processing.Settings.{
  Machine, SettingsController, Call, apply_setting_speed_profile, get_device_repo, clear_mix,
  clear_graph, call, read_profiles, read_functions,
}
use coolerocontrol.Processing.Settings.Apply.{
  drive_graph, set_graph_profile, set_mix_profile, apply_profile, set_profile, set_present,
  set_config_setting,
}
use coolerocontrol.Processing.Settings.Calls.{
  IsConfined, Silent, call-IsConfined, check, quietly, with_commander-Silent,
  set_fixed_speed-IsConfined, set_reset-IsConfined, set_lcd-IsConfined, set_lighting-IsConfined,
}

module _ {F Doc : Type 0} ⦃fl : Float F⦄ (machine : Machine F Doc) (before : List (Call F)) where
  drive_graph-IsConfined :
      (uid channel : String) (device : Device F) (profile : Profile F) (temp_source : TempSource)
      (speed_profile : List (F × ℕ)) (options : SpeedOptions) (f : Function F)
      → get_device_repo machine uid ≡ ok device
      → Hoare
          (Silent machine before)
          (drive_graph machine uid channel profile temp_source speed_profile options f)
          (IsConfined machine before uid channel)
  unfolding drive_graph
  drive_graph-IsConfined uid channel device profile temp_source speed_profile options f g =
      Hoare-if (Silent machine before) (IsConfined machine before uid channel)
        (options.profiles_enabled && (temp_source.device_uid == uid) && is_identity f.f_type) _ _
        (quietly machine before uid channel (clear_graph uid channel)
          (λ _. call machine (apply_setting_speed_profile uid channel temp_source speed_profile))
          (record { holds = λ s p. p })
          λ _. call-IsConfined machine before uid channel device _ g refl)
        (Hoare-if (Silent machine before) (IsConfined machine before uid channel)
          ((options.manual_profiles_enabled && (temp_source.device_uid == uid))
            || (options.fixed_enabled && not (temp_source.device_uid == uid)))
          _ _ (record { holds = λ s p. inl (with_commander-Silent machine before s _ p) })
          (record { holds = λ s p. inl p }))

  set_graph_profile-IsConfined :
      (uid channel : String) (profile : Profile F)
      → Hoare
          (Silent machine before)
          (set_graph_profile machine uid channel profile)
          (IsConfined machine before uid channel)
  unfolding set_graph_profile
  set_graph_profile-IsConfined uid channel profile =
      check machine before uid channel _ _ λ speed_profile _.
        check machine before uid channel _ _ λ temp_source _.
          check machine before uid channel (get_device_repo machine uid) _ λ device g.
            check machine before uid channel _ _ λ options _.
              quietly machine before uid channel (read_functions machine) _
                (record { holds = λ s p. p })
                λ functions. check machine before uid channel _ _ λ f _.
                  quietly machine before uid channel (clear_mix uid channel) _
                    (record { holds = λ s p. p })
                    λ _.
                      drive_graph-IsConfined uid channel device profile temp_source speed_profile
                        options f g

  set_mix_profile-IsConfined :
      (uid channel : String) (profile : Profile F)
      → Hoare
          (Silent machine before)
          (set_mix_profile machine uid channel profile)
          (IsConfined machine before uid channel)
  unfolding set_mix_profile
  set_mix_profile-IsConfined uid channel profile = check machine before uid channel _ _ λ _ _.
      check machine before uid channel _ _ λ _ _. check machine before uid channel _ _ λ device g.
        check machine before uid channel _ _ λ options _.
          quietly machine before uid channel (read_profiles machine) _ (record { holds = λ s p. p })
            λ profiles. check machine before uid channel _ _ λ _ _.
              quietly machine before uid channel (read_functions machine) _
                (record { holds = λ s p. p })
                λ functions. check machine before uid channel _ _ λ _ _.
                  check machine before uid channel _ _ λ _ _.
                    quietly machine before uid channel (clear_graph uid channel) _
                      (record { holds = λ s p. p }) λ _. record { holds = λ s p. inl p }

  apply_profile-IsConfined :
      (uid channel : String) (profile : Profile F) (p_type : ProfileType)
      → Hoare
          (Silent machine before)
          (apply_profile machine uid channel profile p_type)
          (IsConfined machine before uid channel)
  unfolding apply_profile
  apply_profile-IsConfined uid channel profile ProfileType.default =
      set_reset-IsConfined machine before uid channel
  apply_profile-IsConfined uid channel profile ProfileType.fixed =
      check machine before uid channel _ _
        λ duty _. set_fixed_speed-IsConfined machine before uid channel duty
  apply_profile-IsConfined uid channel profile ProfileType.graph =
      set_graph_profile-IsConfined uid channel profile
  apply_profile-IsConfined uid channel profile ProfileType.mix =
      set_mix_profile-IsConfined uid channel profile

  set_profile-IsConfined :
      (uid channel profile_uid : String)
      → Hoare
          (Silent machine before)
          (set_profile machine uid channel profile_uid)
          (IsConfined machine before uid channel)
  unfolding set_profile
  set_profile-IsConfined uid channel profile_uid =
      quietly machine before uid channel (read_profiles machine) _ (record { holds = λ s p. p })
        λ profiles.
          check machine before uid channel _ _
            λ profile _. apply_profile-IsConfined uid channel profile profile.p_type

  set_present-IsConfined :
      (uid channel : String) (speed_fixed : Option ℕ) (lighting : Option LightingSettings)
      (lcd : Option LcdSettings) (profile_uid : Option String)
      → Hoare
          (Silent machine before)
          (set_present machine uid channel speed_fixed lighting lcd profile_uid)
          (IsConfined machine before uid channel)
  set_present-IsConfined uid channel (some duty) lighting lcd profile_uid =
      set_fixed_speed-IsConfined machine before uid channel duty
  set_present-IsConfined uid channel none (some l) lcd profile_uid =
      set_lighting-IsConfined machine before uid channel l
  set_present-IsConfined uid channel none none (some l) profile_uid =
      set_lcd-IsConfined machine before uid channel l
  set_present-IsConfined uid channel none none none (some p) = set_profile-IsConfined uid channel p
  set_present-IsConfined uid channel none none none none = record { holds = λ s p. inl p }

  applied-IsConfined :
      (uid : String) (setting : Setting)
      → Hoare
          (Silent machine before)
          (set_config_setting machine uid setting)
          (IsConfined machine before uid setting.channel_name)
  unfolding set_config_setting
  applied-IsConfined uid setting =
      Hoare-if (Silent machine before) (IsConfined machine before uid setting.channel_name)
        (is_true setting.reset_to_default) _ _
        (set_reset-IsConfined machine before uid setting.channel_name)
        (set_present-IsConfined uid setting.channel_name setting.speed_fixed setting.lighting
          setting.lcd setting.profile_uid)

-- Applying a setting of whatever kind to a channel calls a repository at most once, for that
-- channel only, and only if the device is there and has a repository. So an unknown device, or one
-- whose repository is not running, leads to no call.
pub set_config_setting-IsConfined :
    {F Doc : Type 0} ⦃fl : Float F⦄ (machine : Machine F Doc) (uid : String) (setting : Setting)
    (s : SettingsController F Doc)
    → IsConfined machine s.calls uid setting.channel_name
        (set_config_setting machine uid setting s).0
set_config_setting-IsConfined machine uid setting s =
    (applied-IsConfined machine s.calls uid setting).holds s refl
