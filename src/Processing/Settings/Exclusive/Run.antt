-- ===== src/Processing/Settings/Exclusive/Run.antt =====
-- Any sequence of operations of the controller keeps the commanders apart.
use coolerocontrol.Base.{
  ℕ, String, Bool, Option, none, some, List, [], ◌∷◌, string_eq, ◌==◌, is_empty, filterb,
}
use coolerocontrol.Base.Float.{Float}
use coolerocontrol.Base.Outcome.{Outcome, ok, err, panic, Partial, Partial-bind_any}
use coolerocontrol.Base.State.{
  Action, Keeps, Keeps-bind, Keeps-for_each, Keeps-check, Keeps-or_else, Keeps-lift, Hoare-if,
}
use coolerocontrol.Device.{DeviceType}
use coolerocontrol.Setting.{Profile, Setting}
use coolerocontrol.Processing.Sensor.{AllDevices}
use coolerocontrol.Processing.Graph.{Applied, process_profiles, process_all_profiles}
use coolerocontrol.Processing.Mix.{MixProfileCommander, update_mixes, update_last_applied_duties}
use coolerocontrol.Processing.Mix
use coolerocontrol.Processing.Settings.{
  Machine, SettingsController, read_profiles, store_device_setting, store_profile,
}
use coolerocontrol.Processing.Settings.Apply.{set_profile, reset_setting}
use coolerocontrol.Processing.Settings.Propagate.{
  profile_updated, profile_deleted, function_updated, function_deleted, custom_sensor_deleted,
  process_scheduled_speeds, for_each_channel, on_profile, settings_of, get_profiles_or_none,
  update_channel, release_channel, refresh_channel, with_default, with_mixed,
}
use coolerocontrol.Modes.Boot.{apply_all_saved_device_settings}
use coolerocontrol.Processing.Settings.Operation.{Operation, new, run, run_all}
use coolerocontrol.Processing.Settings.Exclusive.{IsExclusive}
use coolerocontrol.Processing.Settings.Exclusive.Applied.{
  Apart, with_commander-Apart, set_fixed_speed-Apart, set_lcd-Apart, set_lighting-Apart,
  set_reset-Apart, set_pwm_mode-Apart, store_device_setting-Apart,
}
use coolerocontrol.Processing.Settings.Exclusive.Profiles.{
  set_profile-Apart, set_config_setting-Apart,
}

module _ {F Doc : Type 0} (machine : Machine F Doc) where
  on_profile-Apart :
      (f : String → String → String → Action (SettingsController F Doc) (Unit {0})) (uid : String)
      (setting : Setting) (profile_uid : Option String)
      → ((uid channel profile_uid : String) → Keeps Apart (f uid channel profile_uid))
      → Keeps Apart (on_profile machine f uid setting profile_uid)
  on_profile-Apart f uid setting none h = Keeps-lift Apart (ok tt)
  on_profile-Apart f uid setting (some p) h = h uid setting.channel_name p

  for_each_channel-Apart :
      (f : String → String → String → Action (SettingsController F Doc) (Unit {0}))
      → ((uid channel profile_uid : String) → Keeps Apart (f uid channel profile_uid))
      → Keeps Apart (for_each_channel machine f)
  unfolding for_each_channel
  for_each_channel-Apart f h = Keeps-for_each Apart _ machine.all_devices λ entry.
      Keeps-bind Apart (settings_of machine entry.0) _
        (Keeps-or_else Apart [] _ (record { holds = λ s a. a }))
        λ settings.
          Keeps-for_each Apart _ settings
            λ setting. on_profile-Apart f entry.0 setting setting.profile_uid h

  get_profiles_or_none-Apart : Keeps Apart (get_profiles_or_none machine)
  get_profiles_or_none-Apart =
      Keeps-or_else Apart [] (read_profiles machine) (record { holds = λ s a. a })

  custom_sensor_deleted-Apart :
      (uid sensor_id : String) → Keeps Apart (custom_sensor_deleted machine uid sensor_id)
  unfolding custom_sensor_deleted
  custom_sensor_deleted-Apart uid sensor_id =
      Keeps-bind Apart (get_profiles_or_none machine) _ get_profiles_or_none-Apart λ profiles.
        Keeps-bind Apart (λ s. (s, machine.configuration.get_device_settings uid s.config)) _
          (record { holds = λ s a. a }) (λ settings. Keeps-lift Apart _)

  module _ ⦃fl : Float F⦄ where
    set_known-Apart :
        (uid channel profile_uid : String)
        → Keeps Apart (set_profile machine uid channel profile_uid)
    set_known-Apart uid channel profile_uid = set_profile-Apart machine uid channel profile_uid

    update_channel-Apart :
        (profile_uid : String) (affected : List (Profile F)) (uid channel setting_uid : String)
        → Keeps Apart (update_channel machine profile_uid affected uid channel setting_uid)
    unfolding update_channel
    update_channel-Apart profile_uid affected uid channel setting_uid =
        Hoare-if Apart Apart (setting_uid == profile_uid) _ _
          (Keeps-or_else Apart tt _ (set_profile-Apart machine uid channel profile_uid))
          (Hoare-if Apart Apart _ _ _
            (Keeps-or_else Apart tt _ (set_profile-Apart machine uid channel setting_uid))
            (Keeps-lift Apart (ok tt)))

    profile_updated-Apart :
        (profile_uid : String) → Keeps Apart (profile_updated machine profile_uid)
    unfolding profile_updated
    profile_updated-Apart profile_uid =
        Keeps-bind Apart (get_profiles_or_none machine) _ get_profiles_or_none-Apart
          λ profiles. for_each_channel-Apart _ (update_channel-Apart profile_uid _)

    release_channel-Apart :
        (profile_uid : String) (affected : List (Profile F)) (uid channel setting_uid : String)
        → Keeps Apart (release_channel machine profile_uid affected uid channel setting_uid)
    unfolding release_channel
    release_channel-Apart profile_uid affected uid channel setting_uid =
        Hoare-if Apart Apart (setting_uid == profile_uid) _ _
          (Keeps-bind Apart (store_device_setting machine uid (reset_setting channel)) _
            (store_device_setting-Apart machine uid (reset_setting channel))
            λ _. Keeps-or_else Apart tt _ (set_reset-Apart machine uid channel))
          (Hoare-if Apart Apart _ _ _ (set_profile-Apart machine uid channel setting_uid)
            (Keeps-lift Apart (ok tt)))

    profile_deleted-Apart :
        (profile_uid : String) → Keeps Apart (profile_deleted machine profile_uid)
    unfolding profile_deleted
    profile_deleted-Apart profile_uid =
        Keeps-bind Apart (read_profiles machine) _ (record { holds = λ s a. a })
          λ profiles. Keeps-check Apart _ _ λ _.
            Keeps-bind Apart _ _ (Keeps-for_each Apart _ _ (λ p. record { holds = λ s a. a }))
              λ _. for_each_channel-Apart _ (release_channel-Apart profile_uid _)

    refresh_channel-Apart :
        (affected : List (Profile F)) (uid channel setting_uid : String)
        → Keeps Apart (refresh_channel machine affected uid channel setting_uid)
    refresh_channel-Apart affected uid channel setting_uid =
        Hoare-if Apart Apart _ _ _
          (Keeps-or_else Apart tt _ (set_profile-Apart machine uid channel setting_uid))
          (Keeps-lift Apart (ok tt))

    function_updated-Apart :
        (function_uid : String) → Keeps Apart (function_updated machine function_uid)
    unfolding function_updated
    function_updated-Apart function_uid =
        Keeps-bind Apart (get_profiles_or_none machine) _ get_profiles_or_none-Apart λ profiles.
          Hoare-if Apart Apart (is_empty (filterb (λ p. p.function_uid == function_uid) profiles)) _
            _ (Keeps-lift Apart (ok tt))
            (Keeps-bind Apart (get_profiles_or_none machine) _ get_profiles_or_none-Apart
              λ again. for_each_channel-Apart _ (refresh_channel-Apart _))

    with_default-Apart : (profile : Profile F) → Keeps Apart (with_default machine profile)
    unfolding with_default
    with_default-Apart profile = Keeps-or_else Apart tt _ (
        Keeps-bind Apart (store_profile machine _) _ (record { holds = λ s a. a })
          λ _. profile_updated-Apart profile.uid)

    function_deleted-Apart :
        (function_uid : String) → Keeps Apart (function_deleted machine function_uid)
    unfolding function_deleted
    function_deleted-Apart function_uid =
        Keeps-bind Apart (get_profiles_or_none machine) _ get_profiles_or_none-Apart
          λ profiles. Keeps-for_each Apart _ _ with_default-Apart

    apply_all_saved_device_settings-Apart : Keeps Apart (apply_all_saved_device_settings machine)
    unfolding apply_all_saved_device_settings
    apply_all_saved_device_settings-Apart = Keeps-for_each Apart _ machine.all_devices λ entry.
        Keeps-bind Apart (settings_of machine entry.0) _
          (Keeps-or_else Apart [] _ (record { holds = λ s a. a }))
          λ settings.
            Keeps-for_each Apart _ settings
              λ setting. Keeps-or_else Apart tt _ (set_config_setting-Apart machine entry.0 setting)

module _ {F : Type 0} ⦃fl : Float F⦄ (tma_new_over : ℕ → List F → Option (List F)) where
  -- A round of all profiles leaves the schedule as it is.
  process_all_profiles-Apart :
      (all_devices : AllDevices F) (c : MixProfileCommander F)
      → IsExclusive c
      → Partial
          (process_all_profiles tma_new_over all_devices c.graph_commander)
          (λ g. IsExclusive (record c { graph_commander = g }))
  unfolding process_all_profiles
  process_all_profiles-Apart all_devices c a =
      Partial-bind_any (λ g. IsExclusive (record c { graph_commander = g })) _
        (process_profiles tma_new_over all_devices c.graph_commander.scheduled_settings
          c.graph_commander.processors c.graph_commander.process_output_cache)
        λ done. a

  update_speeds-Apart :
      (has_repo : DeviceType → Bool) (all_devices : AllDevices F) (c : MixProfileCommander F)
      → IsExclusive c
      → Partial (Mix.update_speeds has_repo all_devices c) (λ r. IsExclusive r.0)
  unfolding Mix.update_speeds update_last_applied_duties
  update_speeds-Apart has_repo all_devices c a =
      Partial-bind_any (λ r. IsExclusive r.0) _
        (update_mixes has_repo all_devices
          (update_last_applied_duties c).graph_commander.process_output_cache
          (update_last_applied_duties c).all_last_applied_duties
          (update_last_applied_duties c).scheduled_settings)
        λ applied. a

module _ {F Doc : Type 0} ⦃fl : Float F⦄ (machine : Machine F Doc)
    (tma_new_over : ℕ → List F → Option (List F)) where
  with_mixed-Apart :
      (s : SettingsController F Doc) (o : Outcome (MixProfileCommander F × List Applied))
      → Apart s
      → Partial o (λ r. IsExclusive r.0)
      → Apart (with_mixed machine s o).0
  with_mixed-Apart s (ok (c, applied)) a h = h
  with_mixed-Apart s (err e) a h = a
  with_mixed-Apart s panic a h = a

  process_scheduled_speeds-Apart : Keeps Apart (process_scheduled_speeds machine tma_new_over)
  unfolding process_scheduled_speeds
  process_scheduled_speeds-Apart =
      Keeps-bind Apart _ _
        (record {
          holds = λ s a.
              with_commander-Apart s _ a
                (process_all_profiles-Apart tma_new_over machine.all_devices s.mix_commander a);
        })
        λ _.
          Keeps-bind Apart _ _ (record { holds = λ s a. a })
            λ applied.
              Keeps-bind Apart _ _ (record { holds = λ s a. a })
                λ _. record {
                  holds = λ s a. with_mixed-Apart s _ a (
                      update_speeds-Apart tma_new_over machine.has_repo machine.all_devices
                        s.mix_commander a);
                }

  run-Apart : (op : Operation) → Keeps Apart (run machine tma_new_over op)
  run-Apart (Operation.set_config_setting uid setting) =
      set_config_setting-Apart machine uid setting
  run-Apart (Operation.set_fixed_speed uid channel duty) =
      set_fixed_speed-Apart machine uid channel duty
  run-Apart (Operation.set_profile uid channel p) = set_profile-Apart machine uid channel p
  run-Apart (Operation.set_lcd uid channel lcd) = set_lcd-Apart machine uid channel lcd
  run-Apart (Operation.set_lighting uid channel l) = set_lighting-Apart machine uid channel l
  run-Apart (Operation.set_pwm_mode uid channel mode) = set_pwm_mode-Apart machine uid channel mode
  run-Apart (Operation.set_reset uid channel) = set_reset-Apart machine uid channel
  run-Apart (Operation.profile_updated uid) = profile_updated-Apart machine uid
  run-Apart (Operation.profile_deleted uid) = profile_deleted-Apart machine uid
  run-Apart (Operation.function_updated uid) = function_updated-Apart machine uid
  run-Apart (Operation.function_deleted uid) = function_deleted-Apart machine uid
  run-Apart (Operation.custom_sensor_deleted uid id) = custom_sensor_deleted-Apart machine uid id
  run-Apart Operation.process_scheduled_speeds = process_scheduled_speeds-Apart
  run-Apart Operation.apply_all_saved_device_settings =
      apply_all_saved_device_settings-Apart machine

  run_all-Apart :
      (ops : List Operation) (s : SettingsController F Doc)
      → Apart s
      → Apart (run_all machine tma_new_over ops s)
  unfolding run_all
  run_all-Apart [] s a = a
  run_all-Apart (op ∷ ops) s a = run_all-Apart ops _ ((run-Apart op).holds s a)

  -- From a new controller on, whatever is set, updated, deleted or processed, and whatever fails
  -- on the way: a channel that the graph commander sets by itself is in no mix of the mix
  -- commander, so that never both of them set it.
  pub run_all-IsExclusive :
      (ops : List Operation) (doc : Doc)
      → IsExclusive (run_all machine tma_new_over ops (new doc)).mix_commander
  run_all-IsExclusive ops doc = run_all-Apart ops (new doc) tt
