-- ===== src/Processing/Settings/Tests.antt =====
-- The settings controller on a sample machine.
use coolerocontrol.Base.{ℕ, ◌≡◌, refl, true, none, some, List, [], ◌∷◌, string_eq}
use coolerocontrol.Base.Fixed.{fixed}
use coolerocontrol.Base.Outcome.{ok, err, Returns}
use coolerocontrol.Base.State
use coolerocontrol.Base.Dict
use coolerocontrol.Config.Sample.{sample, end}
use coolerocontrol.Setting.{Setting, Profile, ProfileType, ProfileMixFunctionType}
use coolerocontrol.Processing.{mix, graph, device_uid, channel_name}
use coolerocontrol.Processing.Samples.{devices_at, standard_function}
use coolerocontrol.Processing.Chain.Samples.{averages}
use coolerocontrol.Processing.Graph.Samples.{given}
use coolerocontrol.Processing.Settings.{
  Configuration, Machine, apply_setting_speed_fixed, apply_setting_reset, get_device_repo,
}
use coolerocontrol.Processing.Settings.Apply.{
  set_profile, set_fixed_speed, apply_profile, set_reset, set_config_setting, reset_setting,
}
use coolerocontrol.Processing.Settings.Calls.{IsConfined}
use coolerocontrol.Processing.Settings.Calls.Profiles.{set_config_setting-IsConfined}
use coolerocontrol.Processing.Settings.Released.{IsResult, set_fixed_speed-set_reset-IsResult}
use coolerocontrol.Processing.Settings.Wake.{
  AreRestarted, reinitialize_all_status_histories, reinitialize_all_status_histories-AreRestarted,
}
use coolerocontrol.Processing.Settings.Operation.{Operation, new, run_all}
use coolerocontrol.Processing.Settings.Stored.{stored_configuration}
use coolerocontrol.Processing.Settings.Exclusive.{IsExclusive}
use coolerocontrol.Processing.Settings.Exclusive.Run.{run_all-IsExclusive}

abbrev loud : Profile ℕ
loud = record given { uid = "p2"; p_type = ProfileType.fixed; speed_fixed = some 80 }

abbrev both : Profile ℕ
both = record given {
  uid = "m1";
  p_type = ProfileType.mix;
  speed_profile = none;
  temp_source = none;
  member_profile_uids = "p1" ∷ [];
  mix_function_type = some ProfileMixFunctionType.max;
}

-- A configuration that is a list of profiles.
abbrev listed : Configuration ℕ (List (Profile ℕ))
listed = record {
  get_profiles = λ doc. (ok doc, doc);
  get_functions = λ doc. (ok (standard_function ∷ []), doc);
  get_device_settings = λ uid doc. ok [];
  set_device_setting = λ uid setting doc. ok doc;
  update_profile = λ profile doc. (ok tt, doc);
}

abbrev machine : Machine ℕ (List (Profile ℕ))
machine = record {
  all_devices = devices_at 45000;
  has_repo = λ t. true;
  configuration = listed;
  answer = λ calls c. ok tt;
}

-- A fixed profile leads to one call of the repository.
loud_applied : set_profile machine "dev" "fan1" "p2" (new (given ∷ loud ∷ both ∷ [])) ≡ (
  record (new (given ∷ loud ∷ both ∷ [])) {
    calls = apply_setting_speed_fixed "dev" "fan1" 80 ∷ [];
  },
  ok tt,
)
unfolding set_profile apply_profile set_fixed_speed get_device_repo State.◌>>=◌ Dict.get
    coolerocontrol.Processing.Mix.clear_channel_setting coolerocontrol.Processing.Mix.remove_channel
    coolerocontrol.Processing.Mix.mix_profile_to_remove coolerocontrol.Processing.Mix.remove_found
    coolerocontrol.Processing.Graph.clear_channel_setting
    coolerocontrol.Processing.Graph.remove_channel
    coolerocontrol.Processing.Graph.profiles_to_remove
    coolerocontrol.Processing.Graph.clear_profiles
loud_applied = refl

-- A device that is not there.
unknown_refused :
    set_fixed_speed machine "other" "fan1" 80 (new []) ≡ (new [], err "Device Not Found")
unfolding set_fixed_speed get_device_repo State.◌>>=◌ Dict.get
unknown_refused = refl

-- The machine with a document of the configuration file.
abbrev stored_machine : Machine ℕ sample.Table
stored_machine = record {
  all_devices = devices_at 45000;
  has_repo = λ t. true;
  configuration = stored_configuration sample (λ doc. ok tt);
  answer = λ calls c. ok tt;
}

abbrev operations : List Operation
operations =
    Operation.set_profile "dev" "fan1" "p1"
    ∷ Operation.process_scheduled_speeds
    ∷ Operation.set_profile "dev" "fan1" "m1"
    ∷ Operation.process_scheduled_speeds
    ∷ Operation.profile_updated "p1"
    ∷ Operation.set_fixed_speed "dev" "fan1" 50
    ∷ []

run_all-IsExclusive_example :
    IsExclusive (run_all machine averages operations (new (given ∷ loud ∷ both ∷ []))).mix_commander
run_all-IsExclusive_example =
    run_all-IsExclusive machine averages operations (given ∷ loud ∷ both ∷ [])

-- From an empty configuration file on.
stored_run : IsExclusive (run_all stored_machine averages operations (new end)).mix_commander
stored_run = run_all-IsExclusive stored_machine averages operations end

-- A setting with a profile that the controller is to apply.
abbrev quiet_setting : Setting
quiet_setting = record (reset_setting "fan1") { reset_to_default = none; profile_uid = some "p1" }

set_config_setting-IsConfined_example :
    IsConfined machine [] "dev" "fan1"
      (set_config_setting machine "dev" quiet_setting (new (given ∷ loud ∷ both ∷ []))).0
set_config_setting-IsConfined_example =
    set_config_setting-IsConfined machine "dev" quiet_setting (new (given ∷ loud ∷ both ∷ []))

set_fixed_speed-set_reset-IsResult_example :
    IsResult machine "dev" "fan1"
      (new (given ∷ []))
      (apply_setting_speed_fixed "dev" "fan1" 60)
      (set_fixed_speed machine "dev" "fan1" 60 (new (given ∷ [])))
      (get_device_repo machine "dev")
    × IsResult machine "dev" "fan1"
        (new (given ∷ []))
        (apply_setting_reset "dev" "fan1")
        (set_reset machine "dev" "fan1" (new (given ∷ [])))
        (get_device_repo machine "dev")
set_fixed_speed-set_reset-IsResult_example =
    set_fixed_speed-set_reset-IsResult machine "dev" "fan1" (new (given ∷ [])) 60

reinitialize_all_status_histories-AreRestarted_example :
    Returns
      (reinitialize_all_status_histories 5000 (devices_at 45000))
      (AreRestarted 5000 (devices_at 45000))
reinitialize_all_status_histories-AreRestarted_example =
    reinitialize_all_status_histories-AreRestarted 5000 (devices_at 45000) (refl, tt)
