-- ===== src/Processing/Graph/Tests.antt =====
-- The graph commander on a sample machine, and instances of the theorems.
use coolerocontrol.Base.{◌≡◌, refl, Bool, true, none, some, [], ◌∷◌, string_eq, All}
use coolerocontrol.Base.Dict.{get, remove}
use coolerocontrol.Base.Set
use coolerocontrol.Base.Fixed.{fixed}
use coolerocontrol.Base.Outcome.{ok, Returns, Safe}
use coolerocontrol.Device.{DeviceType}
use coolerocontrol.Processing.{graph, mix}
use coolerocontrol.Processing.Samples.{devices_at, standard_function}
use coolerocontrol.Processing.Chain.Samples.{averages, devices_at-HasHistory, profile-IsReady}
use coolerocontrol.Processing.Graph.{
  schedule_setting, clear_channel_setting, process_all_profiles, update_speeds, update_from,
  apply_output, apply_channels, set_device_speed, clear_profiles, profiles_to_remove,
  remove_channel,
}
use coolerocontrol.Processing.Graph.Entries.{IsWellFormed}
use coolerocontrol.Processing.Graph.Schedule.{IsAdded, schedule_setting-IsAdded}
use coolerocontrol.Processing.Graph.Clear.{Without, clear_channel_setting-IsWellFormed}
use coolerocontrol.Processing.Graph.Tick.{process_all_profiles-IsWellFormed}
use coolerocontrol.Processing.Graph.Speeds.{IsApplied, update_speeds-IsApplied}
use coolerocontrol.Processing.Graph.Samples.{
  present, given, commander, same_devices, commander-IsWellFormed,
}

abbrev has_repo : DeviceType → Bool
has_repo t = true

speeds_sample :
    update_speeds has_repo (devices_at 45000) (commander (some 67))
    ≡ ok (record { device_uid = "dev"; channel_name = "fan1"; duty = 67 } ∷ [])
unfolding update_speeds update_from get apply_output apply_channels set_device_speed
speeds_sample = refl

clear_sample : (clear_channel_setting "dev" "fan1" (commander none)).scheduled_settings ≡ []
unfolding clear_channel_setting clear_profiles profiles_to_remove remove_channel Set.remove remove
clear_sample = refl

schedule_setting-IsAdded_example :
    Safe
      (schedule_setting
        (devices_at 45000)
        (ok (standard_function ∷ []))
        (mix "dev" "fan2")
        given
        (commander none))
      (IsAdded averages present (commander none) (mix "dev" "fan2") "p1")
schedule_setting-IsAdded_example =
    schedule_setting-IsAdded averages (devices_at 45000) (ok (standard_function ∷ [])) present
      (mix "dev" "fan2") given (commander none) (same_devices 45000) (profile-IsReady, tt)
      (commander-IsWellFormed none)

clear_channel_setting-IsWellFormed_example :
    IsWellFormed averages present (clear_channel_setting "dev" "fan1" (commander none))
    × All
        (Without (graph "dev" "fan1"))
        (clear_channel_setting "dev" "fan1" (commander none)).scheduled_settings
clear_channel_setting-IsWellFormed_example =
    clear_channel_setting-IsWellFormed averages present "dev" "fan1" (commander none)
      (commander-IsWellFormed none)

process_all_profiles-IsWellFormed_example :
    Returns (process_all_profiles averages (devices_at 45000) (commander none)) λ c'.
      IsWellFormed averages present c'
      × (c'.scheduled_settings ≡ (commander none).scheduled_settings)
process_all_profiles-IsWellFormed_example =
    process_all_profiles-IsWellFormed averages present (devices_at 45000) (commander none)
      (devices_at-HasHistory 45000) (commander-IsWellFormed none)

update_speeds-IsApplied_example :
    Returns (update_speeds has_repo (devices_at 45000) (commander (some 67))) (
      IsApplied has_repo
        (devices_at 45000)
        (commander (some 67)).scheduled_settings
        (commander (some 67)).process_output_cache)
update_speeds-IsApplied_example =
    update_speeds-IsApplied averages has_repo (devices_at 45000) present (commander (some 67))
      (same_devices 45000) (commander-IsWellFormed (some 67))
