-- ===== src/Processing/Chain/Tests.antt =====
-- The chain on a sample machine, and instances of the theorems.
use coolerocontrol.Base.{◌≤◌, ◌+◌, refl, [], ◌∷◌, string_eq}
use coolerocontrol.Base.Dict.{get, contains_key}
use coolerocontrol.Base.Fixed.{fixed}
use coolerocontrol.Base.Outcome.{Returns}
use coolerocontrol.Processing.Samples.{profile, devices_at}
use coolerocontrol.Processing.Standard
use coolerocontrol.Processing.Standard.Process.{IsRun, process-IsRun}
use coolerocontrol.Processing.Latch
use coolerocontrol.Processing.Latch.Counter.{new-IsCounting}
use coolerocontrol.Processing.Chain.{speed_profile_data, process_speed_setting}
use coolerocontrol.Processing.Chain.Round.{IsRound, process_speed_setting-IsRound}
use coolerocontrol.Processing.Chain.Liveness.{rounds, IsSilent, rounds-silent-le}
use coolerocontrol.Processing.Chain.Samples.{
  averages, scheduled, devices_at-HasHistory, standard_settings, profile-IsReady,
  scheduled-IsScheduled,
}

process-IsRun_example :
    Returns
      (Standard.process (devices_at 45000) scheduled.fun_std_pre (speed_profile_data profile))
      (IsRun scheduled.fun_std_pre (speed_profile_data profile))
unfolding contains_key
process-IsRun_example =
    process-IsRun (devices_at 45000) scheduled.fun_std_pre (speed_profile_data profile)
      (devices_at-HasHistory 45000) refl standard_settings

process_speed_setting-IsRound_example :
    Returns
      (process_speed_setting averages (devices_at 45000) scheduled profile)
      (IsRound averages scheduled "p1" Latch.new)
unfolding get
process_speed_setting-IsRound_example =
    process_speed_setting-IsRound averages (devices_at 45000) scheduled profile Latch.new
      (devices_at-HasHistory 45000) profile-IsReady scheduled-IsScheduled refl new-IsCounting

rounds-silent-le_example :
    Returns
      (rounds averages (devices_at 45000 ∷ devices_at 52000 ∷ []) scheduled profile)
      λ r. IsSilent averages r.1 → 60 + 2 ≤ 60
unfolding get
rounds-silent-le_example =
    rounds-silent-le averages (devices_at 45000 ∷ devices_at 52000 ∷ []) scheduled profile Latch.new
      (devices_at-HasHistory 45000, (devices_at-HasHistory 52000, tt)) profile-IsReady
      scheduled-IsScheduled refl new-IsCounting
