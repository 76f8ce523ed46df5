-- ===== src/Processing/Chain.antt =====
-- processing/commanders/graph.rs: the chain of processors that turns a profile into a duty.
pub mod Temp
pub mod Round
pub mod Liveness
pub mod Samples
pub mod Tests
use coolerocontrol.Base.{ℕ, Bool, true, false, Option, none, List, if◌then◌else◌}
use coolerocontrol.Base.Float.{Float}
use coolerocontrol.Base.Outcome.{Outcome, ok, ◌>>=◌}
use coolerocontrol.Processing.{NormalizedGraphProfile, SpeedProfileData}
use coolerocontrol.Processing.Sensor.{
  AllDevices, identity_is_applicable, identity_process, ema_is_applicable, ema_process,
  graph_is_applicable, graph_process,
}
use coolerocontrol.Processing.Standard
use coolerocontrol.Processing.Threshold
use coolerocontrol.Processing.Latch

-- The state that the processors keep for each profile.
pub record ProcessorCollection (F : Type 0) : Type 0 where
  pub fun_safety_latch : Latch.Latches
  pub fun_std_pre : Standard.Channels F
  pub fun_duty_thresh_post : Threshold.Duties

abbrev pub speed_profile_data : {F : Type 0} → NormalizedGraphProfile F → SpeedProfileData F
speed_profile_data profile = record {
  temp = none;
  duty = none;
  profile = profile;
  processing_started = false;
  safety_latch_triggered = false;
}

module _ {F : Type 0} ⦃fl : Float F⦄ (tma_new_over : ℕ → List F → Option (List F)) where
  unfoldable pub apply_identity : AllDevices F → SpeedProfileData F → SpeedProfileData F
  apply_identity all_devices d =
      if identity_is_applicable d then identity_process all_devices d else d

  unfoldable pub apply_ema : AllDevices F → SpeedProfileData F → Outcome (SpeedProfileData F)
  apply_ema all_devices d =
      if ema_is_applicable d then ema_process tma_new_over all_devices d else ok d

  unfoldable pub apply_std :
      AllDevices F
      → Standard.Channels F
      → SpeedProfileData F
      → Outcome (Standard.Channels F × SpeedProfileData F)
  apply_std all_devices channels d =
      if Standard.is_applicable d then Standard.process all_devices channels d else ok (channels, d)

  -- The pre-processors: of the three, the one for the function's type finds a temperature.
  unfoldable pub pre_process :
      AllDevices F
      → Standard.Channels F
      → SpeedProfileData F
      → Outcome (Standard.Channels F × SpeedProfileData F)
  pre_process all_devices channels d = do
    d1 ← apply_ema all_devices (apply_identity all_devices d)
    apply_std all_devices channels d1

  unfoldable pub apply_graph : SpeedProfileData F → Outcome (SpeedProfileData F)
  apply_graph d = if graph_is_applicable d then graph_process d else ok d

  unfoldable pub apply_threshold :
      Threshold.Duties → SpeedProfileData F → Outcome (Threshold.Duties × SpeedProfileData F)
  apply_threshold duties d =
      if Threshold.is_applicable d then Threshold.process duties d else ok (duties, d)

  -- The graph processor and the duty threshold.
  unfoldable pub post_process :
      Threshold.Duties → SpeedProfileData F → Outcome (Threshold.Duties × SpeedProfileData F)
  post_process duties d = do d1 ← apply_graph d; apply_threshold duties d1

  -- The chain after the first run of the latch.
  unfoldable pub process_started :
      AllDevices F
      → ProcessorCollection F
      → Latch.Latches
      → SpeedProfileData F
      → Outcome (ProcessorCollection F × Option ℕ)
  process_started all_devices ps latches d = do
    warm ← pre_process all_devices ps.fun_std_pre d
    done ← post_process ps.fun_duty_thresh_post warm.1
    ended ← Latch.process latches done.1
    ok (
      record { fun_safety_latch = ended.0; fun_std_pre = warm.0; fun_duty_thresh_post = done.0 },
      ended.1.duty,
    )

  unfoldable pub process_speed_setting :
      AllDevices F
      → ProcessorCollection F
      → NormalizedGraphProfile F
      → Outcome (ProcessorCollection F × Option ℕ)
  process_speed_setting all_devices ps profile = do
    started ← Latch.process ps.fun_safety_latch (speed_profile_data profile)
    process_started all_devices ps started.0 started.1
