-- ===== src/Processing/Sensor.antt =====
-- processors/functions.rs and processors/profiles.rs: the processors that keep no state. A missing
-- device or sensor counts as the emergency temperature.
use coolerocontrol.Base.{
  ℕ, ◌-◌, String, Bool, true, false, ◌&&◌, Option, none, some, List, [], ◌∷◌, ◌++◌, map, reverse,
  ◌==◌, string_eq, ltb, if◌then◌else◌, length, get_last?, is_empty, take, drop, filterb,
}
use coolerocontrol.Base.Dict.{Dict, get}
use coolerocontrol.Base.Float.{Float}
use coolerocontrol.Base.Outcome.{Outcome, ok, unwrap, ◌>>=◌}
use coolerocontrol.Device.{Device, Status}
use coolerocontrol.Setting.{FunctionType}
use coolerocontrol.Processing.{SpeedProfileData}
use coolerocontrol.Processing.Utils.{interpolate_profile}

abbrev pub AllDevices : Type 0 → Type 0
AllDevices F = Dict String (Device F)

abbrev pub tma_default_window_size : ℕ
tma_default_window_size = 8

abbrev pub temp_sample_size : ℕ
temp_sample_size = 16

abbrev pub is_none {ℓ} : {A : Type ℓ} → Option A → Bool
is_none none = true
is_none (some _) = false

abbrev pub is_some {ℓ} : {A : Type ℓ} → Option A → Bool
is_some none = false
is_some (some _) = true

abbrev pub or_else {ℓ} : {A : Type ℓ} → A → Option A → A
or_else d none = d
or_else d (some a) = a

-- `f_type == …` of the derived `PartialEq`.
abbrev pub is_identity : FunctionType → Bool
is_identity FunctionType.identity = true
is_identity FunctionType.standard = false
is_identity FunctionType.exponential_moving_avg = false

abbrev pub is_standard : FunctionType → Bool
is_standard FunctionType.identity = false
is_standard FunctionType.standard = true
is_standard FunctionType.exponential_moving_avg = false

abbrev pub is_exponential_moving_avg : FunctionType → Bool
is_exponential_moving_avg FunctionType.identity = false
is_exponential_moving_avg FunctionType.standard = false
is_exponential_moving_avg FunctionType.exponential_moving_avg = true

module _ {F : Type 0} where
  -- The temperatures of the named sensor in one status, in the order of the status.
  unfoldable pub named_temps : String → Status F → List F
  named_temps temp_name status = map (λ t. t.temp) (filterb (λ t. t.name == temp_name) status.temps)

  -- Those of several statuses, one after the other.
  unfoldable pub all_named_temps : String → List (Status F) → List F
  unfolding named_temps
  all_named_temps temp_name [] = []
  all_named_temps temp_name (s ∷ ss) = named_temps temp_name s ++ all_named_temps temp_name ss

module _ {F : Type 0} ⦃fl : Float F⦄ where
  abbrev pub emergency_missing_temp : F
  emergency_missing_temp = fl.of_nat 100

  unfoldable pub sensor_temp : String → Status F → F
  unfolding named_temps
  sensor_temp temp_name status =
      or_else emergency_missing_temp (get_last? (named_temps temp_name status))

  unfoldable pub latest_temp : String → Device F → Option F
  unfolding sensor_temp
  latest_temp temp_name device = elim (get_last? device.status_history) [
    | none ↦ none
    | some status ↦ some (sensor_temp temp_name status)
  ]

  unfoldable pub identity_is_applicable : SpeedProfileData F → Bool
  identity_is_applicable d = is_identity d.profile.function.f_type && is_none d.temp

  unfoldable pub identity_process : AllDevices F → SpeedProfileData F → SpeedProfileData F
  unfolding latest_temp
  identity_process all_devices d = elim (get d.profile.temp_source.device_uid all_devices) [
    | none ↦ record d { temp = some emergency_missing_temp }
    | some device ↦ record d { temp = latest_temp d.profile.temp_source.temp_name device }
  ]

  -- The newest samples only.
  unfoldable pub get_temps_slice : List F → List F
  get_temps_slice all_temps =
      if ltb temp_sample_size (length all_temps)
      then drop (length all_temps - temp_sample_size) all_temps
      else all_temps

  unfoldable pub ema_is_applicable : SpeedProfileData F → Bool
  ema_is_applicable d = is_exponential_moving_avg d.profile.function.f_type && is_none d.temp

  -- `TMA::new_over` is of the crate yata: from a window and samples to the moving averages, or an
  -- error. The last average is rounded to the nearest hundredth.
  module _ (tma_new_over : ℕ → List F → Option (List F)) where
    unfoldable pub current_temp_from_exponential_moving_average : List F → Option ℕ → Outcome F
    unfolding get_temps_slice
    current_temp_from_exponential_moving_average all_temps window_size = do
      averages ←
          unwrap
            (tma_new_over (or_else tma_default_window_size window_size) (get_temps_slice all_temps))
      last ← unwrap (get_last? averages)
      ok (fl.div (fl.round (fl.mul last (fl.of_nat 100))) (fl.of_nat 100))

    unfoldable pub ema_temp : SpeedProfileData F → List F → Outcome F
    unfolding current_temp_from_exponential_moving_average
    ema_temp d temps =
        if is_empty temps
        then ok emergency_missing_temp
        else current_temp_from_exponential_moving_average temps d.profile.function.sample_window

    unfoldable pub ema_process : AllDevices F → SpeedProfileData F → Outcome (SpeedProfileData F)
    unfolding ema_temp all_named_temps
    ema_process all_devices d = elim (get d.profile.temp_source.device_uid all_devices) [
      | none ↦ ok (record d { temp = some emergency_missing_temp })
      | some device ↦ do
        let newest_first =
            all_named_temps d.profile.temp_source.temp_name
              (take temp_sample_size (reverse device.status_history))
        temp ← ema_temp d (reverse newest_first)
        ok (record d { temp = some temp })
    ]

  unfoldable pub graph_is_applicable : SpeedProfileData F → Bool
  graph_is_applicable d = is_some d.temp

  unfoldable pub graph_process : SpeedProfileData F → Outcome (SpeedProfileData F)
  graph_process d = do
    temp ← unwrap d.temp
    duty ← interpolate_profile d.profile.speed_profile temp
    ok (record d { duty = some duty })
