-- ===== src/Processing/Standard.antt =====
-- processors/functions.rs: the standard function, with hysteresis and a response delay.
pub mod Stack
pub mod Process
use coolerocontrol.Base.{
  ℕ, suc, ◌+◌, ◌-◌, ◌%◌, String, Bool, true, false, not, ◌&&◌, Option, none, some, List, [], ◌∷◌,
  ◌++◌, reverse, ltb, ◌==◌, nat_eq, string_eq, if◌then◌else◌, length, head?, tail, get_last?,
  is_empty, take, drop, max,
}
use coolerocontrol.Base.Dict.{Dict, get, insert, remove}
use coolerocontrol.Base.Float.{Float, fleb, fltb, feqb}
use coolerocontrol.Base.Outcome.{Outcome, ok, panic, unwrap, ◌>>=◌}
use coolerocontrol.Device.{Device}
use coolerocontrol.Processing.{SpeedProfileData}
use coolerocontrol.Processing.Sensor.{
  AllDevices, is_none, is_some, is_standard, all_named_temps, sensor_temp, emergency_missing_temp,
}

abbrev pub min_temp_hist_stack_size : ℕ
min_temp_hist_stack_size = 2

-- The front of the stack is the oldest temperature.
pub record ChannelSettingMetadata (F : Type 0) : Type 0 where
  pub temp_hist_stack : List F
  pub ideal_stack_size : ℕ
  pub last_applied_temp : F

abbrev pub Channels : Type 0 → Type 0
Channels F = Dict String (ChannelSettingMetadata F)

abbrev pub Processed : Type 0 → Type 0
Processed F = ChannelSettingMetadata F × SpeedProfileData F

-- All but the last element become `x`.
unfoldable pub flatten_stack {ℓ} : {A : Type ℓ} → A → List A → List A
flatten_stack x [] = []
flatten_stack x (y ∷ []) = y ∷ []
flatten_stack x (y ∷ z ∷ zs) = x ∷ flatten_stack x (z ∷ zs)

module _ {F : Type 0} where
  unfoldable pub data_is_sane : SpeedProfileData F → Bool
  data_is_sane d =
      is_some d.profile.function.response_delay
      && (is_some d.profile.function.deviance && is_some d.profile.function.only_downward)

  -- The size of the stack is set on the first run. A delay of 255 seconds wraps to 0.
  unfoldable pub with_ideal_size :
      SpeedProfileData F → ChannelSettingMetadata F → Outcome (ChannelSettingMetadata F)
  with_ideal_size d m =
      if m.ideal_stack_size == 0
      then (do
        response_delay ← unwrap d.profile.function.response_delay
        ok (record m {
          ideal_stack_size = max min_temp_hist_stack_size ((response_delay + 1) % 256);
        }))
      else ok m

  abbrev pub clear_state : String → Channels F → Channels F
  clear_state profile_uid m = remove profile_uid m

module _ {F : Type 0} ⦃fl : Float F⦄ where
  abbrev pub new : ChannelSettingMetadata F
  new = record { temp_hist_stack = []; ideal_stack_size = 0; last_applied_temp = fl.of_nat 0 }

  abbrev pub init_state : String → Channels F → Channels F
  init_state profile_uid m = insert profile_uid new m

  abbrev pub is_first : ChannelSettingMetadata F → Bool
  is_first m = feqb m.last_applied_temp (fl.of_nat 0)

  unfoldable pub with_missing_device : ChannelSettingMetadata F → ChannelSettingMetadata F
  with_missing_device m = record m {
    temp_hist_stack = (if is_first m then [] else m.temp_hist_stack) ++ emergency_missing_temp ∷ [];
  }

  -- The latest temps in their order, or the emergency temp.
  unfoldable pub first_temps : String → ℕ → Device F → List F
  first_temps temp_name ideal_stack_size device =
      let latest_temps =
        reverse
          (all_named_temps temp_name (take ideal_stack_size (reverse device.status_history))) in
      if is_empty latest_temps then emergency_missing_temp ∷ [] else latest_temps

  unfoldable pub fill_temp_stack :
      ChannelSettingMetadata F
      → SpeedProfileData F
      → Option (Device F)
      → Outcome (ChannelSettingMetadata F)
  unfolding with_missing_device first_temps
  fill_temp_stack m d none = ok (with_missing_device m)
  fill_temp_stack m d (some device) =
      if is_first m
      then ok (record m {
        temp_hist_stack = first_temps d.profile.temp_source.temp_name m.ideal_stack_size device;
      })
      else (do
        status ← unwrap (get_last? device.status_history)
        ok (record m {
          temp_hist_stack =
              m.temp_hist_stack ++ sensor_temp d.profile.temp_source.temp_name status ∷ [];
        }))

  unfoldable pub temp_within_tolerance : F → F → F → Bool
  temp_within_tolerance temp_to_verify last_applied_temp deviance =
      fleb temp_to_verify (fl.add last_applied_temp deviance)
      && fleb (fl.sub last_applied_temp deviance) temp_to_verify

  unfoldable pub apply_temp : F → ChannelSettingMetadata F → SpeedProfileData F → Processed F
  apply_temp temp m d = (record m { last_applied_temp = temp }, record d { temp = some temp })

  -- Spikes that happened within the delay are skipped: the newest temp is left as it is.
  unfoldable pub skip_spikes : Bool → F → ChannelSettingMetadata F → ChannelSettingMetadata F
  unfolding flatten_stack
  skip_spikes all_within oldest_temp m =
      if ltb min_temp_hist_stack_size (length m.temp_hist_stack) && all_within
      then record m { temp_hist_stack = flatten_stack oldest_temp m.temp_hist_stack }
      else m

  -- Hysteresis: what is within the tolerance is not applied, unless the latch asks for it.
  unfoldable pub apply_oldest :
      F → F → F → ChannelSettingMetadata F → SpeedProfileData F → Processed F
  apply_oldest deviance oldest_temp newest_temp m d =
      let oldest_within = temp_within_tolerance oldest_temp m.last_applied_temp deviance in
      let newest_within = temp_within_tolerance newest_temp m.last_applied_temp deviance in
      let normalized = skip_spikes (oldest_within && newest_within) oldest_temp m in
      if oldest_within && not d.safety_latch_triggered
      then (normalized, d)
      else apply_temp oldest_temp normalized d

  -- With `only_downward` a rise is applied at once.
  unfoldable pub apply_change :
      Bool → F → F → F → ChannelSettingMetadata F → SpeedProfileData F → Processed F
  apply_change only_downward deviance newest_temp oldest_temp m d =
      if only_downward && fltb m.last_applied_temp newest_temp
      then apply_temp newest_temp (record m { temp_hist_stack = newest_temp ∷ [] }) d
      else apply_oldest deviance oldest_temp newest_temp m d

  unfoldable pub main_logic : ChannelSettingMetadata F → SpeedProfileData F → Outcome (Processed F)
  main_logic m d = do
    only_downward ← unwrap d.profile.function.only_downward
    newest_temp ← unwrap (get_last? m.temp_hist_stack)
    oldest_temp ← unwrap (head? m.temp_hist_stack)
    deviance ← unwrap d.profile.function.deviance
    ok (apply_change only_downward deviance newest_temp oldest_temp m d)

  unfoldable pub apply_first : ChannelSettingMetadata F → SpeedProfileData F → Outcome (Processed F)
  apply_first m d = do
    temp_to_apply ← unwrap (head? m.temp_hist_stack)
    ok (apply_temp temp_to_apply m d)

  -- The stack drops its oldest temp when it is too long. On the very first run it need not be full.
  unfoldable pub process_stack :
      ChannelSettingMetadata F → SpeedProfileData F → Outcome (Processed F)
  process_stack m d =
      if ltb m.ideal_stack_size (length m.temp_hist_stack)
      then main_logic (record m { temp_hist_stack = tail m.temp_hist_stack }) d
      else if is_first m && ltb (length m.temp_hist_stack) m.ideal_stack_size
      then apply_first m d
      else main_logic m d

  unfoldable pub is_applicable : SpeedProfileData F → Bool
  is_applicable d = is_standard d.profile.function.f_type && is_none d.temp

  unfoldable pub process :
      AllDevices F → Channels F → SpeedProfileData F → Outcome (Channels F × SpeedProfileData F)
  process all_devices channels d = if not (data_is_sane d) then ok (channels, d) else (do
    m ← unwrap (get d.profile.profile_uid channels)
    sized ← with_ideal_size d m
    filled ← fill_temp_stack sized d (get d.profile.temp_source.device_uid all_devices)
    done ← process_stack filled d
    ok (insert d.profile.profile_uid done.0 channels, done.1))
