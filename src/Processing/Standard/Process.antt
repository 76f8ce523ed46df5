-- ===== src/Processing/Standard/Process.antt =====
-- The standard pre-processor as a whole.
use coolerocontrol.Base.{
  ℕ, ◌<◌, ◌≡◌, refl, String, true, false, Option, none, some, List, [], ◌∷◌, arith, inl, inr,
  nat_eq, string_eq, ◌==◌, is_empty, Bool-cases, snoc-cons, get_last?_of_ne, reverse, take,
  if◌then◌else◌,
}
use coolerocontrol.Base.Dict.{get, contains_key, get_of_contains_key, contains_key-replace}
use coolerocontrol.Base.Float.{Float}
use coolerocontrol.Base.Outcome.{Returns, Returns-unwrap, Returns-bind}
use coolerocontrol.Device.{Device}
use coolerocontrol.Processing.{SpeedProfileData}
use coolerocontrol.Processing.Sensor.{AllDevices, is_some, emergency_missing_temp, all_named_temps}
use coolerocontrol.Processing.Standard.{
  ChannelSettingMetadata, Channels, data_is_sane, with_ideal_size, first_temps, with_missing_device,
  fill_temp_stack, is_first, process,
}
use coolerocontrol.Processing.Standard.Stack.{IsStep, IsFilled, HasSettings, process_stack-IsStep}

module _ {F : Type 0} ⦃fl : Float F⦄ where
  -- Every device that is present has a status.
  abbrev pub HasHistory : AllDevices F → Type 0
  HasHistory all_devices =
      (uid : String) (device : Device F)
      → get uid all_devices ≡ some device
      → is_empty device.status_history ≡ false

  first_temps-filled :
      (temp_name : String) (n : ℕ) (device : Device F)
      → (x : F) × (xs : List F) × (first_temps temp_name n device ≡ x ∷ xs)
  unfolding first_temps
  first_temps-filled temp_name n device =
      go (reverse (all_named_temps temp_name (take n (reverse device.status_history))))
    where
      go :
          (l : List F)
          → (x : F) × (xs : List F) × ((if is_empty l then emergency_missing_temp ∷ [] else l)
              ≡ x ∷ xs)
      go [] = (emergency_missing_temp, [], refl)
      go (x ∷ xs) = (x, xs, refl)

  abbrev Fills : ChannelSettingMetadata F → ChannelSettingMetadata F → Type 0
  Fills m m' = IsFilled m' × (m'.ideal_stack_size ≡ m.ideal_stack_size)

  fill_temp_stack-Fills :
      (m : ChannelSettingMetadata F) (d : SpeedProfileData F) (o : Option (Device F))
      → ((device : Device F) → o ≡ some device → is_empty device.status_history ≡ false)
      → Returns (fill_temp_stack m d o) (Fills m)
  unfolding fill_temp_stack with_missing_device
  fill_temp_stack-Fills m d none h = (snoc-cons _ _, refl)
  fill_temp_stack-Fills m d (some device) h = elim (Bool-cases (is_first m)) [
    | inl first ↦
        rw first
          (first_temps-filled d.profile.temp_source.temp_name m.ideal_stack_size device, refl)
    | inr later ↦
        let (status, e) = get_last?_of_ne device.status_history (h device refl) in
        rw later (Returns-unwrap (Fills m) _ _ status e (snoc-cons m.temp_hist_stack _, refl))
  ]

  with_ideal_size-pos :
      (m : ChannelSettingMetadata F) (d : SpeedProfileData F)
      → HasSettings d.profile.function
      → Returns (with_ideal_size d m) (λ s. 0 < s.ideal_stack_size)
  unfolding with_ideal_size
  with_ideal_size-pos m d h = elim (Bool-cases (m.ideal_stack_size == 0)) [
    | inl unset ↦ rw unset (
        Returns-unwrap (λ (s : ChannelSettingMetadata F). 0 < s.ideal_stack_size) _ _ h.delay
          h.has_delay (omega arith))
    | inr sized ↦ rw sized (ground arith)
  ]

  -- What a run of the pre-processor keeps: the data but for its temp, and the keys of its state.
  pub record IsRun (channels : Channels F) (d : SpeedProfileData F)
      (r : Channels F × SpeedProfileData F) : Type 0 where
    pub same_data : r.1 ≡ record d { temp = r.1.temp }
    pub for_latch : d.safety_latch_triggered ≡ true → is_some r.1.temp ≡ true
    pub same_keys : (k : String) → contains_key k r.0 ≡ contains_key k channels

  -- For a profile with its state and settings, where every device that is present has a status, the
  -- standard pre-processor returns: it changes nothing of the data but the temp, and gives one if the
  -- safety latch is triggered. The keys of its state stay.
  pub process-IsRun :
      (all_devices : AllDevices F) (channels : Channels F) (d : SpeedProfileData F)
      → HasHistory all_devices
      → contains_key d.profile.profile_uid channels ≡ true
      → HasSettings d.profile.function
      → Returns (process all_devices channels d) (IsRun channels d)
  unfolding process data_is_sane
  process-IsRun all_devices channels d h k s =
      let uid = d.profile.profile_uid in
      let (m, e) = get_of_contains_key uid channels k in
      rw (← sane) (
        Returns-unwrap (IsRun channels d) _ _ m e (
          Returns-bind (IsRun channels d) (λ z. 0 < z.ideal_stack_size) _ (with_ideal_size d m)
            (with_ideal_size-pos m d s)
            λ sized p.
              Returns-bind (IsRun channels d) (Fills sized) _ _
                (fill_temp_stack-Fills sized d _ (h d.profile.temp_source.device_uid))
                λ filled f.
                  Returns-bind (IsRun channels d) (IsStep filled d) _ _
                    (process_stack-IsStep filled d f.0 (omega (arith, f.1)) s)
                    λ done t. record {
                      same_data = t.same_data;
                      for_latch = t.for_latch;
                      same_keys = λ j. contains_key-replace uid j done.0 channels k;
                    }))
    where
      sane : true ≡ data_is_sane d
      sane = ground (arith, s.has_delay, s.has_down, s.has_deviance)
