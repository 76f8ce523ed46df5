-- ===== src/Processing/Chain/Temp.antt =====
-- The pre-processors return, and find a temperature where the function has what it needs.
use coolerocontrol.Base.{
  ℕ, ◌-◌, ◌<◌, ◌≡◌, refl, ap, inl, inr, String, Bool, true, false, ◌&&◌, Option, none, some, List,
  [], ◌∷◌, arith, string_eq, length, length-drop, is_empty, drop, get_last?_of_ne, Bool-cases,
  Option-cases,
}
use mathlib.Core.Path.{ap₂}
use coolerocontrol.Base.Dict.{get, contains_key}
use coolerocontrol.Base.Float.{Float}
use coolerocontrol.Base.Outcome.{ok, Returns, Returns-unwrap, Returns-bind}
use coolerocontrol.Setting.{Function, FunctionType}
use coolerocontrol.Device.{Device}
use coolerocontrol.Processing.{SpeedProfileData}
use coolerocontrol.Processing.Sensor.{
  AllDevices, is_none, is_some, or_else, is_identity, is_standard, is_exponential_moving_avg,
  temp_sample_size, tma_default_window_size, latest_temp, identity_is_applicable, identity_process,
  ema_is_applicable, ema_process, ema_temp, current_temp_from_exponential_moving_average,
  get_temps_slice,
}
use coolerocontrol.Processing.Standard
use coolerocontrol.Processing.Standard.Stack.{HasSettings}
use coolerocontrol.Processing.Standard.Process.{HasHistory, IsRun, process-IsRun}
use coolerocontrol.Processing.Chain.{apply_identity, apply_ema, apply_std, pre_process}

not_applicable :
    {F : Type 0} (b : Bool) (o : Option F) → is_some o ≡ true → (b && is_none o) ≡ false
not_applicable b o h = ground arith

module _ {F : Type 0} ⦃fl : Float F⦄ where
  latest_temp-some :
      (temp_name : String) (device : Device F)
      → is_empty device.status_history ≡ false
      → is_some (latest_temp temp_name device) ≡ true
  unfolding latest_temp
  latest_temp-some temp_name device h =
      let (status, e) = get_last?_of_ne device.status_history h in rw (e, latest_temp) refl

  -- With a device that is missing or has a status the identity function always finds a temperature.
  identity_process-some :
      (all_devices : AllDevices F) (d : SpeedProfileData F)
      → HasHistory all_devices
      → (identity_process all_devices d ≡ record d { temp = (identity_process all_devices d).temp })
        × (is_some (identity_process all_devices d).temp ≡ true)
  unfolding identity_process
  identity_process-some all_devices d h =
      elim (Option-cases (get d.profile.temp_source.device_uid all_devices)) [
        | inl missing ↦ rw (missing, identity_process) (refl, refl)
        | inr (device, found) ↦
            rw (found, identity_process)
              (refl, latest_temp-some d.profile.temp_source.temp_name device (h _ device found))
      ]

  drop-ne-nil : (n : ℕ) (l : List F) → n < length l → is_empty (drop n l) ≡ false
  drop-ne-nil n l h = ne-of-length (drop n l) (omega (arith, length-drop n l))
    where
      ne-of-length : (xs : List F) → 0 < length xs → is_empty xs ≡ false
      ne-of-length [] p = elim p [ ]
      ne-of-length (x ∷ xs) p = refl

  get_temps_slice-ne-nil : (l : List F) → is_empty l ≡ false → is_empty (get_temps_slice l) ≡ false
  unfolding get_temps_slice
  get_temps_slice-ne-nil l h = ground (arith, drop-ne-nil (length l - temp_sample_size) l)

module _ {F : Type 0} ⦃fl : Float F⦄ (tma_new_over : ℕ → List F → Option (List F)) where
  -- What yata documents: over samples, with a window that is not 0, there is an average for each.
  pub record HasAverages (window_size : Option ℕ) : Type 0 where
    pub averages :
        (samples : List F)
        → is_empty samples ≡ false
        → (xs : List F) × (tma_new_over (or_else tma_default_window_size window_size) samples
            ≡ some xs)
          × (is_empty xs ≡ false)

  abbrev IsWarm : SpeedProfileData F → SpeedProfileData F → Type 0
  IsWarm d r = (r ≡ record d { temp = r.temp }) × (is_some r.temp ≡ true)

  ema_temp-returns :
      (d : SpeedProfileData F) (temps : List F)
      → HasAverages d.profile.function.sample_window
      → Returns (ema_temp tma_new_over d temps) (λ _. Unit {0})
  unfolding ema_temp current_temp_from_exponential_moving_average
  ema_temp-returns d temps a = elim (Bool-cases (is_empty temps)) [
    | inl none_found ↦ rw none_found tt
    | inr found ↦
        let (xs, made, ne) =
          a.averages (get_temps_slice temps) (get_temps_slice-ne-nil temps found) in
        let (last, e) = get_last?_of_ne xs ne in
        rw found (
          Returns-unwrap (λ _. Unit {0}) _ _ xs made (Returns-unwrap (λ _. Unit {0}) _ _ last e tt))
  ]

  ema_process-IsWarm :
      (all_devices : AllDevices F) (d : SpeedProfileData F)
      → HasAverages d.profile.function.sample_window
      → Returns (ema_process tma_new_over all_devices d) (IsWarm d)
  unfolding ema_process
  ema_process-IsWarm all_devices d a =
      elim (Option-cases (get d.profile.temp_source.device_uid all_devices)) [
        | inl missing ↦ rw (missing, ema_process) (refl, refl)
        | inr (device, found) ↦
            rw (found, ema_process)
              (Returns-bind (IsWarm d) (λ _. Unit {0}) (λ temp. ok (record d { temp = some temp }))
                _ (ema_temp-returns d _ a) (λ temp _. (refl, refl)))
      ]

  -- What the function of a profile needs: the standard one its three settings, the moving average a
  -- window that the crate accepts.
  pub record IsReady (f : Function F) : Type 0 where
    pub settings : is_standard f.f_type ≡ true → HasSettings f
    pub window : is_exponential_moving_avg f.f_type ≡ true → HasAverages f.sample_window

  apply_identity-IsWarm :
      (all_devices : AllDevices F) (d : SpeedProfileData F)
      → HasHistory all_devices
      → d.temp ≡ none
      → is_identity d.profile.function.f_type ≡ true
      → IsWarm d (apply_identity tma_new_over all_devices d)
  unfolding apply_identity identity_is_applicable
  apply_identity-IsWarm all_devices d h t f =
      rw (ap₂ (λ x y. x && is_none y) f t, apply_identity) (identity_process-some all_devices d h)

  apply_identity-skip :
      (all_devices : AllDevices F) (d : SpeedProfileData F)
      → is_identity d.profile.function.f_type ≡ false
      → apply_identity tma_new_over all_devices d ≡ d
  unfolding apply_identity identity_is_applicable
  apply_identity-skip all_devices d f = rw (f, apply_identity) refl

  -- With a temperature the later pre-processors do not apply.
  apply_ema_later-IsWarm :
      (all_devices : AllDevices F) (d0 d : SpeedProfileData F)
      → IsWarm d0 d
      → Returns (apply_ema tma_new_over all_devices d) (IsWarm d0)
  unfolding apply_ema ema_is_applicable
  apply_ema_later-IsWarm all_devices d0 d w =
      rw
        (not_applicable (is_exponential_moving_avg d.profile.function.f_type) d.temp w.1, apply_ema)
        w

  apply_std_later-IsWarm :
      (all_devices : AllDevices F) (channels : Standard.Channels F) (d0 d : SpeedProfileData F)
      → IsWarm d0 d
      → Returns (apply_std tma_new_over all_devices channels d) (IsRun channels d0)
  unfolding apply_std Standard.is_applicable
  apply_std_later-IsWarm all_devices channels d0 d w =
      rw (not_applicable (is_standard d.profile.function.f_type) d.temp w.1, apply_std)
        (record { same_data = w.0; for_latch = λ _. w.1; same_keys = λ _. refl })

  apply_ema-IsWarm :
      (all_devices : AllDevices F) (d : SpeedProfileData F)
      → d.temp ≡ none
      → is_exponential_moving_avg d.profile.function.f_type ≡ true
      → HasAverages d.profile.function.sample_window
      → Returns (apply_ema tma_new_over all_devices d) (IsWarm d)
  unfolding apply_ema ema_is_applicable
  apply_ema-IsWarm all_devices d t f a =
      rw (ap₂ (λ x y. x && is_none y) f t, apply_ema) (ema_process-IsWarm all_devices d a)

  apply_ema-skip :
      (all_devices : AllDevices F) (d : SpeedProfileData F)
      → is_exponential_moving_avg d.profile.function.f_type ≡ false
      → apply_ema tma_new_over all_devices d ≡ ok d
  unfolding apply_ema ema_is_applicable
  apply_ema-skip all_devices d f = rw (f, apply_ema) refl

  apply_std-IsRun :
      (all_devices : AllDevices F) (channels : Standard.Channels F) (d : SpeedProfileData F)
      → d.temp ≡ none
      → is_standard d.profile.function.f_type ≡ true
      → HasHistory all_devices
      → contains_key d.profile.profile_uid channels ≡ true
      → HasSettings d.profile.function
      → Returns (apply_std tma_new_over all_devices channels d) (IsRun channels d)
  unfolding apply_std Standard.is_applicable
  apply_std-IsRun all_devices channels d t f h k s =
      rw (ap₂ (λ x y. x && is_none y) f t, apply_std) (process-IsRun all_devices channels d h k s)

  pre_process-typed :
      (ty : FunctionType) (all_devices : AllDevices F) (channels : Standard.Channels F)
      (d : SpeedProfileData F)
      → d.profile.function.f_type ≡ ty
      → d.temp ≡ none
      → HasHistory all_devices
      → IsReady d.profile.function
      → contains_key d.profile.profile_uid channels ≡ true
      → Returns (pre_process tma_new_over all_devices channels d) (IsRun channels d)
  unfolding pre_process
  pre_process-typed FunctionType.identity all_devices channels d f t h r k =
      Returns-bind (IsRun channels d) (IsWarm d) _ _
        (apply_ema_later-IsWarm all_devices d _
          (apply_identity-IsWarm all_devices d h t (ap is_identity f)))
        (λ d1 w. apply_std_later-IsWarm all_devices channels d d1 w)
  pre_process-typed FunctionType.exponential_moving_avg all_devices channels d f t h r k =
      rw (apply_identity-skip all_devices d (ap is_identity f)) (
        Returns-bind (IsRun channels d) (IsWarm d) _ _
          (apply_ema-IsWarm all_devices d t (ap is_exponential_moving_avg f)
            (r.window (ap is_exponential_moving_avg f)))
          (λ d1 w. apply_std_later-IsWarm all_devices channels d d1 w))
  pre_process-typed FunctionType.standard all_devices channels d f t h r k =
      rw
        (
          apply_identity-skip all_devices d (ap is_identity f),
          apply_ema-skip all_devices d (ap is_exponential_moving_avg f),
        )
        (apply_std-IsRun all_devices channels d t (ap is_standard f) h k
          (r.settings (ap is_standard f)))

  pub pre_process-IsRun :
      (all_devices : AllDevices F) (channels : Standard.Channels F) (d : SpeedProfileData F)
      → d.temp ≡ none
      → HasHistory all_devices
      → IsReady d.profile.function
      → contains_key d.profile.profile_uid channels ≡ true
      → Returns (pre_process tma_new_over all_devices channels d) (IsRun channels d)
  pre_process-IsRun all_devices channels d =
      pre_process-typed d.profile.function.f_type all_devices channels d refl
