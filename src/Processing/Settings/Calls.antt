-- ===== src/Processing/Settings/Calls.antt =====
-- Which calls of a repository a setting leads to.
pub mod Profiles
use coolerocontrol.Base.{
  ℕ, ◌≡◌, ◌⊎◌, refl, inl, inr, ap, String, Bool, true, false, not, ◌&&◌, ◌||◌, Option, none, some,
  List, [], ◌∷◌, ◌++◌, string_eq, ◌==◌,
}
use coolerocontrol.Base.Float.{Float}
use coolerocontrol.Base.Outcome.{Outcome, ok, err, panic}
use coolerocontrol.Base.State.{
  Action, lift, done, for_each, Hoare, Hoare-bind, Hoare-check, Hoare-if, Keeps, Keeps-lift,
  Keeps-for_each, ◌>>=◌,
}
use coolerocontrol.Config.DeviceSettings.{is_true}
use coolerocontrol.Device.{Device, SpeedOptions}
use coolerocontrol.Setting.{
  Profile, ProfileType, Function, TempSource, LightingSettings, LcdSettings, Setting,
}
use coolerocontrol.Processing.Graph.{GraphProfileCommander}
use coolerocontrol.Processing.Lcd.{LcdCommander}
use coolerocontrol.Processing.Sensor.{is_identity}
use coolerocontrol.Processing.Settings.{
  Machine, SettingsController, Call, apply_setting_speed_fixed, apply_setting_speed_profile,
  apply_setting_lcd, apply_setting_lighting, apply_setting_pwm_mode, apply_setting_reset,
  get_device_repo, clear_mix, clear_graph, clear_lcd, call, read_profiles, read_functions,
  store_device_setting, with_commander, with_config, with_lcd,
}
use coolerocontrol.Processing.Settings.Apply.{
  set_fixed_speed, set_reset, set_lcd, show_lcd, set_lighting, reset_lighting, reset_setting,
  drive_graph, set_graph_profile, set_mix_profile, apply_profile, set_profile, set_present,
  set_config_setting,
}

module _ {F : Type 0} where
  -- The channel that a call is for.
  abbrev pub target : Call F → String × String
  target (apply_setting_speed_fixed uid channel _) = (uid, channel)
  target (apply_setting_speed_profile uid channel _ _) = (uid, channel)
  target (apply_setting_lcd uid channel _) = (uid, channel)
  target (apply_setting_lighting uid channel _) = (uid, channel)
  target (apply_setting_pwm_mode uid channel _) = (uid, channel)
  target (apply_setting_reset uid channel) = (uid, channel)

module _ {F Doc : Type 0} (machine : Machine F Doc) (before : List (Call F)) where
  -- There was no call, or one for the channel, whose device is there and has a repository.
  abbrev pub IsConfined : String → String → SettingsController F Doc → Type 0
  IsConfined uid channel s =
      (s.calls ≡ before)
      ⊎ ((c : Call F) × (s.calls ≡ before ++ c ∷ [])
          × (target c ≡ (uid, channel))
          × (device : Device F) × (get_device_repo machine uid ≡ ok device))

  abbrev pub Silent : SettingsController F Doc → Type 0
  Silent s = s.calls ≡ before

  pub call-IsConfined :
      (uid channel : String) (device : Device F) (c : Call F)
      → get_device_repo machine uid ≡ ok device
      → target c ≡ (uid, channel)
      → Hoare Silent (call machine c) (IsConfined uid channel)
  call-IsConfined uid channel device c g t = record {
    holds = λ s p. inr (c, ap (λ cs. cs ++ c ∷ []) p, t, device, g);
  }

  pub check :
      {A B : Type 0} (uid channel : String) (o : Outcome A)
      (f : A → Action (SettingsController F Doc) B)
      → ((a : A) → o ≡ ok a → Hoare Silent (f a) (IsConfined uid channel))
      → Hoare Silent (lift o >>= f) (IsConfined uid channel)
  check uid channel o f h = Hoare-check Silent (IsConfined uid channel) o f (λ s p. inl p) h

  pub quietly :
      {A B : Type 0} (uid channel : String) (m : Action (SettingsController F Doc) A)
      (f : A → Action (SettingsController F Doc) B)
      → Keeps Silent m
      → ((a : A) → Hoare Silent (f a) (IsConfined uid channel))
      → Hoare Silent (m >>= f) (IsConfined uid channel)
  quietly uid channel m f k h =
      Hoare-bind Silent Silent (IsConfined uid channel) m f (λ s p. inl p) k h

  pub with_commander-Silent :
      (s : SettingsController F Doc) (o : Outcome (GraphProfileCommander F))
      → Silent s
      → Silent (with_commander s o).0
  with_commander-Silent s (ok g) p = p
  with_commander-Silent s (err e) p = p
  with_commander-Silent s panic p = p

  with_lcd-Silent :
      (s : SettingsController F Doc) (o : Outcome (LcdCommander F))
      → Silent s
      → Silent (with_lcd s o).0
  with_lcd-Silent s (ok l) p = p
  with_lcd-Silent s (err e) p = p
  with_lcd-Silent s panic p = p

  with_config-Silent :
      (s : SettingsController F Doc) (o : Outcome Doc) → Silent s → Silent (with_config s o).0
  with_config-Silent s (ok doc) p = p
  with_config-Silent s (err e) p = p
  with_config-Silent s panic p = p

  pub set_fixed_speed-IsConfined :
      (uid channel : String) (duty : ℕ)
      → Hoare Silent (set_fixed_speed machine uid channel duty) (IsConfined uid channel)
  unfolding set_fixed_speed
  set_fixed_speed-IsConfined uid channel duty =
      check uid channel (get_device_repo machine uid) _ λ device g.
        quietly uid channel (clear_mix uid channel) _ (record { holds = λ s p. p })
          λ _.
            quietly uid channel (clear_graph uid channel) _ (record { holds = λ s p. p })
              λ _. call-IsConfined uid channel device _ g refl

  pub set_reset-IsConfined :
      (uid channel : String) → Hoare Silent (set_reset machine uid channel) (IsConfined uid channel)
  unfolding set_reset
  set_reset-IsConfined uid channel = check uid channel (get_device_repo machine uid) _ λ device g.
      quietly uid channel (clear_mix uid channel) _ (record { holds = λ s p. p })
        λ _.
          quietly uid channel (clear_graph uid channel) _ (record { holds = λ s p. p })
            λ _.
              quietly uid channel (clear_lcd uid channel) _ (record { holds = λ s p. p })
                λ _. call-IsConfined uid channel device _ g refl

  show_lcd-IsConfined :
      (uid channel : String) (lcd : LcdSettings) (device : Device F) (shown : Bool)
      → get_device_repo machine uid ≡ ok device
      → Hoare Silent (show_lcd machine uid channel lcd shown) (IsConfined uid channel)
  show_lcd-IsConfined uid channel lcd device true g =
      check uid channel _ _ λ _ _. record { holds = λ s p. inl (with_lcd-Silent s _ p) }
  show_lcd-IsConfined uid channel lcd device false g =
      quietly uid channel (clear_lcd uid channel) _ (record { holds = λ s p. p })
        λ _. call-IsConfined uid channel device _ g refl

  pub set_lcd-IsConfined :
      (uid channel : String) (lcd : LcdSettings)
      → Hoare Silent (set_lcd machine uid channel lcd) (IsConfined uid channel)
  unfolding set_lcd
  set_lcd-IsConfined uid channel lcd = check uid channel (get_device_repo machine uid) _ λ device g.
      check uid channel _ _ λ info _.
        check uid channel _ _
          λ _ _. show_lcd-IsConfined uid channel lcd device (lcd.mode == "temp") g

  reset_lighting-Silent :
      (uid channel : String) (channels : List String)
      → Keeps Silent (reset_lighting machine uid channel channels)
  unfolding reset_lighting
  reset_lighting-Silent uid channel channels =
      Hoare-if Silent Silent _ _ _ (Keeps-lift Silent (ok tt)) (
        Hoare-if Silent Silent _ _ _
          (Keeps-for_each Silent _ channels λ ch.
            Hoare-if Silent Silent _ _ _ (Keeps-lift Silent (ok tt)) (stored (reset_setting ch)))
          (stored _))
    where
      stored : (setting : Setting) → Keeps Silent (store_device_setting machine uid setting)
      stored setting = record { holds = λ s p. with_config-Silent s _ p }

  pub set_lighting-IsConfined :
      (uid channel : String) (lighting : LightingSettings)
      → Hoare Silent (set_lighting machine uid channel lighting) (IsConfined uid channel)
  unfolding set_lighting
  set_lighting-IsConfined uid channel lighting =
      check uid channel (get_device_repo machine uid) _ λ device g.
        quietly uid channel _ _ (reset_lighting-Silent uid channel _)
          λ _. call-IsConfined uid channel device _ g refl
