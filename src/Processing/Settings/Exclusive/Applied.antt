-- ===== src/Processing/Settings/Exclusive/Applied.antt =====
-- A setting that is applied to a channel keeps the commanders apart, whatever comes of it.

use coolerocontrol.Base.{ℕ, String, Bool, true, false, List, string_eq, ◌==◌}
use coolerocontrol.Base.Outcome.{Outcome, ok, err, panic, Partial}
use coolerocontrol.Base.State.{
  Action, Hoare, Keeps, Hoare-bind, Keeps-lift, Keeps-bind, Keeps-for_each, Keeps-check, Hoare-if,
  ◌>>=◌,
}
use coolerocontrol.Setting.{LightingSettings, LcdSettings, Setting}
use coolerocontrol.Processing.Graph.{GraphProfileCommander}
use coolerocontrol.Processing.Lcd.{LcdCommander}
use coolerocontrol.Processing.Settings.{
  Machine, SettingsController, clear_mix, clear_graph, call, store_device_setting, with_commander,
  with_config, with_lcd,
}
use coolerocontrol.Processing.Settings.Apply.{
  set_fixed_speed, set_reset, set_pwm_mode, set_lcd, show_lcd, set_lighting, reset_lighting,
  reset_setting,
}
use coolerocontrol.Processing.Settings.Exclusive.{
  IsExclusive, IsCleared, IsCleared-IsExclusive, clear_mix-IsCleared, clear_graph-IsCleared,
}

module _ {F Doc : Type 0} where
  -- The commanders of a controller are apart, or even without the channel.
  abbrev pub Apart : SettingsController F Doc → Type 0
  Apart s = IsExclusive s.mix_commander

  abbrev pub Cleared : String → String → SettingsController F Doc → Type 0
  Cleared uid channel s = IsCleared uid channel s.mix_commander

  pub Cleared-Apart :
      (uid channel : String) (s : SettingsController F Doc) → Cleared uid channel s → Apart s
  Cleared-Apart uid channel s = IsCleared-IsExclusive uid channel s.mix_commander

  pub with_commander-Apart :
      (s : SettingsController F Doc) (o : Outcome (GraphProfileCommander F))
      → Apart s
      → Partial o (λ g. IsExclusive (record s.mix_commander { graph_commander = g }))
      → Apart (with_commander s o).0
  with_commander-Apart s (ok g) a h = h
  with_commander-Apart s (err e) a h = a
  with_commander-Apart s panic a h = a

  with_config-Apart :
      (s : SettingsController F Doc) (o : Outcome Doc) → Apart s → Apart (with_config s o).0
  with_config-Apart s (ok doc) a = a
  with_config-Apart s (err e) a = a
  with_config-Apart s panic a = a

  with_lcd-Apart :
      (s : SettingsController F Doc) (o : Outcome (LcdCommander F))
      → Apart s
      → Apart (with_lcd s o).0
  with_lcd-Apart s (ok l) a = a
  with_lcd-Apart s (err e) a = a
  with_lcd-Apart s panic a = a

  pub clear_graph-Apart :
      (uid channel : String) → Hoare (Cleared uid channel) (clear_graph uid channel) Apart
  clear_graph-Apart uid channel = record {
    holds = λ s c.
        IsCleared-IsExclusive uid channel _ (clear_graph-IsCleared uid channel s.mix_commander c);
  }

module _ {F Doc : Type 0} (machine : Machine F Doc) where
  -- Clearing both schedules, and then something that needs no more than that.
  clear_both-Apart :
      (uid channel : String) (m : Action (SettingsController F Doc) (Unit {0}))
      → Keeps Apart m
      → Keeps Apart (clear_mix uid channel >>= λ _. clear_graph uid channel >>= λ _. m)
  clear_both-Apart uid channel m h =
      Hoare-bind Apart (Cleared uid channel) Apart (clear_mix uid channel) _
        (Cleared-Apart uid channel)
        (record { holds = λ s. clear_mix-IsCleared uid channel s.mix_commander })
        λ _.
          Hoare-bind (Cleared uid channel) Apart Apart (clear_graph uid channel) _ (λ s a. a)
            (clear_graph-Apart uid channel) λ _. h

  pub set_fixed_speed-Apart :
      (uid channel : String) (duty : ℕ) → Keeps Apart (set_fixed_speed machine uid channel duty)
  unfolding set_fixed_speed
  set_fixed_speed-Apart uid channel duty =
      Keeps-check Apart _ _
        λ _. clear_both-Apart uid channel (call machine _) (record { holds = λ s a. a })

  pub set_reset-Apart : (uid channel : String) → Keeps Apart (set_reset machine uid channel)
  unfolding set_reset
  set_reset-Apart uid channel = Keeps-check Apart _ _ λ _.
      clear_both-Apart uid channel _
        (Keeps-bind Apart _ _ (record { holds = λ s a. a }) (λ _. record { holds = λ s a. a }))

  pub set_pwm_mode-Apart :
      (uid channel : String) (pwm_mode : ℕ)
      → Keeps Apart (set_pwm_mode machine uid channel pwm_mode)
  unfolding set_pwm_mode
  set_pwm_mode-Apart uid channel pwm_mode = Keeps-check Apart _ _ (λ _. record { holds = λ s a. a })

  show_lcd-Apart :
      (uid channel : String) (lcd : LcdSettings) (shown : Bool)
      → Keeps Apart (show_lcd machine uid channel lcd shown)
  show_lcd-Apart uid channel lcd true =
      Keeps-check Apart _ _ λ _. record { holds = λ s a. with_lcd-Apart s _ a }
  show_lcd-Apart uid channel lcd false =
      Keeps-bind Apart _ _ (record { holds = λ s a. a }) (λ _. record { holds = λ s a. a })

  pub set_lcd-Apart :
      (uid channel : String) (lcd : LcdSettings) → Keeps Apart (set_lcd machine uid channel lcd)
  unfolding set_lcd
  set_lcd-Apart uid channel lcd = Keeps-check Apart _ _ λ _.
      Keeps-check Apart _ _
        λ _. Keeps-check Apart _ _ λ _. show_lcd-Apart uid channel lcd (lcd.mode == "temp")

  pub store_device_setting-Apart :
      (uid : String) (setting : Setting) → Keeps Apart (store_device_setting machine uid setting)
  store_device_setting-Apart uid setting = record { holds = λ s a. with_config-Apart s _ a }

  reset_lighting-Apart :
      (uid channel : String) (channels : List String)
      → Keeps Apart (reset_lighting machine uid channel channels)
  unfolding reset_lighting
  reset_lighting-Apart uid channel channels = Hoare-if Apart Apart _ _ _ (Keeps-lift Apart _) (
      Hoare-if Apart Apart _ _ _
        (Keeps-for_each Apart _ channels λ ch.
          Hoare-if Apart Apart _ _ _ (Keeps-lift Apart _)
            (store_device_setting-Apart uid (reset_setting ch)))
        (store_device_setting-Apart uid _))

  pub set_lighting-Apart :
      (uid channel : String) (lighting : LightingSettings)
      → Keeps Apart (set_lighting machine uid channel lighting)
  unfolding set_lighting
  set_lighting-Apart uid channel lighting = Keeps-check Apart _ _ λ device.
      Keeps-bind Apart _ _ (reset_lighting-Apart uid channel _) (λ _. record { holds = λ s a. a })
