-- ===== src/Modes/Boot.antt =====
-- modes.rs: the saved settings of all devices are applied when the daemon starts.
use coolerocontrol.Base.{[], map, if◌then◌else◌}
use coolerocontrol.Base.Float.{Float}
use coolerocontrol.Base.Outcome.{Outcome, ok, err, panic}
use coolerocontrol.Base.State.{Action, for_each, or_else, attempt, ◌>>=◌}
use coolerocontrol.Setting.{CoolerControlSettings}
use coolerocontrol.Modes.{ModeController, determine_active_mode, expect}
use coolerocontrol.Processing.Settings.{Machine, SettingsController}
use coolerocontrol.Processing.Settings.Apply.{set_config_setting}

module _ {F Doc : Type 0} ⦃fl : Float F⦄ (machine : Machine F Doc) where
  -- Errors are logged, and the loop goes on.
  unfoldable pub apply_all_saved_device_settings : Action (SettingsController F Doc) (Unit {0})
  apply_all_saved_device_settings =
      for_each
        (λ entry. do
          settings ← or_else [] λ s. (s, machine.configuration.get_device_settings entry.0 s.config)
          for_each (λ setting. attempt (set_config_setting machine entry.0 setting)) settings)
        machine.all_devices

  abbrev pub with_modes :
      SettingsController F Doc
      → ModeController
      → Outcome ModeController
      → (SettingsController F Doc × ModeController) × Outcome (Unit {0})
  with_modes s c (ok determined) = ((s, determined), ok tt)
  with_modes s c (err e) = ((s, c), err e)
  with_modes s c panic = ((s, c), panic)

  abbrev pub determine_after :
      SettingsController F Doc × Outcome (Unit {0})
      → ModeController
      → (SettingsController F Doc × ModeController) × Outcome (Unit {0})
  determine_after (s, ok _) c = with_modes s c (
      determine_active_mode (λ uid. machine.configuration.get_device_settings uid s.config)
        (map (λ entry. entry.0) machine.all_devices) c)
  determine_after (s, err e) c = ((s, c), err e)
  determine_after (s, panic) c = ((s, c), panic)

  -- `settings` is what the configuration returns for `get_settings`.
  unfoldable pub handle_settings_at_boot :
      Outcome CoolerControlSettings
      → SettingsController F Doc
      → ModeController
      → (SettingsController F Doc × ModeController) × Outcome (Unit {0})
  handle_settings_at_boot settings s c = elim (expect settings) [
    | ok general ↦
        if general.apply_on_boot
        then determine_after (apply_all_saved_device_settings s) c
        else ((s, c), ok tt)
    | err e ↦ ((s, c), err e)
    | panic ↦ ((s, c), panic)
  ]
