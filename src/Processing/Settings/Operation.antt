-- ===== src/Processing/Settings/Operation.antt =====
-- processing/settings.rs: the methods of the controller that change its state, and their sequences.
use coolerocontrol.Base.{ℕ, String, List, [], ◌∷◌, Option}
use coolerocontrol.Base.Float.{Float}
use coolerocontrol.Base.State.{Action}
use coolerocontrol.Setting.{Setting, LightingSettings, LcdSettings}
use coolerocontrol.Processing.Graph
use coolerocontrol.Processing.Settings.{Machine, SettingsController}
use coolerocontrol.Processing.Settings.Apply
use coolerocontrol.Processing.Settings.Propagate
use coolerocontrol.Modes.Boot

pub data Operation : Type 0 where
  set_config_setting : String → Setting → Operation
  set_fixed_speed : String → String → ℕ → Operation
  set_profile : String → String → String → Operation
  set_lcd : String → String → LcdSettings → Operation
  set_lighting : String → String → LightingSettings → Operation
  set_pwm_mode : String → String → ℕ → Operation
  set_reset : String → String → Operation
  profile_updated profile_deleted function_updated function_deleted : String → Operation
  custom_sensor_deleted : String → String → Operation
  process_scheduled_speeds apply_all_saved_device_settings : Operation

-- A controller as `new` makes it.
abbrev pub new : {F Doc : Type 0} → Doc → SettingsController F Doc
new doc = record {
  mix_commander = record {
    graph_commander = Graph.new;
    scheduled_settings = [];
    all_last_applied_duties = [];
  };
  lcd_commander = record { scheduled_settings = []; scheduled_settings_metadata = [] };
  config = doc;
  calls = [];
}

module _ {F Doc : Type 0} ⦃fl : Float F⦄ (machine : Machine F Doc)
    (tma_new_over : ℕ → List F → Option (List F)) where
  abbrev pub run : Operation → Action (SettingsController F Doc) (Unit {0})
  run (set_config_setting uid setting) = Apply.set_config_setting machine uid setting
  run (set_fixed_speed uid channel duty) = Apply.set_fixed_speed machine uid channel duty
  run (set_profile uid channel profile_uid) = Apply.set_profile machine uid channel profile_uid
  run (set_lcd uid channel lcd_settings) = Apply.set_lcd machine uid channel lcd_settings
  run (set_lighting uid channel lighting_settings) =
      Apply.set_lighting machine uid channel lighting_settings
  run (set_pwm_mode uid channel pwm_mode) = Apply.set_pwm_mode machine uid channel pwm_mode
  run (set_reset uid channel) = Apply.set_reset machine uid channel
  run (profile_updated uid) = Propagate.profile_updated machine uid
  run (profile_deleted uid) = Propagate.profile_deleted machine uid
  run (function_updated uid) = Propagate.function_updated machine uid
  run (function_deleted uid) = Propagate.function_deleted machine uid
  run (custom_sensor_deleted uid sensor_id) = Propagate.custom_sensor_deleted machine uid sensor_id
  run process_scheduled_speeds = Propagate.process_scheduled_speeds machine tma_new_over
  run apply_all_saved_device_settings = Boot.apply_all_saved_device_settings machine

  -- One operation after the other, whether they succeed or not.
  unfoldable pub run_all : List Operation → SettingsController F Doc → SettingsController F Doc
  run_all [] s = s
  run_all (op ∷ ops) s = run_all ops (run op s).0
