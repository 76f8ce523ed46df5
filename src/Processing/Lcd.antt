-- ===== src/Processing/Lcd.antt =====
-- processing/commanders/lcd.rs: which LCD screens show a temperature.
pub mod Paired
pub mod Update
pub mod Ready
pub mod Scheduled
pub mod Run
pub mod Tests
use coolerocontrol.Base.{String, Option, none, some, [], string_eq}
use coolerocontrol.Base.Dict.{Dict, get, insert, remove}
use coolerocontrol.Base.Outcome.{Outcome, ok, with_context, ◌>>=◌}
use coolerocontrol.Setting.{LcdSettings}
use coolerocontrol.Processing.Sensor.{AllDevices}

-- The image that serves as a template is left out.
pub record SettingMetadata (F : Type 0) : Type 0 where
  pub last_temp_set : Option F

abbrev pub new_metadata : {F : Type 0} → SettingMetadata F
new_metadata = record { last_temp_set = none }

pub record LcdCommander (F : Type 0) : Type 0 where
  pub scheduled_settings : Dict String (Dict String LcdSettings)
  pub scheduled_settings_metadata : Dict String (Dict String (SettingMetadata F))

-- `entry(device_uid).or_insert_with(HashMap::new).insert(channel_name, v)`
unfoldable pub insert_channel :
    {V : Type 0} → String → String → V → Dict String (Dict String V) → Dict String (Dict String V)
insert_channel uid channel v settings = elim (get uid settings) [
  | some channels ↦ insert uid (insert channel v channels) settings
  | none ↦ insert uid (insert channel v []) settings
]

-- `remove(channel_name)` on the entry of the device, if there is one.
unfoldable pub remove_channel :
    {V : Type 0} → String → String → Dict String (Dict String V) → Dict String (Dict String V)
remove_channel uid channel settings = elim (get uid settings) [
  | some channels ↦ insert uid (remove channel channels) settings
  | none ↦ settings
]

module _ {F : Type 0} where
  unfoldable pub schedule_setting :
      AllDevices F → String → String → LcdSettings → LcdCommander F → Outcome (LcdCommander F)
  schedule_setting all_devices uid channel lcd_settings c = do
    temp_source ←
        with_context "Temp Source should be present for LCD Temp Scheduling"
          lcd_settings.temp_source
    source ←
        with_context "temp_source Device must currently be present to schedule lcd update"
          (get temp_source.device_uid all_devices)
    target ←
        with_context "Target Device to schedule lcd update must be present" (get uid all_devices)
    ok (record {
      scheduled_settings = insert_channel uid channel lcd_settings c.scheduled_settings;
      scheduled_settings_metadata =
          insert_channel uid channel new_metadata c.scheduled_settings_metadata;
    })

  unfoldable pub clear_channel_setting : String → String → LcdCommander F → LcdCommander F
  clear_channel_setting uid channel c = record {
    scheduled_settings = remove_channel uid channel c.scheduled_settings;
    scheduled_settings_metadata = remove_channel uid channel c.scheduled_settings_metadata;
  }
