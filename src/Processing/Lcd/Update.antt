-- ===== src/Processing/Lcd/Update.antt =====
-- processing/commanders/lcd.rs: the screens are brought up to date.
use coolerocontrol.Base.{
  String, Bool, true, not, Option, none, some, List, [], ◌∷◌, ◌++◌, if◌then◌else◌, string_eq, ◌==◌,
}
use coolerocontrol.Base.Dict.{Dict, get, insert}
use coolerocontrol.Base.Float.{Float, feqb}
use coolerocontrol.Base.Outcome.{Outcome, ok, err, panic, unwrap, ◌>>=◌}
use coolerocontrol.CustomSensors.{current_temp}
use coolerocontrol.Device.{Device, DeviceType, TempInfo}
use coolerocontrol.Setting.{LcdSettings}
use coolerocontrol.Processing.Lcd.{LcdCommander, SettingMetadata}
use coolerocontrol.Processing.Sensor.{AllDevices}

pub record TempData (F : Type 0) : Type 0 where
  pub temp : F
  pub label : String

-- What a repository is asked to show on the channel of a device.
pub record Shown : Type 0 where
  pub device_uid : String
  pub channel_name : String
  pub lcd_settings : LcdSettings

-- The entries in the order of the two loops.
unfoldable pub channels_of : String → Dict String LcdSettings → List (String × String × LcdSettings)
channels_of device_uid [] = []
channels_of device_uid ((channel_name, lcd_settings) ∷ rest) =
    (device_uid, channel_name, lcd_settings) ∷ channels_of device_uid rest

unfoldable pub entries_of :
    Dict String (Dict String LcdSettings) → List (String × String × LcdSettings)
entries_of [] = []
entries_of ((device_uid, channel_settings) ∷ rest) =
    channels_of device_uid channel_settings ++ entries_of rest

module _ {F : Type 0} where
  abbrev pub metadata_of : String → String → LcdCommander F → Outcome (SettingMetadata F)
  metadata_of device_uid channel_name c = do
    channels ← unwrap (get device_uid c.scheduled_settings_metadata)
    unwrap (get channel_name channels)

  abbrev pub with_metadata :
      String
      → String
      → SettingMetadata F
      → Dict String (SettingMetadata F)
      → LcdCommander F
      → LcdCommander F
  with_metadata device_uid channel_name metadata channels c = record c {
    scheduled_settings_metadata =
        insert device_uid (insert channel_name metadata channels) c.scheduled_settings_metadata;
  }

  unfoldable pub set_last_temp : String → String → F → LcdCommander F → Outcome (LcdCommander F)
  set_last_temp device_uid channel_name temp c = do
    channels ← unwrap (get device_uid c.scheduled_settings_metadata)
    metadata ← unwrap (get channel_name channels)
    ok (
        with_metadata device_uid channel_name (record metadata { last_temp_set = some temp })
          channels c)

  -- The first image comes with the brightness and the orientation.
  abbrev pub if_first : {A : Type 0} → Option F → Option A → Option A
  if_first none value = value
  if_first (some _) value = none

  unfoldable pub image_settings : Option F → String → LcdSettings → LcdSettings
  image_settings last_temp_set image_path lcd_settings = record {
    mode = "image";
    brightness = if_first last_temp_set lcd_settings.brightness;
    orientation = if_first last_temp_set lcd_settings.orientation;
    image_file_processed = some image_path;
    colors = [];
    temp_source = none;
  }

-- `generate` draws and saves the image, for a channel whose template it may keep, and gives its path.
module _ {F : Type 0} ⦃fl : Float F⦄ (has_repo : DeviceType → Bool)
    (generate : String → String → TempData F → Outcome String) (all_devices : AllDevices F) where
  -- rounded to nearest 10th degree to avoid updating on really small degree changes
  abbrev pub rounded_tenth : F → F
  rounded_tenth temp = fl.div (fl.round (fl.mul temp (fl.of_nat 10))) (fl.of_nat 10)

  abbrev pub temp_data : Option TempInfo → Option F → Option (TempData F)
  temp_data (some info) (some temp) =
      some (record { temp = rounded_tenth temp; label = info.label })
  temp_data (some info) none = none
  temp_data none temp = none

  abbrev pub source_temp : String → Option (Device F) → Option (TempData F)
  source_temp temp_name none = none
  source_temp temp_name (some device) =
      temp_data (get temp_name device.info.temps) (current_temp temp_name (some device))

  unfoldable pub get_source_temp_data : LcdSettings → Outcome (Option (TempData F))
  get_source_temp_data lcd_settings = do
    setting_temp_source ← unwrap lcd_settings.temp_source
    ok (source_temp setting_temp_source.temp_name (get setting_temp_source.device_uid all_devices))

  -- An image that cannot be drawn changes nothing. An error of the repository is only logged.
  unfoldable pub set_temp_image :
      String
      → String
      → LcdSettings
      → TempData F
      → LcdCommander F
      → Outcome (LcdCommander F × List Shown)
  set_temp_image device_uid channel_name lcd_settings to_display c =
      elim (generate device_uid channel_name to_display) [
        | ok image_path ↦ do
          metadata ← metadata_of device_uid channel_name c
          changed ← set_last_temp device_uid channel_name to_display.temp c
          device ← unwrap (get device_uid all_devices)
          ok (
            changed,
            (if has_repo device.d_type
                then record {
                  device_uid = device_uid;
                  channel_name = channel_name;
                  lcd_settings = image_settings metadata.last_temp_set image_path lcd_settings;
                }
                  ∷ []
                else []),
          )
        | err e ↦ ok (c, [])
        | panic ↦ ok (c, [])
      ]

  abbrev pub set_lcd_image :
      String
      → String
      → LcdSettings
      → TempData F
      → LcdCommander F
      → Outcome (LcdCommander F × List Shown)
  set_lcd_image device_uid channel_name lcd_settings to_display c =
      let shown = set_temp_image device_uid channel_name lcd_settings to_display c in
      if lcd_settings.mode == "temp" then shown else ok (c, [])

  abbrev pub is_due : Option F → F → Bool
  is_due none temp = true
  is_due (some last_temp_set) temp = not (feqb last_temp_set temp)

  unfoldable pub update_channel :
      String
      → String
      → LcdSettings
      → Option (TempData F)
      → LcdCommander F
      → Outcome (LcdCommander F × List Shown)
  update_channel device_uid channel_name lcd_settings none c = ok (c, [])
  update_channel device_uid channel_name lcd_settings (some to_display) c = do
    metadata ← metadata_of device_uid channel_name c
    let shown = set_lcd_image device_uid channel_name lcd_settings to_display c in
        if is_due metadata.last_temp_set to_display.temp then shown else ok (c, [])

  -- A setting with another mode ends both loops.
  unfoldable pub update_entries :
      List (String × String × LcdSettings) → LcdCommander F → Outcome (LcdCommander F × List Shown)
  update_entries [] c = ok (c, [])
  update_entries ((device_uid, channel_name, lcd_settings) ∷ rest) c =
      let shown = do
        to_display ← get_source_temp_data lcd_settings
        first ← update_channel device_uid channel_name lcd_settings to_display c
        others ← update_entries rest first.0
        ok (others.0, first.1 ++ others.1)
      in if lcd_settings.mode == "temp" then shown else ok (c, [])

  unfoldable pub update_lcd : LcdCommander F → Outcome (LcdCommander F × List Shown)
  update_lcd c = update_entries (entries_of c.scheduled_settings) c
