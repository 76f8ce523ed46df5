-- ===== src/Config/DeviceSettings.antt =====
-- config.rs: the settings of the device channels. Each channel has an inline table in the table of
-- its device.
pub mod Writes
pub mod Stored
pub mod Steps
pub mod Merged
pub mod Lighting
use coolerocontrol.Base.{
  ℕ, String, Bool, true, false, Option, none, some, List, [], ◌∷◌, ◌++◌, map, if◌then◌else◌,
  string_eq, ◌==◌, find_by,
}
use coolerocontrol.Base.Int.{pos}
use coolerocontrol.Base.Outcome.{Outcome, ok, err, panic, ◌>>=◌, unwrap, with_context}
use coolerocontrol.Config.Fields.{
  traverse, get_speed_fixed, get_lighting, get_lcd, get_pwm_mode, get_profile_uid,
}
use coolerocontrol.Config.Tables.{place, assign}
use coolerocontrol.Config.Toml.{Toml}
use coolerocontrol.Setting.{TempSource, LightingSettings, LcdSettings, Setting}

abbrev pub is_true : Option Bool → Bool
is_true none = false
is_true (some b) = b

module _ {F : Type 0} (toml : Toml F) where
  -- A write below the place `item[outer]`.
  abbrev pub modify_in : toml.Item → String → (toml.Item → Outcome toml.Item) → Outcome toml.Item
  modify_in item outer f = do
    inner ← (if toml.is_indexable item then f (toml.index item outer) else panic)
    assign toml item outer inner

  -- The writes `item[outer][key] = value` for a list of keys and values.
  abbrev pub write_all : toml.Item → String → List (String × toml.Item) → Outcome toml.Item
  write_all item outer [] = ok item
  write_all item outer ((key, value) ∷ entries) = do
    item' ← modify_in item outer (λ inner. assign toml inner key value)
    write_all item' outer entries

  -- `if let Some(value) = … { item[outer][key] = … }`
  abbrev pub entry_if {ℓ} :
      {A : Type ℓ} → String → (A → toml.Item) → Option A → List (String × toml.Item)
  entry_if key f none = []
  entry_if key f (some a) = (key, f a) ∷ []

  abbrev pub rgb_item : ℕ × ℕ × ℕ → toml.Item
  rgb_item color =
      toml.array
        (toml.integer (pos color.0) ∷ toml.integer (pos color.1) ∷ toml.integer (pos color.2) ∷ [])

  abbrev pub colors_item : List (ℕ × ℕ × ℕ) → toml.Item
  colors_item colors = toml.array (map rgb_item colors)

  unfoldable pub set_setting_fixed_speed : ℕ → toml.Item → Outcome toml.Item
  set_setting_fixed_speed speed_fixed channel = do
    cleared ← assign toml channel "profile_uid" toml.none_item
    assign toml cleared "speed_fixed" (toml.integer (pos speed_fixed))

  abbrev pub lighting_entries : LightingSettings → List (String × toml.Item)
  lighting_entries l =
      ("mode", toml.string l.mode)
      ∷ (entry_if "speed" toml.string l.speed
          ++ ((if is_true l.backward then ("backward", toml.boolean true) ∷ [] else [])
              ++ (("colors", colors_item l.colors) ∷ [])))

  unfoldable pub set_setting_lighting : LightingSettings → toml.Item → Outcome toml.Item
  set_setting_lighting lighting channel = do
    cleared ← assign toml channel "lighting" toml.none_item
    write_all cleared "lighting" (lighting_entries lighting)

  abbrev pub lcd_rest : LcdSettings → List (String × toml.Item)
  lcd_rest l =
      entry_if "brightness" (λ n. toml.integer (pos n)) l.brightness
      ++ (entry_if "orientation" (λ n. toml.integer (pos n)) l.orientation
          ++ (entry_if "image_file_processed" toml.string l.image_file_processed
              ++ (("colors", colors_item l.colors) ∷ [])))

  abbrev pub lcd_entries : LcdSettings → List (String × toml.Item)
  lcd_entries l = ("mode", toml.string l.mode) ∷ lcd_rest l

  abbrev pub set_lcd_source : Option TempSource → toml.Item → Outcome toml.Item
  set_lcd_source none channel = ok channel
  set_lcd_source (some source) channel = do
    cleared ← assign toml channel "temp_source" toml.none_item
    modify_in cleared "lcd" (λ lcd. write_all lcd "temp_source" (
        ("temp_name", toml.string source.temp_name)
        ∷ ("device_uid", toml.string source.device_uid)
        ∷ []))

  unfoldable pub set_setting_lcd : LcdSettings → toml.Item → Outcome toml.Item
  set_setting_lcd lcd channel = do
    cleared ← assign toml channel "lcd" toml.none_item
    written ← write_all cleared "lcd" (lcd_entries lcd)
    set_lcd_source lcd.temp_source written

  unfoldable pub set_profile_uid : String → toml.Item → Outcome toml.Item
  set_profile_uid profile_uid channel = do
    cleared ← assign toml channel "speed_fixed" toml.none_item
    assign toml cleared "profile_uid" (toml.string profile_uid)

  abbrev pub set_pwm_mode : Option ℕ → toml.Item → Outcome toml.Item
  set_pwm_mode none channel = ok channel
  set_pwm_mode (some pwm_mode) channel =
      assign toml channel "pwm_mode" (toml.integer (pos pwm_mode))

  -- The first of the fields that is there decides.
  abbrev pub set_profile_field : Option String → toml.Item → Outcome toml.Item
  set_profile_field none channel = ok channel
  set_profile_field (some uid) channel = set_profile_uid uid channel

  abbrev pub set_lcd_field :
      Option LcdSettings → (toml.Item → Outcome toml.Item) → toml.Item → Outcome toml.Item
  set_lcd_field none next channel = next channel
  set_lcd_field (some lcd) next channel = set_setting_lcd lcd channel

  abbrev pub set_lighting_field :
      Option LightingSettings → (toml.Item → Outcome toml.Item) → toml.Item → Outcome toml.Item
  set_lighting_field none next channel = next channel
  set_lighting_field (some lighting) next channel = set_setting_lighting lighting channel

  abbrev pub set_speed_field :
      Option ℕ → (toml.Item → Outcome toml.Item) → toml.Item → Outcome toml.Item
  set_speed_field none next channel = next channel
  set_speed_field (some speed) next channel = set_setting_fixed_speed speed channel

  unfoldable pub set_channel_setting : Setting → toml.Item → Outcome toml.Item
  set_channel_setting setting channel = do
    moded ← set_pwm_mode setting.pwm_mode channel
    if is_true setting.reset_to_default
        then ok toml.none_item
        else set_speed_field setting.speed_fixed
            (set_lighting_field setting.lighting
              (set_lcd_field setting.lcd (set_profile_field setting.profile_uid)))
            moded

  abbrev pub or_insert_table : toml.Item → toml.Item
  or_insert_table item = if toml.is_none item then toml.table toml.new else item

  -- `doc["device-settings"][device_uid].or_insert(Item::Table(…))[channel_name]` is written.
  unfoldable pub set_device_setting : String → Setting → toml.Table → Outcome toml.Table
  set_device_setting device_uid setting doc = do
    devices ← modify_in (place toml doc "device-settings") device_uid (λ device.
        modify_in (or_insert_table device) setting.channel_name (set_channel_setting setting))
    ok (toml.insert doc "device-settings" devices)

  unfoldable pub read_setting : String × toml.Item → Outcome Setting
  read_setting (channel_name, base_item) = do
    table ←
        with_context "Channel Setting should be an inline table" (toml.as_inline_table base_item)
    speed_fixed ← get_speed_fixed toml table
    lighting ← get_lighting toml table
    lcd ← get_lcd toml table
    pwm_mode ← get_pwm_mode toml table
    profile_uid ← get_profile_uid toml table
    ok (record {
      channel_name = channel_name;
      speed_fixed = speed_fixed;
      lighting = lighting;
      lcd = lcd;
      pwm_mode = pwm_mode;
      reset_to_default = none;
      profile_uid = profile_uid;
    })

  unfoldable pub get_device_settings : String → toml.Table → Outcome (List Setting)
  get_device_settings device_uid doc = do
    devices ← unwrap (toml.get doc "device-settings")
    elim (toml.item_get devices device_uid) [
      | none ↦ ok []
      | some table_item ↦ do
        table ← with_context "device setting should be a table" (toml.as_table table_item)
        traverse read_setting (toml.iter table)
    ]

  unfoldable pub get_device_channel_settings : String → String → toml.Table → Outcome Setting
  get_device_channel_settings device_uid channel_name doc = do
    settings ← get_device_settings device_uid doc
    with_context "Device Channel Setting" (find_by (λ s. s.channel_name == channel_name) settings)

  abbrev pub table_entries : Option toml.Table → List (String × toml.Item)
  table_entries none = []
  table_entries (some table) = toml.iter table

  unfoldable pub get_all_devices_settings : toml.Table → Outcome (List (String × List Setting))
  get_all_devices_settings doc = do
    devices ← unwrap (toml.get doc "device-settings")
    traverse (λ entry. do settings ← get_device_settings entry.0 doc; ok (entry.0, settings))
        (table_entries (toml.as_table devices))
