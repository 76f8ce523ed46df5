-- ===== src/Config/General.antt =====
-- config.rs: the general settings, the settings of a device within the program, the list of devices
-- and the legacy 690 devices.
pub mod Stored
use coolerocontrol.Base.{
  ℕ, String, Bool, true, false, Option, none, some, List, [], ◌∷◌, if◌then◌else◌, string_eq, ◌==◌,
  nat_eq,
}
use coolerocontrol.Base.Int.{pos, clamp_int}
use coolerocontrol.Base.Outcome.{Outcome, ok, err, panic, ◌>>=◌, unwrap, with_context}
use coolerocontrol.Config.DeviceSettings.{modify_in, or_insert_table, table_entries}
use coolerocontrol.Config.Fields.{traverse, optional}
use coolerocontrol.Config.Tables.{place, assign}
use coolerocontrol.Config.Toml.{Toml}
use coolerocontrol.Setting.{CoolerControlSettings, CoolerControlDeviceSettings}

-- `str::trim`, of the standard library, is a parameter.
module _ {F : Type 0} (toml : Toml F) where
  -- `table.get(key).unwrap_or(&default)`
  abbrev pub get_or_item : toml.Table → String → toml.Item → toml.Item
  get_or_item table key default = elim (toml.get table key) [ some item ↦ item | none ↦ default ]

  abbrev pub get_bool : toml.Table → String → Bool → String → Outcome Bool
  get_bool table key default wrong =
      with_context wrong (toml.as_bool (get_or_item table key (toml.boolean default)))

  -- clamped to ten seconds at most
  unfoldable pub get_startup_delay : toml.Table → Outcome ℕ
  get_startup_delay table = do
    z ←
        with_context "startup_delay should be an integer value"
          (toml.as_integer (get_or_item table "startup_delay" (toml.integer (pos 2))))
    ok (clamp_int 0 10 z)

  unfoldable pub get_port : toml.Table → Outcome (Option ℕ)
  get_port table =
      optional
        (λ value. do
          z ← with_context "port should be an integer value" (toml.as_integer value)
          ok (clamp_int 80 65535 z))
        (toml.get table "port")

  unfoldable pub get_address :
      (String → String) → toml.Table → String → String → Outcome (Option String)
  get_address trim table key wrong =
      optional (λ value. do s ← with_context wrong (toml.as_str value); ok (trim s))
        (toml.get table key)

  unfoldable pub read_settings : (String → String) → toml.Table → Outcome CoolerControlSettings
  read_settings trim table = do
    apply_on_boot ← get_bool table "apply_on_boot" true "apply_on_boot should be a boolean value"
    no_init ← get_bool table "no_init" false "no_init should be a boolean value"
    startup_delay ← get_startup_delay table
    thinkpad_full_speed ←
        get_bool table "thinkpad_full_speed" false "thinkpad_full_speed should be a boolean value"
    hide_duplicate_devices ←
        get_bool table "hide_duplicate_devices" true
          "hide_duplicate_devices should be a boolean value"
    liquidctl_integration ←
        get_bool table "liquidctl_integration" true
          "liquidctl_integration should be a boolean value"
    port ← get_port table
    ipv4_address ← get_address trim table "ipv4_address" "ipv4_address should be a string"
    ipv6_address ← get_address trim table "ipv6_address" "ipv6_address should be a string"
    compress ← get_bool table "compress" false "compress should be a boolean value"
    ok (record {
      apply_on_boot = apply_on_boot;
      no_init = no_init;
      startup_delay = startup_delay;
      thinkpad_full_speed = thinkpad_full_speed;
      hide_duplicate_devices = hide_duplicate_devices;
      liquidctl_integration = liquidctl_integration;
      port = port;
      ipv4_address = ipv4_address;
      ipv6_address = ipv6_address;
      compress = compress;
    })

  unfoldable pub get_settings : (String → String) → toml.Table → Outcome CoolerControlSettings
  get_settings trim doc = elim (toml.get doc "settings") [
    | none ↦ err "Setting table not found in configuration file"
    | some item ↦ do
      table ← with_context "Settings should be a table" (toml.as_table item)
      read_settings trim table
  ]

  -- A list of writes `item[key] = value`.
  abbrev pub assign_all : toml.Item → List (String × toml.Item) → Outcome toml.Item
  assign_all item [] = ok item
  assign_all item ((key, value) ∷ entries) = do
    item' ← assign toml item key value
    assign_all item' entries

  -- The port and the addresses are not written.
  abbrev pub settings_entries : CoolerControlSettings → List (String × toml.Item)
  settings_entries s =
      ("apply_on_boot", toml.boolean s.apply_on_boot)
      ∷ ("no_init", toml.boolean s.no_init)
      ∷ ("startup_delay", toml.integer (pos s.startup_delay))
      ∷ ("thinkpad_full_speed", toml.boolean s.thinkpad_full_speed)
      ∷ ("hide_duplicate_devices", toml.boolean s.hide_duplicate_devices)
      ∷ ("liquidctl_integration", toml.boolean s.liquidctl_integration)
      ∷ ("compress", toml.boolean s.compress)
      ∷ []

  unfoldable pub set_settings : CoolerControlSettings → toml.Table → Outcome toml.Table
  set_settings s doc = do
    item ← assign_all (or_insert_table toml (place toml doc "settings")) (settings_entries s)
    ok (toml.insert doc "settings" item)

  unfoldable pub get_cc_settings_for_device :
      String → toml.Table → Outcome (Option CoolerControlDeviceSettings)
  get_cc_settings_for_device device_uid doc = do
    settings ← unwrap (toml.get doc "settings")
    optional
        (λ table_item. do
          table ←
              with_context "CoolerControl device settings should be a table"
                (toml.as_table table_item)
          disable ← get_bool table "disable" false "disable should be a boolean value"
          name ←
              with_context "name should be a string"
                (toml.as_str (get_or_item table "name" (toml.string device_uid)))
          ok (record { name = name; disable = disable }))
        (toml.item_get settings device_uid)

  unfoldable pub set_cc_settings_for_device :
      String → CoolerControlDeviceSettings → toml.Table → Outcome toml.Table
  set_cc_settings_for_device device_uid s doc = do
    settings ← modify_in toml (place toml doc "settings") device_uid (λ device.
        assign_all (or_insert_table toml device)
          (("name", toml.string s.name) ∷ ("disable", toml.boolean s.disable) ∷ []))
    ok (toml.insert doc "settings" settings)

  -- Only keys of the length of a UID name a device; `len` is the length in bytes.
  abbrev pub cc_entries :
      (String → ℕ)
      → toml.Table
      → List (String × toml.Item)
      → Outcome (List (String × Option CoolerControlDeviceSettings))
  cc_entries len doc [] = ok []
  cc_entries len doc ((uid, item) ∷ entries) =
      let rest = cc_entries len doc entries in
      if len uid == 64
      then (do s ← get_cc_settings_for_device uid doc; others ← rest; ok ((uid, s) ∷ others))
      else rest

  unfoldable pub get_all_cc_devices_settings :
      (String → ℕ) → toml.Table → Outcome (List (String × Option CoolerControlDeviceSettings))
  get_all_cc_devices_settings len doc = do
    settings ← unwrap (toml.get doc "settings")
    cc_entries len doc (table_entries toml (toml.as_table settings))

  -- A UID and a name for each device.
  unfoldable pub create_device_list : List (String × String) → toml.Table → Outcome toml.Table
  create_device_list [] doc = ok doc
  create_device_list ((uid, name) ∷ devices) doc = do
    item ← assign toml (place toml doc "devices") uid (toml.string name)
    create_device_list devices (toml.insert doc "devices" item)

  unfoldable pub legacy690_ids : toml.Table → Outcome (List (String × Bool))
  legacy690_ids doc = do
    item ← unwrap (toml.get doc "legacy690")
    traverse
        (λ entry. do
          b ← with_context "Parsing boolean value for legacy690" (toml.as_bool entry.1)
          ok (entry.0, b))
        (table_entries toml (toml.as_table item))

  unfoldable pub set_legacy690_id : String → Bool → toml.Table → Outcome toml.Table
  set_legacy690_id device_uid is_legacy690 doc = do
    item ← assign toml (place toml doc "legacy690") device_uid (toml.boolean is_legacy690)
    ok (toml.insert doc "legacy690" item)
