-- ===== src/Config/Sensors.antt =====
-- config.rs: the custom sensors of the configuration file. Messages stand without their values.
pub mod Stored
use coolerocontrol.Base.{
  String, Bool, true, false, List, [], ◌∷◌, ◌||◌, if◌then◌else◌, string_eq, ◌==◌,
}
use coolerocontrol.Base.Outcome.{Outcome, ok, err, panic, ◌>>=◌}
use coolerocontrol.Config.Entries.{
  Family, get_entries, set_entry, update_entry, delete_entry, set_order, Edited,
}
use coolerocontrol.Config.Store.{Edit}
use coolerocontrol.Config.Tables.{
  get_custom_sensor, add_custom_sensor_properties_to_custom_sensor_table,
  create_custom_sensor_table_from,
}
use coolerocontrol.Config.Toml.{Toml}
use coolerocontrol.Setting.{CustomSensor}

abbrev pub custom_sensors : Family
custom_sensors = record {
  name = "custom_sensors";
  key = "id";
  not_tables = "customer_sensors should be an array of tables";
  exists = "Custom Sensor already exists. Use the update operation to update it.";
  update_missing = "Custom Sensor to update not found";
  delete_missing = "Custom Sensor to delete not found";
  not_equal =
      "The number of stored custom_sensors and requested custom sensors to order are not equal. Make sure all functions have been created/deleted";
  none_stored = "There are no stored custom sensors in the config to order.";
  uid_missing = "Custom Sensor ID should be present";
  uid_wrong = "Custom Sensor ID should be a string";
  not_found = "Could not find Custom Sensor ID in existing functions array.";
}

abbrev pub contains_id : List String → String → Bool
contains_id [] id = false
contains_id (i ∷ ids) id = i == id || contains_id ids id

-- The loop that keeps the IDs seen.
unfoldable pub has_unique_ids : List String → List CustomSensor → Bool
has_unique_ids ids [] = true
has_unique_ids ids (c ∷ cs) =
    let rest = has_unique_ids (c.id ∷ ids) cs in if contains_id ids c.id then false else rest

unfoldable pub checked : List CustomSensor → Outcome (List CustomSensor)
checked cs = if has_unique_ids [] cs then ok cs else err "Custom Sensor IDs must be unique"

module _ {F : Type 0} (toml : Toml F) where
  unfoldable pub get_stored_sensors : toml.Table → Outcome (List CustomSensor)
  get_stored_sensors = get_entries toml custom_sensors (get_custom_sensor toml)

  unfoldable pub get_custom_sensors : toml.Table → Outcome (List CustomSensor)
  get_custom_sensors doc = get_stored_sensors doc >>= checked

  unfoldable pub set_custom_sensor : CustomSensor → toml.Table → Edited toml custom_sensors
  set_custom_sensor c = set_entry toml custom_sensors c.id (create_custom_sensor_table_from toml c)

  unfoldable pub update_custom_sensor : CustomSensor → toml.Table → Edited toml custom_sensors
  update_custom_sensor c =
      update_entry toml custom_sensors c.id
        (add_custom_sensor_properties_to_custom_sensor_table toml c)

  unfoldable pub delete_custom_sensor : String → toml.Table → Edited toml custom_sensors
  delete_custom_sensor = delete_entry toml custom_sensors

  -- The order is given by sensors, of which the IDs are used.
  unfoldable pub set_custom_sensor_order : List String → toml.Table → Edited toml custom_sensors
  set_custom_sensor_order = set_order toml custom_sensors

  -- One method for each edit.
  abbrev pub run_sensor : Edit CustomSensor → toml.Table → Edited toml custom_sensors
  run_sensor (Edit.set c) = set_custom_sensor c
  run_sensor (Edit.update c) = update_custom_sensor c
  run_sensor (Edit.delete id) = delete_custom_sensor id
  run_sensor (Edit.order ids) = set_custom_sensor_order ids
