-- ===== src/CustomSensors/Repo.antt =====
-- repositories/custom_sensors_repo.rs: the repository, which keeps the sensors of the configuration
-- and the status history of their device.
use coolerocontrol.Base.{
  ℕ, suc, ◌+◌, ◌%◌, String, not, Option, none, some, List, [], ◌∷◌, ◌++◌, map, string_eq, ◌==◌,
  filterb, find_by,
}
use coolerocontrol.Base.Dict.{Dict, insert}
use coolerocontrol.Base.Float.{Float}
use coolerocontrol.Base.Outcome.{Outcome, ok, err, panic, unwrap, with_context}
use coolerocontrol.Base.State.{Action, lift, ◌>>◌}
use coolerocontrol.Config.Sensors.{run_sensor, get_custom_sensors}
use coolerocontrol.Config.Store.{Edit, replace}
use coolerocontrol.Config.Sensors
use coolerocontrol.Config.Toml.{Toml}
use coolerocontrol.CustomSensors.Filling.{Surroundings, filled_history, verified, current_of}
use coolerocontrol.Device.{Device, TempInfo, Status, set_status}
use coolerocontrol.Setting.{CustomSensor}

-- The sensors are in memory, and in the document of the configuration. `F` is `f64`.
pub record CustomSensorsRepo (F Doc : Type 0) : Type 0 where
  pub custom_sensor_device : Option (Device F)
  pub sensors : List CustomSensor
  pub config : Doc

-- `index as u8 + 1`, with the wrap-around of a release build.
abbrev pub temp_number : ℕ → ℕ
temp_number index = (index % 256 + 1) % 256

-- `collect` into a map. `to_title_case` is heck's.
unfoldable pub temp_infos_from :
    (String → String) → ℕ → List CustomSensor → Dict String TempInfo → Dict String TempInfo
temp_infos_from to_title_case index [] infos = infos
temp_infos_from to_title_case index (cs ∷ rest) infos =
    temp_infos_from to_title_case (suc index) rest
      (insert cs.id (record { label = to_title_case cs.id; number = temp_number index }) infos)

abbrev pub find_sensor : String → List CustomSensor → Outcome CustomSensor
find_sensor custom_sensor_id sensors =
    with_context "Custom Sensor not found" (find_by (λ cs. cs.id == custom_sensor_id) sensors)

abbrev pub without_temp : {F : Type 0} → String → Status F → Status F
without_temp sensor_id status = record status {
  temps = filterb (λ t. not (t.name == sensor_id)) status.temps;
}

abbrev pub with_history : {F : Type 0} → Device F → Outcome (List (Status F)) → Outcome (Device F)
with_history device (ok history) = ok (record device { status_history = history })
with_history device (err e) = err e
with_history device panic = panic

module _ {F : Type 0} (toml : Toml F) where
  abbrev pub Repo : Type 0
  Repo = CustomSensorsRepo F toml.Table

  unfoldable pub get_custom_sensor : String → Repo → Outcome CustomSensor
  get_custom_sensor custom_sensor_id repo = find_sensor custom_sensor_id repo.sensors

  -- `unwrap` on the device, which is there after the initialization.
  unfoldable pub with_device : (Device F → Outcome (Device F)) → Action Repo (Unit {0})
  with_device f repo = elim repo.custom_sensor_device [
    | none ↦ (repo, panic)
    | some device ↦ elim (f device) [
      | ok changed ↦ (record repo { custom_sensor_device = some changed }, ok tt)
      | err e ↦ (repo, err e)
      | panic ↦ (repo, panic)
    ]
  ]

  unfoldable pub with_sensors :
      (List CustomSensor → Outcome (List CustomSensor)) → Action Repo (Unit {0})
  with_sensors f repo = elim (f repo.sensors) [
    | ok changed ↦ (record repo { sensors = changed }, ok tt)
    | err e ↦ (repo, err e)
    | panic ↦ (repo, panic)
  ]

  abbrev pub edit_config : Edit CustomSensor → Action Repo (Unit {0})
  edit_config edit repo =
      let (result, doc) = run_sensor toml edit repo.config in (record repo { config = doc }, result)

  unfoldable pub remove_status_history_for_sensor : String → Action Repo (Unit {0})
  remove_status_history_for_sensor sensor_id = with_device λ device.
      ok (record device { status_history = map (without_temp sensor_id) device.status_history })

  -- The bodies of the sensors in the request are kept, while the configuration keeps its own.
  unfoldable pub set_custom_sensors_order : List CustomSensor → Action Repo (Unit {0})
  set_custom_sensors_order custom_sensors = do
    edit_config (Edit.order (map (λ cs. cs.id) custom_sensors))
    with_sensors λ _. ok custom_sensors

  module _ (to_title_case : String → String) where
    unfoldable pub update_device_info_temps : Action Repo (Unit {0})
    update_device_info_temps repo =
        with_device
          (λ device. ok (record device {
            info = record device.info { temps = temp_infos_from to_title_case 0 repo.sensors [] };
          }))
          repo

    unfoldable pub delete_custom_sensor : String → Action Repo (Unit {0})
    delete_custom_sensor custom_sensor_id = do
      edit_config (Edit.delete custom_sensor_id)
      remove_status_history_for_sensor custom_sensor_id
      with_sensors λ sensors. ok (filterb (λ cs. not (cs.id == custom_sensor_id)) sensors)
      update_device_info_temps

  module _ ⦃fl : Float F⦄ (around : Surroundings F) where
    unfoldable pub fill_status_history_for_new_sensor : CustomSensor → Action Repo (Unit {0})
    fill_status_history_for_new_sensor sensor = with_device λ device.
        with_history device (filled_history around sensor.cs_type sensor device.status_history)

    -- The history is filled before the configuration refuses an ID that exists.
    unfoldable pub set_custom_sensor : (String → String) → CustomSensor → Action Repo (Unit {0})
    set_custom_sensor to_title_case custom_sensor = do
      fill_status_history_for_new_sensor custom_sensor
      edit_config (Edit.set custom_sensor)
      with_sensors λ sensors. ok (sensors ++ (custom_sensor ∷ []))
      update_device_info_temps to_title_case

    -- A sensor that is not in memory is a panic.
    unfoldable pub update_custom_sensor : CustomSensor → Action Repo (Unit {0})
    update_custom_sensor custom_sensor = do
      lift (verified around custom_sensor.cs_type custom_sensor)
      edit_config (Edit.update custom_sensor)
      with_sensors λ sensors.
          unwrap
            (replace Sensors.custom_sensors (λ cs. cs.id) custom_sensor.id custom_sensor sensors)

    abbrev pub new_status : List CustomSensor → Status F
    new_status sensors = record {
      timestamp = around.now;
      temps = map (λ sensor. current_of around sensor.cs_type sensor) sensors;
      channels = [];
    }

    unfoldable pub update_statuses : Action Repo (Unit {0})
    update_statuses repo = elim repo.custom_sensor_device [
      | none ↦ (repo, ok tt)
      | some device ↦ (
        record repo { custom_sensor_device = some (set_status device (new_status repo.sensors)) },
        ok tt,
      )
    ]
