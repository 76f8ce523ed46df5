-- ===== src/CustomSensors/Filling.antt =====
-- repositories/custom_sensors_repo.rs: the history of a new sensor, and its current temperature.
use coolerocontrol.Base.{
  ℕ, zero, suc, ◌-◌, String, Option, none, some, List, [], ◌∷◌, ◌++◌, if◌then◌else◌, nat_eq,
  string_eq, ◌==◌, length,
}
use coolerocontrol.Base.Dict.{Dict, get}
use coolerocontrol.Base.Float.{Float}
use coolerocontrol.Base.Outcome.{Outcome, ok, err, panic, ◌>>=◌, ◌>>◌, with_context}
use coolerocontrol.CustomSensors.{
  TempData, get_temp_from_status, process_temp_data, or_zero,
  process_custom_sensor_data_mix_current,
}
use coolerocontrol.CustomSensors.File.{
  FileRead, get_custom_sensor_file_temp, process_custom_sensor_data_file_current,
}
use coolerocontrol.Device.{Device, Status, TempStatus}
use coolerocontrol.Setting.{CustomSensor, CustomSensorType, CustomTempSourceData}

-- What an operation sees of the other devices, the files and the clock.
pub record Surroundings (F : Type 0) : Type 0 where
  pub all_devices : Dict String (Device F)
  pub read_to_string : String → FileRead
  pub now : ℕ

-- The status of that index, which the other device may not have.
unfoldable pub get_indexed : {F : Type 0} → ℕ → List (Status F) → Option (Status F)
get_indexed index [] = none
get_indexed zero (s ∷ ss) = some s
get_indexed (suc index) (s ∷ ss) = get_indexed index ss

abbrev pub push_temp_status : {F : Type 0} → TempStatus F → Status F → Status F
push_temp_status temp_status status = record status { temps = status.temps ++ (temp_status ∷ []) }

module _ {F : Type 0} ⦃fl : Float F⦄ (around : Surroundings F) where
  unfoldable pub temp_indexed : String → ℕ → Device F → Outcome F
  temp_indexed temp_source_name index device =
      with_context "Temp not found for Custom Sensor"
        (elim (get_indexed index device.status_history) [
          | none ↦ none
          | some status ↦ get_temp_from_status temp_source_name status
        ])

  -- Sources whose device is missing are skipped, others must have the temperature.
  unfoldable pub temp_data_indexed : ℕ → List CustomTempSourceData → Outcome (List (TempData F))
  temp_data_indexed index [] = ok []
  temp_data_indexed index (source ∷ rest) =
      let others = temp_data_indexed index rest in
      elim (get source.temp_source.device_uid around.all_devices) [
        | none ↦ others
        | some device ↦ do
          temp ← temp_indexed source.temp_source.temp_name index device
          ds ← others
          ok (record { temp = temp; weight = fl.of_nat source.weight } ∷ ds)
      ]

  unfoldable pub process_custom_sensor_data_mix_indexed : CustomSensor → ℕ → Outcome (TempStatus F)
  process_custom_sensor_data_mix_indexed sensor index = do
    temp_data ← temp_data_indexed index sensor.sources
    ok (record {
      name = sensor.id;
      temp = process_temp_data sensor.mix_function (or_zero temp_data);
    })

  unfoldable pub fill_mix : CustomSensor → ℕ → List (Status F) → Outcome (List (Status F))
  fill_mix sensor index [] = ok []
  fill_mix sensor index (status ∷ rest) = do
    temp_status ← process_custom_sensor_data_mix_indexed sensor index
    others ← fill_mix sensor (suc index) rest
    ok (push_temp_status temp_status status ∷ others)

  -- Only the last status gets the temperature.
  unfoldable pub fill_file : TempStatus F → ℕ → ℕ → List (Status F) → List (Status F)
  fill_file temp_status last_index index [] = []
  fill_file temp_status last_index index (status ∷ rest) =
      let filled =
        if index == last_index then temp_status else record temp_status { temp = fl.of_nat 0 } in
      push_temp_status filled status ∷ fill_file temp_status last_index (suc index) rest

  -- Make sure the file exists and temp is properly formatted
  abbrev pub verify_file : CustomSensor → Outcome (Unit {0})
  verify_file sensor = elim (get_custom_sensor_file_temp {F = F} around.read_to_string sensor) [
    | ok _ ↦ ok tt
    | err e ↦ err e
    | panic ↦ panic
  ]

  abbrev pub verified : CustomSensorType → CustomSensor → Outcome (Unit {0})
  verified CustomSensorType.mix sensor = ok tt
  verified CustomSensorType.file sensor = verify_file sensor

  abbrev pub filled_history :
      CustomSensorType → CustomSensor → List (Status F) → Outcome (List (Status F))
  filled_history CustomSensorType.mix sensor status_history = fill_mix sensor 0 status_history
  filled_history CustomSensorType.file sensor status_history = do
    verify_file sensor
    ok (
        fill_file (process_custom_sensor_data_file_current around.read_to_string sensor)
          (length status_history - 1) 0 status_history)

  abbrev pub current_of : CustomSensorType → CustomSensor → TempStatus F
  current_of CustomSensorType.mix sensor =
      process_custom_sensor_data_mix_current around.all_devices sensor
  current_of CustomSensorType.file sensor =
      process_custom_sensor_data_file_current around.read_to_string sensor
