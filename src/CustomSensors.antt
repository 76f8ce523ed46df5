-- ===== src/CustomSensors.antt =====
-- repositories/custom_sensors_repo.rs: the temperature of a custom sensor that mixes others.
pub mod Mixed
pub mod File
pub mod Filling
pub mod Repo
pub mod Start
pub mod Keyed
pub mod Edits
pub mod Filled
pub mod Mirrored
pub mod Requests
pub mod Kept
pub mod Run
pub mod Parsed
pub mod Reasonable
pub mod Tests
use coolerocontrol.Base.{
  ℕ, String, Bool, true, false, Option, none, some, List, [], ◌∷◌, map, string_eq, ◌==◌,
  if◌then◌else◌, is_empty, length, filterb, get_last?,
}
use coolerocontrol.Base.Dict.{Dict, get}
use coolerocontrol.Base.Float.{Float, fltb}
use coolerocontrol.Device.{Device, Status, TempStatus}
use coolerocontrol.Setting.{
  TempSource, CustomSensor, CustomTempSourceData, CustomSensorMixFunctionType,
}

pub record TempData (F : Type 0) : Type 0 where
  pub temp : F
  pub weight : F

module _ {F : Type 0} where
  -- The last of the temperatures with that name.
  unfoldable pub get_temp_from_status : String → Status F → Option F
  get_temp_from_status temp_source_name status =
      get_last? (map (λ t. t.temp) (filterb (λ t. t.name == temp_source_name) status.temps))

  -- The temperature in the latest status of a device.
  unfoldable pub current_temp : String → Option (Device F) → Option F
  current_temp temp_source_name none = none
  current_temp temp_source_name (some device) = elim (get_last? device.status_history) [
    | none ↦ none
    | some status ↦ get_temp_from_status temp_source_name status
  ]

module _ {F : Type 0} ⦃fl : Float F⦄ where
  abbrev pub fmin : F → F → F
  fmin a b = if fltb a b then a else b

  abbrev pub fmax : F → F → F
  fmax a b = if fltb b a then a else b

  -- The folds, from the last value.
  unfoldable pub min_temp_from : F → List (TempData F) → F
  min_temp_from acc [] = acc
  min_temp_from acc (d ∷ rest) = min_temp_from (fmin d.temp acc) rest

  unfoldable pub max_temp_from : F → List (TempData F) → F
  max_temp_from acc [] = acc
  max_temp_from acc (d ∷ rest) = max_temp_from (fmax d.temp acc) rest

  abbrev pub process_mix_min : List (TempData F) → F
  process_mix_min temp_data = min_temp_from (fl.of_nat 254) temp_data

  abbrev pub process_mix_max : List (TempData F) → F
  process_mix_max temp_data = max_temp_from (fl.of_nat 0) temp_data

  abbrev pub absolute : F → F
  absolute x = if fltb x (fl.of_nat 0) then fl.sub (fl.of_nat 0) x else x

  unfoldable pub process_mix_delta : List (TempData F) → F
  process_mix_delta temp_data =
      if is_empty temp_data
      then fl.of_nat 0
      else absolute
          (fl.sub (max_temp_from (fl.of_nat 0) temp_data) (min_temp_from (fl.of_nat 105) temp_data))

  unfoldable pub sum_from : F → List (TempData F) → F
  sum_from acc [] = acc
  sum_from acc (d ∷ rest) = sum_from (fl.add acc d.temp) rest

  unfoldable pub process_mix_avg : List (TempData F) → F
  process_mix_avg temp_data =
      if is_empty temp_data
      then fl.of_nat 0
      else fl.div (sum_from (fl.of_nat 0) temp_data) (fl.of_nat (length temp_data))

  unfoldable pub weighted_from : F → F → List (TempData F) → F
  weighted_from temp weight [] = temp
  weighted_from temp weight (d ∷ rest) =
      let total_weight = fl.add weight d.weight in
      weighted_from (fl.div (fl.add (fl.mul temp weight) (fl.mul d.temp d.weight)) total_weight)
        total_weight rest

  unfoldable pub process_mix_weighted_avg : List (TempData F) → F
  process_mix_weighted_avg temp_data =
      if is_empty temp_data
      then fl.of_nat 0
      else weighted_from (fl.of_nat 0) (fl.of_nat 0) temp_data

  unfoldable pub process_temp_data : CustomSensorMixFunctionType → List (TempData F) → F
  process_temp_data CustomSensorMixFunctionType.min temp_data = process_mix_min temp_data
  process_temp_data CustomSensorMixFunctionType.max temp_data = process_mix_max temp_data
  process_temp_data CustomSensorMixFunctionType.delta temp_data = process_mix_delta temp_data
  process_temp_data CustomSensorMixFunctionType.avg temp_data = process_mix_avg temp_data
  process_temp_data CustomSensorMixFunctionType.weighted_avg temp_data =
      process_mix_weighted_avg temp_data

  -- Sources whose device or temperature is missing are skipped.
  unfoldable pub push_temp : Option F → ℕ → List (TempData F) → List (TempData F)
  push_temp none weight others = others
  push_temp (some temp) weight others = record { temp = temp; weight = fl.of_nat weight } ∷ others

  unfoldable pub temp_data_of :
      Dict String (Device F) → List CustomTempSourceData → List (TempData F)
  temp_data_of all_devices [] = []
  temp_data_of all_devices (source ∷ rest) =
      push_temp
        (current_temp source.temp_source.temp_name (get source.temp_source.device_uid all_devices))
        source.weight (temp_data_of all_devices rest)

  -- Without any data the sensor is at 0.
  unfoldable pub or_zero : List (TempData F) → List (TempData F)
  or_zero [] = record { temp = fl.of_nat 0; weight = fl.of_nat 1 } ∷ []
  or_zero (d ∷ rest) = d ∷ rest

  unfoldable pub process_custom_sensor_data_mix_current :
      Dict String (Device F) → CustomSensor → TempStatus F
  process_custom_sensor_data_mix_current all_devices sensor = record {
    name = sensor.id;
    temp =
        process_temp_data sensor.mix_function (or_zero (temp_data_of all_devices sensor.sources));
  }
