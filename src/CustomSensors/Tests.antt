-- ===== src/CustomSensors/Tests.antt =====
-- Custom sensors on a sample machine, and instances of the theorems.
use coolerocontrol.Base.{
  ℕ, ◌≡◌, refl, String, none, some, List, [], ◌∷◌, ◌++◌, map, arith, string_eq,
}
use coolerocontrol.Base.Outcome.{ok, err, Safe}
use coolerocontrol.Base.Int.{pos, negsuc}
use coolerocontrol.Config.Sample.{sample, end}
use coolerocontrol.CustomSensors.File.{
  FileRead, contents, parse_i32, trim, trim_start, digits_from, get_custom_sensor_file_temp,
  byte_length,
}
use coolerocontrol.CustomSensors.Filling.{Surroundings}
use coolerocontrol.CustomSensors.Parsed.{digit}
use coolerocontrol.CustomSensors.Reasonable.{
  IsReasonable, get_custom_sensor_file_temp-IsReasonable, get_custom_sensor_file_temp-value_from,
}
use coolerocontrol.CustomSensors.Repo.{Repo, set_custom_sensor, delete_custom_sensor}
use coolerocontrol.CustomSensors.Start.{initialize_devices, new}
use coolerocontrol.Base.Fixed.{fixed, fixed-IsOrdered}
use coolerocontrol.Setting.{CustomSensor, CustomSensorType, CustomSensorMixFunctionType}
use coolerocontrol.Processing.Samples.{devices_at}
use coolerocontrol.CustomSensors.{
  process_mix_delta, max_temp_from, min_temp_from, process_temp_data,
  process_custom_sensor_data_mix_current,
}
use coolerocontrol.CustomSensors.Mixed.{IsExtreme, process_custom_sensor_data_mix_current-IsExtreme}

abbrev sensor : CustomSensor
sensor = record {
  id = "mixed";
  cs_type = CustomSensorType.mix;
  mix_function = CustomSensorMixFunctionType.max;
  sources =
      record { temp_source = record { temp_name = "cpu"; device_uid = "dev" }; weight = 1 }
      ∷ record { temp_source = record { temp_name = "gpu"; device_uid = "none" }; weight = 1 }
      ∷ [];
  file_path = none;
}

delta_sample :
    process_temp_data {F = ℕ} CustomSensorMixFunctionType.delta
      (record { temp = 50000; weight = 1000 } ∷ record { temp = 35000; weight = 1000 } ∷ [])
    ≡ 15000
unfolding process_temp_data process_mix_delta max_temp_from min_temp_from
delta_sample = refl

process_custom_sensor_data_mix_current-IsExtreme_example :
    let status = process_custom_sensor_data_mix_current (devices_at 45000) sensor in
    (status.name ≡ "mixed")
    × IsExtreme fixed-IsOrdered CustomSensorMixFunctionType.max
        (devices_at 45000)
        sensor.sources
        status.temp
process_custom_sensor_data_mix_current-IsExtreme_example =
    process_custom_sensor_data_mix_current-IsExtreme fixed-IsOrdered (devices_at 45000) sensor

-- " 45000" and a line feed.
abbrev warm_text : List ℕ
warm_text = (32 ∷ []) ++ (map digit (4 ∷ 5 ∷ 0 ∷ 0 ∷ 0 ∷ []) ++ (10 ∷ []))

abbrev files : String → FileRead
files path = contents warm_text

abbrev file_sensor : CustomSensor
file_sensor = record sensor {
  id = "file";
  cs_type = CustomSensorType.file;
  sources = [];
  file_path = some "/tmp/temp";
}

-- "-7"
negative_sample : parse_i32 (45 ∷ 55 ∷ []) ≡ ok (negsuc 6)
unfolding parse_i32 digits_from
negative_sample = refl

-- "2147483648"
too_large_sample :
    parse_i32 (map digit (2 ∷ 1 ∷ 4 ∷ 7 ∷ 4 ∷ 8 ∷ 3 ∷ 6 ∷ 4 ∷ 8 ∷ []))
    ≡ err "number too large to fit in target type"
unfolding parse_i32 digits_from
too_large_sample = refl

-- "+5 " with a space that is taken off, and "4 5" with one that is not.
trim_sample : parse_i32 (trim (43 ∷ 53 ∷ 32 ∷ [])) ≡ ok (pos 5)
unfolding parse_i32 digits_from trim trim_start
trim_sample = refl

inner_sample : parse_i32 (trim (52 ∷ 32 ∷ 53 ∷ [])) ≡ err "invalid digit found in string"
unfolding parse_i32 digits_from trim trim_start
inner_sample = refl

get_custom_sensor_file_temp-IsReasonable_example :
    Safe
      (get_custom_sensor_file_temp {F = ℕ} files file_sensor)
      λ temp. (path : String) × (some "/tmp/temp" ≡ some path) × IsReasonable (files path) temp
get_custom_sensor_file_temp-IsReasonable_example =
    get_custom_sensor_file_temp-IsReasonable ℕ files file_sensor

get_custom_sensor_file_temp-value_from_example :
    get_custom_sensor_file_temp {F = ℕ} files file_sensor ≡ ok 45000
unfolding byte_length
get_custom_sensor_file_temp-value_from_example =
    get_custom_sensor_file_temp-value_from files file_sensor "/tmp/temp" (32 ∷ [])
      (4 ∷ 5 ∷ 0 ∷ 0 ∷ 0 ∷ []) (10 ∷ []) refl refl (refl, tt) (refl, tt)
      (omega arith, (omega arith, (omega arith, (omega arith, (omega arith, tt))))) (λ h. cc)
      (omega arith) (omega arith)

abbrev around : Surroundings ℕ
around = record { all_devices = devices_at 45000; read_to_string = files; now = 7 }

abbrev same_title : String → String
same_title id = id

abbrev at_start : Repo sample
at_start = (initialize_devices sample around same_title "hash" none (new end)).0

abbrev with_sensor : Repo sample
with_sensor = (set_custom_sensor sample around same_title sensor at_start).0

abbrev without_file : Repo sample
without_file = (delete_custom_sensor sample same_title "file" with_sensor).0
