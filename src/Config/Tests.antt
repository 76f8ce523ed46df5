-- ===== src/Config/Tests.antt =====
-- Tests and witnesses over the sample documents.
use coolerocontrol.Base.Fixed.{fixed}
use coolerocontrol.Base.Int.{pos, try_below, clamp_int}
use coolerocontrol.Base.Outcome.{Outcome, ok, ◌>>=◌}
use coolerocontrol.Base.{
  ℕ, String, true, false, none, some, [], ◌∷◌, ◌≡◌, ◌==◌, string_eq, inl, inr, refl, arith, All,
}
use coolerocontrol.Config.DeviceSettings.Merged.{ReadsAs, merged}
use coolerocontrol.Config.DeviceSettings.Stored.{IsStored, set_device_setting-IsStored}
use coolerocontrol.Config.DeviceSettings.{set_device_setting, is_true}
use coolerocontrol.Config.Entries.Refines.{Refines}
use coolerocontrol.Config.Functions.Stored.{run_function-Refines}
use coolerocontrol.Config.Functions.Valid.{get_functions-IsValid}
use coolerocontrol.Config.Functions.{
  set_function, functions, has_default, run_function, get_current_functions, get_functions,
}
use coolerocontrol.Config.Entries.{
  get_entries, set_entry, or_insert, tables_of, already_exists, has_uid,
}
use coolerocontrol.Config.Fields.{
  get_speed_fixed, get_lighting, get_lcd, get_pwm_mode, get_profile_uid, function_type_str,
  function_type_from_str,
}
use coolerocontrol.Config.General.Stored.{get_settings-set_settings}
use coolerocontrol.Config.General.{get_port, get_address, set_settings, get_settings}
use coolerocontrol.Config.Profiles.Stored.{run_profile-Refines}
use coolerocontrol.Config.Profiles.{profiles, run_profile, get_current_profiles}
use coolerocontrol.Config.Sample.{Fields, Node, end, field, sample, sample-IsToml}
use coolerocontrol.Config.Sensors.Stored.{run_sensor-Refines}
use coolerocontrol.Config.Sensors.{custom_sensors, run_sensor, get_stored_sensors}
use coolerocontrol.Config.Store.{Edit, edited}
use coolerocontrol.Config.Tables.FunctionTable.{normalized_function, get_function-written}
use coolerocontrol.Config.Tables.FunctionValid.{IsValid}
use coolerocontrol.Config.Tables.{
  validated_window, get_f_type, get_duty_minimum, get_duty_maximum, get_response_delay,
  get_deviance, get_only_downward, get_sample_window, create_function_table_from, get_function,
  get_profile, get_custom_sensor, add_function_properties_to_function_table,
}
use coolerocontrol.Setting.{
  Profile, ProfileType, Function, FunctionType, CustomSensor, CustomSensorType,
  CustomSensorMixFunctionType, Setting, CoolerControlSettings, default_function,
  default_function_uid,
}

-- FUNCTIONS
abbrev smooth : Function ℕ
smooth = record {
  uid = "f1";
  name = "Smooth";
  f_type = FunctionType.standard;
  duty_minimum = 2;
  duty_maximum = 40;
  response_delay = some 3;
  deviance = some 2000;
  only_downward = some true;
  sample_window = some 8;
}

abbrev slower : Function ℕ
slower = record smooth { response_delay = some 10 }

-- A document with two functions.
abbrev two_functions : Fields
two_functions =
    (run_function sample (Edit.set smooth)
      (run_function sample (Edit.set (default_function ℕ)) end).1).1

two_functions_stored :
    get_current_functions sample two_functions ≡ ok (default_function ℕ ∷ smooth ∷ [])
unfolding get_current_functions get_entries get_function set_function set_entry or_insert tables_of
    already_exists has_uid create_function_table_from add_function_properties_to_function_table
    get_f_type get_duty_minimum get_duty_maximum get_response_delay get_deviance get_only_downward
    get_sample_window function_type_str function_type_from_str validated_window try_below
two_functions_stored = refl

smooth-IsValid : IsValid smooth
smooth-IsValid = record {
  minimum_pos = omega arith;
  minimum_one = inl (omega arith);
  below = omega arith;
  maximum_le = omega arith;
  delay = omega arith;
  window = omega arith;
}

-- The second function is updated.
run_function-Refines_example :
    Refines sample functions
      (get_function sample)
      (run_function sample (Edit.update slower) two_functions)
      (edited functions (λ f. f.uid) (Edit.update slower) (default_function ℕ ∷ smooth ∷ []))
run_function-Refines_example =
    run_function-Refines sample sample-IsToml (Edit.update slower) two_functions
      (default_function ℕ ∷ smooth ∷ []) two_functions_stored
      (record {
        minimum_pos = omega arith;
        minimum_one = inl (omega arith);
        below = omega arith;
        maximum_le = omega arith;
        delay = omega arith;
        window = omega arith;
      })

two_functions_returned :
    (save : Fields → Outcome (Unit {0}))
    → (get_functions sample save two_functions).0 ≡ ok (default_function ℕ ∷ smooth ∷ [])
unfolding get_functions
two_functions_returned save = rw two_functions_stored refl

-- What is stored is returned.
get_functions-IsValid_example :
    All IsValid (default_function ℕ ∷ smooth ∷ [])
    × (has_default
          (λ (f : Function ℕ). f.uid)
          default_function_uid
          (default_function ℕ ∷ smooth ∷ [])
        ≡ true)
get_functions-IsValid_example =
    get_functions-IsValid sample (λ doc. ok tt) two_functions (default_function ℕ ∷ smooth ∷ [])
      (two_functions_returned (λ doc. ok tt))

-- A function out of range is read back in range.
abbrev wild : Function ℕ
wild = record smooth { duty_minimum = 120; duty_maximum = 80; sample_window = some 0 }

clamped_function :
    get_function sample (add_function_properties_to_function_table sample wild end)
    ≡ ok (record smooth { duty_minimum = 79; duty_maximum = 80; sample_window = some 8 })
unfolding normalized_function validated_window
clamped_function = get_function-written sample sample-IsToml wild end (record {
  minimum = omega arith;
  maximum = omega arith;
  delay = omega arith;
  window = omega arith;
})

-- PROFILES
abbrev curve : Profile ℕ
curve = record {
  uid = "p1";
  p_type = ProfileType.graph;
  name = "Curve";
  speed_fixed = none;
  speed_profile = some ((20000, 30) ∷ (80000, 100) ∷ []);
  temp_source = some (record { temp_name = "temp1"; device_uid = "cpu" });
  function_uid = "f1";
  member_profile_uids = [];
  mix_function_type = none;
}

no_profiles : get_current_profiles {F = ℕ} sample end ≡ ok []
unfolding get_current_profiles get_entries
no_profiles = refl

-- A profile is added to an empty document.
run_profile-Refines_example :
    Refines sample profiles
      (get_profile sample)
      (run_profile sample (Edit.set curve) end)
      (edited profiles (λ p. p.uid) (Edit.set curve) [])
run_profile-Refines_example =
    run_profile-Refines sample sample-IsToml (Edit.set curve) end [] no_profiles
      (record { fixed_le = omega arith; profile_le = omega arith })

-- CUSTOM SENSORS
abbrev warmest : CustomSensor
warmest = record {
  id = "sensor1";
  cs_type = CustomSensorType.mix;
  mix_function = CustomSensorMixFunctionType.max;
  sources =
      record { temp_source = record { temp_name = "temp1"; device_uid = "cpu" }; weight = 1 } ∷ [];
  file_path = none;
}

no_sensors : get_stored_sensors sample end ≡ ok []
unfolding get_stored_sensors get_entries
no_sensors = refl

-- A custom sensor is added to an empty document.
run_sensor-Refines_example :
    Refines sample custom_sensors
      (get_custom_sensor sample)
      (run_sensor sample (Edit.set warmest) end)
      (edited custom_sensors (λ c. c.id) (Edit.set warmest) [])
run_sensor-Refines_example =
    run_sensor-Refines sample sample-IsToml (Edit.set warmest) end [] no_sensors (omega arith)

-- CHANNEL SETTINGS
abbrev channel_table : Fields
channel_table = field "speed_fixed" (Node.int (pos 40)) end

-- A document with a fixed speed for one channel.
abbrev device_table : Fields
device_table = field "fan1" (Node.inline channel_table) end

abbrev devices : Fields
devices = field "dev1" (Node.block device_table) end

abbrev with_channel : Fields
with_channel = field "device-settings" (Node.block devices) end

abbrev stored_setting : Setting
stored_setting = record {
  channel_name = "fan1";
  speed_fixed = some 40;
  lighting = none;
  lcd = none;
  pwm_mode = none;
  reset_to_default = none;
  profile_uid = none;
}

channel_table-ReadsAs : ReadsAs sample channel_table stored_setting
unfolding get_speed_fixed get_lighting get_lcd get_pwm_mode get_profile_uid try_below
channel_table-ReadsAs = record {
  speed_is = refl;
  lighting_is = refl;
  lcd_is = refl;
  mode_is = refl;
  profile_is = refl;
  no_backward = refl;
}

-- A profile is stored over the speed.
abbrev profile_setting : Setting
profile_setting = record stored_setting { speed_fixed = none; profile_uid = some "p1" }

set_device_setting-IsStored_example :
    (doc' : Fields) × (d' : Fields) × (x' : Fields) × (set_device_setting sample "dev1"
        profile_setting with_channel
      ≡ ok doc')
    × (sample.get doc' "device-settings" ≡ some (sample.table d'))
    × (sample.get d' "dev1" ≡ some (sample.table x'))
    × IsStored sample sample-IsToml
        (is_true profile_setting.reset_to_default)
        x'
        "fan1"
        (merged profile_setting stored_setting)
    × ((j : String) → ("fan1" == j) ≡ false → sample.get x' j ≡ sample.get device_table j)
    × ((j : String) → ("dev1" == j) ≡ false → sample.get d' j ≡ sample.get devices j)
set_device_setting-IsStored_example =
    set_device_setting-IsStored sample sample-IsToml profile_setting "dev1" with_channel devices
      device_table channel_table stored_setting refl (inr refl) (inr refl) channel_table-ReadsAs
      (record { speed_le = tt; mode_le = tt; lighting_bytes = tt; lcd_ranges = tt })

-- GENERAL SETTINGS
abbrev general_table : Fields
general_table = field "port" (Node.int (pos 11987)) end

abbrev with_settings : Fields
with_settings = field "settings" (Node.block general_table) end

abbrev new_settings : CoolerControlSettings
new_settings = record {
  apply_on_boot = false;
  no_init = true;
  startup_delay = 30;
  thinkpad_full_speed = false;
  hide_duplicate_devices = true;
  liquidctl_integration = false;
  port = some 80;
  ipv4_address = none;
  ipv6_address = none;
  compress = true;
}

stored_port : get_port sample general_table ≡ ok (some 11987)
unfolding get_port clamp_int
stored_port = refl

no_ipv4 :
    get_address sample (λ s. s) general_table "ipv4_address" "ipv4_address should be a string"
    ≡ ok none
unfolding get_address
no_ipv4 = refl

no_ipv6 :
    get_address sample (λ s. s) general_table "ipv6_address" "ipv6_address should be a string"
    ≡ ok none
unfolding get_address
no_ipv6 = refl

-- The delay is cut to ten seconds, and the port stays.
get_settings-set_settings_example :
    (set_settings sample new_settings with_settings >>= get_settings sample (λ s. s))
    ≡ ok (record new_settings { startup_delay = 10; port = some 11987 })
get_settings-set_settings_example =
    get_settings-set_settings sample sample-IsToml (λ s. s) new_settings with_settings general_table
      (some 11987) none none refl stored_port no_ipv4 no_ipv6
