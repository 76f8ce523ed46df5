-- ===== src/Processing/Samples.antt =====
-- A machine for the tests, over fixed-point numbers with three decimals: one device with a sensor,
-- and a profile with the standard function.
use coolerocontrol.Base.{ℕ, String, true, false, none, some, [], ◌∷◌}
use coolerocontrol.Base.Dict.{Dict}
use coolerocontrol.Device.{Device, DeviceInfo, DeviceType, DriverType, Status, ChannelInfo}
use coolerocontrol.Setting.{Function, FunctionType}
use coolerocontrol.Processing.{NormalizedGraphProfile}

abbrev pub fan_info : ChannelInfo
fan_info = record {
  label = none;
  speed_options = some (record {
    min_duty = 0;
    max_duty = 100;
    profiles_enabled = false;
    fixed_enabled = true;
    manual_profiles_enabled = true;
  });
  lighting_modes = [];
  lcd_modes = [];
  lcd_info = none;
}

abbrev pub info : DeviceInfo
info = record {
  channels = ("fan1", fan_info) ∷ [];
  temps = [];
  lighting_speeds = [];
  temp_min = 20;
  temp_max = 100;
  profile_max_length = 17;
  profile_min_length = 2;
  model = none;
  thinkpad_fan_control = none;
  driver_info = record {
    drv_type = DriverType.kernel;
    name = none;
    version = none;
    locations = [];
  };
}

abbrev pub status_at : ℕ → Status ℕ
status_at temp = record {
  timestamp = 1000;
  temps = record { name = "cpu"; temp = temp } ∷ [];
  channels = [];
}

abbrev pub device_at : ℕ → Device ℕ
device_at temp = record {
  name = "board";
  d_type = DeviceType.hwmon;
  type_index = 1;
  uid = "dev";
  device_id = none;
  status_history = status_at temp ∷ [];
  lc_info = none;
  info = info;
}

abbrev pub devices_at : ℕ → Dict String (Device ℕ)
devices_at temp = ("dev", device_at temp) ∷ []

abbrev pub standard_function : Function ℕ
standard_function = record {
  uid = "f1";
  name = "standard";
  f_type = FunctionType.standard;
  duty_minimum = 2;
  duty_maximum = 100;
  response_delay = some 1;
  deviance = some 2000;
  only_downward = some false;
  sample_window = none;
}

abbrev pub profile : NormalizedGraphProfile ℕ
profile = record {
  profile_uid = "p1";
  profile_name = "quiet";
  speed_profile = (20000, 50) ∷ (50000, 70) ∷ (60000, 100) ∷ [];
  temp_source = record { temp_name = "cpu"; device_uid = "dev" };
  function = standard_function;
}
