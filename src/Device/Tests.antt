-- ===== src/Device/Tests.antt =====
-- The histories of device.rs on a sample device.
use coolerocontrol.Base.{ℕ, ◌≡◌, none, List, [], ◌∷◌, ◌++◌, length, All}
use coolerocontrol.Base.Fixed.{fixed}
use coolerocontrol.Device.{
  Device, Status, DeviceType, DriverType, status_size, initialize_status_history_with,
}
use coolerocontrol.Device.History.{
  IsWindow, IsPlaceholder, set_statuses, set_statuses-IsWindow, initialize_status_history_with_lem,
}

abbrev status_at : ℕ → Status ℕ
status_at time = record {
  timestamp = time;
  temps = record { name = "cpu"; temp = 45000 } ∷ [];
  channels = record { name = "fan1"; rpm = none; duty = none; freq = none; pwm_mode = none } ∷ [];
}

abbrev device : Device ℕ
device = record {
  name = "board";
  d_type = DeviceType.hwmon;
  type_index = 1;
  uid = "dev";
  device_id = none;
  status_history = status_at 1 ∷ status_at 2 ∷ [];
  lc_info = none;
  info = record {
    channels = [];
    temps = [];
    lighting_speeds = [];
    temp_min = 20;
    temp_max = 100;
    profile_max_length = 17;
    profile_min_length = 2;
    model = none;
    thinkpad_fan_control = none;
    driver_info = record {
      drv_type = DriverType.kernel;
      name = none;
      version = none;
      locations = [];
    };
  };
}

set_statuses-IsWindow_example :
    IsWindow
      (status_at 1 ∷ status_at 2 ∷ [])
      (status_at 3 ∷ [])
      (set_statuses device (status_at 3 ∷ [])).status_history
set_statuses-IsWindow_example = set_statuses-IsWindow device (status_at 3 ∷ []) (λ e. cc)

initialized_sample :
    let h = (initialize_status_history_with device (status_at 5000)).status_history in
    (length h ≡ status_size)
    × (zs : List (Status ℕ)) × (h ≡ zs ++ status_at 5000 ∷ [])
    × All (IsPlaceholder (status_at 5000)) zs
initialized_sample = initialize_status_history_with_lem device (status_at 5000)
