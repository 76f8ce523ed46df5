-- ===== src/CustomSensors/Start.antt =====
-- repositories/custom_sensors_repo.rs: the repository at the start of the daemon.
use coolerocontrol.Base.{String, Option, none, some, List, [], ◌++◌}
use coolerocontrol.Base.Dict.{Dict}
use coolerocontrol.Base.Float.{Float}
use coolerocontrol.Base.Outcome.{Outcome, ok, err, panic}
use coolerocontrol.Base.State.{Action, ◌>>◌}
use coolerocontrol.Config.Sensors.{get_custom_sensors}
use coolerocontrol.Config.Toml.{Toml}
use coolerocontrol.CustomSensors.Filling.{Surroundings}
use coolerocontrol.CustomSensors.Repo.{
  CustomSensorsRepo, Repo, temp_infos_from, with_device, update_statuses,
}
use coolerocontrol.Device.{
  Device, DeviceType, DriverType, TempInfo, Status, status_current, initialize_status_history_with,
}
use coolerocontrol.Setting.{CustomSensor}

abbrev pub or_unknown : Option String → Option String
or_unknown none = some "unknown"
or_unknown (some version) = some version

-- What `Device::new` makes, with the UID of the device. `version` is the package's.
abbrev pub new_device : {F : Type 0} → String → Option String → Dict String TempInfo → Device F
new_device uid version temps = record {
  name = "Custom Sensors";
  d_type = DeviceType.custom_sensors;
  type_index = 1;
  uid = uid;
  device_id = none;
  status_history = [];
  lc_info = none;
  info = record {
    channels = [];
    temps = temps;
    lighting_speeds = [];
    temp_min = 0;
    temp_max = 100;
    profile_max_length = 21;
    profile_min_length = 2;
    model = none;
    thinkpad_fan_control = none;
    driver_info = record {
      drv_type = DriverType.cooler_control;
      name = some "CustomSensors";
      version = or_unknown version;
      locations = [];
    };
  };
}

module _ {F : Type 0} ⦃fl : Float F⦄ (toml : Toml F) (around : Surroundings F) where
  unfoldable pub initialize_history : Action (Repo toml) (Unit {0})
  initialize_history = with_device toml λ device. started device (status_current device)
    where
      started : Device F → Option (Status F) → Outcome (Device F)
      started device none = panic
      started device (some recent_status) = ok (initialize_status_history_with device recent_status)

  module _ (to_title_case : String → String) (uid : String) (version : Option String) where
    abbrev pub with_stored :
        Repo toml → Outcome (List CustomSensor) → Repo toml × Outcome (Unit {0})
    with_stored repo (ok custom_sensors) =
        (update_statuses toml around >> initialize_history) (record repo {
          custom_sensor_device =
              some (new_device uid version (temp_infos_from to_title_case 0 custom_sensors []));
          sensors = repo.sensors ++ custom_sensors;
        })
    with_stored repo (err e) = (repo, err e)
    with_stored repo panic = (repo, panic)

    unfoldable pub initialize_devices : Action (Repo toml) (Unit {0})
    initialize_devices repo = with_stored repo (get_custom_sensors toml repo.config)

-- Before the initialization.
abbrev pub new : {F Doc : Type 0} → Doc → CustomSensorsRepo F Doc
new doc = record { custom_sensor_device = none; sensors = []; config = doc }
