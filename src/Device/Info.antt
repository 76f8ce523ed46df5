-- ===== src/Device/Info.antt =====
-- device.rs and repositories/liquidctl/base_driver.rs: what a device says of itself.
use coolerocontrol.Base.{ℕ, String, Bool, Option, List}
use coolerocontrol.Base.Dict.{Dict}

pub data DeviceType : Type 0 where
  cpu gpu liquidctl hwmon custom_sensors : DeviceType

pub record SpeedOptions : Type 0 where
  pub min_duty : ℕ
  pub max_duty : ℕ
  pub profiles_enabled : Bool
  pub fixed_enabled : Bool
  pub manual_profiles_enabled : Bool

pub data LightingModeType : Type 0 where
  none liquidctl custom : LightingModeType

pub record LightingMode : Type 0 where
  pub name : String
  pub frontend_name : String
  pub min_colors : ℕ
  pub max_colors : ℕ
  pub speed_enabled : Bool
  pub backward_enabled : Bool
  pub type_ : LightingModeType

pub data LcdModeType : Type 0 where
  none liquidctl custom : LcdModeType

pub record LcdMode : Type 0 where
  pub name : String
  pub frontend_name : String
  pub brightness : Bool
  pub orientation : Bool
  pub image : Bool
  pub colors_min : ℕ
  pub colors_max : ℕ
  pub type_ : LcdModeType

pub record LcdInfo : Type 0 where
  pub screen_width : ℕ
  pub screen_height : ℕ
  pub max_image_size_bytes : ℕ

pub record ChannelInfo : Type 0 where
  pub label : Option String
  pub speed_options : Option SpeedOptions
  pub lighting_modes : List LightingMode
  pub lcd_modes : List LcdMode
  pub lcd_info : Option LcdInfo

pub record TempInfo : Type 0 where
  pub label : String
  pub number : ℕ

pub data DriverType : Type 0 where
  kernel liquidctl nvml nvidia_cli cooler_control : DriverType

pub record DriverInfo : Type 0 where
  pub drv_type : DriverType
  pub name : Option String
  pub version : Option String
  pub locations : List String

pub record DeviceInfo : Type 0 where
  pub channels : Dict String ChannelInfo
  pub temps : Dict String TempInfo
  pub lighting_speeds : List String
  pub temp_min : ℕ
  pub temp_max : ℕ
  pub profile_max_length : ℕ
  pub profile_min_length : ℕ
  pub model : Option String
  pub thinkpad_fan_control : Option Bool
  pub driver_info : DriverInfo

pub data BaseDriver : Type 0 where
  aquacomputer commander_pro kraken2 kraken_x3 kraken_z3 mock_kraken_z3 smart_device smart_device2 :
      BaseDriver
  h1_v2 hydro_platinum corsair_hid_psu rgb_fusion2 aura_led commander_core nzxt_e_psu : BaseDriver
  modern690_lc msi_acpi_ec hydro690_lc legacy690_lc hydro_pro evga_pascal rog_turing : BaseDriver
  ddr4_temperature vengeance_rgb : BaseDriver

pub record LcInfo : Type 0 where
  pub driver_type : BaseDriver
  pub firmware_version : Option String
  pub unknown_asetek : Bool
