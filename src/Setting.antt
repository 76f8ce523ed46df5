-- ===== src/Setting.antt =====
-- setting.rs: profiles, functions, custom sensors and channel settings. `F` is `f64`.
use coolerocontrol.Base.{
  ℕ, String, Bool, true, false, not, ◌&&◌, Option, none, some, List, [], ◌∷◌, nat_eq, string_eq,
  ◌==◌,
}

pub record TempSource : Type 0 where
  pub temp_name : String
  pub device_uid : String

pub data ProfileType : Type 0 where
  default fixed graph mix : ProfileType

pub data ProfileMixFunctionType : Type 0 where
  min max avg : ProfileMixFunctionType

pub data FunctionType : Type 0 where
  identity standard exponential_moving_avg : FunctionType

-- `speed_profile` is a list of (temp, duty).
pub record Profile (F : Type 0) : Type 0 where
  pub uid : String
  pub p_type : ProfileType
  pub name : String
  pub speed_fixed : Option ℕ
  pub speed_profile : Option (List (F × ℕ))
  pub temp_source : Option TempSource
  pub function_uid : String
  pub member_profile_uids : List String
  pub mix_function_type : Option ProfileMixFunctionType

pub record Function (F : Type 0) : Type 0 where
  pub uid : String
  pub name : String
  pub f_type : FunctionType
  pub duty_minimum : ℕ
  pub duty_maximum : ℕ
  pub response_delay : Option ℕ
  pub deviance : Option F
  pub only_downward : Option Bool
  pub sample_window : Option ℕ

abbrev pub default_profile_uid : String
default_profile_uid = "0"

abbrev pub default_function_uid : String
default_function_uid = "0"

abbrev pub default_profile : (F : Type 0) → Profile F
default_profile F = record {
  uid = default_profile_uid;
  p_type = ProfileType.default;
  name = "Default Profile";
  speed_fixed = none;
  speed_profile = none;
  temp_source = none;
  function_uid = default_function_uid;
  member_profile_uids = [];
  mix_function_type = none;
}

abbrev pub default_function : (F : Type 0) → Function F
default_function F = record {
  uid = default_function_uid;
  name = "Default Function";
  f_type = FunctionType.identity;
  duty_minimum = 2;
  duty_maximum = 100;
  response_delay = none;
  deviance = none;
  only_downward = none;
  sample_window = none;
}

pub record LightingSettings : Type 0 where
  pub mode : String
  pub speed : Option String
  pub backward : Option Bool
  pub colors : List (ℕ × ℕ × ℕ)

pub record LcdSettings : Type 0 where
  pub mode : String
  pub brightness : Option ℕ
  pub orientation : Option ℕ
  pub image_file_processed : Option String
  pub colors : List (ℕ × ℕ × ℕ)
  pub temp_source : Option TempSource

-- The settings that are applied to a device channel.
pub record Setting : Type 0 where
  pub channel_name : String
  pub speed_fixed : Option ℕ
  pub lighting : Option LightingSettings
  pub lcd : Option LcdSettings
  pub pwm_mode : Option ℕ
  pub reset_to_default : Option Bool
  pub profile_uid : Option String

-- The derived `PartialEq` of the parts.
abbrev option_eqb {ℓ} : {A : Type ℓ} → (A → A → Bool) → Option A → Option A → Bool
option_eqb p none none = true
option_eqb p none (some b) = false
option_eqb p (some a) none = false
option_eqb p (some a) (some b) = p a b

abbrev list_eqb {ℓ} : {A : Type ℓ} → (A → A → Bool) → List A → List A → Bool
list_eqb p [] [] = true
list_eqb p [] (y ∷ ys) = false
list_eqb p (x ∷ xs) [] = false
list_eqb p (x ∷ xs) (y ∷ ys) = p x y && list_eqb p xs ys

abbrev bool_eqb : Bool → Bool → Bool
bool_eqb true b = b
bool_eqb false b = not b

abbrev color_eqb : ℕ × ℕ × ℕ → ℕ × ℕ × ℕ → Bool
color_eqb a b = a.0 == b.0 && (a.1 == b.1 && a.2 == b.2)

abbrev temp_source_eqb : TempSource → TempSource → Bool
temp_source_eqb a b = a.temp_name == b.temp_name && a.device_uid == b.device_uid

abbrev lighting_eqb : LightingSettings → LightingSettings → Bool
lighting_eqb a b =
    a.mode == b.mode
    && (option_eqb (λ x y. x == y) a.speed b.speed
        && (option_eqb bool_eqb a.backward b.backward && list_eqb color_eqb a.colors b.colors))

abbrev lcd_eqb : LcdSettings → LcdSettings → Bool
lcd_eqb a b =
    a.mode == b.mode
    && (option_eqb (λ x y. x == y) a.brightness b.brightness
        && (option_eqb (λ x y. x == y) a.orientation b.orientation
            && (option_eqb (λ x y. x == y) a.image_file_processed b.image_file_processed
                && (list_eqb color_eqb a.colors b.colors
                    && option_eqb temp_source_eqb a.temp_source b.temp_source))))

-- All fields count but `reset_to_default`.
unfoldable pub setting_eqb : Setting → Setting → Bool
setting_eqb a b =
    a.channel_name == b.channel_name
    && (option_eqb (λ x y. x == y) a.speed_fixed b.speed_fixed
        && (option_eqb lighting_eqb a.lighting b.lighting
            && (option_eqb lcd_eqb a.lcd b.lcd
                && (option_eqb (λ x y. x == y) a.pwm_mode b.pwm_mode
                    && option_eqb (λ x y. x == y) a.profile_uid b.profile_uid))))

pub data CustomSensorType : Type 0 where
  mix file : CustomSensorType

pub data CustomSensorMixFunctionType : Type 0 where
  min max delta avg weighted_avg : CustomSensorMixFunctionType

pub record CustomTempSourceData : Type 0 where
  pub temp_source : TempSource
  pub weight : ℕ

pub record CustomSensor : Type 0 where
  pub id : String
  pub cs_type : CustomSensorType
  pub mix_function : CustomSensorMixFunctionType
  pub sources : List CustomTempSourceData
  pub file_path : Option String

-- General settings. `startup_delay` is a `Duration` in seconds.
pub record CoolerControlSettings : Type 0 where
  pub apply_on_boot : Bool
  pub no_init : Bool
  pub startup_delay : ℕ
  pub thinkpad_full_speed : Bool
  pub hide_duplicate_devices : Bool
  pub liquidctl_integration : Bool
  pub port : Option ℕ
  pub ipv4_address : Option String
  pub ipv6_address : Option String
  pub compress : Bool

pub record CoolerControlDeviceSettings : Type 0 where
  pub name : String
  pub disable : Bool
