-- ===== src/Config/Fields.antt =====
-- config.rs: how the fields of a stored table are read.
use coolerocontrol.Base.{
  ℕ, zero, suc, String, Bool, Option, none, some, List, [], ◌∷◌, if◌then◌else◌, string_eq, ◌==◌,
}
use coolerocontrol.Base.Float.{Float}
use coolerocontrol.Base.Int.{ℤ, pos, negsuc, try_u8, try_u16, clamp}
use coolerocontrol.Base.Outcome.{Outcome, ok, ◌>>=◌, unwrap, with_context}
use coolerocontrol.Config.Toml.{Toml}
use coolerocontrol.Setting.{
  TempSource, ProfileType, ProfileMixFunctionType, FunctionType, CustomSensorType,
  CustomSensorMixFunctionType, LightingSettings, LcdSettings,
}

-- The loops that read each element of an array, with `?` on each.
abbrev pub traverse {ℓ κ} : {A : Type ℓ} {B : Type κ} → (A → Outcome B) → List A → Outcome (List B)
traverse f [] = ok []
traverse f (x ∷ xs) = do y ← f x; ys ← traverse f xs; ok (y ∷ ys)

-- `if let Some(value) = table.get(key) { Some(f(value)?) } else { None }`
abbrev pub optional {ℓ κ} :
    {A : Type ℓ} {B : Type κ} → (A → Outcome B) → Option A → Outcome (Option B)
optional f none = ok none
optional f (some a) = do b ← f a; ok (some b)

abbrev pub nth {ℓ} : {A : Type ℓ} → List A → ℕ → Option A
nth [] n = none
nth (x ∷ xs) zero = some x
nth (x ∷ xs) (suc n) = nth xs n

-- `to_string` and `from_str` of the enums are derived: the names of the variants.
unfoldable pub mix_function_type_str : ProfileMixFunctionType → String
mix_function_type_str ProfileMixFunctionType.min = "Min"
mix_function_type_str ProfileMixFunctionType.max = "Max"
mix_function_type_str ProfileMixFunctionType.avg = "Avg"

unfoldable pub mix_function_type_from_str : String → Option ProfileMixFunctionType
mix_function_type_from_str s =
    if s == "Min"
    then some ProfileMixFunctionType.min
    else (if s == "Max"
        then some ProfileMixFunctionType.max
        else (if s == "Avg" then some ProfileMixFunctionType.avg else none))

unfoldable pub profile_type_str : ProfileType → String
profile_type_str ProfileType.default = "Default"
profile_type_str ProfileType.fixed = "Fixed"
profile_type_str ProfileType.graph = "Graph"
profile_type_str ProfileType.mix = "Mix"

unfoldable pub profile_type_from_str : String → Option ProfileType
profile_type_from_str s =
    if s == "Default"
    then some ProfileType.default
    else (if s == "Fixed"
        then some ProfileType.fixed
        else (if s == "Graph"
            then some ProfileType.graph
            else (if s == "Mix" then some ProfileType.mix else none)))

unfoldable pub function_type_str : FunctionType → String
function_type_str FunctionType.identity = "Identity"
function_type_str FunctionType.standard = "Standard"
function_type_str FunctionType.exponential_moving_avg = "ExponentialMovingAvg"

unfoldable pub function_type_from_str : String → Option FunctionType
function_type_from_str s =
    if s == "Identity"
    then some FunctionType.identity
    else (if s == "Standard"
        then some FunctionType.standard
        else (if s == "ExponentialMovingAvg"
            then some FunctionType.exponential_moving_avg
            else none))

unfoldable pub sensor_type_str : CustomSensorType → String
sensor_type_str CustomSensorType.mix = "Mix"
sensor_type_str CustomSensorType.file = "File"

unfoldable pub sensor_type_from_str : String → Option CustomSensorType
sensor_type_from_str s =
    if s == "Mix"
    then some CustomSensorType.mix
    else (if s == "File" then some CustomSensorType.file else none)

unfoldable pub sensor_function_str : CustomSensorMixFunctionType → String
sensor_function_str CustomSensorMixFunctionType.min = "Min"
sensor_function_str CustomSensorMixFunctionType.max = "Max"
sensor_function_str CustomSensorMixFunctionType.delta = "Delta"
sensor_function_str CustomSensorMixFunctionType.avg = "Avg"
sensor_function_str CustomSensorMixFunctionType.weighted_avg = "WeightedAvg"

unfoldable pub sensor_function_from_str : String → Option CustomSensorMixFunctionType
sensor_function_from_str s =
    if s == "Min"
    then some CustomSensorMixFunctionType.min
    else (if s == "Max"
        then some CustomSensorMixFunctionType.max
        else (if s == "Delta"
            then some CustomSensorMixFunctionType.delta
            else (if s == "Avg"
                then some CustomSensorMixFunctionType.avg
                else (if s == "WeightedAvg"
                    then some CustomSensorMixFunctionType.weighted_avg
                    else none))))

module _ {F : Type 0} (toml : Toml F) where
  abbrev pub str_field : String → String → toml.Item → Outcome String
  str_field key msg item = with_context msg (toml.as_str item)

  -- A key that must be there, and hold a string.
  abbrev pub get_str : toml.Table → String → String → String → Outcome String
  get_str table key missing wrong = do
    item ← with_context missing (toml.get table key)
    with_context wrong (toml.as_str item)

  -- `value.as_integer()?.try_into().ok()?` for `u8`
  abbrev pub as_u8 : String → String → toml.Item → Outcome ℕ
  as_u8 wrong range item = do
    z ← with_context wrong (toml.as_integer item)
    with_context range (try_u8 z)

  abbrev pub as_u16 : String → String → toml.Item → Outcome ℕ
  as_u16 wrong range item = do
    z ← with_context wrong (toml.as_integer item)
    with_context range (try_u16 z)

  abbrev pub as_clamped : ℕ → ℕ → String → String → toml.Item → Outcome ℕ
  as_clamped lo hi wrong range item = do n ← as_u8 wrong range item; ok (clamp lo hi n)

  unfoldable pub get_speed_fixed : toml.Table → Outcome (Option ℕ)
  get_speed_fixed setting_table =
      optional
        (as_clamped 0 100 "speed_fixed should be an integer"
          "speed_fixed must be a value between 0-100")
        (toml.get setting_table "speed_fixed")

  -- `expect` on each element: an array that holds anything else panics.
  unfoldable pub get_profile_uids : toml.Table → Outcome (List String)
  get_profile_uids setting_table = elim (toml.get setting_table "member_profile_uids") [
    | none ↦ ok []
    | some value ↦ do
      uids ← with_context "profile_uids should be an array" (toml.as_array value)
      traverse (λ uid. unwrap (toml.as_str uid)) uids
  ]

  unfoldable pub get_mix_function_type : toml.Table → Outcome (Option ProfileMixFunctionType)
  get_mix_function_type setting_table =
      optional
        (λ value. do
          name ← unwrap (toml.as_str value)
          with_context "mix_function_type must be a valid string" (mix_function_type_from_str name))
        (toml.get setting_table "mix_function_type")

  abbrev pub source_of : toml.Item → Outcome TempSource
  source_of value = do
    table ← with_context "temp_source should be an inline table" (toml.as_inline_table value)
    name ←
        get_str table "temp_name" "temp_source must have temp_name and device_uid set"
          "temp_name should be a String"
    uid ←
        get_str table "device_uid" "temp_source must have frontend_temp_name and device_uid set"
          "device_uid should be a String"
    ok (record { temp_name = name; device_uid = uid })

  unfoldable pub get_temp_source : toml.Table → Outcome (Option TempSource)
  get_temp_source setting_table = optional source_of (toml.get setting_table "temp_source")

  abbrev pub get_color : List toml.Item → ℕ → Outcome ℕ
  get_color rgb_array i = do
    value ← with_context "RGB values must be in arrays of 3" (nth rgb_array i)
    as_u8 "RGB values must be integers" "RGB values must be between 0-255" value

  unfoldable pub get_rgb : toml.Item → Outcome (ℕ × ℕ × ℕ)
  get_rgb rgb_value = do
    rgb_array ← with_context "RGB values should be an array" (toml.as_array rgb_value)
    r ← get_color rgb_array 0
    g ← get_color rgb_array 1
    b ← get_color rgb_array 2
    ok (r, g, b)

  unfoldable pub get_colors : toml.Table → String → String → Outcome (List (ℕ × ℕ × ℕ))
  get_colors table missing wrong = do
    colors ← with_context missing (toml.get table "colors")
    colors_array ← with_context wrong (toml.as_array colors)
    traverse get_rgb colors_array

  abbrev pub get_speed : toml.Table → Outcome (Option String)
  get_speed table =
      optional (λ v. with_context "lighting.speed should be a String" (toml.as_str v))
        (toml.get table "speed")

  abbrev pub read_backward : Option toml.Item → Outcome (Option Bool)
  read_backward item =
      optional (λ v. with_context "lighting.backward should be a boolean" (toml.as_bool v)) item

  abbrev pub lighting_with : Option toml.Item → toml.Item → Outcome LightingSettings
  lighting_with backward_item value = do
    table ← with_context "lighting should be an inline table" (toml.as_inline_table value)
    mode ← get_str table "mode" "lighting.mode should be present" "lighting.mode should be a String"
    speed ← get_speed table
    backward ← read_backward backward_item
    colors ←
        get_colors table "lighting.colors should always be present"
          "lighting.colors should be an array"
    ok (record { mode = mode; speed = speed; backward = backward; colors = colors })

  -- `backward` is looked up in the table around the lighting table.
  abbrev pub lighting_of : toml.Table → toml.Item → Outcome LightingSettings
  lighting_of setting_table = lighting_with (toml.get setting_table "backward")

  unfoldable pub get_lighting : toml.Table → Outcome (Option LightingSettings)
  get_lighting setting_table =
      optional (lighting_of setting_table) (toml.get setting_table "lighting")

  abbrev pub get_brightness : toml.Table → Outcome (Option ℕ)
  get_brightness table =
      optional
        (as_clamped 0 100 "brightness should be an integer"
          "brightness should be a value between 0-100")
        (toml.get table "brightness")

  abbrev pub as_orientation : toml.Item → Outcome ℕ
  as_orientation v = do
    n ← as_u16 "orientation should be an integer" "orientation should be a value between 0-270" v
    ok (clamp 0 270 n)

  abbrev pub get_orientation : toml.Table → Outcome (Option ℕ)
  get_orientation table = optional as_orientation (toml.get table "orientation")

  abbrev pub get_image : toml.Table → Outcome (Option String)
  get_image table =
      optional (λ v. with_context "image_file_processed should be a String" (toml.as_str v))
        (toml.get table "image_file_processed")

  abbrev pub lcd_of : toml.Item → Outcome LcdSettings
  lcd_of value = do
    table ← with_context "lcd should be an inline table" (toml.as_inline_table value)
    mode ← get_str table "mode" "lcd.mode should be present" "lcd.mode should be a String"
    brightness ← get_brightness table
    orientation ← get_orientation table
    image ← get_image table
    colors ← get_colors table "lcd.colors should always be present" "lcd.colors should be an array"
    temp_source ← get_temp_source table
    ok (record {
      mode = mode;
      brightness = brightness;
      orientation = orientation;
      image_file_processed = image;
      colors = colors;
      temp_source = temp_source;
    })

  unfoldable pub get_lcd : toml.Table → Outcome (Option LcdSettings)
  get_lcd setting_table = optional lcd_of (toml.get setting_table "lcd")

  unfoldable pub get_pwm_mode : toml.Table → Outcome (Option ℕ)
  get_pwm_mode setting_table =
      optional
        (as_clamped 0 2 "pwm_mode should be an integer" "pwm_mode should be a value between 0-2")
        (toml.get setting_table "pwm_mode")

  unfoldable pub get_profile_uid : toml.Table → Outcome (Option String)
  get_profile_uid setting_table =
      optional (λ v. with_context "profile_uid should be a String" (toml.as_str v))
        (toml.get setting_table "profile_uid")

-- `temp as f64` for an `i64`. The tests against `f64::MAX as i64` and `f64::MIN as i64` fail for
-- every `i64`, since these casts saturate.
abbrev pub int_as_float : {F : Type 0} ⦃fl : Float F⦄ → ℤ → F
int_as_float ⦃fl⦄ (pos n) = fl.of_nat n
int_as_float ⦃fl⦄ (negsuc n) = fl.sub (fl.of_nat 0) (fl.of_nat (suc n))

module _ {F : Type 0} ⦃fl : Float F⦄ (toml : Toml F) where
  unfoldable pub get_temp : toml.Item → Outcome F
  get_temp temp_value = elim (toml.as_float temp_value) [
    | some temp ↦ ok temp
    | none ↦ do
      n ← with_context "Speed Profile Temps must be integers or floats" (toml.as_integer temp_value)
      ok (int_as_float n)
  ]

  unfoldable pub get_step : toml.Item → Outcome (F × ℕ)
  get_step pair_value = do
    pair ← with_context "profile pairs should be an array" (toml.as_array pair_value)
    temp_value ← with_context "Speed Profiles must be pairs" (nth pair 0)
    temp ← get_temp temp_value
    duty_value ← with_context "Speed Profiles must be pairs" (nth pair 1)
    duty ←
        as_clamped toml 0 100 "Speed Profile Duties must be integers"
          "speed profiles must be values between 0-100" duty_value
    ok (temp, duty)

  unfoldable pub get_speed_profile : toml.Table → Outcome (Option (List (F × ℕ)))
  get_speed_profile setting_table =
      optional
        (λ value. do
          speeds ← with_context "profile should be an array" (toml.as_array value)
          traverse get_step speeds)
        (toml.get setting_table "speed_profile")
