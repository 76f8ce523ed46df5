-- ===== src/Config/Tables.antt =====
-- config.rs: profiles, functions and custom sensors, as they are read from their tables and written
-- into them.
pub mod FunctionTable
pub mod Written
pub mod SensorTable
pub mod ProfileTable
pub mod ProfileOrigin
pub mod Source
pub mod FunctionValid
use coolerocontrol.Base.{
  ℕ, ◌-◌, String, Bool, ◌&&◌, Option, none, some, List, [], ◌∷◌, map, if◌then◌else◌, leb, string_eq,
}
use coolerocontrol.Base.Float.{Float}
use coolerocontrol.Base.Int.{pos}
use coolerocontrol.Base.Outcome.{Outcome, ok, panic, ◌>>=◌, unwrap, with_context}
use coolerocontrol.Config.Fields.{
  traverse, optional, get_str, as_u8, as_clamped, get_speed_fixed, get_profile_uids,
  mix_function_type_str, profile_type_str, profile_type_from_str, function_type_str,
  function_type_from_str, sensor_type_str, sensor_type_from_str, sensor_function_str,
  sensor_function_from_str, get_mix_function_type, get_temp_source, get_speed_profile,
}
use coolerocontrol.Config.Toml.{Toml}
use coolerocontrol.Processing.Sensor.{tma_default_window_size}
use coolerocontrol.Setting.{
  TempSource, Profile, ProfileType, Function, FunctionType, default_function_uid, CustomSensor,
  CustomSensorType, CustomSensorMixFunctionType, CustomTempSourceData,
}

-- A window outside 1 to 16 is replaced by the default.
unfoldable pub validated_window : ℕ → ℕ
validated_window n = if leb 1 n && leb n 16 then n else tma_default_window_size

-- `if let Some(value) = table.get(key) { f(value)? } else { default }`
abbrev pub or_default {ℓ κ} : {A : Type ℓ} {B : Type κ} → B → (A → Outcome B) → Option A → Outcome B
or_default default f none = ok default
or_default default f (some a) = f a

module _ {F : Type 0} (toml : Toml F) where
  -- `if let Some(value) = … { table[key] = value } else { table[key] = Item::None }`
  abbrev pub item_or_none {ℓ} : {A : Type ℓ} → (A → toml.Item) → Option A → toml.Item
  item_or_none f none = toml.none_item
  item_or_none f (some a) = f a

  -- The place `table[key]`.
  abbrev pub place : toml.Table → String → toml.Item
  place table key = elim (toml.get table key) [ some item ↦ item | none ↦ toml.none_item ]

  -- `item[key] = value`, which panics where `item` is no place for a key.
  abbrev pub assign : toml.Item → String → toml.Item → Outcome toml.Item
  assign item key value = if toml.is_indexable item then ok (toml.set item key value) else panic

  -- `table[outer][key] = value`
  abbrev pub insert_in : toml.Table → String → String → toml.Item → Outcome toml.Table
  insert_in table outer key value = do
    item ← assign (place table outer) key value
    ok (toml.insert table outer item)

  unfoldable pub set_temp_source : toml.Table → TempSource → Outcome toml.Table
  set_temp_source table source = do
    named ← insert_in table "temp_source" "temp_name" (toml.string source.temp_name)
    insert_in named "temp_source" "device_uid" (toml.string source.device_uid)

  -- FUNCTIONS
  unfoldable pub get_duty_minimum : toml.Table → Outcome ℕ
  get_duty_minimum table =
      or_default 2
        (as_clamped toml 2 99 "duty_minimum should be an integer"
          "duty_minimum should be an integer between 1 and 99")
        (toml.get table "duty_minimum")

  unfoldable pub get_duty_maximum : toml.Table → Outcome ℕ
  get_duty_maximum table =
      or_default 100
        (as_clamped toml 2 100 "duty_maximum should be an integer"
          "duty_maximum should be an integer between 2 and 100")
        (toml.get table "duty_maximum")

  unfoldable pub get_response_delay : toml.Table → Outcome (Option ℕ)
  get_response_delay table =
      optional
        (as_u8 toml "response_delay should be an integer"
          "response_delay must be a value between 0-255")
        (toml.get table "response_delay")

  unfoldable pub get_deviance : toml.Table → Outcome (Option F)
  get_deviance table =
      optional (λ v. with_context "deviance should be a valid float64 value" (toml.as_float v))
        (toml.get table "deviance")

  unfoldable pub get_only_downward : toml.Table → Outcome (Option Bool)
  get_only_downward table =
      optional (λ v. with_context "only_downward should be a boolean value" (toml.as_bool v))
        (toml.get table "only_downward")

  abbrev pub as_window : toml.Item → Outcome ℕ
  as_window v = do
    n ←
        as_u8 toml "sample_window should be an integer"
          "sample_window should be a value between 1-16" v
    ok (validated_window n)

  unfoldable pub get_sample_window : toml.Table → Outcome (Option ℕ)
  get_sample_window table = optional as_window (toml.get table "sample_window")

  unfoldable pub get_f_type : toml.Table → Outcome FunctionType
  get_f_type table = do
    name ←
        get_str toml table "f_type" "Function type should be present"
          "Function type should be a string"
    with_context "Function type should be a valid member" (function_type_from_str name)

  unfoldable pub get_function : toml.Table → Outcome (Function F)
  get_function table = do
    uid ← get_str toml table "uid" "Function UID should be present" "UID should be a string"
    name ← get_str toml table "name" "Function Name should be present" "Name should be a string"
    f_type ← get_f_type table
    duty_minimum ← get_duty_minimum table
    duty_maximum ← get_duty_maximum table
    response_delay ← get_response_delay table
    deviance ← get_deviance table
    only_downward ← get_only_downward table
    sample_window ← get_sample_window table
    ok (record {
      uid = uid;
      name = name;
      f_type = f_type;
      duty_minimum = (if leb duty_maximum duty_minimum then duty_maximum - 1 else duty_minimum);
      duty_maximum = duty_maximum;
      response_delay = response_delay;
      deviance = deviance;
      only_downward = only_downward;
      sample_window = sample_window;
    })

  unfoldable pub add_function_properties_to_function_table : Function F → toml.Table → toml.Table
  add_function_properties_to_function_table f t0 =
      let t1 = toml.insert t0 "uid" (toml.string f.uid) in
      let t2 = toml.insert t1 "name" (toml.string f.name) in
      let t3 = toml.insert t2 "f_type" (toml.string (function_type_str f.f_type)) in
      let t4 = toml.insert t3 "duty_minimum" (toml.integer (pos f.duty_minimum)) in
      let t5 = toml.insert t4 "duty_maximum" (toml.integer (pos f.duty_maximum)) in
      let t6 =
        toml.insert t5 "response_delay"
          (item_or_none (λ n. toml.integer (pos n)) f.response_delay) in
      let t7 = toml.insert t6 "deviance" (item_or_none toml.float f.deviance) in
      let t8 = toml.insert t7 "only_downward" (item_or_none toml.boolean f.only_downward) in
      toml.insert t8 "sample_window"
        (item_or_none (λ n. toml.integer (pos (validated_window n))) f.sample_window)

  unfoldable pub create_function_table_from : Function F → toml.Table
  create_function_table_from f = add_function_properties_to_function_table f toml.new

  -- CUSTOM SENSORS
  unfoldable pub get_source : toml.Table → Outcome CustomTempSourceData
  get_source table = do
    found ← get_temp_source toml table
    temp_source ← with_context "TempSource should always be present for Custom Sensor Sources" found
    item ← with_context "weight should be present" (toml.get table "weight")
    weight ←
        as_clamped toml 1 254 "weight should be an integer" "weight must be a value between 1-254"
          item
    ok (record { temp_source = temp_source; weight = weight })

  unfoldable pub get_sources : toml.Table → Outcome (List CustomTempSourceData)
  get_sources table =
      or_default []
        (λ item. do
          tables ←
              with_context "custom_sensors.sources should be an array"
                (toml.as_array_of_tables item)
          traverse get_source tables)
        (toml.get table "sources")

  unfoldable pub get_cs_type : toml.Table → Outcome CustomSensorType
  get_cs_type table = do
    name ←
        get_str toml table "cs_type" "Sensor type should be present"
          "Sensor type should be a string"
    with_context "Sensor type should be a valid member" (sensor_type_from_str name)

  unfoldable pub get_mix_function : toml.Table → Outcome CustomSensorMixFunctionType
  get_mix_function table = do
    name ←
        get_str toml table "mix_function" "mix_func_type should be present"
          "mix_func_type should be a string"
    with_context "mix_func_type should be a valid member" (sensor_function_from_str name)

  unfoldable pub get_file_path : toml.Table → Outcome (Option String)
  get_file_path table =
      optional (λ v. with_context "file_path should be a string" (toml.as_str v))
        (toml.get table "file_path")

  unfoldable pub get_custom_sensor : toml.Table → Outcome CustomSensor
  get_custom_sensor table = do
    id ← get_str toml table "id" "Sensor ID should be present" "ID should be a string"
    cs_type ← get_cs_type table
    mix_function ← get_mix_function table
    sources ← get_sources table
    file_path ← get_file_path table
    ok (record {
      id = id;
      cs_type = cs_type;
      mix_function = mix_function;
      sources = sources;
      file_path = file_path;
    })

  -- `cs_table["sources"].or_insert(Item::ArrayOfTables(…)).as_array_of_tables_mut()`
  abbrev pub get_tables : toml.Table → Option (List toml.Table)
  get_tables table = elim (toml.get table "sources") [
    | none ↦ some []
    | some item ↦ toml.as_array_of_tables item
  ]

  unfoldable pub create_source_table : CustomTempSourceData → Outcome toml.Table
  create_source_table source = do
    table ← set_temp_source toml.new source.temp_source
    ok (toml.insert table "weight" (toml.integer (pos source.weight)))

  unfoldable pub add_custom_sensor_properties_to_custom_sensor_table :
      CustomSensor → toml.Table → Outcome toml.Table
  add_custom_sensor_properties_to_custom_sensor_table c t0 = do
    let t1 = toml.insert t0 "id" (toml.string c.id)
    let t2 = toml.insert t1 "cs_type" (toml.string (sensor_type_str c.cs_type))
    let t3 = toml.insert t2 "mix_function" (toml.string (sensor_function_str c.mix_function))
    old ← unwrap (get_tables t3)
    tables ← traverse create_source_table c.sources
    let t4 = toml.insert t3 "sources" (toml.array_of_tables tables)
    ok (toml.insert t4 "file_path" (item_or_none toml.string c.file_path))

  unfoldable pub create_custom_sensor_table_from : CustomSensor → Outcome toml.Table
  create_custom_sensor_table_from c = add_custom_sensor_properties_to_custom_sensor_table c toml.new

module _ {F : Type 0} ⦃fl : Float F⦄ (toml : Toml F) where
  -- PROFILES
  unfoldable pub get_p_type : toml.Table → Outcome ProfileType
  get_p_type table = do
    name ←
        get_str toml table "p_type" "Profile type should be present"
          "Profile type should be a string"
    with_context "Profile type should be a valid member" (profile_type_from_str name)

  unfoldable pub get_function_uid : toml.Table → Outcome String
  get_function_uid table =
      or_default default_function_uid
        (λ v. with_context "function UID in Profile should be a string" (toml.as_str v))
        (toml.get table "function_uid")

  unfoldable pub get_profile : toml.Table → Outcome (Profile F)
  get_profile table = do
    uid ← get_str toml table "uid" "Profile UID should be present" "UID should be a string"
    name ← get_str toml table "name" "Profile Name should be present" "Name should be a string"
    p_type ← get_p_type table
    speed_fixed ← get_speed_fixed toml table
    speed_profile ← get_speed_profile toml table
    temp_source ← get_temp_source toml table
    function_uid ← get_function_uid table
    member_profile_uids ← get_profile_uids toml table
    mix_function_type ← get_mix_function_type toml table
    ok (record {
      uid = uid;
      p_type = p_type;
      name = name;
      speed_fixed = speed_fixed;
      speed_profile = speed_profile;
      temp_source = temp_source;
      function_uid = function_uid;
      member_profile_uids = member_profile_uids;
      mix_function_type = mix_function_type;
    })

  abbrev pub step_item : F × ℕ → toml.Item
  step_item step = toml.array (toml.float step.0 ∷ toml.integer (pos step.1) ∷ [])

  abbrev pub set_profile_source : toml.Table → Option TempSource → Outcome toml.Table
  set_profile_source table none = ok (toml.insert table "temp_source" toml.none_item)
  set_profile_source table (some source) = set_temp_source toml table source

  abbrev pub member_item : List String → toml.Item
  member_item [] = toml.none_item
  member_item (uid ∷ uids) = toml.array (map toml.string (uid ∷ uids))

  unfoldable pub add_profile_properties_to_profile_table :
      Profile F → toml.Table → Outcome toml.Table
  add_profile_properties_to_profile_table p t0 = do
    let t1 = toml.insert t0 "uid" (toml.string p.uid)
    let t2 = toml.insert t1 "name" (toml.string p.name)
    let t3 = toml.insert t2 "p_type" (toml.string (profile_type_str p.p_type))
    let t4 =
        toml.insert t3 "speed_fixed" (item_or_none toml (λ n. toml.integer (pos n)) p.speed_fixed)
    let t5 =
        toml.insert t4 "speed_profile"
          (item_or_none toml (λ steps. toml.array (map step_item steps)) p.speed_profile)
    t6 ← set_profile_source t5 p.temp_source
    let t7 = toml.insert t6 "function_uid" (toml.string p.function_uid)
    let t8 = toml.insert t7 "member_profile_uids" (member_item p.member_profile_uids)
    ok (
        toml.insert t8 "mix_function_type"
          (item_or_none toml (λ m. toml.string (mix_function_type_str m)) p.mix_function_type))

  unfoldable pub create_profile_table_from : Profile F → Outcome toml.Table
  create_profile_table_from p = add_profile_properties_to_profile_table p toml.new
