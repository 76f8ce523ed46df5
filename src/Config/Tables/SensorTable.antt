-- ===== src/Config/Tables/SensorTable.antt =====
-- The table that a custom sensor is written into, and what is read back from it.
use coolerocontrol.Base.{
  ◌≤◌, some, List, [], ◌∷◌, map, All, string_eq, ◌≡◌, inl, inr, refl, ap, ◌∙◌, arith, Option-cases,
}
use coolerocontrol.Base.Int.{pos, clamp_self}
use coolerocontrol.Base.Outcome.{
  ok, with_context, Partial, Partial-bind, Partial-bind_any, Partial_self, Partial-ok, Safe-Partial,
  bind-ok, with_context-ok,
}
use coolerocontrol.Config.Fields.{
  optional, traverse, get_str, sensor_type_str, sensor_type_from_str, sensor_function_str,
  sensor_function_from_str,
}
use coolerocontrol.Config.Tables.FunctionValid.{HasStr, Safe-get_str}
use coolerocontrol.Config.Tables.Source.{with_source, set_temp_source_lem, get_temp_source_entries}
use coolerocontrol.Config.Tables.Written.{
  AllSome-all, option_map_id, get_str_written, present, optional_written, as_clamped_written,
}
use coolerocontrol.Config.Tables.{
  item_or_none, or_default, get_source, get_sources, get_cs_type, get_mix_function, get_file_path,
  get_custom_sensor, get_tables, create_source_table,
  add_custom_sensor_properties_to_custom_sensor_table,
}
use coolerocontrol.Config.Toml.{Toml, IsToml}
use coolerocontrol.Setting.{
  CustomSensor, CustomSensorType, CustomSensorMixFunctionType, CustomTempSourceData,
}

sensor_type-roundtrip : (t : CustomSensorType) → sensor_type_from_str (sensor_type_str t) ≡ some t
unfolding sensor_type_str sensor_type_from_str
sensor_type-roundtrip CustomSensorType.mix = refl
sensor_type-roundtrip CustomSensorType.file = refl

sensor_function-roundtrip :
    (t : CustomSensorMixFunctionType) → sensor_function_from_str (sensor_function_str t) ≡ some t
unfolding sensor_function_str sensor_function_from_str
sensor_function-roundtrip CustomSensorMixFunctionType.min = refl
sensor_function-roundtrip CustomSensorMixFunctionType.max = refl
sensor_function-roundtrip CustomSensorMixFunctionType.delta = refl
sensor_function-roundtrip CustomSensorMixFunctionType.avg = refl
sensor_function-roundtrip CustomSensorMixFunctionType.weighted_avg = refl

-- The weights lie in 1 to 254.
abbrev pub IsWeighted : CustomSensor → Type 0
IsWeighted c = All (λ source. (1 ≤ source.weight) × (source.weight ≤ 254)) c.sources

module _ {F : Type 0} (toml : Toml F) (laws : IsToml toml) where
  source_table : CustomTempSourceData → toml.Table
  source_table d =
      toml.insert (with_source toml toml.new toml.new d.temp_source) "weight"
        (toml.integer (pos d.weight))

  create_source_table_lem :
      (d : CustomTempSourceData) → create_source_table toml d ≡ ok (source_table d)
  unfolding create_source_table source_table
  create_source_table_lem d =
      rw
        (set_temp_source_lem toml laws toml.new toml.new d.temp_source
          (inl (laws.get-new "temp_source", refl)))
        refl

  get_source-table :
      (d : CustomTempSourceData)
      → (1 ≤ d.weight) × (d.weight ≤ 254)
      → get_source toml (source_table d) ≡ ok d
  unfolding get_source source_table
  get_source-table d h =
      let source =
        get_temp_source_entries toml laws (source_table d) toml.new d.temp_source
          (simp (laws.get-insert, laws.is_none-inline_table)) in
      let weight : toml.get (source_table d) "weight" ≡ some (toml.integer (pos d.weight)) =
        simp (laws.get-insert, laws.is_none-integer) in
      rw
        (
          source,
          weight,
          as_clamped_written toml laws 1 254 "weight should be an integer"
              "weight must be a value between 1-254" d.weight (omega arith),
          clamp_self 1 254 d.weight h.0 h.1,
        )
        refl

  create_sources :
      (ds : List CustomTempSourceData)
      → traverse (create_source_table toml) ds ≡ ok (map source_table ds)
  create_sources [] = refl
  create_sources (d ∷ ds) = rw (create_source_table_lem d, create_sources ds) refl

  read_sources :
      (ds : List CustomTempSourceData)
      → All (λ source. (1 ≤ source.weight) × (source.weight ≤ 254)) ds
      → traverse (get_source toml) (map source_table ds) ≡ ok ds
  read_sources [] h = refl
  read_sources (d ∷ ds) h = rw (get_source-table d h.0, read_sources ds h.1) refl

  module _ (c : CustomSensor) (t : toml.Table) where
    head_of : toml.Table
    head_of =
        let t1 = toml.insert t "id" (toml.string c.id) in
        let t2 = toml.insert t1 "cs_type" (toml.string (sensor_type_str c.cs_type)) in
        toml.insert t2 "mix_function" (toml.string (sensor_function_str c.mix_function))

    pub written : toml.Table
    written =
        toml.insert
          (toml.insert head_of "sources" (toml.array_of_tables (map source_table c.sources)))
          "file_path" (item_or_none toml toml.string c.file_path)

    get_id : toml.get written "id" ≡ some (toml.string c.id)
    unfolding written head_of
    get_id = simp (laws.get-insert, laws.is_none-string)

    cs_type_written : get_cs_type toml written ≡ ok c.cs_type
    unfolding get_cs_type written head_of
    cs_type_written =
        rw
          (
            get_str_written toml laws written "cs_type" _ _ (sensor_type_str c.cs_type)
                (simp (laws.get-insert, laws.is_none-string)),
            sensor_type-roundtrip c.cs_type,
          )
          refl

    mix_function_written : get_mix_function toml written ≡ ok c.mix_function
    unfolding get_mix_function written head_of
    mix_function_written =
        rw
          (
            get_str_written toml laws written "mix_function" _ _
                (sensor_function_str c.mix_function) (simp (laws.get-insert, laws.is_none-string)),
            sensor_function-roundtrip c.mix_function,
          )
          refl

    sources_written : IsWeighted c → get_sources toml written ≡ ok c.sources
    unfolding get_sources written
    sources_written h =
        let there : toml.get written "sources"
            ≡ some (toml.array_of_tables (map source_table c.sources)) =
          simp (laws.get-insert, laws.is_none-array_of_tables) in
        rw (there, or_default)
          (rw laws.as_array_of_tables-array_of_tables (read_sources c.sources h))

    file_path_written : get_file_path toml written ≡ ok c.file_path
    unfolding get_file_path written
    file_path_written =
        let there : toml.get written "file_path"
            ≡ present toml (item_or_none toml toml.string c.file_path) =
          simp (laws.get-insert) in
        ap (optional _) there
        ∙ optional_written toml laws toml.string _ (λ s. s) c.file_path laws.is_none-string
            (AllSome-all _ c.file_path (λ s. ap (with_context _) (laws.as_str-string s)))
        ∙ ap ok (option_map_id c.file_path)

    pub get_custom_sensor-written : IsWeighted c → get_custom_sensor toml written ≡ ok c
    unfolding get_custom_sensor
    get_custom_sensor-written h =
        rw
          (
            get_str_written toml laws written "id" _ _ c.id get_id,
            cs_type_written,
            mix_function_written,
            sources_written h,
            file_path_written,
          )
          refl

    -- Nothing stands under `sources`, or an array of tables does.
    abbrev pub IsSourcesPlace : Type 0
    IsSourcesPlace = (ts : List toml.Table) × (get_tables toml t ≡ some ts)

    pub add_custom_sensor_properties_lem :
        IsSourcesPlace → add_custom_sensor_properties_to_custom_sensor_table toml c t ≡ ok written
    unfolding add_custom_sensor_properties_to_custom_sensor_table written head_of
    add_custom_sensor_properties_lem (ts, e) =
        let same : toml.get head_of "sources" ≡ toml.get t "sources" = simp (laws.get-insert) in
        let there : get_tables toml head_of ≡ some ts = rw (same, get_tables) e in
        rw (there, create_sources c.sources) refl

  -- What a sensor that was read says of its table.
  abbrev pub Origin : toml.Table → CustomSensor → Type 0
  Origin t c = HasStr toml t "id" c.id × ((ts : List toml.Table) × (get_tables toml t ≡ some ts))

  sources_place :
      (t : toml.Table) (ds : List CustomTempSourceData)
      → get_sources toml t ≡ ok ds
      → (ts : List toml.Table) × (get_tables toml t ≡ some ts)
  unfolding get_sources
  sources_place t ds h = elim (Option-cases (toml.get t "sources")) [
    | inl absent ↦ ([], rw (absent, get_tables) refl)
    | inr (item, found) ↦
        let (ts, e, _) =
          bind-ok
            (with_context "custom_sensors.sources should be an array"
              (toml.as_array_of_tables item))
            _ ds (rw (found, or_default) at h) in
        (ts, rw (found, get_tables) (with_context-ok _ _ ts e))
  ]

  get_custom_sensor-Partial : (t : toml.Table) → Partial (get_custom_sensor toml t) (Origin t)
  unfolding get_custom_sensor
  get_custom_sensor-Partial t =
      Partial-bind P (HasStr toml t "id") _
        (get_str toml t "id" "Sensor ID should be present" "ID should be a string")
        (Safe-Partial _ (get_str toml t "id" _ _) (Safe-get_str toml t "id" _ _))
        λ id named. Partial-bind_any P _ (get_cs_type toml t) λ cs_type.
          Partial-bind_any P _ (get_mix_function toml t) λ mix.
            Partial-bind P (λ ds. get_sources toml t ≡ ok ds) _ (get_sources toml t)
              (Partial_self (get_sources toml t))
              λ ds found.
                Partial-bind_any P _ (get_file_path toml t)
                  λ path. (named, sources_place t ds found)
    where
      P : CustomSensor → Type 0
      P = Origin t

  pub get_custom_sensor-Origin :
      (t : toml.Table) (c : CustomSensor) → get_custom_sensor toml t ≡ ok c → Origin t c
  get_custom_sensor-Origin t c e =
      Partial-ok (Origin t) (get_custom_sensor toml t) c e (get_custom_sensor-Partial t)
