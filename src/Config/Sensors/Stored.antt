-- ===== src/Config/Sensors/Stored.antt =====
-- The custom sensors of the configuration file as a list.
use coolerocontrol.Base.{List, [], ◌≡◌, refl}
use coolerocontrol.Base.Outcome.{ok}
use coolerocontrol.Config.Entries.Refines.{
  Refines, set_entry-Refines, update_entry-Refines, delete_entry-Refines, set_order-Refines,
}
use coolerocontrol.Config.Entries.Scan.{Named}
use coolerocontrol.Config.Sensors.{
  custom_sensors, get_stored_sensors, set_custom_sensor, update_custom_sensor, delete_custom_sensor,
  set_custom_sensor_order, run_sensor,
}
use coolerocontrol.Config.Store.{Edit, IsAllowed, edited}
use coolerocontrol.Config.Tables.SensorTable.{
  IsWeighted, written, get_custom_sensor-written, add_custom_sensor_properties_lem,
  get_custom_sensor-Origin,
}
use coolerocontrol.Config.Tables.{
  get_custom_sensor, get_tables, add_custom_sensor_properties_to_custom_sensor_table,
  create_custom_sensor_table_from,
}
use coolerocontrol.Config.Toml.{Toml, IsToml}
use coolerocontrol.Setting.{CustomSensor}

module _ {F : Type 0} (toml : Toml F) (laws : IsToml toml) where
  sensor-Named :
      (t : toml.Table) (c : CustomSensor)
      → get_custom_sensor toml t ≡ ok c
      → Named toml custom_sensors t c.id
  sensor-Named t c e = (get_custom_sensor-Origin toml laws t c e).0

  created :
      (c : CustomSensor)
      → create_custom_sensor_table_from toml c ≡ ok (written toml laws c toml.new)
  unfolding create_custom_sensor_table_from
  created c =
      add_custom_sensor_properties_lem toml laws c toml.new
        ([], rw (laws.get-new "sources", get_tables) refl)

  rewritten :
      (c : CustomSensor)
      → IsWeighted c
      → (t : toml.Table) (old : CustomSensor) → get_custom_sensor toml t ≡ ok old
      → (t' : toml.Table) × (add_custom_sensor_properties_to_custom_sensor_table toml c t ≡ ok t')
        × (get_custom_sensor toml t' ≡ ok c)
  rewritten c v t old e =
      let (_, place) = get_custom_sensor-Origin toml laws t old e in
      (
        written toml laws c t,
        add_custom_sensor_properties_lem toml laws c t place,
        get_custom_sensor-written toml laws c t v,
      )

  -- The methods on the custom sensors of the configuration file do to the sensors that it holds what
  -- the edits do to a list, with the same results: a sensor is added if its ID is new, the first with
  -- its ID is replaced or removed, and an order of the same length lists the stored sensor of each ID;
  -- else there is an error and the sensors stay. The weights of a sensor that is set or updated lie
  -- in 1 to 254, and there is something to order.
  pub run_sensor-Refines :
      (edit : Edit CustomSensor) (doc : toml.Table) (cs : List CustomSensor)
      → get_stored_sensors toml doc ≡ ok cs
      → IsAllowed custom_sensors (λ c. c.id) IsWeighted edit cs
      → Refines toml custom_sensors
          (get_custom_sensor toml)
          (run_sensor toml edit doc)
          (edited custom_sensors (λ c. c.id) edit cs)
  unfolding get_stored_sensors set_custom_sensor update_custom_sensor delete_custom_sensor
      set_custom_sensor_order
  run_sensor-Refines (Edit.set c) doc cs h v =
      set_entry-Refines toml laws custom_sensors (get_custom_sensor toml) (λ c. c.id) sensor-Named
        doc cs c _ _ h (created c) (get_custom_sensor-written toml laws c toml.new v)
  run_sensor-Refines (Edit.update c) doc cs h v =
      update_entry-Refines toml laws custom_sensors (get_custom_sensor toml) (λ c. c.id)
        sensor-Named doc cs c _ h (rewritten c v)
  run_sensor-Refines (Edit.delete id) doc cs h v =
      delete_entry-Refines toml laws custom_sensors (get_custom_sensor toml) (λ c. c.id)
        sensor-Named doc cs id h
  run_sensor-Refines (Edit.order ids) doc cs h v =
      set_order-Refines toml laws custom_sensors (get_custom_sensor toml) (λ c. c.id) sensor-Named
        doc cs ids h v
