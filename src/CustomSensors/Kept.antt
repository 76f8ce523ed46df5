-- ===== src/CustomSensors/Kept.antt =====
-- Each operation keeps the three copies of the sensors the same.
use coolerocontrol.Base.{
  ◌≡◌, ◌≢◌, refl, sym, ◌∙◌, ap, subst, String, not, some, List, [], ◌∷◌, ◌++◌, map, string_eq, ◌==◌,
  filterb, All, All-append, All-imp, inl, inr, tail, nat_eq,
}
use coolerocontrol.Base.Float.{Float}
use coolerocontrol.Base.Outcome.{Outcome, ok, err, panic, Outcome-cases, Partial-ok}
use coolerocontrol.Base.Set
use coolerocontrol.Base.State.{◌>>=◌}
use coolerocontrol.Config.Sensors.{get_stored_sensors}
use coolerocontrol.Config.Store.{Edit}
use coolerocontrol.Config.Tables.SensorTable.{IsWeighted}
use coolerocontrol.Config.Toml.{Toml, IsToml}
use coolerocontrol.CustomSensors.{process_custom_sensor_data_mix_current}
use coolerocontrol.CustomSensors.File.{process_custom_sensor_data_file_current}
use coolerocontrol.CustomSensors.Edits.{after_edit}
use coolerocontrol.CustomSensors.Filled.{ids, filled_history-Names, history-without_temp}
use coolerocontrol.CustomSensors.Filling.{Surroundings, current_of, verified}
use coolerocontrol.CustomSensors.Keyed.{
  contains-snoc_key, contains-others, HasNoRepeats-others, HasNoRepeats-snoc,
}
use coolerocontrol.CustomSensors.Mirrored.{
  IsMirrored, after_device, after_changed, after_sensors, update_device_info_temps-IsMirrored,
}
use coolerocontrol.CustomSensors.Repo.{
  Repo, with_history, with_sensors, delete_custom_sensor, remove_status_history_for_sensor,
  set_custom_sensor, update_custom_sensor, set_custom_sensors_order, update_statuses, new_status,
  fill_status_history_for_new_sensor, without_temp,
}
use coolerocontrol.Device.{Device, Status, set_status}
use coolerocontrol.Setting.{CustomSensor, CustomSensorType}
use coolerocontrol.CustomSensors.Requests.{
  key_of, deleted_sensors, updated_sensors, ordered_sensors, refused_sensor, added_sensor, known_id,
  IsOrder,
}

All-tail : {A : Type 0} (P : A → Type 0) (xs : List A) → All P xs → All P (tail xs)
All-tail P [] h = tt
All-tail P (x ∷ xs) h = h.1

history-with_history :
    {F : Type 0} (device : Device F) (o : Outcome (List (Status F))) (changed : Device F)
    → with_history device o ≡ ok changed
    → o ≡ ok changed.status_history
history-with_history device (ok history) changed k = cc
history-with_history device (err e) changed k = cc
history-with_history device panic changed k = cc

module _ {F : Type 0} (toml : Toml F) (laws : IsToml toml) where
  -- Another document that holds the same sensors.
  with_config :
      (repo : Repo toml) (doc : toml.Table)
      → get_stored_sensors toml doc ≡ ok repo.sensors
      → IsMirrored toml repo
      → IsMirrored toml (record repo { config = doc })
  with_config repo doc e h = record {
    device = h.device;
    present = h.present;
    stored = e;
    distinct = h.distinct;
    history = h.history;
  }

  pub delete_custom_sensor-IsMirrored :
      (to_title_case : String → String) (id : String) (repo : Repo toml)
      → IsMirrored toml repo
      → IsMirrored toml (delete_custom_sensor toml to_title_case id repo).0
  unfolding delete_custom_sensor remove_status_history_for_sensor
  delete_custom_sensor-IsMirrored to_title_case id repo h =
      after_edit toml laws (IsMirrored toml) (Edit.delete id) repo _ h.stored tt
        (λ doc n e. with_config repo doc e h)
        λ doc sensors edit e.
          let left = deleted_sensors id repo.sensors sensors h.distinct edit in
          let history = map (without_temp id) h.device.status_history in
          let kept = filterb (λ c. not (c.id == id)) repo.sensors in
          let device = record h.device { status_history = history } in
          after_changed toml (IsMirrored toml) _ (record repo { config = doc }) _ h.device device
            h.present refl
            (after_sensors toml (IsMirrored toml) _ _ _ kept refl (
              update_device_info_temps-IsMirrored toml to_title_case
                (record { custom_sensor_device = some device; sensors = kept; config = doc })
                (record {
                  device = device;
                  present = refl;
                  stored = e ∙ ap ok left;
                  distinct = HasNoRepeats-others key_of id repo.sensors h.distinct;
                  history =
                      All-imp _ _ (λ s n k. n k ∙ sym (contains-others key_of id k repo.sensors))
                        history
                        (history-without_temp id (λ k. Set.contains k (ids repo.sensors))
                          h.device.status_history h.history);
                })))

  pub set_custom_sensors_order-IsMirrored :
      (requested : List CustomSensor) (repo : Repo toml)
      → repo.sensors ≢ []
      → IsOrder requested repo.sensors
      → IsMirrored toml repo
      → IsMirrored toml (set_custom_sensors_order toml requested repo).0
  unfolding set_custom_sensors_order with_sensors
  set_custom_sensors_order-IsMirrored requested repo n o h =
      after_edit toml laws (IsMirrored toml) (Edit.order (ids requested)) repo _ h.stored n
        (λ doc n e. with_config repo doc e h)
        λ doc sensors edit e. record {
          device = h.device;
          present = h.present;
          stored = e ∙ ap ok (ordered_sensors requested repo.sensors sensors o edit);
          distinct = o.distinct;
          history =
              All-imp _ _ (λ s names k. names k ∙ sym (o.same_ids k)) h.device.status_history
                h.history;
        }

  module _ ⦃fl : Float F⦄ (around : Surroundings F) where
    name-current_of :
        (ty : CustomSensorType) (sensor : CustomSensor)
        → (current_of around ty sensor).name ≡ sensor.id
    unfolding process_custom_sensor_data_mix_current process_custom_sensor_data_file_current
    name-current_of CustomSensorType.mix sensor = refl
    name-current_of CustomSensorType.file sensor = refl

    pub names-current_of :
        (sensors : List CustomSensor)
        → map (λ t. t.name) (map (λ sensor. current_of around sensor.cs_type sensor) sensors)
          ≡ ids sensors
    names-current_of [] = refl
    names-current_of (sensor ∷ rest) =
        rw (name-current_of sensor.cs_type sensor, names-current_of rest) refl

    pub update_statuses-IsMirrored :
        (repo : Repo toml)
        → IsMirrored toml repo
        → IsMirrored toml (update_statuses toml around repo).0
    unfolding update_statuses set_status
    update_statuses-IsMirrored repo h =
        rw (h.present, update_statuses)
          (record {
            device = set_status h.device (new_status toml around repo.sensors);
            present = refl;
            stored = h.stored;
            distinct = h.distinct;
            history =
                All-append _ (tail h.device.status_history) _
                  (All-tail _ h.device.status_history h.history)
                  ((λ k. ap (Set.contains k) (names-current_of repo.sensors)), tt);
          })

    pub set_custom_sensor-IsMirrored :
        (to_title_case : String → String) (sensor : CustomSensor) (repo : Repo toml)
        → IsWeighted sensor
        → IsMirrored toml repo
        → IsMirrored toml (set_custom_sensor toml around to_title_case sensor repo).0
    unfolding set_custom_sensor fill_status_history_for_new_sensor
    set_custom_sensor-IsMirrored to_title_case sensor repo w h =
        after_device toml (IsMirrored toml) _ repo _ h.device h.present h λ changed k.
          let repo' = record repo { custom_sensor_device = some changed } in
          let filled =
            Partial-ok _ _ changed.status_history (history-with_history h.device _ changed k) (
              filled_history-Names around sensor (λ j. Set.contains j (ids repo.sensors))
                sensor.cs_type h.device.status_history h.history) in
          after_edit toml laws (IsMirrored toml) (Edit.set sensor) repo' _ h.stored w
            (λ doc n e. record {
              device = changed;
              present = refl;
              stored = e;
              distinct = h.distinct;
              history =
                  All-imp _ _
                    (λ s names j.
                      names j
                      ∙ known_id sensor.id j (ids repo.sensors)
                          (refused_sensor sensor repo.sensors n))
                    changed.status_history filled;
            })
            λ doc sensors edit e.
              let (more, new) = added_sensor sensor repo.sensors sensors edit in
              let all = repo.sensors ++ sensor ∷ [] in
              after_sensors toml (IsMirrored toml) _ _ _ all refl (
                update_device_info_temps-IsMirrored toml to_title_case
                  (record { custom_sensor_device = some changed; sensors = all; config = doc })
                  (record {
                    device = changed;
                    present = refl;
                    stored = e ∙ ap ok more;
                    distinct = HasNoRepeats-snoc key_of sensor repo.sensors new h.distinct;
                    history =
                        All-imp _ _
                          (λ s names j.
                            names j ∙ sym (contains-snoc_key key_of j sensor repo.sensors))
                          changed.status_history filled;
                  }))

    pub update_custom_sensor-IsMirrored :
        (sensor : CustomSensor) (repo : Repo toml)
        → IsWeighted sensor
        → IsMirrored toml repo
        → IsMirrored toml (update_custom_sensor toml around sensor repo).0
    unfolding update_custom_sensor with_sensors ◌>>=◌
    update_custom_sensor-IsMirrored sensor repo w h =
        elim (Outcome-cases (verified around sensor.cs_type sensor)) [
          | inl (_, v) ↦ rw v (
              after_edit toml laws (IsMirrored toml) (Edit.update sensor) repo _ h.stored w
                (λ doc n e. with_config repo doc e h)
                λ doc sensors edit e.
                  let (changed, same) = updated_sensors sensor repo.sensors sensors edit in
                  rw (changed, with_sensors)
                    (record {
                      device = h.device;
                      present = h.present;
                      stored = e;
                      distinct = subst Set.HasNoRepeats (sym same) h.distinct;
                      history =
                          All-imp _ _ (λ s names k. names k ∙ ap (Set.contains k) (sym same))
                            h.device.status_history h.history;
                    }))
          | inr (inl (msg, v)) ↦ rw v h
          | inr (inr v) ↦ rw v h
        ]
