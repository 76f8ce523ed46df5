-- ===== src/CustomSensors/Mirrored.antt =====
-- The sensors in memory, in the configuration and in the history of the device are the same.
use coolerocontrol.Base.{◌≡◌, refl, String, some, List, [], string_eq, All, inl, inr}
use coolerocontrol.Base.Outcome.{Outcome, ok, Outcome-cases}
use coolerocontrol.Base.Set
use coolerocontrol.Base.State.{Action, ◌>>=◌, ◌>>◌}
use coolerocontrol.Config.Sensors.{get_stored_sensors}
use coolerocontrol.Config.Toml.{Toml}
use coolerocontrol.CustomSensors.Filled.{ids, Names}
use coolerocontrol.CustomSensors.Repo.{
  Repo, with_device, with_sensors, update_device_info_temps, temp_infos_from,
}
use coolerocontrol.Device.{Device}
use coolerocontrol.Setting.{CustomSensor}

module _ {F : Type 0} (toml : Toml F) where
  -- The configuration holds the sensors of the repository; no ID stands twice; and each status of
  -- the history has temperatures of just these sensors.
  pub record IsMirrored (repo : Repo toml) : Type 0 where
    pub device : Device F
    pub present : repo.custom_sensor_device ≡ some device
    pub stored : get_stored_sensors toml repo.config ≡ ok repo.sensors
    pub distinct : Set.HasNoRepeats (ids repo.sensors)
    pub history : All (Names (λ k. Set.contains k (ids repo.sensors))) device.status_history

  -- A change of the device, and the rest of the operation.
  pub after_device :
      (P : Repo toml → Type 0) (f : Device F → Outcome (Device F)) (repo : Repo toml)
      (rest : Action (Repo toml) (Unit {0})) (device : Device F)
      → repo.custom_sensor_device ≡ some device
      → P repo
      → ((changed : Device F)
          → f device ≡ ok changed
          → P (rest (record repo { custom_sensor_device = some changed })).0)
      → P ((with_device toml f >> rest) repo).0
  unfolding ◌>>=◌ with_device
  after_device P f repo rest device e refused accepted = elim (Outcome-cases (f device)) [
    | inl (changed, k) ↦ rw (e, k, with_device) (accepted changed k)
    | inr (inl (msg, k)) ↦ rw (e, k, with_device) refused
    | inr (inr k) ↦ rw (e, k, with_device) refused
  ]

  -- A change that succeeds.
  pub after_changed :
      (P : Repo toml → Type 0) (f : Device F → Outcome (Device F)) (repo : Repo toml)
      (rest : Action (Repo toml) (Unit {0})) (device changed : Device F)
      → repo.custom_sensor_device ≡ some device
      → f device ≡ ok changed
      → P (rest (record repo { custom_sensor_device = some changed })).0
      → P ((with_device toml f >> rest) repo).0
  unfolding ◌>>=◌ with_device
  after_changed P f repo rest device changed e k h = rw (e, k, with_device) h

  pub after_sensors :
      (P : Repo toml → Type 0) (f : List CustomSensor → Outcome (List CustomSensor))
      (repo : Repo toml) (rest : Action (Repo toml) (Unit {0})) (changed : List CustomSensor)
      → f repo.sensors ≡ ok changed
      → P (rest (record repo { sensors = changed })).0
      → P ((with_sensors toml f >> rest) repo).0
  unfolding ◌>>=◌ with_sensors
  after_sensors P f repo rest changed k h = rw (k, with_sensors) h

  pub update_device_info_temps-IsMirrored :
      (to_title_case : String → String) (repo : Repo toml)
      → IsMirrored repo
      → IsMirrored (update_device_info_temps toml to_title_case repo).0
  unfolding update_device_info_temps with_device
  update_device_info_temps-IsMirrored to_title_case repo h =
      rw (h.present, with_device)
        (record {
          device = record h.device {
            info = record h.device.info { temps = temp_infos_from to_title_case 0 repo.sensors [] };
          };
          present = refl;
          stored = h.stored;
          distinct = h.distinct;
          history = h.history;
        })
