-- ===== src/CustomSensors/Run.antt =====
-- The repository over any sequence of operations.
use coolerocontrol.Base.{◌≡◌, ◌≢◌, String, Option, List, []}
use coolerocontrol.Base.Float.{Float}
use coolerocontrol.Base.Outcome.{ok}
use coolerocontrol.Base.Set
use coolerocontrol.Config.Sensors.{get_custom_sensors}
use coolerocontrol.Config.Tables.SensorTable.{IsWeighted}
use coolerocontrol.Config.Toml.{Toml}
use coolerocontrol.CustomSensors.Filling.{Surroundings}
use coolerocontrol.CustomSensors.Repo.{
  Repo, set_custom_sensor, update_custom_sensor, delete_custom_sensor, set_custom_sensors_order,
  update_statuses,
}
use coolerocontrol.CustomSensors.Requests.{IsOrder}
use coolerocontrol.CustomSensors.Start.{initialize_devices, new}
use coolerocontrol.Device.{Device}
use coolerocontrol.Setting.{CustomSensor}

module _ {F : Type 0} ⦃fl : Float F⦄ (toml : Toml F) where
  -- One operation, with whatever result, and whatever the other devices, the files and the clock say.
  -- A sensor has weights that can be stored, and a request for an order lists the stored sensors.
  pub data Step : Repo toml → Repo toml → Type 0 where
    created :
        {repo : Repo toml} (around : Surroundings F) (to_title_case : String → String)
        (sensor : CustomSensor)
        → IsWeighted sensor
        → Step repo (set_custom_sensor toml around to_title_case sensor repo).0
    updated :
        {repo : Repo toml} (around : Surroundings F) (sensor : CustomSensor)
        → IsWeighted sensor
        → Step repo (update_custom_sensor toml around sensor repo).0
    deleted :
        {repo : Repo toml} (to_title_case : String → String) (id : String)
        → Step repo (delete_custom_sensor toml to_title_case id repo).0
    ordered :
        {repo : Repo toml} (requested : List CustomSensor)
        → repo.sensors ≢ []
        → IsOrder requested repo.sensors
        → Step repo (set_custom_sensors_order toml requested repo).0
    polled :
        {repo : Repo toml} (around : Surroundings F)
        → Step repo (update_statuses toml around repo).0

  -- The sensors of the configuration can be read when the daemon starts.
  pub data Reachable : Repo toml → Type 0 where
    started :
        (around : Surroundings F) (to_title_case : String → String) (uid : String)
        (version : Option String) (doc : toml.Table) (sensors : List CustomSensor)
        → get_custom_sensors toml doc ≡ ok sensors
        → Reachable (initialize_devices toml around to_title_case uid version (new doc)).0
    stepped : {repo repo' : Repo toml} → Reachable repo → Step repo repo' → Reachable repo'
