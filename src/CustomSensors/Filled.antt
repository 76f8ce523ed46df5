-- ===== src/CustomSensors/Filled.antt =====
-- The history of the device lists each sensor: when one is filled in, and when one is removed.
use coolerocontrol.Base.{
  ℕ, suc, ◌≡◌, refl, subst, String, Bool, true, false, List, [], ◌∷◌, ◌++◌, map, if◌then◌else◌,
  string_eq, ◌==◌, nat_eq, All, length, ◌-◌,
}
use coolerocontrol.Base.Float.{Float}
use coolerocontrol.Base.Outcome.{Partial, Partial-bind, Partial-bind_any}
use coolerocontrol.Base.Set
use coolerocontrol.CustomSensors.File.{process_custom_sensor_data_file_current}
use coolerocontrol.CustomSensors.Filling.{
  Surroundings, fill_mix, fill_file, filled_history, push_temp_status, verify_file,
  process_custom_sensor_data_mix_indexed, temp_data_indexed,
}
use coolerocontrol.CustomSensors.Keyed.{contains-snoc_key, contains-others}
use coolerocontrol.CustomSensors.Repo.{without_temp}
use coolerocontrol.Device.{Status, TempStatus}
use coolerocontrol.Setting.{CustomSensor, CustomSensorType}

abbrev pub ids : List CustomSensor → List String
ids sensors = map (λ c. c.id) sensors

-- The names of the temperatures in a status, as a test.
abbrev pub Names : {F : Type 0} → (String → Bool) → Status F → Type 0
Names named status = (k : String) → Set.contains k (map (λ t. t.name) status.temps) ≡ named k

abbrev pub with_name : String → (String → Bool) → String → Bool
with_name id named k = if id == k then true else named k

abbrev pub without_name : String → (String → Bool) → String → Bool
without_name id named k = if id == k then false else named k

module _ {F : Type 0} (id : String) (named : String → Bool) where
  push_temp_status-Names :
      (t : TempStatus F) (s : Status F)
      → t.name ≡ id
      → Names named s
      → Names (with_name id named) (push_temp_status t s)
  push_temp_status-Names t s e h k =
      subst
        (λ j.
          Set.contains k (map (λ x. x.name) (s.temps ++ t ∷ []))
          ≡ (if j == k then true else named k))
        e (rw (contains-snoc_key (λ x. x.name) k t s.temps, h k) refl)

  pub without_temp-Names :
      (s : Status F) → Names named s → Names (without_name id named) (without_temp id s)
  without_temp-Names s h k = rw (contains-others (λ x. x.name) id k s.temps, h k) refl

  pub history-without_temp :
      (ss : List (Status F))
      → All (Names named) ss
      → All (Names (without_name id named)) (map (without_temp id) ss)
  history-without_temp [] h = tt
  history-without_temp (s ∷ ss) h = (without_temp-Names s h.0, history-without_temp ss h.1)

module _ {F : Type 0} ⦃fl : Float F⦄ (around : Surroundings F) (sensor : CustomSensor)
    (named : String → Bool) where
  abbrev Filled : List (Status F) → Type 0
  Filled = All (Names (with_name sensor.id named))

  fill_mix-Filled :
      (index : ℕ) (ss : List (Status F))
      → All (Names named) ss
      → Partial (fill_mix around sensor index ss) Filled
  unfolding fill_mix process_custom_sensor_data_mix_indexed
  fill_mix-Filled index [] h = tt
  fill_mix-Filled index (s ∷ ss) h =
      Partial-bind Filled (λ t. t.name ≡ sensor.id) _
        (process_custom_sensor_data_mix_indexed around sensor index)
        (Partial-bind_any (λ t. t.name ≡ sensor.id) _
          (temp_data_indexed around index sensor.sources) (λ ds. refl))
        λ t e.
          Partial-bind Filled Filled _ (fill_mix around sensor (suc index) ss)
            (fill_mix-Filled (suc index) ss h.1)
            λ others filled. (push_temp_status-Names sensor.id named t s e h.0, filled)

  -- Whether it has the temperature or not.
  name_of :
      (last : Bool) (t : TempStatus F)
      → t.name ≡ sensor.id
      → (if last then t else record t { temp = fl.of_nat 0 }).name ≡ sensor.id
  name_of true t e = e
  name_of false t e = e

  fill_file-Filled :
      (t : TempStatus F) (last_index index : ℕ) (ss : List (Status F))
      → t.name ≡ sensor.id
      → All (Names named) ss
      → Filled (fill_file around t last_index index ss)
  unfolding fill_file
  fill_file-Filled t last_index index [] e h = tt
  fill_file-Filled t last_index index (s ∷ ss) e h = (
    push_temp_status-Names sensor.id named _ s (name_of (index == last_index) t e) h.0,
    fill_file-Filled t last_index (suc index) ss e h.1,
  )

  pub filled_history-Names :
      (ty : CustomSensorType) (ss : List (Status F))
      → All (Names named) ss
      → Partial (filled_history around ty sensor ss) (All (Names (with_name sensor.id named)))
  unfolding process_custom_sensor_data_file_current
  filled_history-Names CustomSensorType.mix ss h = fill_mix-Filled 0 ss h
  filled_history-Names CustomSensorType.file ss h =
      Partial-bind_any Filled _ (verify_file around sensor) λ _.
        fill_file-Filled (process_custom_sensor_data_file_current around.read_to_string sensor)
          (length ss - 1) 0 ss refl h
