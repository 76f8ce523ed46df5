-- ===== src/CustomSensors/Mixed.antt =====
-- What the least and the greatest of several temperatures promise.
use coolerocontrol.Base.{
  ℕ, ◌≡◌, ◌≢◌, subst, refl, String, true, Option, none, some, List, [], ◌∷◌, arith, string_eq, All,
}
use coolerocontrol.Base.Dict.{Dict, get}
use coolerocontrol.Base.Float.{Float, fleb, IsOrdered}
use coolerocontrol.Device.{Device}
use coolerocontrol.Setting.{CustomSensor, CustomTempSourceData, CustomSensorMixFunctionType}
use coolerocontrol.CustomSensors.{
  TempData, push_temp, current_temp, fmin, fmax, min_temp_from, max_temp_from, process_temp_data,
  temp_data_of, or_zero, process_custom_sensor_data_mix_current,
}

module _ {F : Type 0} ⦃fl : Float F⦄ (o : IsOrdered F) where
  leb_self : (a : F) → fleb a a ≡ true
  leb_self a = ground (arith, o.leb_total a a)

  min_temp_from-le :
      (acc : F) (ds : List (TempData F))
      → (fleb (min_temp_from acc ds) acc ≡ true)
        × All (λ d. fleb (min_temp_from acc ds) d.temp ≡ true) ds
  unfolding min_temp_from
  min_temp_from-le acc [] = (leb_self acc, tt)
  min_temp_from-le acc (d ∷ rest) =
      let (first, others) = min_temp_from-le (fmin d.temp acc) rest in
      let r = min_temp_from (fmin d.temp acc) rest in
      (
        ground (arith, first, o.leb_trans r d.temp acc, o.leb_total d.temp acc),
        (ground (arith, first, o.leb_trans r acc d.temp, o.leb_total d.temp acc), others),
      )

  le-max_temp_from :
      (acc : F) (ds : List (TempData F))
      → (fleb acc (max_temp_from acc ds) ≡ true)
        × All (λ d. fleb d.temp (max_temp_from acc ds) ≡ true) ds
  unfolding max_temp_from
  le-max_temp_from acc [] = (leb_self acc, tt)
  le-max_temp_from acc (d ∷ rest) =
      let (first, others) = le-max_temp_from (fmax d.temp acc) rest in
      let r = max_temp_from (fmax d.temp acc) rest in
      (
        ground (arith, first, o.leb_trans acc d.temp r, o.leb_total d.temp acc),
        (ground (arith, first, o.leb_trans d.temp acc r, o.leb_total d.temp acc), others),
      )

  -- Each source that has a temperature.
  abbrev pub AllTemps : (F → Type 0) → Dict String (Device F) → List CustomTempSourceData → Type 0
  AllTemps P all_devices = All (λ source.
      (temp : F)
      → current_temp source.temp_source.temp_name (get source.temp_source.device_uid all_devices)
        ≡ some temp
      → P temp)

  some_unique : (x : Option F) (a b : F) → x ≡ some a → x ≡ some b → a ≡ b
  some_unique x a b h k = ground arith

  none-ne-some : (a : F) → none ≢ some a
  none-ne-some a h = cc

  All-push_temp :
      (P : F → Type 0) (x : Option F) (weight : ℕ) (others : List (TempData F))
      → All (λ d. P d.temp) (push_temp x weight others)
      → ((temp : F) → x ≡ some temp → P temp) × All (λ d. P d.temp) others
  unfolding push_temp
  All-push_temp P none weight others h = ((λ temp e. absurd (none-ne-some temp e)), h)
  All-push_temp P (some a) weight others h =
      ((λ temp e. subst P (some_unique (some a) a temp refl e) h.0), h.1)

  temp_data_of-AllTemps :
      (P : F → Type 0) (all_devices : Dict String (Device F)) (sources : List CustomTempSourceData)
      → All (λ d. P d.temp) (temp_data_of all_devices sources)
      → AllTemps P all_devices sources
  unfolding temp_data_of
  temp_data_of-AllTemps P all_devices [] h = tt
  temp_data_of-AllTemps P all_devices (source ∷ rest) h =
      let (first, others) =
        All-push_temp P
          (current_temp source.temp_source.temp_name
            (get source.temp_source.device_uid all_devices))
          source.weight (temp_data_of all_devices rest) h in
      (first, temp_data_of-AllTemps P all_devices rest others)

  or_zero-All :
      (P : F → Type 0) (ds : List (TempData F))
      → All (λ d. P d.temp) (or_zero ds)
      → All (λ d. P d.temp) ds
  unfolding or_zero
  or_zero-All P [] h = tt
  or_zero-All P (d ∷ rest) h = h

  -- How a custom sensor stands to its sources: a least one is at or below each of them and at most
  -- 254, a greatest one at or above each of them and at least 0.
  abbrev pub IsExtreme :
      CustomSensorMixFunctionType → Dict String (Device F) → List CustomTempSourceData → F → Type 0
  IsExtreme CustomSensorMixFunctionType.min all_devices sources r =
      AllTemps (λ t. fleb r t ≡ true) all_devices sources × (fleb r (fl.of_nat 254) ≡ true)
  IsExtreme CustomSensorMixFunctionType.max all_devices sources r =
      AllTemps (λ t. fleb t r ≡ true) all_devices sources × (fleb (fl.of_nat 0) r ≡ true)
  IsExtreme CustomSensorMixFunctionType.delta all_devices sources r = Unit
  IsExtreme CustomSensorMixFunctionType.avg all_devices sources r = Unit
  IsExtreme CustomSensorMixFunctionType.weighted_avg all_devices sources r = Unit

  process_temp_data-IsExtreme :
      (f : CustomSensorMixFunctionType) (all_devices : Dict String (Device F))
      (sources : List CustomTempSourceData)
      → IsExtreme f all_devices sources
          (process_temp_data f (or_zero (temp_data_of all_devices sources)))
  unfolding process_temp_data
  process_temp_data-IsExtreme CustomSensorMixFunctionType.min all_devices sources =
      let ds = or_zero (temp_data_of all_devices sources) in
      let (bound, below) = min_temp_from-le (fl.of_nat 254) ds in
      (
        temp_data_of-AllTemps (λ t. fleb (min_temp_from (fl.of_nat 254) ds) t ≡ true) all_devices
            sources (or_zero-All _ (temp_data_of all_devices sources) below),
        bound,
      )
  process_temp_data-IsExtreme CustomSensorMixFunctionType.max all_devices sources =
      let ds = or_zero (temp_data_of all_devices sources) in
      let (bound, above) = le-max_temp_from (fl.of_nat 0) ds in
      (
        temp_data_of-AllTemps (λ t. fleb t (max_temp_from (fl.of_nat 0) ds) ≡ true) all_devices
            sources (or_zero-All _ (temp_data_of all_devices sources) above),
        bound,
      )
  process_temp_data-IsExtreme CustomSensorMixFunctionType.delta all_devices sources = tt
  process_temp_data-IsExtreme CustomSensorMixFunctionType.avg all_devices sources = tt
  process_temp_data-IsExtreme CustomSensorMixFunctionType.weighted_avg all_devices sources = tt

  -- The current status of a custom sensor has its id. If it mixes by the least temperature, it is at or
  -- below the temperature of every source that has one, and at most 254; if by the greatest, it is at
  -- or above them, and at least 0.
  pub process_custom_sensor_data_mix_current-IsExtreme :
      (all_devices : Dict String (Device F)) (sensor : CustomSensor)
      → let status = process_custom_sensor_data_mix_current all_devices sensor in
        (status.name ≡ sensor.id)
        × IsExtreme sensor.mix_function all_devices sensor.sources status.temp
  unfolding process_custom_sensor_data_mix_current
  process_custom_sensor_data_mix_current-IsExtreme all_devices sensor =
      (refl, process_temp_data-IsExtreme sensor.mix_function all_devices sensor.sources)
