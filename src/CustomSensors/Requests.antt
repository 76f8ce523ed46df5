-- ===== src/CustomSensors/Requests.antt =====
-- What the edits of the configuration make of the sensors.
use coolerocontrol.Base.{
  string_eq_iff, ◌≡◌, ◌≢◌, refl, sym, ◌∙◌, ap, String, true, false, not, some, List, [], ◌∷◌, ◌++◌,
  if◌then◌else◌, string_eq, ◌==◌, filterb, All, inl, inr, find_by, Bool-cases, Option-cases, arith,
  length, nat_eq,
}
use coolerocontrol.Base.Outcome.{ok, unwrap}
use coolerocontrol.Base.Set
use coolerocontrol.Config.Sensors.{custom_sensors}
use coolerocontrol.Config.Store.{Edit, edited, remove, replace, exists}
use coolerocontrol.CustomSensors.Edits.{edit_of}
use coolerocontrol.CustomSensors.Filled.{ids}
use coolerocontrol.CustomSensors.Keyed.{
  exists-contains, remove-others, keys-replace, traverse_found,
}
use coolerocontrol.Setting.{CustomSensor}

abbrev pub key_of : CustomSensor → String
key_of c = c.id

-- What an edit that is not refused does.
pub deleted_sensors :
    (id : String) (xs ys : List CustomSensor)
    → Set.HasNoRepeats (ids xs)
    → edit_of (Edit.delete id) xs ≡ (ok tt, ys)
    → ys ≡ filterb (λ c. not (c.id == id)) xs
unfolding edited
deleted_sensors id xs ys h e = elim (Option-cases (remove custom_sensors key_of id xs)) [
  | inl none_left ↦ ground (arith, e, none_left)
  | inr (zs, left) ↦
      let same : zs ≡ ys = ground (arith, e, left) in
      sym same ∙ remove-others key_of custom_sensors id xs zs h left
]

pub updated_sensors :
    (sensor : CustomSensor) (xs ys : List CustomSensor)
    → edit_of (Edit.update sensor) xs ≡ (ok tt, ys)
    → (unwrap (replace custom_sensors key_of sensor.id sensor xs) ≡ ok ys) × (ids ys ≡ ids xs)
unfolding edited
updated_sensors sensor xs ys e =
    elim (Option-cases (replace custom_sensors key_of sensor.id sensor xs)) [
      | inl absent ↦ ground (arith, e, absent)
      | inr (zs, found) ↦
          let same : zs ≡ ys = ground (arith, e, found) in
          (
            rw found (ap ok same),
            ap ids (sym same) ∙ keys-replace key_of custom_sensors sensor xs zs found,
          )
    ]

-- What a request for an order gives: the stored sensors, each once, in another order.
pub record IsOrder (requested stored : List CustomSensor) : Type 0 where
  pub found : All (λ c. find_by (λ x. x.id == c.id) stored ≡ some c) requested
  pub same_ids : (k : String) → Set.contains k (ids requested) ≡ Set.contains k (ids stored)
  pub distinct : Set.HasNoRepeats (ids requested)

pub ordered_sensors :
    (requested xs ys : List CustomSensor)
    → IsOrder requested xs
    → edit_of (Edit.order (ids requested)) xs ≡ (ok tt, ys)
    → ys ≡ requested
unfolding edited
ordered_sensors requested xs ys o e =
    let all = traverse_found key_of custom_sensors xs requested o.found in
    elim (Bool-cases (length (ids requested) == length xs)) [
      | inl same ↦ ground (arith, e, all, same)
      | inr other ↦ ground (arith, e, other)
    ]

pub refused_sensor :
    (sensor : CustomSensor) (xs : List CustomSensor)
    → (edit_of (Edit.set sensor) xs).0 ≢ ok tt
    → Set.contains sensor.id (ids xs) ≡ true
unfolding edited
refused_sensor sensor xs n = elim (Bool-cases (exists custom_sensors key_of sensor.id xs)) [
  | inl there ↦ sym (exists-contains key_of custom_sensors sensor.id xs) ∙ there
  | inr new ↦ absurd (n (rw new refl))
]

pub added_sensor :
    (sensor : CustomSensor) (xs ys : List CustomSensor)
    → edit_of (Edit.set sensor) xs ≡ (ok tt, ys)
    → (ys ≡ xs ++ sensor ∷ []) × (Set.contains sensor.id (ids xs) ≡ false)
unfolding edited
added_sensor sensor xs ys e = elim (Bool-cases (exists custom_sensors key_of sensor.id xs)) [
  | inl there ↦ ground (arith, e, there)
  | inr new ↦
      (ground (arith, e, new), sym (exists-contains key_of custom_sensors sensor.id xs) ∙ new)
]

pub known_id :
    (id k : String) (xs : List String)
    → Set.contains id xs ≡ true
    → (if id == k then true else Set.contains k xs) ≡ Set.contains k xs
known_id id k xs h = elim (Bool-cases (id == k)) [
  | inl same ↦ rw same (sym (ap (λ j. Set.contains j xs) (sym (string_eq_iff id k same)) ∙ h))
  | inr other ↦ rw other refl
]
