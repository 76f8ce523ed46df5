-- ===== src/CustomSensors/Edits.antt =====
-- An edit of the configuration on behalf of the repository.
use coolerocontrol.Base.{◌≡◌, refl, String, List, inl, inr, Bool-cases, nat_eq, ◌≢◌, sym, ◌∙◌, ap}
use coolerocontrol.Base.Outcome.{Outcome, ok, err, panic, Outcome-cases, err-ne-ok}
use coolerocontrol.Base.State.{Action, ◌>>=◌, ◌>>◌}
use coolerocontrol.Config.Entries.{Family}
use coolerocontrol.Config.Sensors.{custom_sensors, get_stored_sensors, run_sensor}
use coolerocontrol.Config.Sensors.Stored.{run_sensor-Refines}
use coolerocontrol.Config.Store.{Edit, IsAllowed, edited, commit, exists}
use coolerocontrol.Config.Tables.SensorTable.{IsWeighted}
use coolerocontrol.Config.Toml.{Toml, IsToml}
use coolerocontrol.CustomSensors.Repo.{Repo, edit_config}
use coolerocontrol.Setting.{CustomSensor}

abbrev pub edit_of : Edit CustomSensor → List CustomSensor → Outcome (Unit {0}) × List CustomSensor
edit_of = edited custom_sensors (λ c. c.id)

-- An edit that is refused leaves the list as it is.
abbrev Keeps : {A : Type 0} → List A → Outcome (Unit {0}) × List A → Type 0
Keeps xs r = r.0 ≢ ok tt → r.1 ≡ xs

commit-Keeps :
    {A : Type 0} (fam : Family) (uid_of : A → String) (xs : List A) (o : Outcome (List A))
    → Keeps xs (commit fam uid_of xs o)
commit-Keeps fam uid_of xs (ok ys) n = absurd (n refl)
commit-Keeps fam uid_of xs (err e) n = refl
commit-Keeps fam uid_of xs panic n = refl

edited-Keeps :
    {A : Type 0} (fam : Family) (uid_of : A → String) (edit : Edit A) (xs : List A)
    → Keeps xs (edited fam uid_of edit xs)
unfolding edited
edited-Keeps fam uid_of (Edit.set a) xs n = elim (Bool-cases (exists fam uid_of (uid_of a) xs)) [
  | inl there ↦ rw there refl
  | inr new ↦ absurd (n (rw new refl))
]
edited-Keeps fam uid_of (Edit.update a) xs n = commit-Keeps fam uid_of xs _ n
edited-Keeps fam uid_of (Edit.delete uid) xs n = commit-Keeps fam uid_of xs _ n
edited-Keeps fam uid_of (Edit.order uids) xs n = commit-Keeps fam uid_of xs _ n

panic-ne-ok : (o : Outcome (Unit {0})) → o ≡ panic → o ≢ ok tt
panic-ne-ok o e h = cc

module _ {F : Type 0} (toml : Toml F) (laws : IsToml toml) where
  -- What holds after an edit, refused or not, and the rest of the operation: the configuration holds
  -- the sensors that the edit gives.
  pub after_edit :
      (P : Repo toml → Type 0) (edit : Edit CustomSensor) (repo : Repo toml)
      (rest : Action (Repo toml) (Unit {0}))
      → get_stored_sensors toml repo.config ≡ ok repo.sensors
      → IsAllowed custom_sensors (λ c. c.id) IsWeighted edit repo.sensors
      → ((doc : toml.Table)
          → (edit_of edit repo.sensors).0 ≢ ok tt
          → get_stored_sensors toml doc ≡ ok repo.sensors
          → P (record repo { config = doc }))
      → ((doc : toml.Table) (sensors : List CustomSensor)
          → edit_of edit repo.sensors ≡ (ok tt, sensors)
          → get_stored_sensors toml doc ≡ ok sensors
          → P (rest (record repo { config = doc })).0)
      → P ((edit_config toml edit >> rest) repo).0
  unfolding ◌>>=◌ get_stored_sensors
  after_edit P edit repo rest h allowed refused accepted =
      let r = run_sensor toml edit repo.config in
      let s = edit_of edit repo.sensors in
      let (same, stored) = run_sensor-Refines toml laws edit repo.config repo.sensors h allowed in
      let keeps = edited-Keeps custom_sensors (λ c. c.id) edit repo.sensors in
      elim (Outcome-cases s.0) [
        | inl (_, e) ↦ rw (same ∙ e) (accepted r.1 s.1 (ap (λ o. (o, s.1)) e) stored)
        | inr (inl (msg, e)) ↦
            let other : s.0 ≢ ok tt = λ k. err-ne-ok msg tt (sym e ∙ k) in
            rw (same ∙ e) (refused r.1 other (stored ∙ ap ok (keeps other)))
        | inr (inr e) ↦
            let other = panic-ne-ok s.0 e in
            rw (same ∙ e) (refused r.1 other (stored ∙ ap ok (keeps other)))
      ]
