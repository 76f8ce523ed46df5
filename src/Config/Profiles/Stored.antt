-- ===== src/Config/Profiles/Stored.antt =====
-- The profiles of the configuration file as a list.
use coolerocontrol.Base.{List, ◌≡◌, refl, inl}
use coolerocontrol.Base.Float.{Float}
use coolerocontrol.Base.Outcome.{ok}
use coolerocontrol.Config.Entries.Refines.{
  Refines, set_entry-Refines, update_entry-Refines, delete_entry-Refines, set_order-Refines,
}
use coolerocontrol.Config.Entries.Scan.{Named}
use coolerocontrol.Config.Profiles.{
  profiles, get_current_profiles, set_profile, update_profile, delete_profile, set_profiles_order,
  run_profile,
}
use coolerocontrol.Config.Store.{Edit, IsAllowed, edited}
use coolerocontrol.Config.Tables.ProfileOrigin.{get_profile-Origin}
use coolerocontrol.Config.Tables.ProfileTable.{
  IsPercent, written, get_profile-written, add_profile_properties_lem,
}
use coolerocontrol.Config.Tables.{
  get_profile, add_profile_properties_to_profile_table, create_profile_table_from,
}
use coolerocontrol.Config.Toml.{Toml, IsToml}
use coolerocontrol.Setting.{Profile}

module _ {F : Type 0} ⦃fl : Float F⦄ (toml : Toml F) (laws : IsToml toml) where
  profile-Named :
      (t : toml.Table) (p : Profile F) → get_profile toml t ≡ ok p → Named toml profiles t p.uid
  profile-Named t p e = (get_profile-Origin toml laws t p e).0

  created :
      (p : Profile F) → create_profile_table_from toml p ≡ ok (written toml p toml.new toml.new)
  unfolding create_profile_table_from
  created p =
      add_profile_properties_lem toml laws p toml.new toml.new
        (inl (laws.get-new "temp_source", refl))

  rewritten :
      (p : Profile F)
      → IsPercent p
      → (t : toml.Table) (old : Profile F) → get_profile toml t ≡ ok old
      → (t' : toml.Table) × (add_profile_properties_to_profile_table toml p t ≡ ok t')
        × (get_profile toml t' ≡ ok p)
  rewritten p v t old e =
      let (_, (s, place)) = get_profile-Origin toml laws t old e in
      (
        written toml p t s,
        add_profile_properties_lem toml laws p t s place,
        get_profile-written toml laws p t s v,
      )

  -- The methods on the profiles of the configuration file do to the profiles that it holds what the
  -- edits do to a list, with the same results: a profile is added if its UID is new, the first with
  -- its UID is replaced or removed, and an order of the same length lists the stored profile of each
  -- UID; else there is an error and the profiles stay. The duties of a profile that is set or updated
  -- are at most 100, and there is something to order.
  pub run_profile-Refines :
      (edit : Edit (Profile F)) (doc : toml.Table) (ps : List (Profile F))
      → get_current_profiles toml doc ≡ ok ps
      → IsAllowed profiles (λ p. p.uid) IsPercent edit ps
      → Refines toml profiles
          (get_profile toml)
          (run_profile toml edit doc)
          (edited profiles (λ p. p.uid) edit ps)
  unfolding get_current_profiles set_profile update_profile delete_profile set_profiles_order
  run_profile-Refines (Edit.set p) doc ps h v =
      set_entry-Refines toml laws profiles (get_profile toml) (λ p. p.uid) profile-Named doc ps p _
        _ h (created p) (get_profile-written toml laws p toml.new toml.new v)
  run_profile-Refines (Edit.update p) doc ps h v =
      update_entry-Refines toml laws profiles (get_profile toml) (λ p. p.uid) profile-Named doc ps p
        _ h (rewritten p v)
  run_profile-Refines (Edit.delete uid) doc ps h v =
      delete_entry-Refines toml laws profiles (get_profile toml) (λ p. p.uid) profile-Named doc ps
        uid h
  run_profile-Refines (Edit.order uids) doc ps h v =
      set_order-Refines toml laws profiles (get_profile toml) (λ p. p.uid) profile-Named doc ps uids
        h v
