-- ===== src/Config/Profiles.antt =====
-- config.rs: the profiles of the configuration file. Messages stand without their values.
pub mod Stored
use coolerocontrol.Base.{String, List, [], ◌∷◌, ◌++◌, if◌then◌else◌, string_eq}
use coolerocontrol.Base.Float.{Float}
use coolerocontrol.Base.Outcome.{Outcome, ok, err, panic, ◌>>=◌}
use coolerocontrol.Config.Entries.{
  Family, get_entries, set_entry, update_entry, delete_entry, set_order, Edited,
}
use coolerocontrol.Config.Functions.{has_default, saved}
use coolerocontrol.Config.Store.{Edit}
use coolerocontrol.Config.Tables.{
  get_profile, add_profile_properties_to_profile_table, create_profile_table_from,
}
use coolerocontrol.Config.Toml.{Toml}
use coolerocontrol.Setting.{Profile, default_profile, default_profile_uid}

abbrev pub profiles : Family
profiles = record {
  name = "profiles";
  key = "uid";
  not_tables = "Profiles should be an array of tables";
  exists = "Profile already exists. Use the patch operation to update it.";
  update_missing = "Profile to update not found";
  delete_missing = "Profile to delete not found";
  not_equal =
      "The number of stored profiles and requested profiles to order are not equal. Make sure all profiles have been created/deleted";
  none_stored = "There are no stored profiles in the config to order.";
  uid_missing = "Profile UID should be present";
  uid_wrong = "UID should be a string";
  not_found = "Could not find Profile UID in existing profiles array.";
}

module _ {F : Type 0} ⦃fl : Float F⦄ (toml : Toml F) where
  unfoldable pub get_current_profiles : toml.Table → Outcome (List (Profile F))
  get_current_profiles = get_entries toml profiles (get_profile toml)

  unfoldable pub set_profile : Profile F → toml.Table → Edited toml profiles
  set_profile p = set_entry toml profiles p.uid (create_profile_table_from toml p)

  unfoldable pub update_profile : Profile F → toml.Table → Edited toml profiles
  update_profile p =
      update_entry toml profiles p.uid (add_profile_properties_to_profile_table toml p)

  unfoldable pub delete_profile : String → toml.Table → Edited toml profiles
  delete_profile = delete_entry toml profiles

  -- The order is given by profiles, of which the UIDs are used.
  unfoldable pub set_profiles_order : List String → toml.Table → Edited toml profiles
  set_profiles_order = set_order toml profiles

  -- One method for each edit.
  abbrev pub run_profile : Edit (Profile F) → toml.Table → Edited toml profiles
  run_profile (Edit.set p) = set_profile p
  run_profile (Edit.update p) = update_profile p
  run_profile (Edit.delete uid) = delete_profile uid
  run_profile (Edit.order uids) = set_profiles_order uids

  abbrev pub with_default_profile :
      (toml.Table → Outcome (Unit {0}))
      → toml.Table
      → Outcome (List (Profile F))
      → Outcome (List (Profile F)) × toml.Table
  with_default_profile save doc (err e) = (err e, doc)
  with_default_profile save doc panic = (panic, doc)
  with_default_profile save doc (ok ps) =
      if has_default (λ p. p.uid) default_profile_uid ps
      then (ok ps, doc)
      else saved toml save (ps ++ default_profile F ∷ []) (set_profile (default_profile F) doc)

  -- `get_profiles`, with the outcome of `save_config_file` for a document. The default profile is
  -- stored where it is missing.
  unfoldable pub get_profiles :
      (toml.Table → Outcome (Unit {0})) → toml.Table → Outcome (List (Profile F)) × toml.Table
  get_profiles save doc = with_default_profile save doc (get_current_profiles doc)
