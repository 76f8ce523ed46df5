-- ===== src/Config/Functions.antt =====
-- config.rs: the functions of the configuration file. Messages stand without their values.
pub mod Stored
pub mod Valid
use coolerocontrol.Base.{
  String, Bool, true, false, not, ◌&&◌, Option, none, some, List, [], ◌∷◌, ◌++◌, map, if◌then◌else◌,
  string_eq, ◌==◌,
}
use coolerocontrol.Base.Outcome.{Outcome, ok, err, panic, ◌>>=◌}
use coolerocontrol.Config.Entries.{
  Family, get_entries, set_entry, update_entry, delete_entry, set_order, Edited,
}
use coolerocontrol.Config.Store.{Edit}
use coolerocontrol.Config.Tables.{
  get_function, add_function_properties_to_function_table, create_function_table_from,
}
use coolerocontrol.Config.Toml.{Toml}
use coolerocontrol.Setting.{Function, default_function, default_function_uid}

abbrev pub functions : Family
functions = record {
  name = "functions";
  key = "uid";
  not_tables = "Functions should be an array of tables";
  exists = "Function already exists. Use the update operation to update it.";
  update_missing = "Function to update not found";
  delete_missing = "Function to delete not found";
  not_equal =
      "The number of stored functions and requested functions to order are not equal. Make sure all functions have been created/deleted";
  none_stored = "There are no stored functions in the config to order.";
  uid_missing = "Function UID should be present";
  uid_wrong = "UID should be a string";
  not_found = "Could not find function UID in existing functions array.";
}

abbrev pub has_default {ℓ} : {A : Type ℓ} → (A → String) → String → List A → Bool
has_default uid_of uid [] = false
has_default uid_of uid (x ∷ xs) = if uid_of x == uid then true else has_default uid_of uid xs

module _ {F : Type 0} (toml : Toml F) where
  unfoldable pub get_current_functions : toml.Table → Outcome (List (Function F))
  get_current_functions = get_entries toml functions (get_function toml)

  unfoldable pub set_function : Function F → toml.Table → Edited toml functions
  set_function f = set_entry toml functions f.uid (ok (create_function_table_from toml f))

  unfoldable pub update_function : Function F → toml.Table → Edited toml functions
  update_function f =
      update_entry toml functions f.uid
        (λ table. ok (add_function_properties_to_function_table toml f table))

  unfoldable pub delete_function : String → toml.Table → Edited toml functions
  delete_function = delete_entry toml functions

  -- The order is given by functions, of which the UIDs are used.
  unfoldable pub set_functions_order : List String → toml.Table → Edited toml functions
  set_functions_order = set_order toml functions

  -- One method for each edit.
  abbrev pub run_function : Edit (Function F) → toml.Table → Edited toml functions
  run_function (Edit.set f) = set_function f
  run_function (Edit.update f) = update_function f
  run_function (Edit.delete uid) = delete_function uid
  run_function (Edit.order uids) = set_functions_order uids

  -- The old name of the default function is replaced.
  abbrev pub renamed : Function F → Function F
  renamed f =
      if f.uid == default_function_uid && f.name == "Identity"
      then record f { name = "Default Function" }
      else f

  -- The end of `get_functions`: `set_function(…)?` and `save_config_file()?`.
  abbrev pub saved :
      {A : Type 0}
      → (toml.Table → Outcome (Unit {0}))
      → A
      → Edited toml functions
      → Outcome A × toml.Table
  saved save a (ok _, doc) = (save doc >>= λ u. ok a, doc)
  saved save a (err e, doc) = (err e, doc)
  saved save a (panic, doc) = (panic, doc)

  abbrev pub with_default_function :
      (toml.Table → Outcome (Unit {0}))
      → toml.Table
      → Outcome (List (Function F))
      → Outcome (List (Function F)) × toml.Table
  with_default_function save doc (err e) = (err e, doc)
  with_default_function save doc panic = (panic, doc)
  with_default_function save doc (ok fs) =
      if has_default (λ f. f.uid) default_function_uid fs
      then (ok (map renamed fs), doc)
      else saved save (fs ++ default_function F ∷ []) (set_function (default_function F) doc)

  -- `get_functions`, with the outcome of `save_config_file` for a document. The default function is
  -- stored where it is missing.
  unfoldable pub get_functions :
      (toml.Table → Outcome (Unit {0})) → toml.Table → Outcome (List (Function F)) × toml.Table
  get_functions save doc = with_default_function save doc (get_current_functions doc)
