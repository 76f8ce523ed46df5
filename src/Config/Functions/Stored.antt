-- ===== src/Config/Functions/Stored.antt =====
-- The functions of the configuration file as a list.
use coolerocontrol.Base.{List, ◌≡◌, refl, ap, ◌∙◌}
use coolerocontrol.Base.Outcome.{ok, Safe-ok}
use coolerocontrol.Config.Entries.Refines.{
  Refines, set_entry-Refines, update_entry-Refines, delete_entry-Refines, set_order-Refines,
}
use coolerocontrol.Config.Entries.Scan.{Named}
use coolerocontrol.Config.Functions.{
  functions, get_current_functions, set_function, update_function, delete_function,
  set_functions_order, run_function,
}
use coolerocontrol.Config.Store.{Edit, IsAllowed, edited}
use coolerocontrol.Config.Tables.FunctionTable.{get_function-written}
use coolerocontrol.Config.Tables.FunctionValid.{
  IsValid, IsValid-IsBytes, normalized_function_self, get_function-IsValid,
}
use coolerocontrol.Config.Tables.{
  get_function, add_function_properties_to_function_table, create_function_table_from,
}
use coolerocontrol.Config.Toml.{Toml, IsToml}
use coolerocontrol.Setting.{Function}

module _ {F : Type 0} (toml : Toml F) (laws : IsToml toml) where
  function-Named :
      (t : toml.Table) (f : Function F) → get_function toml t ≡ ok f → Named toml functions t f.uid
  function-Named t f e = (Safe-ok _ (get_function toml t) f e (get_function-IsValid toml t)).1

  read_written :
      (t : toml.Table) (f : Function F)
      → IsValid f
      → get_function toml (add_function_properties_to_function_table toml f t) ≡ ok f
  read_written t f v =
      get_function-written toml laws f t (IsValid-IsBytes f v)
      ∙ ap ok (normalized_function_self f v)

  -- The methods on the functions of the configuration file do to the functions that it holds what the
  -- edits do to a list, with the same results: a function is added if its UID is new, the first with
  -- its UID is replaced or removed, and an order of the same length lists the stored function of each
  -- UID; else there is an error and the functions stay. The functions set or updated are valid, and
  -- there is something to order.
  pub run_function-Refines :
      (edit : Edit (Function F)) (doc : toml.Table) (fs : List (Function F))
      → get_current_functions toml doc ≡ ok fs
      → IsAllowed functions (λ f. f.uid) IsValid edit fs
      → Refines toml functions
          (get_function toml)
          (run_function toml edit doc)
          (edited functions (λ f. f.uid) edit fs)
  unfolding get_current_functions set_function update_function delete_function set_functions_order
      create_function_table_from
  run_function-Refines (Edit.set f) doc fs h v =
      set_entry-Refines toml laws functions (get_function toml) (λ f. f.uid) function-Named doc fs f
        _ _ h refl (read_written toml.new f v)
  run_function-Refines (Edit.update f) doc fs h v =
      update_entry-Refines toml laws functions (get_function toml) (λ f. f.uid) function-Named doc
        fs f _ h
        (λ t old e. (add_function_properties_to_function_table toml f t, refl, read_written t f v))
  run_function-Refines (Edit.delete uid) doc fs h v =
      delete_entry-Refines toml laws functions (get_function toml) (λ f. f.uid) function-Named doc
        fs uid h
  run_function-Refines (Edit.order uids) doc fs h v =
      set_order-Refines toml laws functions (get_function toml) (λ f. f.uid) function-Named doc fs
        uids h v
