-- ===== src/Config/Entries.antt =====
-- config.rs: the arrays of tables of the document, which hold the profiles, the functions and the
-- custom sensors. The three families of methods differ in the array, in the key of the UID and in
-- their messages, which are parameters here.
pub mod Scan
pub mod Refines
use coolerocontrol.Base.{
  ℕ, zero, suc, String, Bool, true, false, not, Option, none, some, List, [], ◌∷◌, ◌++◌,
  if◌then◌else◌, string_eq, nat_eq, ◌==◌, length,
}
use coolerocontrol.Base.Outcome.{Outcome, ok, err, panic, ◌>>=◌, ◌>>◌, unwrap, with_context, ensure}
use coolerocontrol.Config.Fields.{traverse}
use coolerocontrol.Config.Toml.{Toml}

-- The array and the key, and the messages: the array is no array of tables; the entry exists
-- already, is not there to update or to delete; the order has another length, there is nothing to
-- order; the UID is missing, is no string, is not in the array.
pub record Family : Type 0 where
  pub name : String
  pub key : String
  pub not_tables : String
  pub exists : String
  pub update_missing : String
  pub delete_missing : String
  pub not_equal : String
  pub none_stored : String
  pub uid_missing : String
  pub uid_wrong : String
  pub not_found : String

abbrev pub unwrap_or_default : Option String → String
unwrap_or_default none = ""
unwrap_or_default (some s) = s

abbrev pub remove_at {ℓ} : {A : Type ℓ} → ℕ → List A → List A
remove_at n [] = []
remove_at zero (x ∷ xs) = xs
remove_at (suc n) (x ∷ xs) = x ∷ remove_at n xs

module _ {F : Type 0} (toml : Toml F) (fam : Family) where
  -- The loop of a getter over the array.
  unfoldable pub get_entries {ℓ} :
      {A : Type ℓ} → (toml.Table → Outcome A) → toml.Table → Outcome (List A)
  get_entries read doc = elim (toml.get doc fam.name) [
    | none ↦ ok []
    | some item ↦ do
      tables ← with_context fam.not_tables (toml.as_array_of_tables item)
      traverse read tables
  ]

  -- `doc[name].or_insert(Item::ArrayOfTables(…))`
  unfoldable pub or_insert : toml.Table → toml.Table
  or_insert doc = elim (toml.get doc fam.name) [
    | none ↦ toml.insert doc fam.name (toml.array_of_tables [])
    | some item ↦ doc
  ]

  -- `.as_array_of_tables_mut().unwrap()` after it
  unfoldable pub tables_of : toml.Table → Outcome (List toml.Table)
  tables_of doc = do item ← unwrap (toml.get doc fam.name); unwrap (toml.as_array_of_tables item)

  -- `t.get("uid").unwrap().as_str().unwrap_or_default() == uid`
  unfoldable pub has_uid : String → toml.Table → Outcome Bool
  has_uid uid table = do
    item ← unwrap (toml.get table fam.key)
    ok (unwrap_or_default (toml.as_str item) == uid)

  unfoldable pub already_exists : String → List toml.Table → Outcome Bool
  already_exists uid [] = ok false
  already_exists uid (t ∷ ts) = do
    found ← has_uid uid t
    elim found [ true ↦ ok true | false ↦ already_exists uid ts ]

  -- `iter_mut().find(…)` and the update of the table found
  unfoldable pub update_found :
      String
      → (toml.Table → Outcome toml.Table)
      → List toml.Table
      → Outcome (Option (List toml.Table))
  update_found uid add [] = ok none
  update_found uid add (t ∷ ts) = do
    found ← has_uid uid t
    elim found [
      | true ↦ do t' ← add t; ok (some (t' ∷ ts))
      | false ↦ do
        rest ← update_found uid add ts
        ok (elim rest [ none ↦ none | some ts' ↦ some (t ∷ ts') ])
    ]

  unfoldable pub position : String → List toml.Table → Outcome (Option ℕ)
  position uid [] = ok none
  position uid (t ∷ ts) = do
    found ← has_uid uid t
    elim found [
      | true ↦ ok (some 0)
      | false ↦ do rest ← position uid ts; ok (elim rest [ none ↦ none | some n ↦ some (suc n) ])
    ]

  -- `t.get("uid").with_context(…)?.as_str().with_context(…)? == uid`
  unfoldable pub is_named : String → toml.Table → Outcome Bool
  is_named uid table = do
    item ← with_context fam.uid_missing (toml.get table fam.key)
    s ← with_context fam.uid_wrong (toml.as_str item)
    ok (s == uid)

  unfoldable pub find_in_array : String → List toml.Table → Outcome toml.Table
  find_in_array uid [] = err fam.not_found
  find_in_array uid (t ∷ ts) = do
    found ← is_named uid t
    elim found [ true ↦ ok t | false ↦ find_in_array uid ts ]

  -- The result of a method and the document after it. An error leaves the document as it is.
  abbrev pub Edited : Type 0
  Edited = Outcome (Unit {0}) × toml.Table

  abbrev pub store : toml.Table → Outcome (List toml.Table) → Edited
  store doc (ok tables) = (ok tt, toml.insert doc fam.name (toml.array_of_tables tables))
  store doc (err e) = (err e, doc)
  store doc panic = (panic, doc)

  unfoldable pub set_entry : String → Outcome toml.Table → toml.Table → Edited
  set_entry uid new doc =
      let doc' = or_insert doc in
      store doc' (do
        tables ← tables_of doc'
        found ← already_exists uid tables
        ensure (not found) fam.exists
        table ← new
        ok (tables ++ (table ∷ [])))

  unfoldable pub update_entry : String → (toml.Table → Outcome toml.Table) → toml.Table → Edited
  update_entry uid add doc =
      let doc' = or_insert doc in
      store doc' (do
        tables ← tables_of doc'
        updated ← update_found uid add tables
        with_context fam.update_missing updated)

  unfoldable pub delete_entry : String → toml.Table → Edited
  delete_entry uid doc =
      let doc' = or_insert doc in
      store doc' (do
        tables ← tables_of doc'
        found ← position uid tables
        n ← with_context fam.delete_missing found
        ok (remove_at n tables))

  unfoldable pub set_order : List String → toml.Table → Edited
  set_order uids doc = store doc (do
    item ← with_context fam.none_stored (toml.get doc fam.name)
    tables ← with_context fam.not_tables (toml.as_array_of_tables item)
    ensure (length uids == length tables) fam.not_equal
    traverse (λ uid. find_in_array uid tables) uids)
