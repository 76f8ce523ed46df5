-- ===== src/Config/Toml.antt =====
-- The crate toml_edit, as a parameter of config.rs. `Table` stands for a table, for an inline table
-- after `into_table` and for the root of a document, `Item` for an item and for a value that is one.
use coolerocontrol.Base.{
  String, Bool, true, false, Option, none, some, List, ◌≡◌, if◌then◌else◌, ◌==◌, string_eq,
}
use coolerocontrol.Base.Int.{ℤ}

pub record Toml (F : Type 0) : Type 1 where
  pub Table : Type 0
  pub Item : Type 0
  -- `Table::new()`, `table.get(key)`, the walk over a table and `table[key] = item`
  pub new : Table
  pub get : Table → String → Option Item
  pub iter : Table → List (String × Item)
  pub insert : Table → String → Item → Table
  -- `Item::None` and the other variants
  pub none_item : Item
  pub string : String → Item
  pub integer : ℤ → Item
  pub float : F → Item
  pub boolean : Bool → Item
  pub array : List Item → Item
  pub inline_table : Table → Item
  pub table : Table → Item
  pub array_of_tables : List Table → Item
  pub is_none : Item → Bool
  pub as_str : Item → Option String
  pub as_integer : Item → Option ℤ
  pub as_float : Item → Option F
  pub as_bool : Item → Option Bool
  pub as_array : Item → Option (List Item)
  pub as_inline_table : Item → Option Table
  pub as_table : Item → Option Table
  pub as_array_of_tables : Item → Option (List Table)
  -- `item.get(key)`
  pub item_get : Item → String → Option Item
  -- `item[key]` as a place: whether it is one (else the index panics), what it holds (`Item::None` if
  -- nothing) and the item after a write to it
  pub is_indexable : Item → Bool
  pub index : Item → String → Item
  pub set : Item → String → Item → Item

-- What the documentation of the crate says of them.
pub record IsToml {F : Type 0} (toml : Toml F) : Type 0 where
  pub get-new : (k : String) → toml.get toml.new k ≡ none
  -- A key that holds `Item::None` is absent.
  pub get-insert :
      (t : toml.Table) (k j : String) (i : toml.Item)
      → toml.get (toml.insert t k i) j
        ≡ (if k == j then (if toml.is_none i then none else some i) else toml.get t j)
  pub is_none-none_item : toml.is_none toml.none_item ≡ true
  pub is_none-string : (s : String) → toml.is_none (toml.string s) ≡ false
  pub is_none-integer : (z : ℤ) → toml.is_none (toml.integer z) ≡ false
  pub is_none-float : (x : F) → toml.is_none (toml.float x) ≡ false
  pub is_none-boolean : (b : Bool) → toml.is_none (toml.boolean b) ≡ false
  pub is_none-array : (is : List toml.Item) → toml.is_none (toml.array is) ≡ false
  pub is_none-inline_table : (t : toml.Table) → toml.is_none (toml.inline_table t) ≡ false
  pub is_none-table : (t : toml.Table) → toml.is_none (toml.table t) ≡ false
  pub is_none-array_of_tables :
      (ts : List toml.Table) → toml.is_none (toml.array_of_tables ts) ≡ false
  pub as_str-string : (s : String) → toml.as_str (toml.string s) ≡ some s
  pub as_integer-integer : (z : ℤ) → toml.as_integer (toml.integer z) ≡ some z
  pub as_float-float : (x : F) → toml.as_float (toml.float x) ≡ some x
  pub as_bool-boolean : (b : Bool) → toml.as_bool (toml.boolean b) ≡ some b
  pub as_array-array : (is : List toml.Item) → toml.as_array (toml.array is) ≡ some is
  pub as_inline_table-inline_table :
      (t : toml.Table) → toml.as_inline_table (toml.inline_table t) ≡ some t
  -- An item that is read as an inline table is that table.
  pub as_inline_table_inv :
      (i : toml.Item) (t : toml.Table) → toml.as_inline_table i ≡ some t → i ≡ toml.inline_table t
  pub as_table-table : (t : toml.Table) → toml.as_table (toml.table t) ≡ some t
  pub as_array_of_tables-array_of_tables :
      (ts : List toml.Table) → toml.as_array_of_tables (toml.array_of_tables ts) ≡ some ts
  pub item_get-table : (t : toml.Table) (k : String) → toml.item_get (toml.table t) k ≡ toml.get t k
  -- An index makes an inline table of `Item::None`, and goes into tables of both kinds.
  pub is_indexable-none_item : toml.is_indexable toml.none_item ≡ true
  pub is_indexable-inline_table : (t : toml.Table) → toml.is_indexable (toml.inline_table t) ≡ true
  pub is_indexable-table : (t : toml.Table) → toml.is_indexable (toml.table t) ≡ true
  pub index-none_item : (k : String) → toml.index toml.none_item k ≡ toml.none_item
  pub index-inline_table :
      (t : toml.Table) (k : String)
      → toml.index (toml.inline_table t) k
        ≡ elim (toml.get t k) [ some i ↦ i | none ↦ toml.none_item ]
  pub index-table :
      (t : toml.Table) (k : String)
      → toml.index (toml.table t) k ≡ elim (toml.get t k) [ some i ↦ i | none ↦ toml.none_item ]
  pub set-none_item :
      (k : String) (i : toml.Item)
      → toml.set toml.none_item k i ≡ toml.inline_table (toml.insert toml.new k i)
  pub set-inline_table :
      (t : toml.Table) (k : String) (i : toml.Item)
      → toml.set (toml.inline_table t) k i ≡ toml.inline_table (toml.insert t k i)
  pub set-table :
      (t : toml.Table) (k : String) (i : toml.Item)
      → toml.set (toml.table t) k i ≡ toml.table (toml.insert t k i)
