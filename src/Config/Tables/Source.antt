-- ===== src/Config/Tables/Source.antt =====
-- A temperature source, as it is written into the inline table of its key and read back.
use coolerocontrol.Base.{
  String, Option, none, some, if◌then◌else◌, string_eq, ◌==◌, ◌≡◌, ◌⊎◌, ap, ◌∙◌, inl, inr, refl,
  Bool-cases, Option-cases,
}
use coolerocontrol.Base.Outcome.{ok, with_context, bind-ok, with_context-ok}
use coolerocontrol.Config.Fields.{optional, source_of, get_temp_source}
use coolerocontrol.Config.Tables.Written.{get_str_written}
use coolerocontrol.Config.Tables.{place, insert_in, set_temp_source}
use coolerocontrol.Config.Toml.{Toml, IsToml}
use coolerocontrol.Setting.{TempSource}

module _ {F : Type 0} (toml : Toml F) where
  -- The inline table `s` after the two writes, and the table that holds it.
  abbrev pub source_entries : toml.Table → TempSource → toml.Table
  source_entries s source =
      toml.insert (toml.insert s "temp_name" (toml.string source.temp_name)) "device_uid"
        (toml.string source.device_uid)

  abbrev pub with_source : toml.Table → toml.Table → TempSource → toml.Table
  with_source table s source =
      toml.insert
        (toml.insert table "temp_source"
          (toml.inline_table (toml.insert s "temp_name" (toml.string source.temp_name))))
        "temp_source" (toml.inline_table (source_entries s source))

  -- Nothing stands under the key, or an inline table does.
  abbrev pub IsSourcePlace : toml.Table → toml.Table → Type 0
  IsSourcePlace table s =
      ((toml.get table "temp_source" ≡ none) × (s ≡ toml.new))
      ⊎ (toml.get table "temp_source" ≡ some (toml.inline_table s))

module _ {F : Type 0} (toml : Toml F) (laws : IsToml toml) where
  pub get-with_source :
      (table s : toml.Table) (source : TempSource) (j : String)
      → toml.get (with_source toml table s source) j ≡ (
          if "temp_source" == j
          then some (toml.inline_table (source_entries toml s source))
          else toml.get table j)
  get-with_source table s source j = elim (Bool-cases ("temp_source" == j)) [
    | inl hit ↦ rw (laws.get-insert, hit, laws.is_none-inline_table) refl
    | inr miss ↦ rw (laws.get-insert, miss, laws.get-insert, miss) refl
  ]

  first_write :
      (table s : toml.Table) (key : String) (item : toml.Item)
      → IsSourcePlace toml table s
      → insert_in toml table "temp_source" key item
        ≡ ok (toml.insert table "temp_source" (toml.inline_table (toml.insert s key item)))
  first_write table s key item (inl (absent, e)) =
      rw (absent, place) (rw (laws.is_indexable-none_item, laws.set-none_item, e) refl)
  first_write table s key item (inr found) =
      rw (found, place) (rw (laws.is_indexable-inline_table, laws.set-inline_table) refl)

  pub set_temp_source_lem :
      (table s : toml.Table) (source : TempSource)
      → IsSourcePlace toml table s
      → set_temp_source toml table source ≡ ok (with_source toml table s source)
  unfolding set_temp_source
  set_temp_source_lem table s source h =
      let named = toml.insert s "temp_name" (toml.string source.temp_name) in
      rw (first_write table s "temp_name" (toml.string source.temp_name) h) (
        first_write (toml.insert table "temp_source" (toml.inline_table named)) named "device_uid"
          (toml.string source.device_uid) (inr (simp (laws.get-insert, laws.is_none-inline_table))))

  pub get_temp_source_entries :
      (table s : toml.Table) (source : TempSource)
      → toml.get table "temp_source" ≡ some (toml.inline_table (source_entries toml s source))
      → get_temp_source toml table ≡ ok (some source)
  unfolding get_temp_source
  get_temp_source_entries table s source h =
      rw (h, laws.as_inline_table-inline_table)
        (rw
          (
            get_str_written toml laws (source_entries toml s source) "temp_name" _ _
                source.temp_name (simp (laws.get-insert, laws.is_none-string)),
            get_str_written toml laws (source_entries toml s source) "device_uid" _ _
                source.device_uid (simp (laws.get-insert, laws.is_none-string)),
          )
          refl)

  -- A table whose source can be read has a place to write one.
  pub place_of_read :
      (table : toml.Table) (o : Option TempSource)
      → get_temp_source toml table ≡ ok o
      → (s : toml.Table) × IsSourcePlace toml table s
  unfolding get_temp_source
  place_of_read table o h = elim (Option-cases (toml.get table "temp_source")) [
    | inl absent ↦ (toml.new, inl (absent, refl))
    | inr (item, found) ↦
        let (b, e, _) =
          bind-ok (source_of toml item) (λ b. ok (some b)) o (rw (found, optional) at h) in
        let (s, k, _) =
          bind-ok (with_context "temp_source should be an inline table" (toml.as_inline_table item))
            _ b e in
        (s, inr (found ∙ ap some (laws.as_inline_table_inv item s (with_context-ok _ _ s k))))
  ]
