-- ===== src/Config/General/Stored.antt =====
-- The general settings, stored and read again.
use coolerocontrol.Base.{
  ℕ, String, Bool, true, false, Option, some, List, [], ◌∷◌, string_eq, ◌≡◌, refl, ap, ◌∙◌,
}
use coolerocontrol.Base.Int.{pos, clamp, clamp_int}
use coolerocontrol.Base.Outcome.{ok, ◌>>=◌}
use coolerocontrol.Config.DeviceSettings.Writes.{insert_all}
use coolerocontrol.Config.Fields.{optional}
use coolerocontrol.Config.General.{
  get_or_item, get_bool, get_startup_delay, get_port, get_address, read_settings, get_settings,
  assign_all, settings_entries, set_settings,
}
use coolerocontrol.Config.Tables.{place}
use coolerocontrol.Config.Toml.{Toml, IsToml}
use coolerocontrol.Setting.{CoolerControlSettings}

module _ {F : Type 0} (toml : Toml F) (laws : IsToml toml) where
  pub assign_all_lem :
      (t : toml.Table) (es : List (String × toml.Item))
      → assign_all toml (toml.table t) es ≡ ok (toml.table (insert_all toml t es))
  assign_all_lem t [] = refl
  assign_all_lem t ((key, value) ∷ es) =
      rw (laws.is_indexable-table, laws.set-table) (assign_all_lem (toml.insert t key value) es)

  bool_written :
      (t : toml.Table) (key wrong : String) (default b : Bool)
      → toml.get t key ≡ some (toml.boolean b)
      → get_bool toml t key default wrong ≡ ok b
  bool_written t key wrong default b e = rw (e, get_or_item) (rw laws.as_bool-boolean refl)

  module _ (s : CoolerControlSettings) (t : toml.Table) where
    written : toml.Table
    written = insert_all toml t (settings_entries toml s)

    bool_at :
        (key : String) (b : Bool)
        → toml.get written key ≡ some (toml.boolean b)
        → (default : Bool) (wrong : String) → get_bool toml written key default wrong ≡ ok b
    bool_at key b e default wrong = bool_written written key wrong default b e

    delay_written : get_startup_delay toml written ≡ ok (clamp 0 10 s.startup_delay)
    unfolding get_startup_delay written clamp_int
    delay_written =
        let there : toml.get written "startup_delay" ≡ some (toml.integer (pos s.startup_delay)) =
          simp (laws.get-insert, laws.is_none-integer) in
        rw (there, get_or_item) (rw laws.as_integer-integer refl)

    port_kept : get_port toml written ≡ get_port toml t
    unfolding get_port written
    port_kept = simp (laws.get-insert)

    address_kept :
        (trim : String → String) (key wrong : String)
        → toml.get written key ≡ toml.get t key
        → get_address toml trim written key wrong ≡ get_address toml trim t key wrong
    unfolding get_address
    address_kept trim key wrong e = ap (optional _) e

    read_written :
        (trim : String → String) (port : Option ℕ) (ipv4 ipv6 : Option String)
        → get_port toml t ≡ ok port
        → get_address toml trim t "ipv4_address" "ipv4_address should be a string" ≡ ok ipv4
        → get_address toml trim t "ipv6_address" "ipv6_address should be a string" ≡ ok ipv6
        → read_settings toml trim written
          ≡ ok (record s {
            startup_delay = clamp 0 10 s.startup_delay;
            port = port;
            ipv4_address = ipv4;
            ipv6_address = ipv6;
          })
    unfolding read_settings written
    read_written trim port ipv4 ipv6 p a b =
        rw
          (
            bool_at "apply_on_boot" s.apply_on_boot (simp (laws.get-insert, laws.is_none-boolean))
                true "apply_on_boot should be a boolean value",
            bool_at "no_init" s.no_init (simp (laws.get-insert, laws.is_none-boolean)) false
                "no_init should be a boolean value",
            delay_written,
            bool_at "thinkpad_full_speed" s.thinkpad_full_speed
                (simp (laws.get-insert, laws.is_none-boolean)) false
                "thinkpad_full_speed should be a boolean value",
            bool_at "hide_duplicate_devices" s.hide_duplicate_devices
                (simp (laws.get-insert, laws.is_none-boolean)) true
                "hide_duplicate_devices should be a boolean value",
            bool_at "liquidctl_integration" s.liquidctl_integration
                (simp (laws.get-insert, laws.is_none-boolean)) true
                "liquidctl_integration should be a boolean value",
            port_kept ∙ p,
            address_kept trim "ipv4_address" "ipv4_address should be a string"
                  (simp (laws.get-insert))
                ∙ a,
            address_kept trim "ipv6_address" "ipv6_address should be a string"
                  (simp (laws.get-insert))
                ∙ b,
            bool_at "compress" s.compress (simp (laws.get-insert, laws.is_none-boolean)) false
                "compress should be a boolean value",
          )
          refl

  -- After `set_settings`, `get_settings` returns the settings given, with a startup delay of ten
  -- seconds at most, and the port and the addresses that the file had: they are not stored. The
  -- document has a table of settings, in which the port and the addresses can be read.
  pub get_settings-set_settings :
      (trim : String → String) (s : CoolerControlSettings) (doc t : toml.Table) (port : Option ℕ)
      (ipv4 ipv6 : Option String)
      → toml.get doc "settings" ≡ some (toml.table t)
      → get_port toml t ≡ ok port
      → get_address toml trim t "ipv4_address" "ipv4_address should be a string" ≡ ok ipv4
      → get_address toml trim t "ipv6_address" "ipv6_address should be a string" ≡ ok ipv6
      → (set_settings toml s doc >>= get_settings toml trim)
        ≡ ok (record s {
          startup_delay = clamp 0 10 s.startup_delay;
          port = port;
          ipv4_address = ipv4;
          ipv6_address = ipv6;
        })
  unfolding set_settings get_settings written
  get_settings-set_settings trim s doc t port ipv4 ipv6 g p a b =
      let there : toml.get (toml.insert doc "settings" (toml.table (written s t))) "settings"
          ≡ some (toml.table (written s t)) =
        simp (laws.get-insert, laws.is_none-table) in
      rw (g, place)
        (rw laws.is_none-table (
          rw (assign_all_lem t (settings_entries toml s)) (
            rw (there, get_settings)
              (rw laws.as_table-table (read_written s t trim port ipv4 ipv6 p a b)))))
