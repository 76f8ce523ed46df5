-- ===== src/Config/DeviceSettings/Steps.antt =====
-- Storing a lighting or an LCD setting in the inline table of a channel.
use coolerocontrol.Base.{
  String, false, Option, none, some, List, [], ◌∷◌, string_eq, ◌==◌, ◌≡◌, inl, inr, refl, sym, ap,
  ◌∙◌,
}
use coolerocontrol.Base.Outcome.{ok, ◌>>=◌, bind_assoc}
use coolerocontrol.Config.DeviceSettings.Lighting.{
  IsLcd, lighting_table_lem, lighting_of_written, lcd_table, lcd_table_lem, lcd_no_source,
  lcd_of_written,
}
use coolerocontrol.Config.DeviceSettings.Merged.{
  ReadsAs, Becomes, speed_cong, lighting_cong, lcd_cong, mode_cong, profile_cong,
}
use coolerocontrol.Config.DeviceSettings.Writes.{
  AreBytes, IsChannel, insert_all, assign_channel, modify_channel, write_all_lem,
}
use coolerocontrol.Config.DeviceSettings.{
  write_all, lcd_rest, lcd_entries, set_setting_lighting, set_lcd_source, set_setting_lcd,
}
use coolerocontrol.Config.Fields.{
  optional, get_lighting, lighting_of, get_lcd, lcd_of, get_temp_source,
}
use coolerocontrol.Config.Tables.Source.{
  source_entries, with_source, get-with_source, get_temp_source_entries,
}
use coolerocontrol.Config.Tables.{assign}
use coolerocontrol.Config.Toml.{Toml, IsToml}
use coolerocontrol.Setting.{LightingSettings, LcdSettings, TempSource, Setting}

module _ {F : Type 0} (toml : Toml F) (laws : IsToml toml) where
  -- The writes of a part: the old inline table goes, and the new one has the entries.
  rewritten :
      (c : toml.Item) (t : toml.Table) (key : String) (mode : toml.Item)
      (es : List (String × toml.Item))
      → IsChannel toml c t
      → (t' : toml.Table) × ((assign toml c key toml.none_item >>= λ cleared.
            write_all toml cleared key (("mode", mode) ∷ es))
          ≡ ok (toml.inline_table t'))
        × (toml.get t' key
            ≡ some (toml.inline_table (insert_all toml (toml.insert toml.new "mode" mode) es)))
        × ((j : String) → (key == j) ≡ false → toml.get t' j ≡ toml.get t j)
  rewritten c t key mode es h =
      let t0 = toml.insert t key toml.none_item in
      let absent : toml.get t0 key ≡ none =
        rw (laws.get-insert, string_eq.eq_self key, laws.is_none-none_item) refl in
      let (t', e, (found, others)) =
        write_all_lem toml laws (toml.inline_table t0) t0 toml.new key "mode" mode es (inr refl)
          (inl (absent, refl)) in
      (
        t',
        rw (assign_channel toml laws c t key toml.none_item h) e,
        found,
        λ j d. others j d ∙ rw (laws.get-insert, d) refl,
      )

  get_lighting_of :
      (t : toml.Table) (item : toml.Item) (l : LightingSettings)
      → toml.get t "lighting" ≡ some item
      → lighting_of toml t item ≡ ok l
      → get_lighting toml t ≡ ok (some l)
  unfolding get_lighting
  get_lighting_of t item l g e = ap (optional (lighting_of toml t)) g ∙ rw e refl

  get_lcd_of :
      (t : toml.Table) (item : toml.Item) (l : LcdSettings)
      → toml.get t "lcd" ≡ some item
      → lcd_of toml item ≡ ok l
      → get_lcd toml t ≡ ok (some l)
  unfolding get_lcd
  get_lcd_of t item l g e = ap (optional (lcd_of toml)) g ∙ rw e refl

  module _ (c : toml.Item) (t : toml.Table) (old : Setting) (h : IsChannel toml c t)
      (r : ReadsAs toml t old) where
    pub lighting_step :
        (l : LightingSettings)
        → AreBytes l.colors
        → Becomes toml laws
            (set_setting_lighting toml l c)
            (record old { lighting = some (record l { backward = none }) })
    unfolding set_setting_lighting
    lighting_step l v =
        let (t', e, found, others) = rewritten c t "lighting" (toml.string l.mode) _ h in
        let back = others "backward" refl ∙ r.no_backward in
        (
          toml.inline_table t',
          t',
          e,
          inr refl,
          record {
            speed_is = speed_cong toml t t' (others "speed_fixed" refl) ∙ r.speed_is;
            lighting_is =
                get_lighting_of t' _ _
                  (found ∙ ap (λ x. some (toml.inline_table x)) (lighting_table_lem toml laws l))
                  (lighting_of_written toml laws l t' back v);
            lcd_is = lcd_cong toml t t' (others "lcd" refl) ∙ r.lcd_is;
            mode_is = mode_cong toml t t' (others "pwm_mode" refl) ∙ r.mode_is;
            profile_is = profile_cong toml t t' (others "profile_uid" refl) ∙ r.profile_is;
            no_backward = back;
          },
        )

    -- After the LCD setting: its table, and the other keys but that of a source.
    lcd_reads :
        (l : LcdSettings) (t' table : toml.Table)
        → toml.get t' "lcd" ≡ some (toml.inline_table table)
        → lcd_of toml (toml.inline_table table) ≡ ok l
        → ((j : String)
            → ("lcd" == j) ≡ false
            → ("temp_source" == j) ≡ false
            → toml.get t' j ≡ toml.get t j)
        → ReadsAs toml t' (record old { lcd = some l })
    lcd_reads l t' table found e others = record {
      speed_is = speed_cong toml t t' (others "speed_fixed" refl refl) ∙ r.speed_is;
      lighting_is =
          lighting_cong toml t t' (others "lighting" refl refl) (others "backward" refl refl)
          ∙ r.lighting_is;
      lcd_is = get_lcd_of t' _ l found e;
      mode_is = mode_cong toml t t' (others "pwm_mode" refl refl) ∙ r.mode_is;
      profile_is = profile_cong toml t t' (others "profile_uid" refl refl) ∙ r.profile_is;
      no_backward = others "backward" refl refl ∙ r.no_backward;
    }

  -- The two writes of a source below the LCD table.
  source_writes :
      (i : toml.Item) (s : toml.Table) (source : TempSource)
      → IsChannel toml i s
      → toml.get s "temp_source" ≡ none
      → write_all toml i "temp_source" (
          ("temp_name", toml.string source.temp_name)
          ∷ ("device_uid", toml.string source.device_uid)
          ∷ [])
        ≡ ok (toml.inline_table (with_source toml s toml.new source))
  source_writes i s source h absent =
      let named = toml.insert toml.new "temp_name" (toml.string source.temp_name) in
      let s1 = toml.insert s "temp_source" (toml.inline_table named) in
      rw
        (modify_channel toml laws i s toml.new "temp_source"
          (λ inner. assign toml inner "temp_name" (toml.string source.temp_name)) named h
          (inl (absent, refl))
          (λ x k. assign_channel toml laws x toml.new "temp_name" (toml.string source.temp_name) k))
        (rw
          (modify_channel toml laws (toml.inline_table s1) s1 named "temp_source"
            (λ inner. assign toml inner "device_uid" (toml.string source.device_uid))
            (source_entries toml toml.new source) (inr refl)
            (inr (simp (laws.get-insert, laws.is_none-inline_table)))
            (λ x k.
              assign_channel toml laws x named "device_uid" (toml.string source.device_uid) k))
          refl)

  no_source :
      (table : toml.Table)
      → toml.get table "temp_source" ≡ none
      → get_temp_source toml table ≡ ok none
  unfolding get_temp_source
  no_source table e = ap (optional _) e

  module _ (c : toml.Item) (t : toml.Table) (old : Setting) (h : IsChannel toml c t)
      (r : ReadsAs toml t old) where
    -- The source of the LCD setting `l` is `o`: the rest of it is written.
    source_step :
        (l : LcdSettings) (o : Option TempSource) (t1 : toml.Table)
        → l.temp_source ≡ o
        → IsLcd l
        → toml.get t1 "lcd" ≡ some (toml.inline_table (lcd_table toml laws l))
        → ((j : String) → ("lcd" == j) ≡ false → toml.get t1 j ≡ toml.get t j)
        → Becomes toml laws
            (set_lcd_source toml o (toml.inline_table t1))
            (record old { lcd = some l })
    source_step l none t1 e v found others =
        let read =
          lcd_of_written toml laws l (lcd_table toml laws l) (λ j d. refl)
            (no_source (lcd_table toml laws l) (lcd_no_source toml laws l) ∙ ap ok (sym e)) v in
        (
          toml.inline_table t1,
          t1,
          refl,
          inr refl,
          lcd_reads c t old h r l t1 (lcd_table toml laws l) found read (λ j a b. others j a),
        )
    source_step l (some source) t1 e v found others =
        let table = lcd_table toml laws l in
        let with = with_source toml table toml.new source in
        let t2 = toml.insert t1 "temp_source" toml.none_item in
        let t' = toml.insert t2 "lcd" (toml.inline_table with) in
        let read =
          lcd_of_written toml laws l with
            (λ j d. get-with_source toml laws table toml.new source j ∙ rw d refl)
            (get_temp_source_entries toml laws with toml.new source
                (get-with_source toml laws table toml.new source "temp_source")
              ∙ ap ok (sym e))
            v in
        (
          toml.inline_table t',
          t',
          rw
              (assign_channel toml laws (toml.inline_table t1) t1 "temp_source" toml.none_item
                (inr refl))
              (modify_channel toml laws (toml.inline_table t2) t2 table "lcd"
                (λ lcd. write_all toml lcd "temp_source" (
                  ("temp_name", toml.string source.temp_name)
                  ∷ ("device_uid", toml.string source.device_uid)
                  ∷ []))
                with (inr refl) (inr (simp (laws.get-insert) found))
                (λ i k. source_writes i table source k (lcd_no_source toml laws l))),
          inr refl,
          lcd_reads c t old h r l t' with (simp (laws.get-insert, laws.is_none-inline_table)) read
              (λ j a b. rw (laws.get-insert, a, laws.get-insert, b) (others j a)),
        )

    pub lcd_step :
        (l : LcdSettings)
        → IsLcd l
        → Becomes toml laws (set_setting_lcd toml l c) (record old { lcd = some l })
    unfolding set_setting_lcd
    lcd_step l v =
        let (t1, e, found, others) = rewritten c t "lcd" (toml.string l.mode) (lcd_rest toml l) h in
        let (c2, t2, e2, h2, r2) =
          source_step l l.temp_source t1 refl v
            (found ∙ ap (λ x. some (toml.inline_table x)) (lcd_table_lem toml laws l)) others in
        (
          c2,
          t2,
          sym (
                bind_assoc (assign toml c "lcd" toml.none_item)
                  (λ cleared. write_all toml cleared "lcd" (lcd_entries toml l))
                  (set_lcd_source toml l.temp_source))
              ∙ ap (λ m. m >>= set_lcd_source toml l.temp_source) e
              ∙ e2,
          h2,
          r2,
        )
