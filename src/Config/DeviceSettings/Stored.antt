-- ===== src/Config/DeviceSettings/Stored.antt =====
-- A channel setting that is stored in the configuration file, and read again.
use coolerocontrol.Base.{
  ℕ, ◌≤◌, String, Bool, true, false, Option, none, some, string_eq, ◌==◌, ◌≡◌, ◌⊎◌, inl, inr, refl,
  ap, ◌∙◌, Bool-cases,
}
use coolerocontrol.Base.Outcome.{Outcome, ok}
use coolerocontrol.Config.DeviceSettings.Lighting.{IsLcd}
use coolerocontrol.Config.DeviceSettings.Merged.{
  ReadsAs, Becomes, IsStorable, merged, merged_mode, merged_profile, merged_lcd, merged_lighting,
  merged_speed, mode_step, profile_step, speed_step,
}
use coolerocontrol.Config.DeviceSettings.Steps.{lighting_step, lcd_step}
use coolerocontrol.Config.DeviceSettings.Writes.{AreBytes, IsChannel}
use coolerocontrol.Config.DeviceSettings.{
  is_true, modify_in, or_insert_table, set_profile_field, set_lcd_field, set_lighting_field,
  set_speed_field, set_channel_setting, set_device_setting, read_setting,
}
use coolerocontrol.Config.Tables.Written.{AllSome}
use coolerocontrol.Config.Tables.{place}
use coolerocontrol.Config.Toml.{Toml, IsToml}
use coolerocontrol.Setting.{LightingSettings, LcdSettings, Setting}

module _ {F : Type 0} (toml : Toml F) (laws : IsToml toml) where
  module _ (c : toml.Item) (t : toml.Table) (old : Setting) (h : IsChannel toml c t)
      (r : ReadsAs toml t old) where
    lcd_field :
        (o : Option LcdSettings) (uid : Option String)
        → AllSome IsLcd o
        → Becomes toml laws
            (set_lcd_field toml o (set_profile_field toml uid) c)
            (merged_lcd o (merged_profile uid) old)
    lcd_field none uid v = profile_step toml laws c t old h r uid
    lcd_field (some lcd) uid v = lcd_step toml laws c t old h r lcd v

    lighting_field :
        (l : Option LightingSettings) (o : Option LcdSettings) (uid : Option String)
        → AllSome (λ l. AreBytes l.colors) l
        → AllSome IsLcd o
        → Becomes toml laws
            (set_lighting_field toml l (set_lcd_field toml o (set_profile_field toml uid)) c)
            (merged_lighting l (merged_lcd o (merged_profile uid)) old)
    lighting_field none o uid v w = lcd_field o uid w
    lighting_field (some l) o uid v w = lighting_step toml laws c t old h r l v

    speed_field :
        (n : Option ℕ) (l : Option LightingSettings) (o : Option LcdSettings) (uid : Option String)
        → AllSome (λ n. n ≤ 100) n
        → AllSome (λ l. AreBytes l.colors) l
        → AllSome IsLcd o
        → Becomes toml laws
            (set_speed_field toml n
              (set_lighting_field toml l (set_lcd_field toml o (set_profile_field toml uid)))
              c)
            (merged_speed n (merged_lighting l (merged_lcd o (merged_profile uid))) old)
    speed_field none l o uid u v w = lighting_field l o uid v w
    speed_field (some n) l o uid u v w = speed_step toml laws c t old h r n u

  -- A setting that is no reset is merged into that of the channel.
  pub set_channel_setting-Becomes :
      (setting : Setting) (c : toml.Item) (t : toml.Table) (old : Setting)
      → IsChannel toml c t
      → ReadsAs toml t old
      → IsStorable setting
      → is_true setting.reset_to_default ≡ false
      → Becomes toml laws (set_channel_setting toml setting c) (merged setting old)
  unfolding set_channel_setting merged
  set_channel_setting-Becomes s c t old h r v no_reset =
      let (c1, t1, e, h1, r1) = mode_step toml laws c t old h r s.pwm_mode v.mode_le in
      rw (e, no_reset)
        (speed_field c1 t1 (merged_mode s.pwm_mode old) h1 r1 s.speed_fixed s.lighting s.lcd
          s.profile_uid v.speed_le v.lighting_bytes v.lcd_ranges)

  pub set_channel_setting_reset :
      (setting : Setting) (c : toml.Item) (t : toml.Table) (old : Setting)
      → IsChannel toml c t
      → ReadsAs toml t old
      → IsStorable setting
      → is_true setting.reset_to_default ≡ true
      → set_channel_setting toml setting c ≡ ok toml.none_item
  unfolding set_channel_setting
  set_channel_setting_reset s c t old h r v reset =
      let (c1, t1, e, h1, r1) = mode_step toml laws c t old h r s.pwm_mode v.mode_le in
      rw (e, reset) refl

  -- What stands under a key of a table.
  abbrev pub ChannelAt : toml.Table → String → toml.Table → Type 0
  ChannelAt x name t =
      ((toml.get x name ≡ none) × (t ≡ toml.new)) ⊎ (toml.get x name ≡ some (toml.inline_table t))

  abbrev pub DeviceAt : toml.Table → String → toml.Table → Type 0
  DeviceAt d uid x =
      ((toml.get d uid ≡ none) × (x ≡ toml.new)) ⊎ (toml.get d uid ≡ some (toml.table x))

  -- The setting of a channel in the table of its device.
  abbrev pub HasSetting : toml.Table → String → Setting → Type 0
  HasSetting x name s = (t : toml.Table) × ChannelAt x name t × ReadsAs toml t s

  abbrev pub IsStored : Bool → toml.Table → String → Setting → Type 0
  IsStored true x name s = toml.get x name ≡ none
  IsStored false x name s = HasSetting x name s

  or_none : Option toml.Item → toml.Item
  or_none o = elim o [ some i ↦ i | none ↦ toml.none_item ]

  index-IsChannel :
      (x t : toml.Table) (name : String)
      → ChannelAt x name t
      → IsChannel toml (toml.index (toml.table x) name) t
  unfolding or_none
  index-IsChannel x t name (inl (absent, e)) = inl (laws.index-table x name ∙ ap or_none absent, e)
  index-IsChannel x t name (inr found) = inr (laws.index-table x name ∙ ap or_none found)

  get-insert_none :
      (x : toml.Table) (name : String) → toml.get (toml.insert x name toml.none_item) name ≡ none
  get-insert_none x name = rw (laws.get-insert, string_eq.eq_self name, laws.is_none-none_item) refl

  channel_at :
      (x t : toml.Table) (name : String) (c : toml.Item)
      → IsChannel toml c t
      → ChannelAt (toml.insert x name c) name t
  channel_at x t name c (inl (e, n)) = rw e (inl (get-insert_none x name, n))
  channel_at x t name c (inr e) =
      rw e (inr (rw (laws.get-insert, string_eq.eq_self name, laws.is_none-inline_table) refl))

  -- A step on the channel item, below the table of the device.
  modify_device :
      (x : toml.Table) (name : String) (f : toml.Item → Outcome toml.Item) (c : toml.Item)
      → f (toml.index (toml.table x) name) ≡ ok c
      → modify_in toml (toml.table x) name f ≡ ok (toml.table (toml.insert x name c))
  modify_device x name f c e = rw (laws.is_indexable-table, e, laws.set-table) refl

  -- The channel of a device after the setting.
  channel-IsStored :
      (setting : Setting) (x t : toml.Table) (old : Setting)
      → ChannelAt x setting.channel_name t
      → ReadsAs toml t old
      → IsStorable setting
      → (x' : toml.Table) × (modify_in toml
            (toml.table x)
            setting.channel_name
            (set_channel_setting toml setting)
          ≡ ok (toml.table x'))
        × IsStored (is_true setting.reset_to_default) x' setting.channel_name (merged setting old)
        × ((j : String) → (setting.channel_name == j) ≡ false → toml.get x' j ≡ toml.get x j)
  channel-IsStored s x t old at r v =
      let name = s.channel_name in
      let c = toml.index (toml.table x) name in
      let h = index-IsChannel x t name at in
      elim (Bool-cases (is_true s.reset_to_default)) [
        | inl reset ↦ (
          toml.insert x name toml.none_item,
          modify_device x name (set_channel_setting toml s) toml.none_item
              (set_channel_setting_reset s c t old h r v reset),
          rw reset (get-insert_none x name),
          λ j d. rw (laws.get-insert, d) refl,
        )
        | inr no_reset ↦
            let (c', t', e, h', r') = set_channel_setting-Becomes s c t old h r v no_reset in
            (
              toml.insert x name c',
              modify_device x name (set_channel_setting toml s) c' e,
              rw no_reset (t', channel_at x t' name c' h', r'),
              λ j d. rw (laws.get-insert, d) refl,
            )
      ]

  or_insert_device :
      (d x : toml.Table) (uid : String)
      → DeviceAt d uid x
      → or_insert_table toml (toml.index (toml.table d) uid) ≡ toml.table x
  unfolding or_none
  or_insert_device d x uid (inl (absent, e)) =
      rw (laws.index-table d uid ∙ ap or_none absent) (rw (laws.is_none-none_item, e) refl)
  or_insert_device d x uid (inr found) =
      rw (laws.index-table d uid ∙ ap or_none found) (rw laws.is_none-table refl)

  -- `set_device_setting` merges the setting into the one stored for the channel, or removes that if it
  -- is a reset: the speed replaces the profile and the other way round, the lighting is stored
  -- without its direction, and what the setting does not name stays. The other channels and the
  -- other devices keep theirs. The document holds a table of devices, and for the device a table or
  -- nothing; the inline table of the channel reads as a setting, and the new one is in range.
  pub set_device_setting-IsStored :
      (setting : Setting) (device_uid : String) (doc d x t : toml.Table) (old : Setting)
      → toml.get doc "device-settings" ≡ some (toml.table d)
      → DeviceAt d device_uid x
      → ChannelAt x setting.channel_name t
      → ReadsAs toml t old
      → IsStorable setting
      → (doc' : toml.Table) × (d' : toml.Table) × (x' : toml.Table) × (set_device_setting toml
            device_uid setting doc
          ≡ ok doc')
        × (toml.get doc' "device-settings" ≡ some (toml.table d'))
        × (toml.get d' device_uid ≡ some (toml.table x'))
        × IsStored (is_true setting.reset_to_default) x' setting.channel_name (merged setting old)
        × ((j : String) → (setting.channel_name == j) ≡ false → toml.get x' j ≡ toml.get x j)
        × ((j : String) → (device_uid == j) ≡ false → toml.get d' j ≡ toml.get d j)
  unfolding set_device_setting
  set_device_setting-IsStored s uid doc d x t old g at_d at_c r v =
      let (x', e, stored, others) = channel-IsStored s x t old at_c r v in
      let d' = toml.insert d uid (toml.table x') in
      let step =
        modify_device d uid
          (λ device.
            modify_in toml (or_insert_table toml device) s.channel_name
              (set_channel_setting toml s))
          (toml.table x') (rw (or_insert_device d x uid at_d) e) in
      (
        toml.insert doc "device-settings" (toml.table d'),
        d',
        x',
        rw (g, place) (rw step refl),
        simp (laws.get-insert, laws.is_none-table),
        rw (laws.get-insert, string_eq.eq_self uid, laws.is_none-table) refl,
        stored,
        others,
        λ j n. rw (laws.get-insert, n) refl,
      )

  -- The getter reads such a channel.
  pub read_setting_lem :
      (name : String) (t : toml.Table) (s : Setting)
      → ReadsAs toml t s
      → read_setting toml (name, toml.inline_table t)
        ≡ ok (record s { channel_name = name; reset_to_default = none })
  unfolding read_setting
  read_setting_lem name t s r =
      rw
        (
          laws.as_inline_table-inline_table, r.speed_is, r.lighting_is, r.lcd_is, r.mode_is,
          r.profile_is,
        )
        refl
