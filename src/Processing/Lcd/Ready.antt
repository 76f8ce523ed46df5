-- ===== src/Processing/Lcd/Ready.antt =====
-- An update finds all that it looks up, for each entry that it walks over.
use coolerocontrol.Base.{
  ◌≡◌, refl, ◌∙◌, String, Bool, true, ◌&&◌, Option, none, some, List, [], ◌∷◌, if◌then◌else◌,
  string_eq, ◌==◌, All, All-imp, inl, inr, Bool-cases, Option-cases, arith, subst, string_eq_iff,
}
use coolerocontrol.Base.Dict.{
  Dict, get, contains_key, insert, contains_key-insert, get_of_contains_key,
}
use coolerocontrol.Base.Float.{Float}
use coolerocontrol.Base.Outcome.{
  Outcome, Returns, Returns-bind, Returns-unwrap, Outcome-cases, ◌>>=◌,
}
use coolerocontrol.Device.{DeviceType}
use coolerocontrol.Setting.{LcdSettings, TempSource}
use coolerocontrol.Processing.Sensor.{AllDevices}
use coolerocontrol.Processing.Lcd.{LcdCommander, SettingMetadata}
use coolerocontrol.Processing.Lcd.Paired.{has_channel, has_channel-insert}
use coolerocontrol.Processing.Lcd.Update.{
  TempData, Shown, metadata_of, set_last_temp, get_source_temp_data, set_temp_image, set_lcd_image,
  update_channel, update_entries, is_due,
}

module _ {F : Type 0} where
  abbrev pub HasMetadata : LcdCommander F → String → String → Type 0
  HasMetadata c uid channel = has_channel channel (get uid c.scheduled_settings_metadata) ≡ true

  -- The same settings, and metadata for the same channels.
  pub record IsSame (c r : LcdCommander F) : Type 0 where
    pub settings : r.scheduled_settings ≡ c.scheduled_settings
    pub metadata :
        (u k : String)
        → has_channel k (get u r.scheduled_settings_metadata)
          ≡ has_channel k (get u c.scheduled_settings_metadata)

  unchanged : (c : LcdCommander F) → IsSame c c
  unchanged c = record { settings = refl; metadata = λ u k. refl }

  after : (a b c : LcdCommander F) → IsSame a b → IsSame b c → IsSame a c
  after a b c h k = record {
    settings = k.settings ∙ h.settings;
    metadata = λ u j. k.metadata u j ∙ h.metadata u j;
  }

  found_metadata :
      (c : LcdCommander F) (uid channel : String)
      → HasMetadata c uid channel
      → (channels : Dict String (SettingMetadata F)) × (m : SettingMetadata F) × (get uid
            c.scheduled_settings_metadata
          ≡ some channels)
        × (get channel channels ≡ some m)
  found_metadata c uid channel h = elim (Option-cases (get uid c.scheduled_settings_metadata)) [
    | inl absent ↦ ground (arith, h, absent)
    | inr (channels, e) ↦
        let there : contains_key channel channels ≡ true = ground (arith, h, e) in
        let (m, k) = get_of_contains_key channel channels there in (channels, m, e, k)
  ]

  already :
      (c : LcdCommander F) (uid channel u j : String)
      → HasMetadata c uid channel
      → (if (uid == u) && (channel == j)
          then true
          else has_channel j (get u c.scheduled_settings_metadata))
        ≡ has_channel j (get u c.scheduled_settings_metadata)
  already c uid channel u j h = elim (Bool-cases (uid == u)) [
    | inl hit ↦ elim (Bool-cases (channel == j)) [
      | inl same ↦
          let there : HasMetadata c u j =
            subst (HasMetadata c u) (string_eq_iff channel j same)
              (subst (λ x. HasMetadata c x channel) (string_eq_iff uid u hit) h) in
          rw (hit, same, there) refl
      | inr other ↦ rw (hit, other) refl
    ]
    | inr miss ↦ rw miss refl
  ]

  set_last_temp-IsSame :
      (uid channel : String) (temp : F) (c : LcdCommander F)
      → HasMetadata c uid channel
      → Returns (set_last_temp uid channel temp c) (IsSame c)
  unfolding set_last_temp
  set_last_temp-IsSame uid channel temp c h =
      let (channels, m, e, k) = found_metadata c uid channel h in
      let there : contains_key channel channels ≡ true = ground (arith, h, e) in
      rw (e, k)
        (record {
          settings = refl;
          metadata = λ u j.
              has_channel-insert uid channel u j true
                (insert channel (record m { last_temp_set = some temp }) channels)
                c.scheduled_settings_metadata (some channels) e
                (contains_key-insert channel j (record m { last_temp_set = some temp }) channels)
              ∙ already c uid channel u j h;
        })

  metadata_of-Returns :
      {A : Type 0} (c : LcdCommander F) (uid channel : String) (P : A → Type 0)
      (f : SettingMetadata F → Outcome A)
      → HasMetadata c uid channel
      → ((m : SettingMetadata F) → Returns (f m) P)
      → Returns (metadata_of uid channel c >>= f) P
  metadata_of-Returns c uid channel P f h k =
      let (channels, m, e, found) = found_metadata c uid channel h in rw (e, found) (k m)

module _ {F : Type 0} ⦃fl : Float F⦄ (has_repo : DeviceType → Bool)
    (generate : String → String → TempData F → Outcome String) (all_devices : AllDevices F) where
  -- What an update looks up for an entry.
  pub record IsReady (c : LcdCommander F) (entry : String × String × LcdSettings) : Type 0 where
    pub source : (source : TempSource) × (entry.2.temp_source ≡ some source)
    pub target : contains_key entry.0 all_devices ≡ true
    pub metadata : HasMetadata c entry.0 entry.1

  abbrev pub Same : LcdCommander F → LcdCommander F × List Shown → Type 0
  Same c r = IsSame c r.0

  set_temp_image-Same :
      (uid channel : String) (lcd : LcdSettings) (t : TempData F) (c : LcdCommander F)
      → IsReady c (uid, channel, lcd)
      → Returns (set_temp_image has_repo generate all_devices uid channel lcd t c) (Same c)
  unfolding set_temp_image
  set_temp_image-Same uid channel lcd t c h = elim (Outcome-cases (generate uid channel t)) [
    | inl (path, e) ↦
        let (device, there) = get_of_contains_key uid all_devices h.target in
        rw (e, Returns)
          (metadata_of-Returns c uid channel (Same c) _ h.metadata λ m.
            Returns-bind (Same c) (IsSame c) _ (set_last_temp uid channel t.temp c)
              (set_last_temp-IsSame uid channel t.temp c h.metadata)
              λ changed same. rw (there, Returns) same)
    | inr (inl (msg, e)) ↦ rw (e, Returns) (unchanged c)
    | inr (inr e) ↦ rw (e, Returns) (unchanged c)
  ]

  set_lcd_image-Same :
      (uid channel : String) (lcd : LcdSettings) (t : TempData F) (c : LcdCommander F)
      → IsReady c (uid, channel, lcd)
      → Returns (set_lcd_image has_repo generate all_devices uid channel lcd t c) (Same c)
  set_lcd_image-Same uid channel lcd t c h = elim (Bool-cases (lcd.mode == "temp")) [
    | inl shows ↦ rw shows (set_temp_image-Same uid channel lcd t c h)
    | inr other ↦ rw other (unchanged c)
  ]

  update_channel-Same :
      (uid channel : String) (lcd : LcdSettings) (t : Option (TempData F)) (c : LcdCommander F)
      → IsReady c (uid, channel, lcd)
      → Returns (update_channel has_repo generate all_devices uid channel lcd t c) (Same c)
  unfolding update_channel
  update_channel-Same uid channel lcd none c h = unchanged c
  update_channel-Same uid channel lcd (some t) c h =
      metadata_of-Returns c uid channel (Same c) _ h.metadata λ m.
        elim (Bool-cases (is_due has_repo generate all_devices m.last_temp_set t.temp)) [
          | inl due ↦ rw due (set_lcd_image-Same uid channel lcd t c h)
          | inr not_due ↦ rw not_due (unchanged c)
        ]

  IsSame-IsReady :
      (b c : LcdCommander F) (entries : List (String × String × LcdSettings))
      → IsSame b c
      → All (IsReady b) entries
      → All (IsReady c) entries
  IsSame-IsReady b c entries s h =
      All-imp _ _
        (λ entry r. record {
          source = r.source;
          target = r.target;
          metadata = s.metadata entry.0 entry.1 ∙ r.metadata;
        })
        entries h

  source_read :
      (lcd : LcdSettings)
      → (source : TempSource) × (lcd.temp_source ≡ some source)
      → Returns (get_source_temp_data has_repo generate all_devices lcd) (λ t. Unit)
  unfolding get_source_temp_data
  source_read lcd (source, e) = Returns-unwrap (λ t. Unit) _ lcd.temp_source source e tt

  -- The loop comes to its end.
  pub update_entries-Same :
      (entries : List (String × String × LcdSettings)) (c : LcdCommander F)
      → All (IsReady c) entries
      → Returns (update_entries has_repo generate all_devices entries c) (Same c)
  unfolding update_entries
  update_entries-Same [] c h = unchanged c
  update_entries-Same ((uid, channel, lcd) ∷ rest) c h = elim (Bool-cases (lcd.mode == "temp")) [
    | inr other ↦ rw other (unchanged c)
    | inl shows ↦ rw shows (
        Returns-bind (Same c) (λ t. Unit) _ (get_source_temp_data has_repo generate all_devices lcd)
          (source_read lcd h.0.source)
          λ t _.
            Returns-bind (Same c) (Same c) _
              (update_channel has_repo generate all_devices uid channel lcd t c)
              (update_channel-Same uid channel lcd t c h.0)
              λ first same.
                Returns-bind (Same c) (Same first.0) _
                  (update_entries has_repo generate all_devices rest first.0)
                  (update_entries-Same rest first.0 (IsSame-IsReady c first.0 rest same h.1))
                  λ others same'. after c first.0 others.0 same same')
  ]
