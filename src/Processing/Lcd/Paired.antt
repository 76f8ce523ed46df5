-- ===== src/Processing/Lcd/Paired.antt =====
-- The settings and the metadata of the LCD commander stand for the same channels.
use coolerocontrol.Base.{
  ◌≡◌, refl, inl, inr, String, Bool, true, false, ◌&&◌, Option, none, some, [], arith, string_eq,
  ◌==◌, if◌then◌else◌, Option-cases, Bool-cases, subst, string_eq_iff,
}
use coolerocontrol.Base.Dict.{
  Dict, get, contains_key, insert, remove, get-insert, contains_key-insert, contains_key-remove,
}
use coolerocontrol.Base.Outcome.{with_context, Partial, Partial-bind_any}
use coolerocontrol.Setting.{LcdSettings}
use coolerocontrol.Processing.Sensor.{AllDevices}
use coolerocontrol.Processing.Lcd.{
  LcdCommander, insert_channel, remove_channel, new_metadata, schedule_setting,
  clear_channel_setting,
}

-- The channel of the device has an entry.
abbrev pub has_channel : {V : Type 0} → String → Option (Dict String V) → Bool
has_channel channel none = false
has_channel channel (some channels) = contains_key channel channels

module _ {V : Type 0} where
  -- A device's entry is replaced by one that differs in one channel.
  pub has_channel-insert :
      (uid channel u k : String) (b : Bool) (channels : Dict String V)
      (settings : Dict String (Dict String V)) (old : Option (Dict String V))
      → get uid settings ≡ old
      → contains_key k channels ≡ (if channel == k then b else has_channel k old)
      → has_channel k (get u (insert uid channels settings))
        ≡ (if (uid == u) && (channel == k) then b else has_channel k (get u settings))
  has_channel-insert uid channel u k b channels settings old e p = elim (Bool-cases (uid == u)) [
    | inl hit ↦
        let same : get u settings ≡ old =
          subst (λ x. get x settings ≡ old) (string_eq_iff uid u hit) e in
        rw (get-insert uid u channels settings, hit, same) p
    | inr miss ↦ rw (get-insert uid u channels settings, miss) refl
  ]

  has_channel-insert_channel :
      (uid channel u k : String) (v : V) (settings : Dict String (Dict String V))
      → has_channel k (get u (insert_channel uid channel v settings))
        ≡ (if (uid == u) && (channel == k) then true else has_channel k (get u settings))
  unfolding insert_channel contains_key
  has_channel-insert_channel uid channel u k v settings = elim (Option-cases (get uid settings)) [
    | inl absent ↦
        rw (absent, insert_channel)
          (has_channel-insert uid channel u k true (insert channel v []) settings none absent
            (contains_key-insert channel k v []))
    | inr (channels, found) ↦
        rw (found, insert_channel)
          (has_channel-insert uid channel u k true (insert channel v channels) settings
            (some channels) found (contains_key-insert channel k v channels))
  ]

  has_channel-remove_channel :
      (uid channel u k : String) (settings : Dict String (Dict String V))
      → has_channel k (get u (remove_channel uid channel settings))
        ≡ (if (uid == u) && (channel == k) then false else has_channel k (get u settings))
  unfolding remove_channel
  has_channel-remove_channel uid channel u k settings = elim (Option-cases (get uid settings)) [
    | inl absent ↦ rw (absent, remove_channel) (unchanged absent)
    | inr (channels, found) ↦
        rw (found, remove_channel)
          (has_channel-insert uid channel u k false (remove channel channels) settings
            (some channels) found (contains_key-remove channel k channels))
  ]
    where
      unchanged :
          get uid settings ≡ none
          → has_channel k (get u settings)
            ≡ (if (uid == u) && (channel == k) then false else has_channel k (get u settings))
      unchanged absent = elim (Bool-cases (uid == u)) [
        | inl hit ↦
            let same : get u settings ≡ none =
              subst (λ x. get x settings ≡ none) (string_eq_iff uid u hit) absent in
            rw same (ground arith)
        | inr miss ↦ rw miss refl
      ]

module _ {F : Type 0} where
  -- So that an update finds the metadata of each channel that it walks over.
  abbrev pub IsPaired : LcdCommander F → Type 0
  IsPaired c =
      (uid channel : String)
      → has_channel channel (get uid c.scheduled_settings)
        ≡ has_channel channel (get uid c.scheduled_settings_metadata)

  -- Scheduling a screen and clearing a channel keep a metadata entry for exactly the channels that
  -- have a setting. A scheduled channel has one, a cleared one has none.
  pub lcd-IsPaired :
      (all_devices : AllDevices F) (uid channel : String) (lcd_settings : LcdSettings)
      (c : LcdCommander F)
      → IsPaired c
      → Partial
          (schedule_setting all_devices uid channel lcd_settings c)
          (λ r. IsPaired r × (has_channel channel (get uid r.scheduled_settings) ≡ true))
        × IsPaired (clear_channel_setting uid channel c)
        × (has_channel channel (get uid (clear_channel_setting uid channel c).scheduled_settings)
            ≡ false)
  unfolding schedule_setting clear_channel_setting
  lcd-IsPaired all_devices uid channel lcd_settings c h = (
    Partial-bind_any Scheduled _ (with_context _ lcd_settings.temp_source) λ source.
        Partial-bind_any Scheduled _ (with_context _ (get source.device_uid all_devices)) λ _.
          Partial-bind_any Scheduled _ (with_context _ (get uid all_devices)) λ _. (
            λ u k. ground (
              arith,
              has_channel-insert_channel uid channel u k lcd_settings c.scheduled_settings,
              has_channel-insert_channel uid channel u k new_metadata c.scheduled_settings_metadata,
              h u k,
            ),
            ground (
              arith,
              has_channel-insert_channel uid channel uid channel lcd_settings c.scheduled_settings,
              string_eq.eq_self uid,
              string_eq.eq_self channel,
            ),
          ),
    λ u k. ground (
      arith,
      has_channel-remove_channel uid channel u k c.scheduled_settings,
      has_channel-remove_channel uid channel u k c.scheduled_settings_metadata,
      h u k,
    ),
    ground (
      arith,
      has_channel-remove_channel uid channel uid channel c.scheduled_settings,
      string_eq.eq_self uid,
      string_eq.eq_self channel,
    ),
  )
    where
      Scheduled : LcdCommander F → Type 0
      Scheduled r = IsPaired r × (has_channel channel (get uid r.scheduled_settings) ≡ true)
