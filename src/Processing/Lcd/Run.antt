-- ===== src/Processing/Lcd/Run.antt =====
-- The LCD commander over any sequence of operations: an update never misses what it looks up.
use coolerocontrol.Base.{
  ◌≡◌, refl, sym, ◌∙◌, ap, String, Bool, true, none, some, List, [], ◌∷◌, string_eq, All,
  All-append, subst,
}
use coolerocontrol.Base.Dict.{
  Dict, get, contains_key, IsDistinct, keys_present, entries_read, contains_key_of_get,
}
use coolerocontrol.Base.Float.{Float}
use coolerocontrol.Base.Outcome.{
  Outcome, ok, Returns, Returns-imp, Partial, Partial-ok, Partial-with_context, Returns-ok,
}
use coolerocontrol.Device.{DeviceType}
use coolerocontrol.Setting.{LcdSettings}
use coolerocontrol.Processing.Sensor.{AllDevices}
use coolerocontrol.Processing.Lcd.{LcdCommander, schedule_setting, clear_channel_setting}
use coolerocontrol.Processing.Lcd.Paired.{IsPaired, has_channel, lcd-IsPaired}
use coolerocontrol.Processing.Lcd.Ready.{IsReady, IsSame, update_entries-Same}
use coolerocontrol.Processing.Lcd.Scheduled.{
  HasSource, IsScheduled, insert_channel-IsScheduled, remove_channel-IsScheduled,
  insert_channel-IsDistinct, remove_channel-IsDistinct,
}
use coolerocontrol.Processing.Lcd.Update.{TempData, Shown, channels_of, entries_of, update_lcd}

module _ {F : Type 0} ⦃fl : Float F⦄ (present : String → Bool) where
  -- The devices that are there, whatever they report.
  abbrev pub HasDevices : AllDevices F → Type 0
  HasDevices all_devices = (uid : String) → contains_key uid all_devices ≡ present uid

  pub record IsShowable (c : LcdCommander F) : Type 0 where
    pub paired : IsPaired c
    pub distinct : IsDistinct c.scheduled_settings
    pub scheduled : All (IsScheduled present) c.scheduled_settings

  -- One operation that succeeds; at each, the devices report something else.
  pub data Step : LcdCommander F → LcdCommander F → Type 0 where
    set :
        {c : LcdCommander F} (all_devices : AllDevices F) (uid channel : String)
        (lcd_settings : LcdSettings) (c' : LcdCommander F)
        → HasDevices all_devices
        → schedule_setting all_devices uid channel lcd_settings c ≡ ok c'
        → Step c c'
    cleared :
        {c : LcdCommander F} (uid channel : String) → Step c (clear_channel_setting uid channel c)
    updated :
        {c : LcdCommander F} (has_repo : DeviceType → Bool)
        (generate : String → String → TempData F → Outcome String) (all_devices : AllDevices F)
        (r : LcdCommander F × List Shown)
        → HasDevices all_devices
        → update_lcd has_repo generate all_devices c ≡ ok r
        → Step c r.0

  pub data Reachable : LcdCommander F → Type 0 where
    started : Reachable (record { scheduled_settings = []; scheduled_settings_metadata = [] })
    stepped : {c c' : LcdCommander F} → Reachable c → Step c c' → Reachable c'

  module _ (has_repo : DeviceType → Bool) (generate : String → String → TempData F → Outcome String)
      (all_devices : AllDevices F) (there : HasDevices all_devices) where
    channels_of-IsReady :
        (uid : String) (c : LcdCommander F) (channels whole : Dict String LcdSettings)
        → present uid ≡ true
        → get uid c.scheduled_settings ≡ some whole
        → IsPaired c
        → All (λ entry. contains_key entry.0 whole ≡ true) channels
        → All (λ entry. HasSource entry.1) channels
        → All (IsReady has_repo generate all_devices c) (channels_of uid channels)
    unfolding channels_of
    channels_of-IsReady uid c [] whole p e paired k h = tt
    channels_of-IsReady uid c ((channel, lcd) ∷ rest) whole p e paired k h = (
      record {
        source = h.0;
        target = there uid ∙ p;
        metadata = sym (paired uid channel) ∙ rw e k.0;
      },
      channels_of-IsReady uid c rest whole p e paired k.1 h.1,
    )

    entries_of-IsReady :
        (c : LcdCommander F) (settings : Dict String (Dict String LcdSettings))
        → IsPaired c
        → All (λ entry. get entry.0 c.scheduled_settings ≡ some entry.1) settings
        → All (IsScheduled present) settings
        → All (IsReady has_repo generate all_devices c) (entries_of settings)
    unfolding entries_of
    entries_of-IsReady c [] paired e h = tt
    entries_of-IsReady c ((uid, channels) ∷ rest) paired e h =
        All-append _ (channels_of uid channels) (entries_of rest)
          (channels_of-IsReady uid c channels channels h.0.0 e.0 paired (keys_present channels)
            h.0.1)
          (entries_of-IsReady c rest paired e.1 h.1)

    update_lcd-IsShowable :
        (c : LcdCommander F)
        → IsShowable c
        → Returns (update_lcd has_repo generate all_devices c) (λ r. IsSame c r.0)
    unfolding update_lcd
    update_lcd-IsShowable c h =
        update_entries-Same has_repo generate all_devices (entries_of c.scheduled_settings) c (
          entries_of-IsReady c c.scheduled_settings h.paired
            (entries_read c.scheduled_settings h.distinct) h.scheduled)

  IsSame-IsShowable : (c r : LcdCommander F) → IsSame c r → IsShowable c → IsShowable r
  IsSame-IsShowable c r s h = record {
    paired =
        λ u k. ap (λ m. has_channel k (get u m)) s.settings ∙ h.paired u k ∙ sym (s.metadata u k);
    distinct = subst IsDistinct (sym s.settings) h.distinct;
    scheduled = subst (All (IsScheduled present)) (sym s.settings) h.scheduled;
  }

  schedule_setting-IsScheduled :
      (all_devices : AllDevices F) (uid channel : String) (lcd : LcdSettings) (c : LcdCommander F)
      → HasDevices all_devices
      → IsShowable c
      → Partial
          (schedule_setting all_devices uid channel lcd c)
          (λ r. IsDistinct r.scheduled_settings × All (IsScheduled present) r.scheduled_settings)
  unfolding schedule_setting
  schedule_setting-IsScheduled all_devices uid channel lcd c there h =
      Partial-with_context Kept _ _ lcd.temp_source λ source e.
        Partial-with_context Kept _ _ (get source.device_uid all_devices) λ _ _.
          Partial-with_context Kept _ _ (get uid all_devices) λ device found. (
            insert_channel-IsDistinct uid channel lcd c.scheduled_settings h.distinct,
            insert_channel-IsScheduled present uid channel lcd c.scheduled_settings
                (sym (there uid) ∙ contains_key_of_get uid all_devices device found) (source, e)
                h.scheduled,
          )
    where
      Kept : LcdCommander F → Type 0
      Kept r = IsDistinct r.scheduled_settings × All (IsScheduled present) r.scheduled_settings

  Step-IsShowable : (c c' : LcdCommander F) → Step c c' → IsShowable c → IsShowable c'
  unfolding clear_channel_setting
  Step-IsShowable c c' (set all_devices uid channel lcd _ there e) h =
      let (distinct, scheduled) =
        Partial-ok _ _ c' e (schedule_setting-IsScheduled all_devices uid channel lcd c there h) in
      record {
        paired = (Partial-ok _ _ c' e (lcd-IsPaired all_devices uid channel lcd c h.paired).0).0;
        distinct = distinct;
        scheduled = scheduled;
      }
  Step-IsShowable c c' (cleared uid channel) h = record {
    paired =
        (lcd-IsPaired [] uid channel
          (record {
            mode = "";
            brightness = none;
            orientation = none;
            image_file_processed = none;
            colors = [];
            temp_source = none;
          })
          c h.paired).1;
    distinct = remove_channel-IsDistinct uid channel c.scheduled_settings h.distinct;
    scheduled = remove_channel-IsScheduled present uid channel c.scheduled_settings h.scheduled;
  }
  Step-IsShowable c c' (updated has_repo generate all_devices r there e) h =
      IsSame-IsShowable c r.0
        (Returns-ok (λ r. IsSame c r.0) _ r e
          (update_lcd-IsShowable has_repo generate all_devices there c h))
        h

  Reachable-IsShowable : (c : LcdCommander F) → Reachable c → IsShowable c
  unfolding get
  Reachable-IsShowable c started = record { paired = λ u k. refl; distinct = tt; scheduled = tt }
  Reachable-IsShowable c (stepped {c = b} r s) = Step-IsShowable b c s (Reachable-IsShowable b r)

  -- Whatever has been scheduled, cleared and updated before, whatever the devices report and whether
  -- images can be drawn: an update of the screens comes to its end without a panic. It leaves the
  -- settings as they are, and each channel with a setting keeps its metadata. The devices are the ones
  -- found at the start.
  pub Reachable-update_lcd :
      (has_repo : DeviceType → Bool) (generate : String → String → TempData F → Outcome String)
      (all_devices : AllDevices F) (c : LcdCommander F)
      → HasDevices all_devices
      → Reachable c
      → Returns
          (update_lcd has_repo generate all_devices c)
          λ r. (r.0.scheduled_settings ≡ c.scheduled_settings) × IsPaired r.0
  Reachable-update_lcd has_repo generate all_devices c there r =
      let h = Reachable-IsShowable c r in
      Returns-imp (λ r. IsSame c r.0)
        (λ r. (r.0.scheduled_settings ≡ c.scheduled_settings) × IsPaired r.0)
        (update_lcd has_repo generate all_devices c)
        (λ r s. (s.settings, (IsSame-IsShowable c r.0 s h).paired))
        (update_lcd-IsShowable has_repo generate all_devices there c h)
