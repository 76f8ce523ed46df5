-- ===== src/Processing/Settings/Wake.antt =====
-- processing/settings.rs: the status histories after a wake-up from sleep.
use coolerocontrol.Base.{
  ℕ, ◌≡◌, refl, String, false, Option, none, some, [], ◌∷◌, map, length, is_empty, All, All-imp,
  All-append, get_last?, get_last?_of_ne, get_last?-append, subst, sym, ap, ◌∙◌,
}
use coolerocontrol.Base.Float.{Float}
use coolerocontrol.Base.Outcome.{Outcome, ok, err, panic, Returns}
use coolerocontrol.Device.{
  Device, Status, ChannelStatus, status_size, status_current, zero_if_some, zeroed_temp,
  initialize_status_history_with,
}
use coolerocontrol.Device.History.{
  IsPlaceholder, zeroed_temp-cold, initialize_status_history_with_lem,
}
use coolerocontrol.Processing.Sensor.{AllDevices}

module _ {F : Type 0} ⦃fl : Float F⦄ where
  abbrev pub stopped_channel : ChannelStatus F → ChannelStatus F
  stopped_channel c = record c {
    rpm = zero_if_some 0 c.rpm;
    duty = zero_if_some (fl.of_nat 0) c.duty;
  }

  -- After a wake-up the newest status of a device, with zeros, starts its history anew. The
  -- timestamp is the time of the call less half a second.
  abbrev pub reinitialized : ℕ → Device F → Option (Status F) → Outcome (Device F)
  reinitialized timestamp device none = panic
  reinitialized timestamp device (some most_recent) = ok (
      initialize_status_history_with device (record {
        timestamp = timestamp;
        temps = map zeroed_temp most_recent.temps;
        channels = map stopped_channel most_recent.channels;
      }))

  abbrev pub with_device :
      String → Outcome (Device F) → Outcome (AllDevices F) → Outcome (AllDevices F)
  with_device uid (ok device) (ok others) = ok ((uid, device) ∷ others)
  with_device uid (ok device) (err e) = err e
  with_device uid (ok device) panic = panic
  with_device uid (err e) others = err e
  with_device uid panic others = panic

  unfoldable pub reinitialize_all_status_histories : ℕ → AllDevices F → Outcome (AllDevices F)
  reinitialize_all_status_histories timestamp [] = ok []
  reinitialize_all_status_histories timestamp ((uid, device) ∷ rest) =
      with_device uid (reinitialized timestamp device (status_current device))
        (reinitialize_all_status_histories timestamp rest)

  abbrev pub IsCold : Status F → Type 0
  IsCold s = All (λ t. t.temp ≡ fl.of_nat 0) s.temps

  -- The device with another history, a full one, in which no sensor has a temperature and whose
  -- newest status has the timestamp.
  pub record IsRestarted (timestamp : ℕ) (before after : Device F) : Type 0 where
    pub same : after ≡ record before { status_history = after.status_history }
    pub full : length after.status_history ≡ status_size
    pub cold : All IsCold after.status_history
    pub newest : (s : Status F) × (status_current after ≡ some s) × (s.timestamp ≡ timestamp)

  -- The same devices under the same UIDs.
  abbrev pub AreRestarted : ℕ → AllDevices F → AllDevices F → Type 0
  AreRestarted timestamp [] [] = Unit
  AreRestarted timestamp [] (_ ∷ _) = ⊥
  AreRestarted timestamp (_ ∷ _) [] = ⊥
  AreRestarted timestamp ((uid, before) ∷ rest) ((uid', after) ∷ others) =
      (uid ≡ uid') × IsRestarted timestamp before after × AreRestarted timestamp rest others

  restarted :
      (timestamp : ℕ) (device : Device F) (s : Status F)
      → IsRestarted timestamp device (
          initialize_status_history_with device
            (record s { timestamp = timestamp; temps = map zeroed_temp s.temps }))
  unfolding initialize_status_history_with status_current
  restarted timestamp device s =
      let latest = record s { timestamp = timestamp; temps = map zeroed_temp s.temps } in
      let (full, zs, e, placeholders) = initialize_status_history_with_lem device latest in
      record {
        same = refl;
        full = full;
        cold = subst (All IsCold) (sym e) (
            All-append IsCold zs (latest ∷ [])
              (All-imp (IsPlaceholder latest) IsCold (λ z p. p.cold) zs placeholders)
              (zeroed_temp-cold s.temps, tt));
        newest = (latest, ap get_last? e ∙ get_last?-append latest zs, refl);
      }

  reinitialized-IsRestarted :
      (timestamp : ℕ) (device : Device F)
      → is_empty device.status_history ≡ false
      → Returns
          (reinitialized timestamp device (status_current device))
          (IsRestarted timestamp device)
  unfolding status_current
  reinitialized-IsRestarted timestamp device h =
      let (s, e) = get_last?_of_ne device.status_history h in
      rw e (restarted timestamp device (record s { channels = map stopped_channel s.channels }))

  with_device-AreRestarted :
      (timestamp : ℕ) (uid : String) (device : Device F) (rest : AllDevices F)
      (d : Outcome (Device F)) (others : Outcome (AllDevices F))
      → Returns d (IsRestarted timestamp device)
      → Returns others (AreRestarted timestamp rest)
      → Returns (with_device uid d others) (AreRestarted timestamp ((uid, device) ∷ rest))
  with_device-AreRestarted timestamp uid device rest (ok d) (ok others) h k = (refl, h, k)
  with_device-AreRestarted timestamp uid device rest (ok d) (err e) h k = elim k [ ]
  with_device-AreRestarted timestamp uid device rest (ok d) panic h k = elim k [ ]
  with_device-AreRestarted timestamp uid device rest (err e) others h k = elim h [ ]
  with_device-AreRestarted timestamp uid device rest panic others h k = elim h [ ]

  -- If every device has a status, the histories of all devices are started anew without a panic:
  -- each is full, has no temperature but zero, so that nothing from before the sleep remains, and
  -- its newest status has the given timestamp. Nothing else of a device changes.
  pub reinitialize_all_status_histories-AreRestarted :
      (timestamp : ℕ) (all_devices : AllDevices F)
      → All (λ entry. is_empty entry.1.status_history ≡ false) all_devices
      → Returns
          (reinitialize_all_status_histories timestamp all_devices)
          (AreRestarted timestamp all_devices)
  unfolding reinitialize_all_status_histories
  reinitialize_all_status_histories-AreRestarted timestamp [] h = tt
  reinitialize_all_status_histories-AreRestarted timestamp ((uid, device) ∷ rest) h =
      with_device-AreRestarted timestamp uid device rest _ _
        (reinitialized-IsRestarted timestamp device h.0)
        (reinitialize_all_status_histories-AreRestarted timestamp rest h.1)
