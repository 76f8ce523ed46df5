-- ===== src/Modes/Activate.antt =====
-- What the activation of a mode applies.
use coolerocontrol.Base.{
  ◌≡◌, ◌≢◌, refl, ap, inl, inr, String, Bool, true, false, Option, none, some, List, [], ◌∷◌,
  string_eq, string_eq_iff, Bool-cases, All, All-append, All-imp, Any,
}
use coolerocontrol.Base.Dict.{Dict, get}
use coolerocontrol.Base.Outcome.{Outcome, ok, err, panic, err-ne-ok, Outcome-cases}
use coolerocontrol.Setting.{Setting}
use coolerocontrol.Modes.{
  AllDeviceSettings, Mode, ModeController, Sent, is_saved, by_channel, activate_channels,
  activate_devices, finish_activation, is_active, activate_mode,
}

module _ (applies : String → Setting → Bool) (get_device_settings : String → Outcome (List Setting))
    (present : String → Bool) where
  -- A setting that is applied: the mode has it for a channel of a present device, it is not what was
  -- saved for that channel, and the device took it.
  abbrev pub IsDue : String → Dict String Setting → Dict String Setting → String × Setting → Type 0
  IsDue device_uid saved known sent =
      (sent.0 ≡ device_uid)
      × (applies sent.0 sent.1 ≡ true)
      × Any (λ e. (e.1 ≡ sent.1) × (is_saved (get e.0 saved) sent.1 ≡ false)) known

  abbrev pub IsSent : AllDeviceSettings → String × Setting → Type 0
  IsSent known sent =
      Any
        (λ e.
          (present e.0 ≡ true)
          × (settings : List Setting) × (get_device_settings e.0 ≡ ok settings)
          × IsDue e.0 (by_channel settings []) e.1 sent)
        known

  activate_channels-IsDue :
      (device_uid : String) (saved known : Dict String Setting)
      → All (IsDue device_uid saved known) (activate_channels applies device_uid saved known)
  unfolding activate_channels
  activate_channels-IsDue device_uid saved [] = tt
  activate_channels-IsDue device_uid saved ((channel, setting) ∷ rest) =
      let others =
        All-imp (IsDue device_uid saved rest) (IsDue device_uid saved ((channel, setting) ∷ rest))
          (λ s d. (d.0, d.1, inr d.2)) (activate_channels applies device_uid saved rest)
          (activate_channels-IsDue device_uid saved rest) in
      elim (Bool-cases (is_saved (get channel saved) setting)) [
        | inl same ↦ rw (same, activate_channels) others
        | inr differs ↦ elim (Bool-cases (applies device_uid setting)) [
          | inl taken ↦
              rw (differs, taken, activate_channels) ((refl, taken, inl (refl, differs)), others)
          | inr not_taken ↦ rw (differs, not_taken, activate_channels) others
        ]
      ]

  activate_devices-IsSent :
      (known : AllDeviceSettings)
      → All (IsSent known) (activate_devices applies get_device_settings present known).0
  unfolding activate_devices
  activate_devices-IsSent [] = tt
  activate_devices-IsSent ((device_uid, settings) ∷ rest) =
      let others =
        All-imp (IsSent rest) (IsSent ((device_uid, settings) ∷ rest)) (λ s i. inr i)
          (activate_devices applies get_device_settings present rest).0
          (activate_devices-IsSent rest) in
      elim (Bool-cases (present device_uid)) [
        | inr gone ↦ rw (gone, activate_devices) others
        | inl there ↦ elim (Outcome-cases (get_device_settings device_uid)) [
          | inl (saved, e) ↦
              rw (there, e, activate_devices)
                (All-append _ _ _
                  (All-imp _ _ (λ s d. inl (there, saved, e, d)) _
                    (activate_channels-IsDue device_uid (by_channel saved []) settings))
                  others)
          | inr (inl (msg, e)) ↦ rw (there, e, activate_devices) tt
          | inr (inr e) ↦ rw (there, e, activate_devices) tt
        ]
      ]

  -- The result of an activation.
  pub record IsActivation (mode_uid : String) (mode : Mode) (c : ModeController)
      (r : (ModeController × Sent) × Outcome (Unit {0})) : Type 0 where
    pub sent : All (IsSent mode.all_device_settings) r.0.1
    pub done : r.1 ≡ ok tt → r.0.0 ≡ record c { active_mode = some mode_uid }
    pub failed : r.1 ≢ ok tt → r.0.0 ≡ c

  panic-ne-ok : (u : Unit {0}) → panic ≢ ok u
  panic-ne-ok u h = cc

  is_active-of :
      (mode_uid : String) (o : Option String) → is_active mode_uid o ≡ true → o ≡ some mode_uid
  is_active-of mode_uid none h = cc
  is_active-of mode_uid (some active) h = ap some (string_eq_iff active mode_uid h)

  finish_activation-IsActivation :
      (saves : Bool) (mode_uid : String) (mode : Mode) (c : ModeController)
      (activated : Sent × Outcome (Unit {0}))
      → All (IsSent mode.all_device_settings) activated.0
      → IsActivation mode_uid mode c (finish_activation saves mode_uid activated c)
  unfolding finish_activation
  finish_activation-IsActivation true mode_uid mode c (xs, ok u) h = record {
    sent = h;
    done = λ _. refl;
    failed = λ n. absurd (n refl);
  }
  finish_activation-IsActivation false mode_uid mode c (xs, ok u) h = record {
    sent = h;
    done = λ o. absurd (err-ne-ok _ tt o);
    failed = λ _. refl;
  }
  finish_activation-IsActivation saves mode_uid mode c (xs, err e) h = record {
    sent = h;
    done = λ o. absurd (err-ne-ok _ tt o);
    failed = λ _. refl;
  }
  finish_activation-IsActivation saves mode_uid mode c (xs, panic) h = record {
    sent = h;
    done = λ o. absurd (panic-ne-ok tt o);
    failed = λ _. refl;
  }

  -- Activating a mode that exists makes it the active one if it succeeds, and changes nothing in
  -- the controller else. Whatever happens, only settings of the mode are applied and saved: for
  -- devices that are present, and where they differ from what was saved.
  pub activate_mode-IsActivation :
      (saves : Bool) (mode_uid : String) (mode : Mode) (c : ModeController)
      → get mode_uid c.modes ≡ some mode
      → IsActivation mode_uid mode c
          (activate_mode applies get_device_settings present saves mode_uid c)
  unfolding activate_mode
  activate_mode-IsActivation saves mode_uid mode c e =
      elim (Bool-cases (is_active mode_uid c.active_mode)) [
        | inl active ↦
            rw (e, active, activate_mode)
              (record {
                sent = tt;
                done = λ _.
                    ap (λ a. record c { active_mode = a })
                      (is_active-of mode_uid c.active_mode active);
                failed = λ _. refl;
              })
        | inr other ↦
            rw (e, other, activate_mode)
              (finish_activation-IsActivation saves mode_uid mode c _
                (activate_devices-IsSent mode.all_device_settings))
      ]
