-- ===== src/Modes/Active.antt =====
-- Which mode is active.
use coolerocontrol.Base.{
  ◌≡◌, ◌≢◌, refl, sym, ap, ◌∙◌, inl, inr, String, Bool, true, false, ◌&&◌, Option, none, some, List,
  [], ◌∷◌, string_eq, string_eq_iff, Bool-cases, All, Any, if◌then◌else◌,
}
use coolerocontrol.Base.Dict.{Dict, get}
use coolerocontrol.Base.Outcome.{Outcome, ok, Returns, Returns-bind, Returns-imp}
use coolerocontrol.Setting.{Setting, setting_eqb, default_profile_uid}
use coolerocontrol.Modes.{
  is_default_profile, AllDeviceSettings, Mode, ModeController, channel_matches, channels_match,
  device_matches, mode_matches, find_active_mode, determine_active_mode,
}

-- A setting is the one of the mode; a channel that the mode does not know has the default profile.
abbrev pub IsChannelMatch : Setting → Option Setting → Type 0
IsChannelMatch s none = s.profile_uid ≡ some default_profile_uid
IsChannelMatch s (some m) = setting_eqb s m ≡ true

-- All settings of a device are those of a mode; a device that the mode does not know has none.
abbrev pub IsDeviceMatch : Option (Dict String Setting) → List Setting → Type 0
IsDeviceMatch none settings = settings ≡ []
IsDeviceMatch (some known) settings =
    All (λ s. IsChannelMatch s (get s.channel_name known)) settings

true-ne-false : true ≢ false
true-ne-false h = cc

ok_unique : {A : Type 0} (m : Outcome A) (a b : A) → m ≡ ok a → m ≡ ok b → a ≡ b
ok_unique m a b h k = cc

both : (a b : Bool) → a && b ≡ true → (a ≡ true) × (b ≡ true)
both true b h = (refl, h)
both false b h = cc

is_default_profile-of :
    (o : Option String) → is_default_profile o ≡ true → o ≡ some default_profile_uid
is_default_profile-of none h = cc
is_default_profile-of (some uid) h = ap some (string_eq_iff uid default_profile_uid h)

channel_matches-of :
    (s : Setting) (o : Option Setting) → channel_matches s o ≡ true → IsChannelMatch s o
channel_matches-of s none h = is_default_profile-of s.profile_uid h
channel_matches-of s (some m) h = h

channel_matches_if :
    (s : Setting) (o : Option Setting) → IsChannelMatch s o → channel_matches s o ≡ true
channel_matches_if s none h = rw h (string_eq.eq_self default_profile_uid)
channel_matches_if s (some m) h = h

channels_match-of :
    (known : Dict String Setting) (settings : List Setting)
    → channels_match known settings ≡ true
    → All (λ s. IsChannelMatch s (get s.channel_name known)) settings
unfolding channels_match
channels_match-of known [] h = tt
channels_match-of known (s ∷ rest) h =
    let (first, others) = both _ _ h in
    (channel_matches-of s (get s.channel_name known) first, channels_match-of known rest others)

channels_match_if :
    (known : Dict String Setting) (settings : List Setting)
    → All (λ s. IsChannelMatch s (get s.channel_name known)) settings
    → channels_match known settings ≡ true
unfolding channels_match
channels_match_if known [] h = refl
channels_match_if known (s ∷ rest) h =
    rw (channel_matches_if s (get s.channel_name known) h.0) (channels_match_if known rest h.1)

device_matches-of :
    (o : Option (Dict String Setting)) (settings : List Setting)
    → device_matches o settings ≡ true
    → IsDeviceMatch o settings
device_matches-of none [] h = refl
device_matches-of none (s ∷ rest) h = cc
device_matches-of (some known) settings h = channels_match-of known settings h

device_matches_if :
    (o : Option (Dict String Setting)) (settings : List Setting)
    → IsDeviceMatch o settings
    → device_matches o settings ≡ true
device_matches_if none settings h = rw h refl
device_matches_if (some known) settings h = channels_match_if known settings h

module _ (get_device_settings : String → Outcome (List Setting)) where
  -- The configuration can be read for these devices.
  abbrev pub AreReadable : List String → Type 0
  AreReadable = All (λ d. (settings : List Setting) × (get_device_settings d ≡ ok settings))

  -- What is saved for each device is what the mode has for it.
  abbrev pub IsModeMatch : AllDeviceSettings → List String → Type 0
  IsModeMatch known = All (λ d.
      (settings : List Setting) × (get_device_settings d ≡ ok settings)
      × IsDeviceMatch (get d known) settings)

  abbrev Decides : AllDeviceSettings → List String → Bool → Type 0
  Decides known ds true = IsModeMatch known ds
  Decides known ds false = ¬ IsModeMatch known ds

  mode_matches-Decides :
      (known : AllDeviceSettings) (ds : List String)
      → AreReadable ds
      → Returns (mode_matches get_device_settings known ds) (Decides known ds)
  unfolding mode_matches
  mode_matches-Decides known [] r = tt
  mode_matches-Decides known (d ∷ ds) r =
      let (settings, e) = r.0 in
      rw e (elim (Bool-cases (device_matches (get d known) settings)) [
        | inl matched ↦ rw matched (
            Returns-imp (Decides known ds) (Decides known (d ∷ ds)) _
              (more d ds settings e (device_matches-of (get d known) settings matched))
              (mode_matches-Decides known ds r.1))
        | inr other ↦ rw other (λ m.
            let (found, e', i) = m.0 in
            let same : settings ≡ found = ok_unique _ _ _ e e' in
            true-ne-false (
              sym (device_matches_if (get d known) found i)
              ∙ ap (device_matches (get d known)) (sym same)
              ∙ other))
      ])
    where
      more :
          (d : String) (ds : List String) (settings : List Setting)
          → get_device_settings d ≡ ok settings
          → IsDeviceMatch (get d known) settings
          → (b : Bool) → Decides known ds b
          → Decides known (d ∷ ds) b
      more d ds settings e i true h = ((settings, e, i), h)
      more d ds settings e i false h = λ m. h m.1

  -- The active mode matches, and without one no mode does.
  abbrev pub IsActive : List String → Dict String Mode → Option String → Type 0
  IsActive ds modes none = All (λ entry. ¬ IsModeMatch entry.1.all_device_settings ds) modes
  IsActive ds modes (some uid) =
      Any (λ entry. (entry.0 ≡ uid) × IsModeMatch entry.1.all_device_settings ds) modes

  find_active_mode-IsActive :
      (ds : List String) (modes : Dict String Mode)
      → AreReadable ds
      → Returns (find_active_mode get_device_settings ds modes) (IsActive ds modes)
  unfolding find_active_mode
  find_active_mode-IsActive ds [] r = tt
  find_active_mode-IsActive ds ((uid, mode) ∷ rest) r =
      Returns-bind (IsActive ds ((uid, mode) ∷ rest)) (Decides mode.all_device_settings ds) _ _
        (mode_matches-Decides mode.all_device_settings ds r)
        (decided uid mode rest (find_active_mode-IsActive ds rest r))
    where
      later :
          (uid : String) (mode : Mode) (rest : Dict String Mode) (o : Option String)
          → ¬ IsModeMatch mode.all_device_settings ds
          → IsActive ds rest o
          → IsActive ds ((uid, mode) ∷ rest) o
      later uid mode rest none n h = (n, h)
      later uid mode rest (some v) n h = inr h

      decided :
          (uid : String) (mode : Mode) (rest : Dict String Mode)
          → Returns (find_active_mode get_device_settings ds rest) (IsActive ds rest)
          → (b : Bool) → Decides mode.all_device_settings ds b
          → Returns
              (if b then ok (some uid) else find_active_mode get_device_settings ds rest)
              (IsActive ds ((uid, mode) ∷ rest))
      decided uid mode rest h true d = inl (refl, d)
      decided uid mode rest h false d =
          Returns-imp (IsActive ds rest) _ _ (λ o i. later uid mode rest o d i) h

  -- If the configuration can be read, the active mode is determined: it is one whose settings match
  -- what is saved for every present device, and there is none only if no mode matches.
  pub determine_active_mode-IsActive :
      (ds : List String) (c : ModeController)
      → AreReadable ds
      → Returns (determine_active_mode get_device_settings ds c) λ c'.
        (c' ≡ record c { active_mode = c'.active_mode }) × IsActive ds c.modes c'.active_mode
  unfolding determine_active_mode
  determine_active_mode-IsActive ds c r =
      Returns-bind _ (IsActive ds c.modes) _ _ (find_active_mode-IsActive ds c.modes r)
        λ o i. (refl, i)
