-- ===== src/Modes/Deleted/Found.antt =====
-- The places where the modes refer to a profile, each one once.
use coolerocontrol.Base.{
  ◌≡◌, refl, String, Bool, true, false, ◌&&◌, Option, none, some, [], ◌∷◌, string_eq, ◌==◌, All,
  arith, inl, inr, Bool-cases, ap, subst, sym, ◌∙◌,
}
use coolerocontrol.Base.Dict.{Dict, get, IsDistinct, get_absent, contains_key, contains_key-congr}
use coolerocontrol.Base.Set
use coolerocontrol.Setting.{Setting}
use coolerocontrol.Modes.{Mode, AllDeviceSettings}
use coolerocontrol.Modes.Keys.{HasChannels, HasKeys}
use coolerocontrol.Modes.Deleted.{
  Place, is_profile, search_channels, search_devices, search_for_deleted_profile,
}
use coolerocontrol.Modes.Deleted.Lookup.{place_eq, lookup, setting_of}

abbrev pub refers : String → Option Setting → Bool
refers profile_uid none = false
refers profile_uid (some setting) = is_profile profile_uid setting.profile_uid

-- What a key reads that is not there any more.
get_other :
    {V : Type 0} (j k : String) (m : Dict String V)
    → j == k ≡ true
    → contains_key j m ≡ false
    → get k m ≡ none
get_other j k m h a = get_absent k m (sym (contains_key-congr j k m h) ∙ a)

HasChannels-tail :
    (entry : String × Dict String Setting) (rest : AllDeviceSettings)
    → HasChannels (entry ∷ rest)
    → HasChannels rest
HasChannels-tail entry rest h = record { devices = h.devices.1; channels = h.channels.1 }

HasKeys-tail :
    (entry : String × Mode) (rest : Dict String Mode) → HasKeys (entry ∷ rest) → HasKeys rest
HasKeys-tail entry rest h = record { distinct = h.distinct.1; entries = h.entries.1 }

module _ (profile_uid : String) where
  search_channels-contains :
      (m d m' d' c' : String) (channels : Dict String Setting)
      → IsDistinct channels
      → Set.contains (m', d', c') (search_channels profile_uid m d channels)
        ≡ (m == m') && ((d == d') && refers profile_uid (get c' channels))
  unfolding search_channels Set.contains get
  search_channels-contains m d m' d' c' [] h = ground arith
  search_channels-contains m d m' d' c' ((c, setting) ∷ rest) h =
      ground (arith, search_channels-contains m d m' d' c' rest h.1, get_other c c' rest, h.0)

  search_channels-HasNoRepeats :
      (m d : String) (channels : Dict String Setting)
      → IsDistinct channels
      → Set.HasNoRepeats (search_channels profile_uid m d channels)
  unfolding search_channels
  search_channels-HasNoRepeats m d [] h = tt
  search_channels-HasNoRepeats m d ((c, setting) ∷ rest) h =
      let others = search_channels-HasNoRepeats m d rest h.1 in
      elim (Bool-cases (is_profile profile_uid setting.profile_uid)) [
        | inl hit ↦ rw hit (
          ground (arith, search_channels-contains m d m d c rest h.1, get_absent c rest h.0),
          others,
        )
        | inr miss ↦ rw miss others
      ]

  search_devices-contains :
      (m m' d' c' : String) (settings : AllDeviceSettings)
      → HasChannels settings
      → Set.contains (m', d', c') (search_devices profile_uid m settings)
        ≡ (m == m') && refers profile_uid (setting_of c' (get d' settings))
  unfolding search_devices Set.contains get
  search_devices-contains m m' d' c' [] h = ground arith
  search_devices-contains m m' d' c' ((d, channels) ∷ rest) h = ground (
    arith,
    Set.contains-append (m', d', c') (search_channels profile_uid m d channels)
        (search_devices profile_uid m rest),
    search_channels-contains m d m' d' c' channels h.channels.0,
    search_devices-contains m m' d' c' rest (HasChannels-tail (d, channels) rest h),
    get_other d d' rest,
    h.devices.0,
  )

  search_devices-HasNoRepeats :
      (m : String) (settings : AllDeviceSettings)
      → HasChannels settings
      → Set.HasNoRepeats (search_devices profile_uid m settings)
  unfolding search_devices
  search_devices-HasNoRepeats m [] h = tt
  search_devices-HasNoRepeats m ((d, channels) ∷ rest) h =
      let others : HasChannels rest = record { devices = h.devices.1; channels = h.channels.1 } in
      Set.HasNoRepeats-append (search_channels profile_uid m d channels)
        (search_devices profile_uid m rest) (search_channels-HasNoRepeats m d channels h.channels.0)
        (search_devices-HasNoRepeats m rest others) (λ q. apart q others)
    where
      apart :
          (q : Place)
          → HasChannels rest
          → Set.contains q (search_channels profile_uid m d channels) ≡ true
          → Set.contains q (search_devices profile_uid m rest) ≡ false
      apart (m', d', c') others hit = ground (
        arith,
        search_channels-contains m d m' d' c' channels h.channels.0,
        search_devices-contains m m' d' c' rest others,
        get_other d d' rest,
        h.devices.0,
      )

  -- A place is found if and only if its setting refers to the profile.
  pub search_for_deleted_profile-contains :
      (q : Place) (modes : Dict String Mode)
      → HasKeys modes
      → Set.contains q (search_for_deleted_profile profile_uid modes)
        ≡ refers profile_uid (lookup q modes)
  unfolding search_for_deleted_profile Set.contains get
  search_for_deleted_profile-contains q [] h = refl
  search_for_deleted_profile-contains (m', d', c') ((j, mode) ∷ rest) h =
      let others = HasKeys-tail (j, mode) rest h in
      let uid : (mode.uid == m') ≡ (j == m') = ap (λ u. u == m') (sym h.entries.0.0) in
      ground (
        arith,
        Set.contains-append (m', d', c')
            (search_devices profile_uid mode.uid mode.all_device_settings)
            (search_for_deleted_profile profile_uid rest),
        search_devices-contains mode.uid m' d' c' mode.all_device_settings h.entries.0.1,
        search_for_deleted_profile-contains (m', d', c') rest others,
        get_other j m' rest,
        h.distinct.0,
        uid,
      )

  pub search_for_deleted_profile-HasNoRepeats :
      (modes : Dict String Mode)
      → HasKeys modes
      → Set.HasNoRepeats (search_for_deleted_profile profile_uid modes)
  unfolding search_for_deleted_profile
  search_for_deleted_profile-HasNoRepeats [] h = tt
  search_for_deleted_profile-HasNoRepeats ((j, mode) ∷ rest) h =
      let others = HasKeys-tail (j, mode) rest h in
      Set.HasNoRepeats-append (search_devices profile_uid mode.uid mode.all_device_settings)
        (search_for_deleted_profile profile_uid rest)
        (search_devices-HasNoRepeats mode.uid mode.all_device_settings h.entries.0.1)
        (search_for_deleted_profile-HasNoRepeats rest others) (λ q. apart q others)
    where
      apart :
          (q : Place)
          → HasKeys rest
          → Set.contains q (search_devices profile_uid mode.uid mode.all_device_settings) ≡ true
          → Set.contains q (search_for_deleted_profile profile_uid rest) ≡ false
      apart (m', d', c') others hit = ground (
        arith,
        search_devices-contains mode.uid m' d' c' mode.all_device_settings h.entries.0.1,
        search_for_deleted_profile-contains (m', d', c') rest others,
        get_other mode.uid m' rest,
        subst (λ u. contains_key u rest ≡ false) h.entries.0.0 h.distinct.0,
      )

  -- All that is found is present.
  pub search_for_deleted_profile-All :
      (modes : Dict String Mode)
      → HasKeys modes
      → All
          (λ place. (s : Setting) × (lookup place modes ≡ some s))
          (search_for_deleted_profile profile_uid modes)
  search_for_deleted_profile-All modes h =
      Set.All-contains _ (search_for_deleted_profile profile_uid modes) λ q hit.
        present (lookup q modes) (sym (search_for_deleted_profile-contains q modes h) ∙ hit)
    where
      present : (o : Option Setting) → refers profile_uid o ≡ true → (s : Setting) × (o ≡ some s)
      present none h = cc
      present (some s) h = (s, refl)
