-- ===== src/Processing/Mix/Speeds.antt =====
-- What `update_speeds` of the mix commander applies.
use coolerocontrol.Base.{
  ℕ, ◌≡◌, ◌≢◌, ◌<◌, refl, sym, subst, inl, inr, String, Bool, true, false, Option, some, List, [],
  ◌∷◌, map, string_eq, Bool-cases, All, All-append, All-imp, Any, is_empty,
}
use coolerocontrol.Base.Dict.{get, contains_key, get_of_contains_key}
use coolerocontrol.Base.Outcome.{Returns, Returns-bind, Returns-unwrap, Returns-imp}
use coolerocontrol.Device.{DeviceType}
use coolerocontrol.Processing.{DeviceChannelProfileSetting, device_uid, channel_name}
use coolerocontrol.Processing.Sensor.{AllDevices}
use coolerocontrol.Processing.Graph.{OutputCache, Applied, set_device_speed}
use coolerocontrol.Processing.Mix.{
  NormalizedMixProfile, MixScheduled, LastApplied, MixProfileCommander, apply_all, apply_values,
  apply_mix, update_mixes, update_speeds, update_last_applied_duties,
}
use coolerocontrol.Processing.Mix.Combine.{IsCombined, apply_mix_function-IsCombined}
use coolerocontrol.Processing.Mix.Members.{value_of, IsValues, member_values-IsValues}

abbrev pub MixEntry : Type 0
MixEntry = NormalizedMixProfile × List DeviceChannelProfileSetting

-- A duty that a mix gives: some member has an output, and the values of the members combine to it.
pub record IsMixDuty (requested : OutputCache) (last : LastApplied) (profile : NormalizedMixProfile)
    (duty : ℕ) : Type 0 where
  pub values : List ℕ
  pub of_members : map some values ≡ map (value_of requested last) profile.member_profile_uids
  pub combined : IsCombined values profile.mix_function duty
  pub output :
      Any (λ uid. (d : ℕ) × (get uid requested ≡ some (some d))) profile.member_profile_uids

-- A call for a channel of a mix, with the duty of the mix.
abbrev pub IsMixCall : OutputCache → LastApplied → Applied → MixEntry → Type 0
IsMixCall requested last a entry =
    Any (λ c. (device_uid c ≡ a.device_uid) × (channel_name c ≡ a.channel_name)) entry.1
    × IsMixDuty requested last entry.0 a.duty

-- The duties that are known are of one byte.
abbrev pub AreBytes : OutputCache → LastApplied → Type 0
AreBytes requested last = (uid : String) (d : ℕ) → value_of requested last uid ≡ some d → d < 256

nil-ne-cons : (x : Option ℕ) (xs : List (Option ℕ)) → [] ≢ x ∷ xs
nil-ne-cons x xs e = cc

values-nonempty :
    (requested : OutputCache) (last : LastApplied) (values : List ℕ) (uids : List String)
    → map some values ≡ map (value_of requested last) uids
    → is_empty uids ≡ false
    → is_empty values ≡ false
values-nonempty requested last values [] e h = cc
values-nonempty requested last [] (u ∷ us) e h = cc
values-nonempty requested last (v ∷ vs) (u ∷ us) e h = refl

values-bytes :
    (requested : OutputCache) (last : LastApplied) (values : List ℕ) (uids : List String)
    → AreBytes requested last
    → map some values ≡ map (value_of requested last) uids
    → All (λ v. v < 256) values
values-bytes requested last [] uids b e = tt
values-bytes requested last (v ∷ vs) [] b e = absurd (nil-ne-cons _ _ (sym e))
values-bytes requested last (v ∷ vs) (u ∷ us) b e =
    (b u v cc, values-bytes requested last vs us b cc)

module _ {F : Type 0} (all_devices : AllDevices F) where
  -- An entry whose members have been scheduled, and whose channels are of devices that are present.
  pub record IsMixEntry (requested : OutputCache) (last : LastApplied) (entry : MixEntry)
      : Type 0 where
    pub members : is_empty entry.0.member_profile_uids ≡ false
    pub requested_keys : All (λ uid. contains_key uid requested ≡ true) entry.0.member_profile_uids
    pub last_keys : All (λ uid. contains_key uid last ≡ true) entry.0.member_profile_uids
    pub targets : All (λ c. contains_key (device_uid c) all_devices ≡ true) entry.1

  module _ (has_repo : DeviceType → Bool) where
    set_device_speed_sound :
        (uid channel : String) (duty : ℕ)
        → contains_key uid all_devices ≡ true
        → Returns
            (set_device_speed has_repo all_devices uid channel duty)
            (All (λ a. (uid ≡ a.device_uid) × (channel ≡ a.channel_name) × (a.duty ≡ duty)))
    unfolding set_device_speed
    set_device_speed_sound uid channel duty k =
        let (device, found) = get_of_contains_key uid all_devices k in
        Returns-unwrap
          (All (λ a. (uid ≡ a.device_uid) × (channel ≡ a.channel_name) × (a.duty ≡ duty))) _ _
          device found
          (elim (Bool-cases (has_repo device.d_type)) [
            | inl there ↦ rw there ((refl, refl, refl), tt)
            | inr missing ↦ rw missing tt
          ])

    abbrev IsFor : List DeviceChannelProfileSetting → ℕ → Applied → Type 0
    IsFor channels duty a =
        Any (λ c. (device_uid c ≡ a.device_uid) × (channel_name c ≡ a.channel_name)) channels
        × (a.duty ≡ duty)

    apply_all_sound :
        (duty : ℕ) (channels : List DeviceChannelProfileSetting)
        → All (λ c. contains_key (device_uid c) all_devices ≡ true) channels
        → Returns (apply_all has_repo all_devices duty channels) (All (IsFor channels duty))
    unfolding apply_all
    apply_all_sound duty [] h = tt
    apply_all_sound duty (c ∷ rest) h =
        Returns-bind (All (IsFor (c ∷ rest) duty))
          (All (λ a.
            (device_uid c ≡ a.device_uid) × (channel_name c ≡ a.channel_name) × (a.duty ≡ duty)))
          _ _ (set_device_speed_sound (device_uid c) (channel_name c) duty h.0)
          λ xs x.
            Returns-bind (All (IsFor (c ∷ rest) duty)) (All (IsFor rest duty)) _ _
              (apply_all_sound duty rest h.1)
              λ ys y.
                All-append _ xs ys (All-imp _ _ (λ a s. (inl (s.0, s.1), s.2)) xs x)
                  (All-imp _ _ (λ a s. (inr s.0, s.1)) ys y)

    apply_values_sound :
        (requested : OutputCache) (last : LastApplied) (entry : MixEntry) (values : List ℕ)
        (silent : Bool)
        → AreBytes requested last
        → IsMixEntry requested last entry
        → IsValues requested last entry.0.member_profile_uids (values, silent)
        → Returns
            (apply_values has_repo all_devices entry.0.mix_function entry.1 values silent)
            (All (λ a. IsMixCall requested last a entry))
    unfolding apply_values
    apply_values_sound requested last entry values true b e v = tt
    apply_values_sound requested last entry values false b e v =
        Returns-bind (All (λ a. IsMixCall requested last a entry))
          (IsCombined values entry.0.mix_function) _ _
          (apply_mix_function-IsCombined values entry.0.mix_function
            (values-nonempty requested last values entry.0.member_profile_uids v.values e.members)
            (values-bytes requested last values entry.0.member_profile_uids b v.values))
          λ duty c.
            Returns-imp (All (IsFor entry.1 duty)) _ _
              (λ applied.
                All-imp _ _
                  (λ a s. (
                    s.0,
                    record {
                      values = values;
                      of_members = v.values;
                      combined = subst (IsCombined values entry.0.mix_function) (sym s.1) c;
                      output = v.output refl;
                    },
                  ))
                  applied)
              (apply_all_sound duty entry.1 e.targets)

    apply_mix_sound :
        (requested : OutputCache) (last : LastApplied) (entry : MixEntry)
        → AreBytes requested last
        → IsMixEntry requested last entry
        → Returns
            (apply_mix has_repo all_devices requested last entry.0 entry.1)
            (All (λ a. IsMixCall requested last a entry))
    unfolding apply_mix
    apply_mix_sound requested last entry b e =
        Returns-bind (All (λ a. IsMixCall requested last a entry))
          (IsValues requested last entry.0.member_profile_uids) _ _
          (member_values-IsValues requested last entry.0.member_profile_uids e.requested_keys
            e.last_keys)
          λ r v. apply_values_sound requested last entry r.0 r.1 b e v

    update_mixes_sound :
        (requested : OutputCache) (last : LastApplied) (settings : MixScheduled)
        → AreBytes requested last
        → All (IsMixEntry requested last) settings
        → Returns
            (update_mixes has_repo all_devices requested last settings)
            (All (λ a. Any (IsMixCall requested last a) settings))
    unfolding update_mixes
    update_mixes_sound requested last [] b e = tt
    update_mixes_sound requested last (entry ∷ rest) b e =
        Returns-bind P (All (λ a. IsMixCall requested last a entry)) _ _
          (apply_mix_sound requested last entry b e.0)
          λ xs x.
            Returns-bind P (All (λ a. Any (IsMixCall requested last a) rest)) _ _
              (update_mixes_sound requested last rest b e.1)
              λ ys y.
                All-append _ xs ys (All-imp _ _ (λ a s. inl s) xs x)
                  (All-imp _ _ (λ a s. inr s) ys y)
      where
        P : List Applied → Type 0
        P = All (λ a. Any (IsMixCall requested last a) (entry ∷ rest))

    -- Applying the mixes returns, where the members of each are scheduled, its channels are of devices
    -- that are present and all duties are of one byte. The last applied duties are brought up to date
    -- first. Each call is then for a channel of a mix of which some member has an output, with the
    -- least, the greatest or the average of the values of all its members.
    pub update_speeds-IsMixCall :
        (c : MixProfileCommander F)
        → let updated = update_last_applied_duties c in
          AreBytes updated.graph_commander.process_output_cache updated.all_last_applied_duties
          → All
              (IsMixEntry updated.graph_commander.process_output_cache
                updated.all_last_applied_duties)
              updated.scheduled_settings
          → Returns (update_speeds has_repo all_devices c) λ r.
            (r.0 ≡ updated)
            × All
                (λ a.
                  Any
                    (IsMixCall updated.graph_commander.process_output_cache
                      updated.all_last_applied_duties a)
                    updated.scheduled_settings)
                r.1
    unfolding update_speeds
    update_speeds-IsMixCall c b e =
        let updated = update_last_applied_duties c in
        Returns-bind _
          (All (λ a.
            Any
              (IsMixCall updated.graph_commander.process_output_cache
                updated.all_last_applied_duties a)
              updated.scheduled_settings))
          _ _
          (update_mixes_sound updated.graph_commander.process_output_cache
            updated.all_last_applied_duties updated.scheduled_settings b e)
          λ applied a. (refl, a)
