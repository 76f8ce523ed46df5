-- ===== src/Modes/Deleted/Removed.antt =====
-- Removing settings from the modes: which modes there are stays as it is.
use coolerocontrol.Base.{
  ◌≡◌, refl, sym, subst, ◌∙◌, String, some, inl, inr, List, [], ◌∷◌, string_eq, is_empty,
  Bool-cases, string_eq_iff,
}
use coolerocontrol.Base.Dict.{
  Dict, get, contains_key, insert, remove, IsDistinct, contains_key-replace, contains_key_of_get,
  IsDistinct-remove, All-get, All-remove,
}
use coolerocontrol.Base.Outcome.{Partial, Partial-bind, Partial-unwrap, Partial-imp}
use coolerocontrol.Setting.{Setting}
use coolerocontrol.Modes.{Mode, AllDeviceSettings}
use coolerocontrol.Modes.Keys.{IsEntry, HasChannels, HasKeys, HasKeys-insert, HasChannels-insert}
use coolerocontrol.Modes.Deleted.{
  Place, without_setting, remove_affected_setting, remove_affected_settings,
}

-- A key of the one is a key of the other.
abbrev SameKeys : Dict String Mode → Dict String Mode → Type 0
SameKeys after before = (k : String) → contains_key k after ≡ contains_key k before

remove_affected_setting-keys :
    (place : Place) (modes : Dict String Mode)
    → Partial (remove_affected_setting place modes) (λ r. SameKeys r modes)
unfolding remove_affected_setting
remove_affected_setting-keys (mode_uid, device_uid, channel_name) modes =
    Partial-unwrap _ _ (get mode_uid modes) λ mode found.
      Partial-unwrap _ _ (get device_uid mode.all_device_settings) λ channels there k.
        contains_key-replace mode_uid k _ modes (contains_key_of_get mode_uid modes mode found)

pub remove_affected_settings-keys :
    (places : List Place) (modes : Dict String Mode)
    → Partial (remove_affected_settings places modes) (λ r. SameKeys r modes)
unfolding remove_affected_settings
remove_affected_settings-keys [] modes = λ k. refl
remove_affected_settings-keys (place ∷ rest) modes =
    Partial-bind (λ r. SameKeys r modes) (λ r. SameKeys r modes) _
      (remove_affected_setting place modes) (remove_affected_setting-keys place modes)
      λ removed s.
        Partial-imp (λ r. SameKeys r removed) (λ r. SameKeys r modes) _ (λ r t k. t k ∙ s k)
          (remove_affected_settings-keys rest removed)

without_setting-HasChannels :
    (device_uid channel_name : String) (channels : Dict String Setting)
    (settings : AllDeviceSettings)
    → IsDistinct channels
    → HasChannels settings
    → HasChannels (without_setting device_uid channel_name channels settings)
unfolding without_setting
without_setting-HasChannels device_uid channel_name channels settings d h =
    elim (Bool-cases (is_empty (remove channel_name channels))) [
      | inl nothing ↦ rw nothing (record {
        devices = IsDistinct-remove device_uid settings h.devices;
        channels = All-remove (λ e. IsDistinct e.1) device_uid settings h.channels;
      })
      | inr some_left ↦ rw some_left (
          HasChannels-insert device_uid (remove channel_name channels) settings
            (IsDistinct-remove channel_name channels d) h)
    ]

-- What is found under a key.
pub mode_of_key :
    (uid : String) (mode : Mode) (modes : Dict String Mode)
    → HasKeys modes
    → get uid modes ≡ some mode
    → (uid ≡ mode.uid) × HasChannels mode.all_device_settings
mode_of_key uid mode modes h e =
    let (j, same, k) = All-get IsEntry uid mode modes e h.entries in
    (sym (string_eq_iff j uid same) ∙ k.0, k.1)

pub channels_of_key :
    (uid : String) (channels : Dict String Setting) (settings : AllDeviceSettings)
    → HasChannels settings
    → get uid settings ≡ some channels
    → IsDistinct channels
channels_of_key uid channels settings h e =
    (All-get (λ d. IsDistinct d.1) uid channels settings e h.channels).2

-- Another mode with the same UID takes the place of the one found.
pub HasKeys-replace :
    (uid : String) (mode new : Mode) (modes : Dict String Mode)
    → new.uid ≡ mode.uid
    → get uid modes ≡ some mode
    → HasChannels new.all_device_settings
    → HasKeys modes
    → HasKeys (insert uid new modes)
HasKeys-replace uid mode new modes e found c h =
    subst (λ u. HasKeys (insert u new modes)) (e ∙ sym (mode_of_key uid mode modes h found).0)
      (HasKeys-insert new modes c h)

remove_affected_setting-HasKeys :
    (place : Place) (modes : Dict String Mode)
    → HasKeys modes
    → Partial (remove_affected_setting place modes) HasKeys
unfolding remove_affected_setting
remove_affected_setting-HasKeys (mode_uid, device_uid, channel_name) modes h =
    Partial-unwrap HasKeys _ (get mode_uid modes) λ mode found.
      Partial-unwrap HasKeys _ (get device_uid mode.all_device_settings) λ channels there.
        let c = (mode_of_key mode_uid mode modes h found).1 in
        HasKeys-replace mode_uid mode _ modes refl found
          (without_setting-HasChannels device_uid channel_name channels mode.all_device_settings
            (channels_of_key device_uid channels mode.all_device_settings c there) c)
          h

pub remove_affected_settings-HasKeys :
    (places : List Place) (modes : Dict String Mode)
    → HasKeys modes
    → Partial (remove_affected_settings places modes) HasKeys
unfolding remove_affected_settings
remove_affected_settings-HasKeys [] modes h = h
remove_affected_settings-HasKeys (place ∷ rest) modes h =
    Partial-bind HasKeys HasKeys _ (remove_affected_setting place modes)
      (remove_affected_setting-HasKeys place modes h)
      λ removed s. remove_affected_settings-HasKeys rest removed s
