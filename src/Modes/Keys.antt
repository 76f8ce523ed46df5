-- ===== src/Modes/Keys.antt =====
-- The dictionaries of the modes: no key stands twice, and a mode stands under its UID.
use coolerocontrol.Base.{◌≡◌, String, List, [], ◌∷◌, string_eq, All}
use coolerocontrol.Base.Dict.{
  Dict, insert, remove, IsDistinct, All-insert, All-remove, IsDistinct-insert, IsDistinct-remove,
  All-insert_key,
}
use coolerocontrol.Setting.{Setting}
use coolerocontrol.Modes.{AllDeviceSettings, Mode, by_channel, by_device}

-- The settings of a mode.
pub record HasChannels (settings : AllDeviceSettings) : Type 0 where
  pub devices : IsDistinct settings
  pub channels : All (λ d. IsDistinct d.1) settings

abbrev pub IsEntry : String × Mode → Type 0
IsEntry e = (e.0 ≡ e.1.uid) × HasChannels e.1.all_device_settings

pub record HasKeys (modes : Dict String Mode) : Type 0 where
  pub distinct : IsDistinct modes
  pub entries : All IsEntry modes

pub HasKeys-insert :
    (m : Mode) (modes : Dict String Mode)
    → HasChannels m.all_device_settings
    → HasKeys modes
    → HasKeys (insert m.uid m modes)
HasKeys-insert m modes c h = record {
  distinct = IsDistinct-insert m.uid m modes h.distinct;
  entries = All-insert_key IsEntry m.uid m modes (λ k e. (e, c)) h.entries;
}

pub HasKeys-remove :
    (uid : String) (modes : Dict String Mode) → HasKeys modes → HasKeys (remove uid modes)
HasKeys-remove uid modes h = record {
  distinct = IsDistinct-remove uid modes h.distinct;
  entries = All-remove IsEntry uid modes h.entries;
}

pub HasChannels-insert :
    (device_uid : String) (channels : Dict String Setting) (settings : AllDeviceSettings)
    → IsDistinct channels
    → HasChannels settings
    → HasChannels (insert device_uid channels settings)
HasChannels-insert device_uid channels settings c h = record {
  devices = IsDistinct-insert device_uid channels settings h.devices;
  channels = All-insert IsDistinct device_uid channels settings c h.channels;
}

by_channel-IsDistinct :
    (settings : List Setting) (found : Dict String Setting)
    → IsDistinct found
    → IsDistinct (by_channel settings found)
unfolding by_channel
by_channel-IsDistinct [] found h = h
by_channel-IsDistinct (s ∷ rest) found h =
    by_channel-IsDistinct rest _ (IsDistinct-insert s.channel_name s found h)

by_device-HasChannels_from :
    (all : Dict String (List Setting)) (found : AllDeviceSettings)
    → HasChannels found
    → HasChannels (by_device all found)
unfolding by_device
by_device-HasChannels_from [] found h = h
by_device-HasChannels_from ((device_uid, settings) ∷ rest) found h =
    by_device-HasChannels_from rest _ (
      HasChannels-insert device_uid (by_channel settings []) found
        (by_channel-IsDistinct settings [] tt) h)

pub by_device-HasChannels : (all : Dict String (List Setting)) → HasChannels (by_device all [])
by_device-HasChannels all =
    by_device-HasChannels_from all [] (record { devices = tt; channels = tt })
