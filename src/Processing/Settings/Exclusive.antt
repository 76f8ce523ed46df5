-- ===== src/Processing/Settings/Exclusive.antt =====
-- No channel is set by the graph commander and by the mix commander at once.
pub mod Schedules
pub mod Applied
pub mod Profiles
pub mod Run
use coolerocontrol.Base.{
  ℕ, ◌≡◌, refl, inl, inr, String, Bool, true, false, Option, none, some, List, [], ◌∷◌, arith,
  string_eq, ◌==◌, Bool-cases, Option-cases, All, All-imp, is_empty, not,
}
use coolerocontrol.Base.Set
use coolerocontrol.Base.Float.{Float}
use coolerocontrol.Base.Outcome.{Outcome, ok, err, panic, Outcome-cases, Partial, Partial-ok}
use coolerocontrol.Base.State.{Action, Hoare, Keeps}
use coolerocontrol.Setting.{Profile, Function}
use coolerocontrol.Processing.{DeviceChannelProfileSetting, mix, graph, device_channel_eq}
use coolerocontrol.Processing.Sensor.{AllDevices}
use coolerocontrol.Processing.Graph.{GraphProfileCommander}
use coolerocontrol.Processing.Graph
use coolerocontrol.Processing.Mix.{
  MixScheduled, MixProfileCommander, NormalizedMixProfile, is_mix, normalize_mix_setting,
}
use coolerocontrol.Processing.Mix
use coolerocontrol.Processing.Settings.{Machine, SettingsController}
use coolerocontrol.Processing.Settings.Channels.{
  AllChannels, Free, clear_channel_setting-AllChannels, schedule_setting-AllChannels,
  clear_mix-Free, clear_mix-Free_other, schedule_mix-Free,
}

-- A channel that a graph profile sets by itself is in no mix. As a member of a mix it may be.
abbrev pub Allowed : MixScheduled → DeviceChannelProfileSetting → Type 0
Allowed settings (mix uid channel) = Unit
Allowed settings (graph uid channel) = Free (graph uid channel) settings

abbrev pub Other : DeviceChannelProfileSetting → DeviceChannelProfileSetting → Type 0
Other device_channel (mix uid channel) = Unit
Other device_channel (graph uid channel) = device_channel == graph uid channel ≡ false

ne-Other :
    (uid channel : String) (x : DeviceChannelProfileSetting)
    → graph uid channel == x ≡ false
    → Other (graph uid channel) x
ne-Other uid channel (mix d c) h = tt
ne-Other uid channel (graph d c) h = h

module _ {F : Type 0} where
  abbrev pub IsExclusive : MixProfileCommander F → Type 0
  IsExclusive c = AllChannels (Allowed c.scheduled_settings) c.graph_commander.scheduled_settings

  -- The channel is free to be set by either commander.
  pub record IsCleared (uid channel : String) (c : MixProfileCommander F) : Type 0 where
    pub unset :
        AllChannels
          (λ x. Allowed c.scheduled_settings x × Other (graph uid channel) x)
          c.graph_commander.scheduled_settings
    pub unmixed : Free (graph uid channel) c.scheduled_settings

  AllChannels-imp :
      (P Q : DeviceChannelProfileSetting → Type 0) (g : GraphProfileCommander F)
      → ((x : DeviceChannelProfileSetting) → P x → Q x)
      → AllChannels P g.scheduled_settings
      → AllChannels Q g.scheduled_settings
  AllChannels-imp P Q g f = All-imp _ _ (λ entry. All-imp P Q f entry.1) g.scheduled_settings

  pub IsCleared-IsExclusive :
      (uid channel : String) (c : MixProfileCommander F) → IsCleared uid channel c → IsExclusive c
  IsCleared-IsExclusive uid channel c h = AllChannels-imp _ _ c.graph_commander (λ x p. p.0) h.unset

  Allowed-clear :
      (uid channel : String) (c : MixProfileCommander F) (x : DeviceChannelProfileSetting)
      → Allowed c.scheduled_settings x
      → Allowed (Mix.clear_channel_setting uid channel c).scheduled_settings x
  Allowed-clear uid channel c (mix d k) h = tt
  Allowed-clear uid channel c (graph d k) h = clear_mix-Free_other uid channel (graph d k) c h

  clear_graph-unset :
      (settings : MixScheduled) (uid channel : String) (g : GraphProfileCommander F)
      → AllChannels (Allowed settings) g.scheduled_settings
      → AllChannels
          (λ x. Allowed settings x × Other (graph uid channel) x)
          (Graph.clear_channel_setting uid channel g).scheduled_settings
  clear_graph-unset settings uid channel g h =
      AllChannels-imp _ _ (Graph.clear_channel_setting uid channel g)
        (λ x p. (p.0, ne-Other uid channel x p.1))
        (clear_channel_setting-AllChannels (Allowed settings) uid channel g h)

  -- The mix commander clears a channel from both schedules.
  pub clear_mix-IsCleared :
      (uid channel : String) (c : MixProfileCommander F)
      → IsExclusive c
      → IsCleared uid channel (Mix.clear_channel_setting uid channel c)
  unfolding Mix.clear_channel_setting Set.contains
  clear_mix-IsCleared uid channel c h = record {
    unset =
        clear_graph-unset (Mix.clear_channel_setting uid channel c).scheduled_settings uid channel
          c.graph_commander (AllChannels-imp _ _ c.graph_commander (Allowed-clear uid channel c) h);
    unmixed = clear_mix-Free uid channel c;
  }

  pub clear_graph-IsCleared :
      (uid channel : String) (c : MixProfileCommander F)
      → IsCleared uid channel c
      → IsCleared uid channel
          (record c { graph_commander = Graph.clear_channel_setting uid channel c.graph_commander })
  clear_graph-IsCleared uid channel c h = record {
    unset =
        clear_graph-unset c.scheduled_settings uid channel c.graph_commander
          (IsCleared-IsExclusive uid channel c h);
    unmixed = h.unmixed;
  }

  pub clear_graph-IsExclusive :
      (uid channel : String) (c : MixProfileCommander F)
      → IsExclusive c
      → IsExclusive
          (record c { graph_commander = Graph.clear_channel_setting uid channel c.graph_commander })
  clear_graph-IsExclusive uid channel c h =
      AllChannels-imp _ _ (Graph.clear_channel_setting uid channel c.graph_commander) (λ x p. p.0)
        (clear_graph-unset c.scheduled_settings uid channel c.graph_commander h)

  Allowed-schedule_mix :
      (normalized : NormalizedMixProfile) (uid channel : String) (c : MixProfileCommander F)
      (x : DeviceChannelProfileSetting)
      → Allowed c.scheduled_settings x × Other (graph uid channel) x
      → Allowed (Mix.schedule_mix normalized (mix uid channel) c).scheduled_settings x
  Allowed-schedule_mix n uid channel c (mix d k) h = tt
  Allowed-schedule_mix n uid channel c (graph d k) h =
      schedule_mix-Free n (mix uid channel) (graph d k) c h.1 h.0

  pub schedule_mix-IsExclusive :
      (normalized : NormalizedMixProfile) (uid channel : String) (c : MixProfileCommander F)
      → IsCleared uid channel c
      → IsExclusive (Mix.schedule_mix normalized (mix uid channel) c)
  unfolding Mix.schedule_mix
  schedule_mix-IsExclusive n uid channel c h =
      AllChannels-imp _ _ c.graph_commander (Allowed-schedule_mix n uid channel c) h.unset
