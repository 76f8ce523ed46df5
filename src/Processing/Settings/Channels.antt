-- ===== src/Processing/Settings/Channels.antt =====
-- The channels of the schedules under the operations of both commanders.
use coolerocontrol.Base.{
  ◌≡◌, inl, inr, String, false, Option, none, some, List, [], ◌∷◌, arith, string_eq, ◌==◌,
  Option-cases, All,
}
use coolerocontrol.Base.Dict.{Dict, get, remove, All-remove, All-insert, All-get}
use coolerocontrol.Base.Set
use coolerocontrol.Base.Float.{Float}
use coolerocontrol.Base.Outcome.{Outcome, ensure, Partial, Partial-bind_any}
use coolerocontrol.Setting.{Profile, Function}
use coolerocontrol.Processing.{
  DeviceChannelProfileSetting, mix, graph, device_uid, channel_name, NormalizedGraphProfile,
  device_channel_eq, graph_profile_eq,
}
use coolerocontrol.Processing.Sensor.{AllDevices}
use coolerocontrol.Processing.Graph.{
  Scheduled, GraphProfileCommander, is_graph, normalize_profile_setting,
}
use coolerocontrol.Processing.Graph
use coolerocontrol.Processing.Mix.{MixScheduled, NormalizedMixProfile, mix_profile_eq}
use coolerocontrol.Processing.Mix

-- Every channel of a schedule has the property.
abbrev pub AllChannels {ℓ} :
    {K : Type ℓ}
    → (DeviceChannelProfileSetting → Type 0)
    → Dict K (List DeviceChannelProfileSetting)
    → Type 0
AllChannels P = All (λ entry. All P entry.1)

-- No entry of a schedule has the channel.
abbrev pub Free {ℓ} :
    {K : Type ℓ} → DeviceChannelProfileSetting → Dict K (List DeviceChannelProfileSetting) → Type 0
Free device_channel = All (λ entry. Set.contains device_channel entry.1 ≡ false)

module _ {F : Type 0} (P : DeviceChannelProfileSetting → Type 0) where
  remove_channel-AllChannels :
      (device_channel : DeviceChannelProfileSetting) (settings : Scheduled F)
      → AllChannels P settings
      → AllChannels
          (λ x. P x × (device_channel == x ≡ false))
          (Graph.remove_channel device_channel settings)
  unfolding Graph.remove_channel
  remove_channel-AllChannels device_channel [] h = tt
  remove_channel-AllChannels device_channel ((profile, channels) ∷ rest) h = (
    Set.All-remove_ne P device_channel channels h.0,
    remove_channel-AllChannels device_channel rest h.1,
  )

  clear_profiles-AllChannels :
      (profiles : List (NormalizedGraphProfile F)) (c : GraphProfileCommander F)
      → AllChannels P c.scheduled_settings
      → AllChannels P (Graph.clear_profiles profiles c).scheduled_settings
  unfolding Graph.clear_profiles
  clear_profiles-AllChannels [] c h = h
  clear_profiles-AllChannels (p ∷ profiles) c h =
      clear_profiles-AllChannels profiles _
        (All-remove (λ entry. All P entry.1) p c.scheduled_settings h)

module _ {F : Type 0} (P : DeviceChannelProfileSetting → Type 0) where
  -- A cleared channel is not among those that are left.
  pub clear_channel_setting-AllChannels :
      (uid channel : String) (c : GraphProfileCommander F)
      → AllChannels P c.scheduled_settings
      → AllChannels
          (λ x. P x × (graph uid channel == x ≡ false))
          (Graph.clear_channel_setting uid channel c).scheduled_settings
  unfolding Graph.clear_channel_setting
  clear_channel_setting-AllChannels uid channel c h =
      clear_profiles-AllChannels (λ x. P x × (graph uid channel == x ≡ false)) _ _
        (remove_channel-AllChannels P (graph uid channel) c.scheduled_settings h)

  add_channel-AllChannels :
      ⦃fl : Float F⦄ (device_channel : DeviceChannelProfileSetting)
      (normalized : NormalizedGraphProfile F) (c : GraphProfileCommander F)
      → P device_channel
      → AllChannels P c.scheduled_settings
      → AllChannels P
          (Graph.add_channel device_channel normalized c
            (get normalized c.scheduled_settings)).scheduled_settings
  unfolding Graph.add_channel
  add_channel-AllChannels device_channel n c p h =
      elim (Option-cases (get n c.scheduled_settings)) [
        | inl absent ↦
            rw (absent, Graph.add_channel)
              (All-insert (All P) n (device_channel ∷ []) (remove n c.scheduled_settings) (p, tt)
                (All-remove (λ entry. All P entry.1) n c.scheduled_settings h))
        | inr (existing, found) ↦
            let (j, same, old) = All-get (λ entry. All P entry.1) n existing _ found h in
            rw (found, Graph.add_channel)
              (All-insert (All P) n (Set.insert device_channel existing)
                (remove n c.scheduled_settings) (Set.All-insert P device_channel existing p old)
                (All-remove (λ entry. All P entry.1) n c.scheduled_settings h))
      ]

  pub schedule_setting-AllChannels :
      ⦃fl : Float F⦄ (all_devices : AllDevices F) (functions : Outcome (List (Function F)))
      (device_channel : DeviceChannelProfileSetting) (profile : Profile F)
      (c : GraphProfileCommander F)
      → P device_channel
      → AllChannels P c.scheduled_settings
      → Partial
          (Graph.schedule_setting all_devices functions device_channel profile c)
          (λ g. AllChannels P g.scheduled_settings)
  unfolding Graph.schedule_setting
  schedule_setting-AllChannels all_devices functions device_channel profile c p h =
      Partial-bind_any Q _ (ensure (is_graph profile.p_type) _) λ _.
        Partial-bind_any Q _
          (normalize_profile_setting all_devices functions (device_uid device_channel)
            (channel_name device_channel) profile)
          λ n. add_channel-AllChannels device_channel n c p h
    where
      Q : GraphProfileCommander F → Type 0
      Q g = AllChannels P g.scheduled_settings

remove_found-All :
    (P : NormalizedMixProfile × List DeviceChannelProfileSetting → Type 0)
    (found : Option NormalizedMixProfile) (settings : MixScheduled)
    → All P settings
    → All P (Mix.remove_found found settings)
unfolding Mix.remove_found
remove_found-All P none settings h = h
remove_found-All P (some profile) settings h = All-remove P profile settings h

remove_channel-Free :
    (device_channel : DeviceChannelProfileSetting) (settings : MixScheduled)
    → Free device_channel (Mix.remove_channel device_channel settings)
unfolding Mix.remove_channel
remove_channel-Free device_channel [] = tt
remove_channel-Free device_channel ((profile, channels) ∷ rest) = (
  ground (
    arith,
    Set.contains-remove device_channel device_channel channels,
    device_channel_eq.eq_self device_channel,
  ),
  remove_channel-Free device_channel rest,
)

remove_channel-Free_other :
    (device_channel other : DeviceChannelProfileSetting) (settings : MixScheduled)
    → Free other settings
    → Free other (Mix.remove_channel device_channel settings)
unfolding Mix.remove_channel
remove_channel-Free_other device_channel other [] h = tt
remove_channel-Free_other device_channel other ((profile, channels) ∷ rest) h = (
  ground (arith, Set.contains-remove device_channel other channels),
  remove_channel-Free_other device_channel other rest h.1,
)

module _ {F : Type 0} where
  -- A mix schedule loses the cleared channel, and gains none.
  pub clear_mix-Free :
      (uid channel : String) (c : Mix.MixProfileCommander F)
      → Free (mix uid channel) (Mix.clear_channel_setting uid channel c).scheduled_settings
  unfolding Mix.clear_channel_setting
  clear_mix-Free uid channel c =
      remove_found-All _ _ _ (remove_channel-Free (mix uid channel) c.scheduled_settings)

  pub clear_mix-Free_other :
      (uid channel : String) (other : DeviceChannelProfileSetting) (c : Mix.MixProfileCommander F)
      → Free other c.scheduled_settings
      → Free other (Mix.clear_channel_setting uid channel c).scheduled_settings
  unfolding Mix.clear_channel_setting
  clear_mix-Free_other uid channel other c h =
      remove_found-All _ _ _
        (remove_channel-Free_other (mix uid channel) other c.scheduled_settings h)

  pub schedule_mix-Free :
      (normalized : NormalizedMixProfile) (device_channel other : DeviceChannelProfileSetting)
      (c : Mix.MixProfileCommander F)
      → device_channel == other ≡ false
      → Free other c.scheduled_settings
      → Free other (Mix.schedule_mix normalized device_channel c).scheduled_settings
  unfolding Mix.schedule_mix Set.contains
  schedule_mix-Free n dc other c ne h = elim (Option-cases (get n c.scheduled_settings)) [
    | inl absent ↦
        rw (absent, Mix.schedule_mix) (All-insert Q n (dc ∷ []) c.scheduled_settings alone h)
    | inr (existing, found) ↦
        let (j, same, old) = All-get (λ entry. Q entry.1) n existing _ found h in
        rw (found, Mix.schedule_mix)
          (All-insert Q n (Set.insert dc existing) (remove n c.scheduled_settings)
            (ground (arith, Set.contains-insert dc other existing))
            (All-remove (λ entry. Q entry.1) n c.scheduled_settings h))
  ]
    where
      Q : List DeviceChannelProfileSetting → Type 0
      Q channels = Set.contains other channels ≡ false

      alone : Q (dc ∷ [])
      alone = ground arith
