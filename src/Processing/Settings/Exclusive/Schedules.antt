-- ===== src/Processing/Settings/Exclusive/Schedules.antt =====
-- Scheduling keeps the commanders apart.
use coolerocontrol.Base.{
  inl, inr, String, List, [], ◌∷◌, string_eq, Bool-cases, Option-cases, is_empty,
}
use coolerocontrol.Base.Float.{Float}
use coolerocontrol.Base.Outcome.{Outcome, Outcome-cases, Partial, Partial-ok, Partial-bind}
use coolerocontrol.Setting.{Profile, Function}
use coolerocontrol.Processing.{mix, graph, device_channel_eq}
use coolerocontrol.Processing.Sensor.{AllDevices}
use coolerocontrol.Processing.Graph.{GraphProfileCommander}
use coolerocontrol.Processing.Graph
use coolerocontrol.Processing.Mix.{
  MixScheduled, MixProfileCommander, NormalizedMixProfile, is_mix, normalize_mix_setting,
}
use coolerocontrol.Processing.Mix
use coolerocontrol.Processing.Settings.Channels.{AllChannels, schedule_setting-AllChannels}
use coolerocontrol.Processing.Settings.Exclusive.{
  Allowed, Other, IsExclusive, IsCleared, IsCleared-IsExclusive, clear_mix-IsCleared,
  schedule_mix-IsExclusive,
}

module _ {F : Type 0} ⦃fl : Float F⦄ (all_devices : AllDevices F)
    (functions : Outcome (List (Function F))) (uid channel : String) where
  prepare_member-IsCleared :
      (member : Profile F) (c : MixProfileCommander F)
      → IsCleared uid channel c
      → Partial
          (Mix.prepare_member all_devices functions (mix uid channel) member c)
          (IsCleared uid channel)
  unfolding Mix.prepare_member
  prepare_member-IsCleared member c h =
      Partial-bind (IsCleared uid channel)
        (λ g.
          AllChannels (λ x. Allowed c.scheduled_settings x × Other (graph uid channel) x)
            g.scheduled_settings)
        _ (Graph.schedule_setting all_devices functions (mix uid channel) member c.graph_commander)
        (schedule_setting-AllChannels
          (λ x. Allowed c.scheduled_settings x × Other (graph uid channel) x) all_devices functions
          (mix uid channel) member c.graph_commander (tt, tt) h.unset)
        λ g u. record { unset = u; unmixed = h.unmixed }

  prepare_member_profiles-IsCleared :
      (members : List (Profile F)) (c : MixProfileCommander F)
      → IsCleared uid channel c
      → IsCleared uid channel
          (Mix.prepare_member_profiles all_devices functions (mix uid channel) members c).0
  unfolding Mix.prepare_member_profiles
  prepare_member_profiles-IsCleared [] c h = h
  prepare_member_profiles-IsCleared (m ∷ ms) c h =
      let step = prepare_member-IsCleared m c h in
      elim (Outcome-cases (Mix.prepare_member all_devices functions (mix uid channel) m c)) [
        | inl (c', e) ↦
            rw (e, Mix.prepare_member_profiles)
              (prepare_member_profiles-IsCleared ms c'
                (Partial-ok (IsCleared uid channel) _ c' e step))
        | inr (inl (msg, e)) ↦ rw (e, Mix.prepare_member_profiles) h
        | inr (inr e) ↦ rw (e, Mix.prepare_member_profiles) h
      ]

  schedule_members-IsExclusive :
      (normalized : NormalizedMixProfile) (members : List (Profile F)) (c : MixProfileCommander F)
      → IsExclusive c
      → IsExclusive (Mix.schedule_members all_devices functions uid channel normalized members c).0
  unfolding Mix.schedule_members
  schedule_members-IsExclusive n members c h =
      let cleared = Mix.clear_channel_setting uid channel c in
      let prepared =
        Mix.prepare_member_profiles all_devices functions (mix uid channel) members cleared in
      let i =
        prepare_member_profiles-IsCleared members cleared (clear_mix-IsCleared uid channel c h) in
      elim (Outcome-cases prepared.1) [
        | inl (u, e) ↦
            rw (e, Mix.schedule_members) (schedule_mix-IsExclusive n uid channel prepared.0 i)
        | inr (inl (msg, e)) ↦
            rw (e, Mix.schedule_members) (IsCleared-IsExclusive uid channel prepared.0 i)
        | inr (inr e) ↦
            rw (e, Mix.schedule_members) (IsCleared-IsExclusive uid channel prepared.0 i)
      ]

  -- A mix is scheduled, or refused at some point.
  pub schedule_mix_setting-IsExclusive :
      (profile : Profile F) (members : List (Profile F)) (c : MixProfileCommander F)
      → IsExclusive c
      → IsExclusive (Mix.schedule_setting all_devices functions uid channel profile members c).0
  unfolding Mix.schedule_setting
  schedule_mix_setting-IsExclusive profile members c h = elim (Bool-cases (is_mix profile.p_type)) [
    | inr other ↦ rw (other, Mix.schedule_setting) h
    | inl mixed ↦ elim (Option-cases profile.mix_function_type) [
      | inl absent ↦ rw (mixed, absent, Mix.schedule_setting) h
      | inr (mix_function, found) ↦ elim (Bool-cases (is_empty members)) [
        | inl none_given ↦ rw (mixed, found, none_given, Mix.schedule_setting) h
        | inr given ↦
            rw (mixed, found, given, Mix.schedule_setting)
              (schedule_members-IsExclusive (normalize_mix_setting profile mix_function members)
                members c h)
      ]
    ]
  ]

  -- A graph profile is scheduled for a channel that has been cleared, or is refused.
  pub schedule_graph-IsExclusive :
      (profile : Profile F) (c : MixProfileCommander F)
      → IsCleared uid channel c
      → Partial
          (Graph.schedule_setting all_devices functions
            (graph uid channel)
            profile
            c.graph_commander)
          (λ g. IsExclusive (record c { graph_commander = g }))
  schedule_graph-IsExclusive profile c h =
      schedule_setting-AllChannels (Allowed c.scheduled_settings) all_devices functions
        (graph uid channel) profile c.graph_commander h.unmixed
        (IsCleared-IsExclusive uid channel c h)
