-- ===== src/Processing/Mix/Schedule.antt =====
-- `schedule_setting` of the mix commander.
use coolerocontrol.Base.{
  ℕ, ◌≡◌, refl, inl, inr, String, Bool, true, Option, some, List, [], ◌∷◌, arith, string_eq,
  Bool-cases, Option-cases, All, is_empty,
}
use coolerocontrol.Base.Dict.{get, contains_key, remove, contains_key-insert, get-insert_self}
use coolerocontrol.Base.Set
use coolerocontrol.Base.Float.{Float}
use coolerocontrol.Base.Outcome.{
  Outcome, ok, err, Safe, Safe-bind, Safe-ok, Safe-not_panic, err-ne-ok, Outcome-cases,
}
use coolerocontrol.Setting.{Profile, Function, ProfileMixFunctionType}
use coolerocontrol.Processing.{DeviceChannelProfileSetting, mix, device_channel_eq}
use coolerocontrol.Processing.Sensor.{AllDevices}
use coolerocontrol.Processing.Chain.Temp.{IsReady}
use coolerocontrol.Processing.Graph.Entries.{IsWellFormed}
use coolerocontrol.Processing.Graph.Schedule.{IsAdded, schedule_setting-IsAdded}
use coolerocontrol.Processing.Graph.Clear.{clear_channel_setting-IsWellFormed}
use coolerocontrol.Processing.Mix.{
  NormalizedMixProfile, mix_profile_eq, MixProfileCommander, is_mix, prepare_member,
  prepare_member_profiles, schedule_members, schedule_mix, schedule_setting, clear_channel_setting,
  normalize_mix_setting,
}

module _ {F : Type 0} ⦃fl : Float F⦄ (tma_new_over : ℕ → List F → Option (List F)) where
  cleared_graph :
      (present : String → Bool) (uid channel : String) (c : MixProfileCommander F)
      → IsWellFormed tma_new_over present c.graph_commander
      → IsWellFormed tma_new_over present (clear_channel_setting uid channel c).graph_commander
  unfolding clear_channel_setting
  cleared_graph present uid channel c w =
      (clear_channel_setting-IsWellFormed tma_new_over present uid channel c.graph_commander w).0

  -- A member has been scheduled.
  record IsMember (present : String → Bool) (c : MixProfileCommander F) (member : Profile F)
      (c' : MixProfileCommander F) : Type 0 where
    graph : IsWellFormed tma_new_over present c'.graph_commander
    known : contains_key member.uid c'.all_last_applied_duties ≡ true
    others :
        (uid : String)
        → contains_key uid c.all_last_applied_duties ≡ true
        → contains_key uid c'.all_last_applied_duties ≡ true

  prepare_member-IsMember :
      (all_devices : AllDevices F) (functions : Outcome (List (Function F)))
      (present : String → Bool) (device_channel : DeviceChannelProfileSetting) (member : Profile F)
      (c : MixProfileCommander F)
      → ((uid : String) → contains_key uid all_devices ≡ present uid)
      → Safe functions (All (IsReady tma_new_over))
      → IsWellFormed tma_new_over present c.graph_commander
      → Safe
          (prepare_member all_devices functions device_channel member c)
          (IsMember present c member)
  unfolding prepare_member
  prepare_member-IsMember all_devices functions present device_channel member c d f w =
      Safe-bind (IsMember present c member)
        (IsAdded tma_new_over present c.graph_commander device_channel member.uid) _ _
        (schedule_setting-IsAdded tma_new_over all_devices functions present device_channel member
          c.graph_commander d f w)
        λ g a. record {
          graph = a.well_formed;
          known = ground (
            arith,
            contains_key-insert member.uid member.uid 0 c.all_last_applied_duties,
            string_eq.eq_self member.uid,
          );
          others = λ uid h.
              ground (arith, contains_key-insert member.uid uid 0 c.all_last_applied_duties);
        }

  -- What holds after the members have been scheduled, with or without an error on the way.
  pub record IsPrepared (present : String → Bool) (c : MixProfileCommander F)
      (members : List (Profile F)) (r : MixProfileCommander F × Outcome (Unit {0})) : Type 0 where
    pub graph : IsWellFormed tma_new_over present r.0.graph_commander
    pub safe : Safe r.1 (λ _. Unit)
    pub known :
        r.1 ≡ ok tt → All (λ m. contains_key m.uid r.0.all_last_applied_duties ≡ true) members
    pub others :
        (uid : String)
        → contains_key uid c.all_last_applied_duties ≡ true
        → contains_key uid r.0.all_last_applied_duties ≡ true

  prepare_member_profiles-IsPrepared :
      (all_devices : AllDevices F) (functions : Outcome (List (Function F)))
      (present : String → Bool) (device_channel : DeviceChannelProfileSetting)
      (members : List (Profile F)) (c : MixProfileCommander F)
      → ((uid : String) → contains_key uid all_devices ≡ present uid)
      → Safe functions (All (IsReady tma_new_over))
      → IsWellFormed tma_new_over present c.graph_commander
      → IsPrepared present c members
          (prepare_member_profiles all_devices functions device_channel members c)
  unfolding prepare_member_profiles
  prepare_member_profiles-IsPrepared all_devices functions present device_channel [] c d f w =
      record { graph = w; safe = tt; known = λ _. tt; others = λ uid h. h }
  prepare_member_profiles-IsPrepared all_devices functions present device_channel (m ∷ ms) c d f w =
      let step = prepare_member-IsMember all_devices functions present device_channel m c d f w in
      elim (Outcome-cases (prepare_member all_devices functions device_channel m c)) [
        | inl (c', e) ↦
            let i = Safe-ok (IsMember present c m) _ c' e step in
            let rest =
              prepare_member_profiles-IsPrepared all_devices functions present device_channel ms c'
                d f i.graph in
            rw (e, prepare_member_profiles)
              (record {
                graph = rest.graph;
                safe = rest.safe;
                known = λ o. (rest.others m.uid i.known, rest.known o);
                others = λ uid h. rest.others uid (i.others uid h);
              })
        | inr (inl (msg, e)) ↦
            rw (e, prepare_member_profiles)
              (record {
                graph = w;
                safe = tt;
                known = λ o. absurd (err-ne-ok msg tt o);
                others = λ uid h. h;
              })
        | inr (inr e) ↦ elim (Safe-not_panic (IsMember present c m) _ e step) [ ]
      ]

  -- The mix has the channel.
  abbrev pub IsPlaced :
      MixProfileCommander F → NormalizedMixProfile → DeviceChannelProfileSetting → Type 0
  IsPlaced c normalized device_channel =
      (channels : List DeviceChannelProfileSetting) × (get normalized c.scheduled_settings
        ≡ some channels)
      × (Set.contains device_channel channels ≡ true)

  schedule_mix-IsPlaced :
      (normalized : NormalizedMixProfile) (device_channel : DeviceChannelProfileSetting)
      (c : MixProfileCommander F)
      → IsPlaced (schedule_mix normalized device_channel c) normalized device_channel
  unfolding schedule_mix Set.contains
  schedule_mix-IsPlaced n dc c = elim (Option-cases (get n c.scheduled_settings)) [
    | inl absent ↦ (
      dc ∷ [],
      rw (absent, schedule_mix) (get-insert_self n n (dc ∷ []) c.scheduled_settings refl),
      rw (device_channel_eq.eq_self dc) refl,
    )
    | inr (existing, found) ↦ (
      Set.insert dc existing,
      rw (found, schedule_mix)
          (get-insert_self n n (Set.insert dc existing) (remove n c.scheduled_settings) refl),
      ground (arith, Set.contains-insert dc dc existing, device_channel_eq.eq_self dc),
    )
  ]

  -- What a call leaves behind.
  pub record IsScheduleResult (present : String → Bool) (normalized : NormalizedMixProfile)
      (device_channel : DeviceChannelProfileSetting) (members : List (Profile F))
      (r : MixProfileCommander F × Outcome (Unit {0})) : Type 0 where
    pub graph : IsWellFormed tma_new_over present r.0.graph_commander
    pub safe : Safe r.1 (λ _. Unit)
    pub placed :
        r.1 ≡ ok tt
        → IsPlaced r.0 normalized device_channel
          × All (λ m. contains_key m.uid r.0.all_last_applied_duties ≡ true) members

  schedule_members-IsScheduleResult :
      (all_devices : AllDevices F) (functions : Outcome (List (Function F)))
      (present : String → Bool) (uid channel : String) (normalized : NormalizedMixProfile)
      (members : List (Profile F)) (c : MixProfileCommander F)
      → ((uid : String) → contains_key uid all_devices ≡ present uid)
      → Safe functions (All (IsReady tma_new_over))
      → IsWellFormed tma_new_over present c.graph_commander
      → IsScheduleResult present normalized
          (mix uid channel)
          members
          (schedule_members all_devices functions uid channel normalized members c)
  unfolding schedule_members
  schedule_members-IsScheduleResult all_devices functions present uid channel n members c d f w =
      let cleared = clear_channel_setting uid channel c in
      let prepared =
        prepare_member_profiles all_devices functions (mix uid channel) members cleared in
      let i =
        prepare_member_profiles-IsPrepared all_devices functions present (mix uid channel) members
          cleared d f (cleared_graph present uid channel c w) in
      elim (Outcome-cases prepared.1) [
        | inl (u, e) ↦
            rw (e, schedule_members)
              (record {
                graph = unfold schedule_mix in i.graph;
                safe = tt;
                placed = λ _. (
                  schedule_mix-IsPlaced n (mix uid channel) prepared.0,
                  unfold schedule_mix in i.known e,
                );
              })
        | inr (inl (msg, e)) ↦
            rw (e, schedule_members)
              (record { graph = i.graph; safe = tt; placed = λ o. absurd (err-ne-ok msg tt o) })
        | inr (inr e) ↦ elim (Safe-not_panic (λ _. Unit {0}) _ e i.safe) [ ]
      ]

  -- Scheduling a mix that has a mix function never panics, and leaves the graph commander well-
  -- formed even if it is refused after some members, where that commander was well-formed and the
  -- functions of the configuration have what they need. If it succeeds, the mix has the channel,
  -- and each member is known with a duty that was applied last.
  pub schedule_setting-IsScheduleResult :
      (all_devices : AllDevices F) (functions : Outcome (List (Function F)))
      (present : String → Bool) (uid channel : String) (mix_profile : Profile F)
      (mix_function : ProfileMixFunctionType) (members : List (Profile F))
      (c : MixProfileCommander F)
      → mix_profile.mix_function_type ≡ some mix_function
      → ((uid : String) → contains_key uid all_devices ≡ present uid)
      → Safe functions (All (IsReady tma_new_over))
      → IsWellFormed tma_new_over present c.graph_commander
      → IsScheduleResult present
          (normalize_mix_setting mix_profile mix_function members)
          (mix uid channel)
          members
          (schedule_setting all_devices functions uid channel mix_profile members c)
  unfolding schedule_setting
  schedule_setting-IsScheduleResult all_devices functions present uid channel mix_profile
        mix_function members c m d f w =
      elim (Bool-cases (is_mix mix_profile.p_type)) [
        | inr other ↦ rw (other, schedule_setting) (refused w)
        | inl mixed ↦ elim (Bool-cases (is_empty members)) [
          | inl none_given ↦ rw (mixed, m, none_given, schedule_setting) (refused w)
          | inr given ↦
              rw (mixed, m, given, schedule_setting)
                (schedule_members-IsScheduleResult all_devices functions present uid channel
                  (normalize_mix_setting mix_profile mix_function members) members c d f w)
        ]
      ]
    where
      refused :
          {msg : String}
          → IsWellFormed tma_new_over present c.graph_commander
          → IsScheduleResult present
              (normalize_mix_setting mix_profile mix_function members)
              (mix uid channel)
              members
              (c, err msg)
      refused {msg} w = record { graph = w; safe = tt; placed = λ o. absurd (err-ne-ok msg tt o) }
