-- ===== src/Processing/Mix.antt =====
-- processing/commanders/mix.rs: profiles that combine the duties of several graph profiles.
pub mod Combine
pub mod Members
pub mod Speeds
pub mod Schedule
pub mod Tests
use coolerocontrol.Base.{
  ℕ, ◌+◌, ◌/◌, ◌%◌, min, max, String, Bool, true, false, not, Option, none, some, List, [], ◌∷◌,
  ◌++◌, map, string_eq, ◌==◌, if◌then◌else◌, is_empty, length, Eq,
}
use coolerocontrol.Base.Dict.{Dict, get, contains_key, insert, remove}
use coolerocontrol.Base.Set
use coolerocontrol.Base.Float.{Float}
use coolerocontrol.Base.Outcome.{Outcome, ok, err, panic, unwrap, with_context, ensure, ◌>>=◌, ◌>>◌}
use coolerocontrol.Device.{DeviceType}
use coolerocontrol.Setting.{Profile, ProfileType, ProfileMixFunctionType, Function}
use coolerocontrol.Processing.{
  DeviceChannelProfileSetting, mix, device_uid, channel_name, device_channel_eq,
}
use coolerocontrol.Processing.Sensor.{AllDevices, is_some}
use coolerocontrol.Processing.Graph.{GraphProfileCommander, OutputCache, Applied, set_device_speed}
use coolerocontrol.Processing.Graph

pub record NormalizedMixProfile : Type 0 where
  pub profile_uid : String
  pub mix_function : ProfileMixFunctionType
  pub member_profile_uids : List String

-- Only the UID counts.
instance abbrev pub mix_profile_eq : Eq NormalizedMixProfile
mix_profile_eq = record {
  eq = λ p q. p.profile_uid == q.profile_uid;
  eq_self = λ p. string_eq.eq_self p.profile_uid;
  eq_sym = λ p q. string_eq.eq_sym p.profile_uid q.profile_uid;
  eq_trans = λ p q r. string_eq.eq_trans p.profile_uid q.profile_uid r.profile_uid;
}

abbrev pub MixScheduled : Type 0
MixScheduled = Dict NormalizedMixProfile (List DeviceChannelProfileSetting)

abbrev pub LastApplied : Type 0
LastApplied = Dict String ℕ

-- The graph commander is shared with the settings controller: it is a part of the state here.
pub record MixProfileCommander (F : Type 0) : Type 0 where
  pub graph_commander : GraphProfileCommander F
  pub scheduled_settings : MixScheduled
  pub all_last_applied_duties : LastApplied

-- `p_type == ProfileType::Mix`
abbrev pub is_mix : ProfileType → Bool
is_mix ProfileType.mix = true
is_mix ProfileType.default = false
is_mix ProfileType.fixed = false
is_mix ProfileType.graph = false

-- The least and the greatest value, with the value so far.
abbrev pub min_from : ℕ → List ℕ → ℕ
min_from v [] = v
min_from v (w ∷ ws) = min_from (min v w) ws

abbrev pub max_from : ℕ → List ℕ → ℕ
max_from v [] = v
max_from v (w ∷ ws) = max_from (max v w) ws

abbrev pub sum : List ℕ → ℕ
sum [] = 0
sum (v ∷ vs) = v + sum vs

-- `unwrap` of the minimum or maximum and a division by zero panic.
unfoldable pub apply_mix_function : List ℕ → ProfileMixFunctionType → Outcome ℕ
apply_mix_function [] mix_function = panic
apply_mix_function (v ∷ vs) ProfileMixFunctionType.min = ok (min_from v vs)
apply_mix_function (v ∷ vs) ProfileMixFunctionType.max = ok (max_from v vs)
apply_mix_function (v ∷ vs) ProfileMixFunctionType.avg = ok (sum (v ∷ vs) / length (v ∷ vs) % 256)

-- The outputs of a tick become the last applied duties, of all profiles that have one.
unfoldable pub last_applied_from : OutputCache → LastApplied → LastApplied
last_applied_from [] last_applied = last_applied
last_applied_from ((uid, none) ∷ rest) last_applied = last_applied_from rest last_applied
last_applied_from ((uid, some duty) ∷ rest) last_applied =
    last_applied_from rest (insert uid duty last_applied)

-- The value of a member for the calculation: its output, or as a backup the duty applied last.
unfoldable pub member_value : LastApplied → String → Option ℕ → Outcome ℕ
member_value last_applied uid (some duty) = ok duty
member_value last_applied uid none = unwrap (get uid last_applied)

-- The values of the members, and whether none of them has an output.
unfoldable pub member_values : OutputCache → LastApplied → List String → Outcome (List ℕ × Bool)
member_values requested last_applied [] = ok ([], true)
member_values requested last_applied (uid ∷ uids) = do
  output ← unwrap (get uid requested)
  value ← member_value last_applied uid output
  rest ← member_values requested last_applied uids
  ok (value ∷ rest.0, (if is_some output then false else rest.1))

-- The loop of `clear_channel_setting`: the channel leaves every mix, and of those that then have
-- no channel the last is to be removed.
unfoldable pub remove_channel : DeviceChannelProfileSetting → MixScheduled → MixScheduled
remove_channel device_channel [] = []
remove_channel device_channel ((profile, device_channels) ∷ rest) =
    (profile, Set.remove device_channel device_channels) ∷ remove_channel device_channel rest

unfoldable pub mix_profile_to_remove :
    MixScheduled → Option NormalizedMixProfile → Option NormalizedMixProfile
mix_profile_to_remove [] found = found
mix_profile_to_remove ((profile, device_channels) ∷ rest) found =
    mix_profile_to_remove rest (if is_empty device_channels then some profile else found)

unfoldable pub remove_found : Option NormalizedMixProfile → MixScheduled → MixScheduled
remove_found none settings = settings
remove_found (some profile) settings = remove profile settings

module _ {F : Type 0} where
  unfoldable pub update_last_applied_duties : MixProfileCommander F → MixProfileCommander F
  update_last_applied_duties c = record c {
    all_last_applied_duties =
        last_applied_from c.graph_commander.process_output_cache c.all_last_applied_duties;
  }

  unfoldable pub apply_all :
      (DeviceType → Bool)
      → AllDevices F
      → ℕ
      → List DeviceChannelProfileSetting
      → Outcome (List Applied)
  apply_all has_repo all_devices duty_to_apply [] = ok []
  apply_all has_repo all_devices duty_to_apply (device_channel ∷ rest) = do
    applied ←
        set_device_speed has_repo all_devices (device_uid device_channel)
          (channel_name device_channel) duty_to_apply
    others ← apply_all has_repo all_devices duty_to_apply rest
    ok (applied ++ others)

  -- Nothing is to be done if no member has an output.
  unfoldable pub apply_values :
      (DeviceType → Bool)
      → AllDevices F
      → ProfileMixFunctionType
      → List DeviceChannelProfileSetting
      → List ℕ
      → Bool
      → Outcome (List Applied)
  apply_values has_repo all_devices mix_function device_channels values true = ok []
  apply_values has_repo all_devices mix_function device_channels values false = do
    duty_to_apply ← apply_mix_function values mix_function
    apply_all has_repo all_devices duty_to_apply device_channels

  unfoldable pub apply_mix :
      (DeviceType → Bool)
      → AllDevices F
      → OutputCache
      → LastApplied
      → NormalizedMixProfile
      → List DeviceChannelProfileSetting
      → Outcome (List Applied)
  apply_mix has_repo all_devices requested last_applied profile device_channels = do
    values ← member_values requested last_applied profile.member_profile_uids
    apply_values has_repo all_devices profile.mix_function device_channels values.0 values.1

  unfoldable pub update_mixes :
      (DeviceType → Bool)
      → AllDevices F
      → OutputCache
      → LastApplied
      → MixScheduled
      → Outcome (List Applied)
  update_mixes has_repo all_devices requested last_applied [] = ok []
  update_mixes has_repo all_devices requested last_applied ((profile, device_channels) ∷ rest) = do
    applied ← apply_mix has_repo all_devices requested last_applied profile device_channels
    others ← update_mixes has_repo all_devices requested last_applied rest
    ok (applied ++ others)

  unfoldable pub update_speeds :
      (DeviceType → Bool)
      → AllDevices F
      → MixProfileCommander F
      → Outcome (MixProfileCommander F × List Applied)
  update_speeds has_repo all_devices c =
      let updated = update_last_applied_duties c in
      do
        applied ←
            update_mixes has_repo all_devices updated.graph_commander.process_output_cache
              updated.all_last_applied_duties updated.scheduled_settings
        ok (updated, applied)

  unfoldable pub clear_channel_setting :
      String → String → MixProfileCommander F → MixProfileCommander F
  clear_channel_setting uid channel c =
      let settings = remove_channel (mix uid channel) c.scheduled_settings in
      record c {
        scheduled_settings = remove_found (mix_profile_to_remove settings none) settings;
        graph_commander = Graph.clear_channel_setting uid channel c.graph_commander;
      }

  abbrev pub normalize_mix_setting :
      Profile F → ProfileMixFunctionType → List (Profile F) → NormalizedMixProfile
  normalize_mix_setting profile mix_function member_profiles = record {
    profile_uid = profile.uid;
    mix_function = mix_function;
    member_profile_uids = map (λ p. p.uid) member_profiles;
  }

  unfoldable pub schedule_mix :
      NormalizedMixProfile
      → DeviceChannelProfileSetting
      → MixProfileCommander F
      → MixProfileCommander F
  schedule_mix normalized device_channel c = record c {
    scheduled_settings = elim (get normalized c.scheduled_settings) [
      | some existing_device_channels ↦
          insert normalized (Set.insert device_channel existing_device_channels)
            (remove normalized c.scheduled_settings)
      | none ↦ insert normalized (device_channel ∷ []) c.scheduled_settings
    ];
  }

module _ {F : Type 0} ⦃fl : Float F⦄ where
  -- A member is known with the duty 0 until it has an output.
  unfoldable pub prepare_member :
      AllDevices F
      → Outcome (List (Function F))
      → DeviceChannelProfileSetting
      → Profile F
      → MixProfileCommander F
      → Outcome (MixProfileCommander F)
  prepare_member all_devices functions device_channel member c = do
    graph_commander ←
        Graph.schedule_setting all_devices functions device_channel member c.graph_commander
    ok (record {
      graph_commander = graph_commander;
      scheduled_settings = c.scheduled_settings;
      all_last_applied_duties =
          if contains_key member.uid c.all_last_applied_duties
          then c.all_last_applied_duties
          else insert member.uid 0 c.all_last_applied_duties;
    })

  -- The members are scheduled one by one; those before an error stay scheduled.
  unfoldable pub prepare_member_profiles :
      AllDevices F
      → Outcome (List (Function F))
      → DeviceChannelProfileSetting
      → List (Profile F)
      → MixProfileCommander F
      → MixProfileCommander F × Outcome (Unit {0})
  prepare_member_profiles all_devices functions device_channel [] c = (c, ok tt)
  prepare_member_profiles all_devices functions device_channel (member ∷ members) c =
      elim (prepare_member all_devices functions device_channel member c) [
        | ok prepared ↦
            prepare_member_profiles all_devices functions device_channel members prepared
        | err e ↦ (c, err e)
        | panic ↦ (c, panic)
      ]

  unfoldable pub schedule_members :
      AllDevices F
      → Outcome (List (Function F))
      → String
      → String
      → NormalizedMixProfile
      → List (Profile F)
      → MixProfileCommander F
      → MixProfileCommander F × Outcome (Unit {0})
  schedule_members all_devices functions uid channel normalized member_profiles c =
      let cleared = clear_channel_setting uid channel c in
      let prepared =
        prepare_member_profiles all_devices functions (mix uid channel) member_profiles cleared in
      elim prepared.1 [
        | ok _ ↦ (schedule_mix normalized (mix uid channel) prepared.0, ok tt)
        | err e ↦ (prepared.0, err e)
        | panic ↦ (prepared.0, panic)
      ]

  -- The state changes even when a member is refused: the channel has been cleared before.
  unfoldable pub schedule_setting :
      AllDevices F
      → Outcome (List (Function F))
      → String
      → String
      → Profile F
      → List (Profile F)
      → MixProfileCommander F
      → MixProfileCommander F × Outcome (Unit {0})
  schedule_setting all_devices functions uid channel mix_profile member_profiles c =
      if not (is_mix mix_profile.p_type)
      then (c, err "Only Mix Profiles are supported for scheduling in the MixProfileCommander")
      else elim mix_profile.mix_function_type [
        | none ↦ (c, err "Mix Function Type must be present for a Mix Profile")
        | some mix_function ↦
            if is_empty member_profiles
            then (c, err "Member profiles must be present for a Mix Profile")
            else schedule_members all_devices functions uid channel
                (normalize_mix_setting mix_profile mix_function member_profiles) member_profiles c
      ]
