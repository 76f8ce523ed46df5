-- ===== src/Processing/Mix/Tests.antt =====
-- The mix commander on a sample machine, and instances of the theorems.
use coolerocontrol.Base.{
  ℕ, ◌≡◌, ◌<◌, refl, Bool, true, false, none, some, [], ◌∷◌, arith, string_eq, ◌==◌, All, Any,
  if◌then◌else◌,
}
use coolerocontrol.Base.Dict.{get, contains_key, insert}
use coolerocontrol.Base.Fixed.{fixed}
use coolerocontrol.Base.Outcome.{ok, Returns}
use coolerocontrol.Device.{DeviceType}
use coolerocontrol.Setting.{Profile, ProfileType, ProfileMixFunctionType}
use coolerocontrol.Processing.{mix}
use coolerocontrol.Processing.Samples.{devices_at, standard_function}
use coolerocontrol.Processing.Chain.Samples.{averages, profile-IsReady}
use coolerocontrol.Processing.Graph.Samples
use coolerocontrol.Processing.Graph.Samples.{present, given, same_devices}
use coolerocontrol.Processing.Mix.Schedule.{IsScheduleResult, schedule_setting-IsScheduleResult}
use coolerocontrol.Processing.Graph.{Applied, OutputCache}
use coolerocontrol.Processing.Graph
use coolerocontrol.Processing.Mix.{
  normalize_mix_setting, schedule_setting, MixProfileCommander, LastApplied, apply_mix_function,
  last_applied_from, update_speeds, update_last_applied_duties,
}
use coolerocontrol.Processing.Mix.Combine.{IsCombined, apply_mix_function-IsCombined}
use coolerocontrol.Processing.Mix.Members.{latest, last_applied_from-latest}
use coolerocontrol.Processing.Mix.Speeds.{AreBytes, IsMixEntry, IsMixCall, update_speeds-IsMixCall}

average_sample : apply_mix_function (30 ∷ 90 ∷ 51 ∷ []) ProfileMixFunctionType.avg ≡ ok 57
unfolding apply_mix_function
average_sample = refl

apply_mix_function-IsCombined_example :
    Returns
      (apply_mix_function (255 ∷ 255 ∷ []) ProfileMixFunctionType.avg)
      (IsCombined (255 ∷ 255 ∷ []) ProfileMixFunctionType.avg)
apply_mix_function-IsCombined_example =
    apply_mix_function-IsCombined (255 ∷ 255 ∷ []) ProfileMixFunctionType.avg refl
      (omega arith, (omega arith, tt))

-- Of two members the one has an output, and the other had one before.
abbrev requested : OutputCache
requested = ("p1", some 40) ∷ ("p2", none) ∷ []

abbrev last : LastApplied
last = ("p1", 0) ∷ ("p2", 70) ∷ []

newest_duty :
    get "p1" (last_applied_from requested last) ≡ latest (get "p1" requested) (get "p1" last)
unfolding contains_key
newest_duty = last_applied_from-latest "p1" requested last (refl, (refl, tt))

abbrev commander : MixProfileCommander ℕ
commander = record {
  graph_commander = record Graph.new { process_output_cache = requested };
  scheduled_settings =
      (
        record {
          profile_uid = "m1";
          mix_function = ProfileMixFunctionType.max;
          member_profile_uids = "p1" ∷ "p2" ∷ [];
        },
        mix "dev" "fan1" ∷ [],
      )
      ∷ [];
  all_last_applied_duties = last;
}

abbrev updated : MixProfileCommander ℕ
updated = record commander { all_last_applied_duties = ("p1", 40) ∷ ("p2", 70) ∷ [] }

updated_sample : update_last_applied_duties commander ≡ updated
unfolding update_last_applied_duties last_applied_from insert
updated_sample = refl

abbrev has_repo : DeviceType → Bool
has_repo t = true

two_bytes :
    (a b : Bool) (d : ℕ)
    → latest
        (if a then some (some 40) else if b then some none else none)
        (if a then some 40 else if b then some 70 else none)
      ≡ some d
    → d < 256
two_bytes true b d e = ground arith
two_bytes false true d e = ground arith
two_bytes false false d e = ground arith

commander-AreBytes :
    AreBytes
      (update_last_applied_duties commander).graph_commander.process_output_cache
      (update_last_applied_duties commander).all_last_applied_duties
unfolding update_last_applied_duties get last_applied_from insert
commander-AreBytes uid d e = two_bytes ("p1" == uid) ("p2" == uid) d e

commander-IsMixEntry :
    All
      (IsMixEntry
        (devices_at 45000)
        (update_last_applied_duties commander).graph_commander.process_output_cache
        (update_last_applied_duties commander).all_last_applied_duties)
      (update_last_applied_duties commander).scheduled_settings
unfolding update_last_applied_duties contains_key last_applied_from insert
commander-IsMixEntry = (
  record {
    members = refl;
    requested_keys = (refl, (refl, tt));
    last_keys = (refl, (refl, tt));
    targets = (refl, tt);
  },
  tt,
)

update_speeds-IsMixCall_example : Returns (update_speeds has_repo (devices_at 45000) commander) λ r.
    (r.0 ≡ update_last_applied_duties commander)
    × All
        (λ a.
          Any
            (IsMixCall
              (update_last_applied_duties commander).graph_commander.process_output_cache
              (update_last_applied_duties commander).all_last_applied_duties
              a)
            (update_last_applied_duties commander).scheduled_settings)
        r.1
update_speeds-IsMixCall_example =
    update_speeds-IsMixCall (devices_at 45000) has_repo commander commander-AreBytes
      commander-IsMixEntry

abbrev mix_given : Profile ℕ
mix_given = record given {
  uid = "m1";
  p_type = ProfileType.mix;
  mix_function_type = some ProfileMixFunctionType.max;
}

schedule_setting-IsScheduleResult_example :
    IsScheduleResult averages present
      (normalize_mix_setting mix_given ProfileMixFunctionType.max (given ∷ []))
      (mix "dev" "fan1")
      (given ∷ [])
      (schedule_setting
        (devices_at 45000)
        (ok (standard_function ∷ []))
        "dev"
        "fan1"
        mix_given
        (given ∷ [])
        (record commander { graph_commander = Samples.commander none }))
schedule_setting-IsScheduleResult_example =
    schedule_setting-IsScheduleResult averages (devices_at 45000) (ok (standard_function ∷ []))
      present "dev" "fan1" mix_given ProfileMixFunctionType.max (given ∷ [])
      (record commander { graph_commander = Samples.commander none }) refl (same_devices 45000)
      (profile-IsReady, tt) (Samples.commander-IsWellFormed none)
