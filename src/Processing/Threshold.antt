-- ===== src/Processing/Threshold.antt =====
-- processors/functions.rs: the duty threshold post-processor. Duties are of type `u8`; a release
-- build wraps a sum or a difference of them.
pub mod Steps
pub mod Tests
use coolerocontrol.Base.{
  ℕ, ◌+◌, ◌-◌, ◌%◌, String, Bool, true, false, not, ◌&&◌, Option, none, some, List, [], ◌∷◌, ◌++◌,
  ltb, string_eq, if◌then◌else◌, length, tail, get_last?,
}
use coolerocontrol.Base.Dict.{Dict, get, insert, remove}
use coolerocontrol.Base.Outcome.{Outcome, ok, panic, unwrap, ◌>>=◌}
use coolerocontrol.Processing.{SpeedProfileData}
use coolerocontrol.Processing.Sensor.{is_some}

abbrev pub max_duty_sample_size : ℕ
max_duty_sample_size = 20

-- The duties that were set last, oldest first.
pub record DutySettingMetadata : Type 0 where
  pub last_manual_speeds_set : List ℕ

abbrev pub new : DutySettingMetadata
new = record { last_manual_speeds_set = [] }

abbrev pub Duties : Type 0
Duties = Dict String DutySettingMetadata

abbrev pub init_state : String → Duties → Duties
init_state profile_uid m = insert profile_uid new m

abbrev pub clear_state : String → Duties → Duties
clear_state profile_uid m = remove profile_uid m

abbrev pub abs_diff : ℕ → ℕ → ℕ
abs_diff a b = if ltb a b then b - a else a - b

-- From the minimum and maximum change, the latch, the last duty and the requested one.
unfoldable pub limited_duty : ℕ → ℕ → Bool → ℕ → ℕ → Option ℕ
limited_duty duty_minimum duty_maximum safety_latch_triggered last_duty duty =
    if ltb (abs_diff duty last_duty) duty_minimum && not safety_latch_triggered
    then none
    else if ltb duty_maximum (abs_diff duty last_duty)
    then some (
        if ltb duty last_duty
        then (last_duty + 256 - duty_maximum) % 256
        else (last_duty + duty_maximum) % 256)
    else some duty

-- A new duty at the back, and at most so many in all.
unfoldable pub remember : ℕ → DutySettingMetadata → DutySettingMetadata
remember duty m =
    let pushed = m.last_manual_speeds_set ++ duty ∷ [] in
    record {
      last_manual_speeds_set =
          if ltb max_duty_sample_size (length pushed) then tail pushed else pushed;
    }

module _ {F : Type 0} where
  unfoldable pub is_applicable : SpeedProfileData F → Bool
  is_applicable d = is_some d.duty

  -- The first application, at startup, has no last duty.
  unfoldable pub within_last : SpeedProfileData F → Option ℕ → Outcome (Option ℕ)
  within_last d none = ok d.duty
  within_last d (some last_duty) = do
    duty ← unwrap d.duty
    ok (
        limited_duty d.profile.function.duty_minimum d.profile.function.duty_maximum
          d.safety_latch_triggered last_duty duty)

  unfoldable pub duty_within_thresholds :
      DutySettingMetadata → SpeedProfileData F → Outcome (Option ℕ)
  unfolding within_last
  duty_within_thresholds m d = within_last d (get_last? m.last_manual_speeds_set)

  unfoldable pub store :
      Duties → SpeedProfileData F → Option ℕ → DutySettingMetadata → Duties × SpeedProfileData F
  store duties d none m = (duties, record d { duty = none })
  store duties d (some duty_to_set) m = (
    insert d.profile.profile_uid (remember duty_to_set m) duties,
    record d { duty = some duty_to_set },
  )

  unfoldable pub process : Duties → SpeedProfileData F → Outcome (Duties × SpeedProfileData F)
  process duties d = do
    m ← unwrap (get d.profile.profile_uid duties)
    within ← duty_within_thresholds m d
    ok (store duties d within m)
