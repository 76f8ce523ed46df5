-- ===== src/Processing/Latch.antt =====
-- processors/functions.rs: the safety latch, which runs first and last in the chain. Counters are of
-- type `u8`; a release build wraps them.
pub mod Counter
use coolerocontrol.Base.{
  ℕ, ◌+◌, ◌%◌, String, Bool, true, false, not, Option, none, some, leb, ◌==◌, nat_eq, string_eq,
  if◌then◌else◌, min, max,
}
use coolerocontrol.Base.Dict.{Dict, get, insert, remove}
use coolerocontrol.Base.Outcome.{Outcome, ok, panic, unwrap, ◌>>=◌}
use coolerocontrol.Processing.{SpeedProfileData}

abbrev pub default_max_no_duty_set_count : ℕ
default_max_no_duty_set_count = 30

abbrev pub min_no_duty_set_count : ℕ
min_no_duty_set_count = 30

abbrev pub max_no_duty_set_count : ℕ
max_no_duty_set_count = 60

pub record SafetyLatchMetadata : Type 0 where
  pub no_duty_set_counter : ℕ
  pub max_no_duty_set_count : ℕ

abbrev pub new : SafetyLatchMetadata
new = record { no_duty_set_counter = max_no_duty_set_count; max_no_duty_set_count = 0 }

abbrev pub Latches : Type 0
Latches = Dict String SafetyLatchMetadata

abbrev pub init_state : String → Latches → Latches
init_state profile_uid m = insert profile_uid new m

abbrev pub clear_state : String → Latches → Latches
clear_state profile_uid m = remove profile_uid m

unfoldable pub max_count : Option ℕ → ℕ
max_count none = default_max_no_duty_set_count
max_count (some response_delay) =
    min max_no_duty_set_count (max min_no_duty_set_count response_delay)

-- The limit is set on the first run.
unfoldable pub with_limit : Option ℕ → SafetyLatchMetadata → SafetyLatchMetadata
unfolding max_count
with_limit response_delay m =
    if m.max_no_duty_set_count == 0
    then record m { max_no_duty_set_count = max_count response_delay }
    else m

module _ {F : Type 0} where
  unfoldable pub start : SafetyLatchMetadata → SpeedProfileData F → SpeedProfileData F
  start m d = record d {
    processing_started = true;
    safety_latch_triggered =
        if leb m.max_no_duty_set_count m.no_duty_set_counter
        then true
        else d.safety_latch_triggered;
  }

  unfoldable pub finish : SafetyLatchMetadata → SpeedProfileData F → SafetyLatchMetadata
  finish m d = elim d.duty [
    | some _ ↦ record m { no_duty_set_counter = 0 }
    | none ↦ record m { no_duty_set_counter = (m.no_duty_set_counter + 1) % 256 }
  ]

  unfoldable pub process : Latches → SpeedProfileData F → Outcome (Latches × SpeedProfileData F)
  process latches d = do
    m ← unwrap (get d.profile.profile_uid latches)
    let limited = with_limit d.profile.function.response_delay m
    if not d.processing_started
        then ok (insert d.profile.profile_uid limited latches, start limited d)
        else ok (insert d.profile.profile_uid (finish m d) latches, d)
