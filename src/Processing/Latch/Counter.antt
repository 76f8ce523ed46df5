-- ===== src/Processing/Latch/Counter.antt =====
-- How the safety latch counts the rounds without a duty.
use coolerocontrol.Base.{
  ℕ, ◌+◌, ◌≤◌, ◌≡◌, ◌⊎◌, refl, inl, inr, Bool, true, false, Option, none, some, arith, string_eq,
  leb,
}
use coolerocontrol.Base.Dict.{get, insert}
use coolerocontrol.Base.Outcome.{ok}
use coolerocontrol.Processing.{SpeedProfileData}
use coolerocontrol.Processing.Sensor.{is_some}
use coolerocontrol.Processing.Latch.{
  SafetyLatchMetadata, Latches, new, max_count, with_limit, start, finish, process,
}

-- The limit is unset, or within its range; the counter is at most 60.
pub record IsCounting (m : SafetyLatchMetadata) : Type 0 where
  pub counter : m.no_duty_set_counter ≤ 60
  pub limit :
      (m.max_no_duty_set_count ≡ 0)
      ⊎ ((30 ≤ m.max_no_duty_set_count) × (m.max_no_duty_set_count ≤ 60))

pub new-IsCounting : IsCounting new
new-IsCounting = record { counter = omega arith; limit = inl refl }

-- With a limit set, it is at most 60.
pub with_limit-range :
    (delay : Option ℕ) (m : SafetyLatchMetadata)
    → IsCounting m
    → ((with_limit delay m).no_duty_set_counter ≡ m.no_duty_set_counter)
      × (30 ≤ (with_limit delay m).max_no_duty_set_count)
      × ((with_limit delay m).max_no_duty_set_count ≤ 60)
unfolding with_limit max_count
with_limit-range none m c = ground arith
with_limit-range (some d) m c = ground arith

-- The latch after a round: back at 0 with a duty, one more without, and never past the limit.
pub record IsCounted (m m' : SafetyLatchMetadata) (duty : Option ℕ) : Type 0 where
  pub counting : IsCounting m'
  pub with_duty : is_some duty ≡ true → m'.no_duty_set_counter ≡ 0
  pub without_duty : duty ≡ none → m'.no_duty_set_counter ≡ m.no_duty_set_counter + 1

-- A latch is due if its counter is at the limit.
abbrev pub is_due : SafetyLatchMetadata → Bool
is_due m = leb m.max_no_duty_set_count m.no_duty_set_counter

module _ {F : Type 0} where
  pub process_begin :
      (latches : Latches) (d : SpeedProfileData F) (m : SafetyLatchMetadata)
      → get d.profile.profile_uid latches ≡ some m
      → d.processing_started ≡ false
      → let limited = with_limit d.profile.function.response_delay m in
        process latches d ≡ ok (insert d.profile.profile_uid limited latches, start limited d)
  unfolding process
  process_begin latches d m e s = ground arith

  pub process_end :
      (latches : Latches) (d : SpeedProfileData F) (m : SafetyLatchMetadata)
      → get d.profile.profile_uid latches ≡ some m
      → d.processing_started ≡ true
      → process latches d ≡ ok (insert d.profile.profile_uid (finish m d) latches, d)
  unfolding process
  process_end latches d m e s = ground arith

  counted :
      (m l : SafetyLatchMetadata) (d : SpeedProfileData F) (duty : Option ℕ)
      → d.duty ≡ duty
      → l.no_duty_set_counter ≡ m.no_duty_set_counter
      → 30 ≤ l.max_no_duty_set_count
      → l.max_no_duty_set_count ≤ 60
      → (is_due l ≡ true → is_some duty ≡ true)
      → IsCounted m (finish l d) duty
  unfolding finish
  counted m l d none e c lo hi h =
      rw (e, finish)
        (record {
          counting = record { counter = ground arith; limit = inr (lo, hi) };
          with_duty = λ f. cc;
          without_duty = λ _. ground arith;
        })
  counted m l d (some x) e c lo hi h =
      rw (e, finish)
        (record {
          counting = record { counter = omega arith; limit = inr (lo, hi) };
          with_duty = λ _. refl;
          without_duty = λ f. cc;
        })

  -- If a latch that is due gets its duty, the counter does not wrap, and the round is counted.
  pub finish-IsCounted :
      (delay : Option ℕ) (m : SafetyLatchMetadata) (d : SpeedProfileData F)
      → IsCounting m
      → (is_due (with_limit delay m) ≡ true → is_some d.duty ≡ true)
      → IsCounted m (finish (with_limit delay m) d) d.duty
  finish-IsCounted delay m d c h =
      let (same, lo, hi) = with_limit-range delay m c in
      counted m (with_limit delay m) d d.duty refl same lo hi h
