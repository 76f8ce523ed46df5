-- ===== src/Processing/Threshold/Tests.antt =====
-- The threshold on sample duties.
use coolerocontrol.Base.{◌≡◌, ◌<◌, refl, false, none, some, [], ◌∷◌, arith}
use coolerocontrol.Processing.Threshold.{DutySettingMetadata, abs_diff, limited_duty, remember}
use coolerocontrol.Processing.Threshold.Steps.{
  IsWithin, limited_duty-IsWithin, settle, settle_reaches,
}

limited_sample : limited_duty 2 10 false 40 90 ≡ some 50
unfolding limited_duty
limited_sample = refl

held_sample : limited_duty 2 10 false 40 41 ≡ none
unfolding limited_duty
held_sample = refl

limited_duty-IsWithin_example : IsWithin 2 10 false 40 90 (limited_duty 2 10 false 40 90)
limited_duty-IsWithin_example = limited_duty-IsWithin 2 10 false 40 90 (omega arith) (omega arith)

settle_reaches_example : abs_diff 90 (settle 2 10 90 5 40) < 2
settle_reaches_example =
    settle_reaches 2 10 90 5 40 (omega arith) (omega arith) (omega arith) (omega arith)

abbrev remembered : DutySettingMetadata
remembered = record { last_manual_speeds_set = 40 ∷ 50 ∷ [] }

remember_sample : (remember 60 remembered).last_manual_speeds_set ≡ 40 ∷ 50 ∷ 60 ∷ []
unfolding remember
remember_sample = refl
