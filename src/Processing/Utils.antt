-- ===== src/Processing/Utils.antt =====
-- processing/utils.rs: the normal form of a speed profile, and the duty at a temperature.
pub mod Normal
pub mod Failsafe
pub mod Interpolate
pub mod Duty
pub mod Tests
use coolerocontrol.Base.{
  ℕ, Bool, true, ◌&&◌, List, [], ◌∷◌, ◌++◌, ltb, leb, ◌==◌, nat_eq, if◌then◌else◌, last_from,
}
use coolerocontrol.Base.Float.{Float, fleb, fltb, feqb}
use coolerocontrol.Base.Outcome.{Outcome, ok, panic}

-- One point of a profile: (temp, duty).
abbrev pub Step : Type 0 → Type 0
Step F = F × ℕ

-- Following duties are not allowed to decrease, or to pass the maximum.
unfoldable pub adjusted_duty : ℕ → ℕ → ℕ → ℕ
adjusted_duty max_duty_value previous_duty duty =
    if ltb duty previous_duty
    then previous_duty
    else if ltb max_duty_value duty
    then max_duty_value
    else duty

module _ {F : Type 0} ⦃fl : Float F⦄ where
  -- The comparison of the sort is not `Greater`: by temp, and then the larger duty first.
  unfoldable pub step_leb : Step F → Step F → Bool
  step_leb a b = if fltb a.0 b.0 then true else feqb a.0 b.0 && leb b.1 a.1

  -- `sort_by` is stable: an element goes before those that it is equal to.
  unfoldable pub insert_step : Step F → List (Step F) → List (Step F)
  insert_step s [] = s ∷ []
  insert_step s (x ∷ xs) = if step_leb s x then s ∷ x ∷ xs else x ∷ insert_step s xs

  unfoldable pub sort_steps : List (Step F) → List (Step F)
  unfolding insert_step step_leb
  sort_steps [] = []
  sort_steps (x ∷ xs) = insert_step x (sort_steps xs)

  -- The loop, from the step that was pushed last.
  unfoldable pub normalize_from : ℕ → F → ℕ → List (Step F) → List (Step F)
  unfolding adjusted_duty
  normalize_from max_duty_value previous_temp previous_duty [] = []
  normalize_from max_duty_value previous_temp previous_duty ((temp, duty) ∷ rest) =
      let skip = normalize_from max_duty_value previous_temp previous_duty rest in
      let adjusted = adjusted_duty max_duty_value previous_duty duty in
      let more = normalize_from max_duty_value temp adjusted rest in
      if feqb temp previous_temp
      then skip
      else (temp, adjusted) ∷ (if adjusted == max_duty_value then [] else more)

  unfoldable pub normalize_sorted : ℕ → List (Step F) → Outcome (List (Step F))
  unfolding normalize_from
  normalize_sorted max_duty_value [] = panic
  normalize_sorted max_duty_value ((temp, duty) ∷ rest) =
      ok ((temp, duty) ∷ normalize_from max_duty_value temp duty rest)

  unfoldable pub normalize_profile : List (Step F) → F → ℕ → Outcome (List (Step F))
  unfolding normalize_sorted sort_steps
  normalize_profile profile critical_temp max_duty_value =
      normalize_sorted max_duty_value (sort_steps (profile ++ (critical_temp, max_duty_value) ∷ []))

  -- The loop that looks for the steps below and above the temperature.
  unfoldable pub bracket : Step F → Step F → List (Step F) → F → Step F × Step F
  bracket step_below step_above [] temp = (step_below, step_above)
  bracket step_below step_above (step ∷ rest) temp =
      let below = if fleb step.0 temp then step else step_below in
      if fleb temp step.0 then (below, step) else bracket below step_above rest temp

  unfoldable pub interpolated : Step F → Step F → F → ℕ
  interpolated below above temp = fl.as_u8 (
      fl.round (
        fl.add (fl.of_nat below.1) (
          fl.mul (fl.div (fl.sub temp below.0) (fl.sub above.0 below.0))
            (fl.sub (fl.of_nat above.1) (fl.of_nat below.1)))))

  -- A temp that matches exactly needs no calculation.
  unfoldable pub duty_in : Step F × Step F → F → ℕ
  unfolding interpolated
  duty_in (below, above) temp =
      if feqb below.0 above.0 then below.1 else interpolated below above temp

  unfoldable pub interpolate_profile : List (Step F) → F → Outcome ℕ
  unfolding bracket duty_in
  interpolate_profile [] temp = panic
  interpolate_profile (step ∷ rest) temp =
      ok (duty_in (bracket step (last_from step rest) (step ∷ rest) temp) temp)
