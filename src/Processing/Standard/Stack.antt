-- ===== src/Processing/Standard/Stack.antt =====
-- The standard function never panics, and gives a temperature whenever the safety latch asks for one.
use coolerocontrol.Base.{
  ℕ, ◌<◌, ◌≡◌, inl, inr, refl, ap, Bool, true, not, ◌&&◌, some, List, [], ◌∷◌, arith, ltb, length,
  head?, tail, get_last?, last_from, Bool-cases,
}
use coolerocontrol.Base.Float.{Float, fltb}
use coolerocontrol.Base.Outcome.{Returns, Returns-unwrap, Returns-imp}
use coolerocontrol.Processing.{SpeedProfileData}
use coolerocontrol.Setting.{Function}
use coolerocontrol.Processing.Sensor.{is_some}
use coolerocontrol.Processing.Standard.{
  ChannelSettingMetadata, Processed, apply_oldest, apply_change, main_logic, apply_first, is_first,
  process_stack, apply_temp, temp_within_tolerance, skip_spikes,
}

module _ {F : Type 0} ⦃fl : Float F⦄ where
  -- What a step keeps: the data but for its temp, the size of the stack, a stack that is not empty,
  -- and a temp for the latch.
  pub record IsStep (m : ChannelSettingMetadata F) (d : SpeedProfileData F) (s : Processed F)
      : Type 0 where
    pub same_data : s.1 ≡ record d { temp = s.1.temp }
    pub same_size : s.0.ideal_stack_size ≡ m.ideal_stack_size
    pub for_latch : d.safety_latch_triggered ≡ true → is_some s.1.temp ≡ true

  skip_spikes-size :
      (b : Bool) (x : F) (m : ChannelSettingMetadata F)
      → (skip_spikes b x m).ideal_stack_size ≡ m.ideal_stack_size
  unfolding skip_spikes
  skip_spikes-size b x m = ground arith

  apply_oldest-IsStep :
      (deviance oldest newest : F) (m : ChannelSettingMetadata F) (d : SpeedProfileData F)
      → IsStep m d (apply_oldest deviance oldest newest m d)
  unfolding apply_oldest apply_temp
  apply_oldest-IsStep deviance oldest newest m d =
      elim (Bool-cases (
        temp_within_tolerance oldest m.last_applied_temp deviance
        && not d.safety_latch_triggered)) [
          | inl skip ↦ rw skip (record {
            same_data = refl;
            same_size = skip_spikes-size _ oldest m;
            for_latch = λ l. ground arith;
          })
          | inr apply ↦ rw apply (record {
            same_data = refl;
            same_size = skip_spikes-size _ oldest m;
            for_latch = λ l. refl;
          })
        ]

  apply_change-IsStep :
      (down : Bool) (deviance newest oldest : F) (m : ChannelSettingMetadata F)
      (d : SpeedProfileData F)
      → IsStep m d (apply_change down deviance newest oldest m d)
  unfolding apply_change apply_temp
  apply_change-IsStep down deviance newest oldest m d =
      elim (Bool-cases (down && fltb m.last_applied_temp newest)) [
        | inl rise ↦ rw rise (record { same_data = refl; same_size = refl; for_latch = λ l. refl })
        | inr other ↦ rw other (apply_oldest-IsStep deviance oldest newest m d)
      ]

  -- The settings that the main logic reads.
  pub record HasSettings (f : Function F) : Type 0 where
    pub delay : ℕ
    pub down : Bool
    pub deviance : F
    pub has_delay : f.response_delay ≡ some delay
    pub has_down : f.only_downward ≡ some down
    pub has_deviance : f.deviance ≡ some deviance

  main_logic-IsStep :
      (x : F) (xs : List F) (m : ChannelSettingMetadata F) (d : SpeedProfileData F)
      → m.temp_hist_stack ≡ x ∷ xs
      → HasSettings d.profile.function
      → Returns (main_logic m d) (IsStep m d)
  unfolding main_logic
  main_logic-IsStep x xs m d e h = Returns-unwrap (IsStep m d) _ _ h.down h.has_down (
      Returns-unwrap (IsStep m d) _ _ (last_from x xs) (ap get_last? e) (
        Returns-unwrap (IsStep m d) _ _ x (ap head? e) (
          Returns-unwrap (IsStep m d) _ _ h.deviance h.has_deviance
            (apply_change-IsStep h.down h.deviance (last_from x xs) x m d))))

  apply_first-IsStep :
      (x : F) (xs : List F) (m : ChannelSettingMetadata F) (d : SpeedProfileData F)
      → m.temp_hist_stack ≡ x ∷ xs
      → Returns (apply_first m d) (IsStep m d)
  unfolding apply_first apply_temp
  apply_first-IsStep x xs m d e =
      Returns-unwrap (IsStep m d) _ _ x (ap head? e)
        (record { same_data = refl; same_size = refl; for_latch = λ l. refl })

  abbrev pub IsFilled : ChannelSettingMetadata F → Type 0
  IsFilled m = (x : F) × (xs : List F) × (m.temp_hist_stack ≡ x ∷ xs)

  -- A list of more than one element has a tail that is not empty.
  tail_filled :
      (n : ℕ) (xs : List F) → 0 < n → n < length xs → (y : F) × (ys : List F) × (tail xs ≡ y ∷ ys)
  tail_filled n [] p h = absurd (omega arith)
  tail_filled n (x ∷ []) p h = absurd (omega arith)
  tail_filled n (x ∷ y ∷ ys) p h = (y, ys, refl)

  pub process_stack-IsStep :
      (m : ChannelSettingMetadata F) (d : SpeedProfileData F)
      → IsFilled m
      → 0 < m.ideal_stack_size
      → HasSettings d.profile.function
      → Returns (process_stack m d) (IsStep m d)
  unfolding process_stack
  process_stack-IsStep m d (x, xs, e) p h =
      elim (Bool-cases (ltb m.ideal_stack_size (length m.temp_hist_stack))) [
        | inl long ↦
            let (y, ys, t) = tail_filled m.ideal_stack_size m.temp_hist_stack p (ground arith) in
            rw long (go y ys t)
        | inr fits ↦
            rw fits
              (elim (Bool-cases (is_first m && ltb (length m.temp_hist_stack) m.ideal_stack_size)) [
                | inl first ↦ rw first (apply_first-IsStep x xs m d e)
                | inr full ↦ rw full (main_logic-IsStep x xs m d e h)
              ])
      ]
    where
      short : ChannelSettingMetadata F
      short = record m { temp_hist_stack = tail m.temp_hist_stack }

      go :
          (y : F) (ys : List F)
          → tail m.temp_hist_stack ≡ y ∷ ys
          → Returns (main_logic short d) (IsStep m d)
      go y ys t =
          Returns-imp _ _ (main_logic short d)
            (λ s k. record {
              same_data = k.same_data;
              same_size = k.same_size;
              for_latch = k.for_latch;
            })
            (main_logic-IsStep y ys short d t h)
