-- ===== src/Processing/Threshold/Steps.antt =====
-- How the threshold moves the duty.
use coolerocontrol.Base.{
  ℕ, zero, suc, ◌-◌, ◌*◌, ◌≤◌, ◌<◌, ◌≡◌, ◌⊎◌, refl, inl, inr, String, Bool, true, false, Option,
  none, some, List, [], ◌∷◌, arith, string_eq, length, length-append, length-tail, get_last?,
  get_last?-append, tail, min, max, Option-cases, ◌++◌, ap,
}
use coolerocontrol.Base.Dict.{contains_key, get_of_contains_key, contains_key-replace}
use coolerocontrol.Base.Outcome.{Returns, Returns-unwrap, Returns-bind}
use coolerocontrol.Processing.{SpeedProfileData}
use coolerocontrol.Processing.Sensor.{is_some}
use coolerocontrol.Processing.Threshold.{
  DutySettingMetadata, Duties, max_duty_sample_size, abs_diff, limited_duty, remember, within_last,
  duty_within_thresholds, store, process,
}

-- A duty that is set lies between the last one and the requested one, and no further from the last
-- one than the maximum change; it is the requested one if that is near enough.
pub record IsLimited (duty_maximum last_duty duty x : ℕ) : Type 0 where
  pub from : min last_duty duty ≤ x
  pub up_to : x ≤ max last_duty duty
  pub near : abs_diff x last_duty ≤ duty_maximum
  pub exact : abs_diff duty last_duty ≤ duty_maximum → x ≡ duty

abbrev pub IsWithin : ℕ → ℕ → Bool → ℕ → ℕ → Option ℕ → Type 0
IsWithin duty_minimum duty_maximum latch last_duty duty none =
    (abs_diff duty last_duty < duty_minimum) × (latch ≡ false)
IsWithin duty_minimum duty_maximum latch last_duty duty (some x) =
    IsLimited duty_maximum last_duty duty x
    × ((duty_minimum ≤ abs_diff duty last_duty) ⊎ (latch ≡ true))

limited_duty-none :
    (duty_minimum duty_maximum : ℕ) (latch : Bool) (last_duty duty : ℕ)
    → limited_duty duty_minimum duty_maximum latch last_duty duty ≡ none
    → (abs_diff duty last_duty < duty_minimum) × (latch ≡ false)
unfolding limited_duty
limited_duty-none duty_minimum duty_maximum latch last_duty duty e = ground arith

limited_duty-some :
    (duty_minimum duty_maximum : ℕ) (latch : Bool) (last_duty duty x : ℕ)
    → last_duty < 256
    → duty < 256
    → limited_duty duty_minimum duty_maximum latch last_duty duty ≡ some x
    → IsLimited duty_maximum last_duty duty x
      × ((duty_minimum ≤ abs_diff duty last_duty) ⊎ (latch ≡ true))
unfolding limited_duty
limited_duty-some duty_minimum duty_maximum latch last_duty duty x l d e = ground arith

-- For one-byte duties the threshold holds a duty back only if the change is below the minimum and
-- the latch is not triggered, and sets one only otherwise. The duty that it sets lies between the
-- last and the requested one, no further from the last than the maximum change, and is the
-- requested one if that is near enough.
pub limited_duty-IsWithin :
    (duty_minimum duty_maximum : ℕ) (latch : Bool) (last_duty duty : ℕ)
    → last_duty < 256
    → duty < 256
    → IsWithin duty_minimum duty_maximum latch last_duty duty
        (limited_duty duty_minimum duty_maximum latch last_duty duty)
limited_duty-IsWithin duty_minimum duty_maximum latch last_duty duty l d =
    elim (Option-cases (limited_duty duty_minimum duty_maximum latch last_duty duty)) [
      | inl e ↦ rw e (limited_duty-none duty_minimum duty_maximum latch last_duty duty e)
      | inr (x, e) ↦ rw e (limited_duty-some duty_minimum duty_maximum latch last_duty duty x l d e)
    ]

limited_duty-latch :
    (duty_minimum duty_maximum last_duty duty : ℕ)
    → is_some (limited_duty duty_minimum duty_maximum true last_duty duty) ≡ true
unfolding limited_duty
limited_duty-latch duty_minimum duty_maximum last_duty duty = ground arith

-- The duty that the device runs at after `n` rounds in which `duty` is requested.
unfoldable pub settle : ℕ → ℕ → ℕ → ℕ → ℕ → ℕ
settle duty_minimum duty_maximum duty zero last_duty = last_duty
settle duty_minimum duty_maximum duty (suc n) last_duty =
    elim (limited_duty duty_minimum duty_maximum false last_duty duty) [
      | none ↦ settle duty_minimum duty_maximum duty n last_duty
      | some x ↦ settle duty_minimum duty_maximum duty n x
    ]

settled :
    (duty_minimum duty_maximum duty n last_duty : ℕ)
    → 0 < duty_minimum
    → last_duty < 256
    → duty < 256
    → abs_diff duty last_duty < duty_minimum
    → settle duty_minimum duty_maximum duty n last_duty ≡ last_duty
unfolding settle limited_duty
settled duty_minimum duty_maximum duty zero last_duty p l d h = refl
settled duty_minimum duty_maximum duty (suc n) last_duty p l d h =
    ground (arith, settled duty_minimum duty_maximum duty n last_duty)

-- A step covers the maximum change, if the request is that far.
limited_duty_progress :
    (duty_minimum duty_maximum last_duty duty x : ℕ)
    → last_duty < 256
    → duty < 256
    → limited_duty duty_minimum duty_maximum false last_duty duty ≡ some x
    → (x < 256) × (abs_diff duty x ≤ abs_diff duty last_duty - duty_maximum)
unfolding limited_duty
limited_duty_progress duty_minimum duty_maximum last_duty duty x l d h = ground arith

held_back :
    (duty_minimum duty_maximum last_duty duty : ℕ)
    → limited_duty duty_minimum duty_maximum false last_duty duty ≡ none
    → abs_diff duty last_duty < duty_minimum
unfolding limited_duty
held_back duty_minimum duty_maximum last_duty duty h = ground arith

-- Without the latch, a request that stays is reached up to less than the minimum change, within as
-- many rounds as the difference has maximum changes.
pub settle_reaches :
    (duty_minimum duty_maximum duty n last_duty : ℕ)
    → 0 < duty_minimum
    → last_duty < 256
    → duty < 256
    → abs_diff duty last_duty ≤ n * duty_maximum
    → abs_diff duty (settle duty_minimum duty_maximum duty n last_duty) < duty_minimum
unfolding settle
settle_reaches duty_minimum duty_maximum duty zero last_duty p l d h = ground arith
settle_reaches duty_minimum duty_maximum duty (suc n) last_duty p l d h =
    elim (Option-cases (limited_duty duty_minimum duty_maximum false last_duty duty)) [
      | inl back ↦
          let small = held_back duty_minimum duty_maximum last_duty duty back in
          rw (back, settle, settled duty_minimum duty_maximum duty n last_duty p l d small) small
      | inr (x, set) ↦
          let moved = limited_duty_progress duty_minimum duty_maximum last_duty duty x l d set in
          rw (set, settle)
            (settle_reaches duty_minimum duty_maximum duty n x p moved.0 d (omega (arith, moved.1)))
    ]

get_last?-tail_append :
    (xs : List ℕ) (y : ℕ) → 0 < length xs → get_last? (tail (xs ++ y ∷ [])) ≡ some y
get_last?-tail_append [] y h = elim h [ ]
get_last?-tail_append (x ∷ xs) y h = get_last?-append y xs

-- At most `max_duty_sample_size` duties are remembered, and the newest is the one that was set.
remember_lem :
    (duty : ℕ) (m : DutySettingMetadata)
    → length m.last_manual_speeds_set ≤ max_duty_sample_size
    → (length (remember duty m).last_manual_speeds_set ≤ max_duty_sample_size)
      × (get_last? (remember duty m).last_manual_speeds_set ≡ some duty)
unfolding remember
remember_lem duty m h = ground (
  arith,
  length-append m.last_manual_speeds_set (duty ∷ []),
  length-tail (m.last_manual_speeds_set ++ duty ∷ []),
  get_last?-append duty m.last_manual_speeds_set,
  get_last?-tail_append m.last_manual_speeds_set duty,
)

module _ {F : Type 0} where
  -- What a run of the post-processor keeps: the data but for its duty, and the keys of its state.
  pub record IsRun (duties : Duties) (d : SpeedProfileData F) (r : Duties × SpeedProfileData F)
      : Type 0 where
    pub same_data : r.1 ≡ record d { duty = r.1.duty }
    pub for_latch : d.safety_latch_triggered ≡ true → is_some r.1.duty ≡ true
    pub same_keys : (k : String) → contains_key k r.0 ≡ contains_key k duties

  within_last-latch :
      (d : SpeedProfileData F) (duty : ℕ) (o : Option ℕ)
      → d.duty ≡ some duty
      → Returns (within_last d o) (λ w. d.safety_latch_triggered ≡ true → is_some w ≡ true)
  unfolding within_last
  within_last-latch d duty none e = λ l. ap is_some e
  within_last-latch d duty (some last_duty) e =
      Returns-unwrap (λ (w : Option ℕ). d.safety_latch_triggered ≡ true → is_some w ≡ true) _ _ duty
        e (λ l. rw l (limited_duty-latch _ _ last_duty duty))

  duty_within_thresholds-latch :
      (m : DutySettingMetadata) (d : SpeedProfileData F) (duty : ℕ)
      → d.duty ≡ some duty
      → Returns (duty_within_thresholds m d) λ w. d.safety_latch_triggered ≡ true → is_some w ≡ true
  unfolding duty_within_thresholds
  duty_within_thresholds-latch m d duty e = within_last-latch d duty _ e

  store-IsRun :
      (duties : Duties) (d : SpeedProfileData F) (m : DutySettingMetadata) (w : Option ℕ)
      → contains_key d.profile.profile_uid duties ≡ true
      → (d.safety_latch_triggered ≡ true → is_some w ≡ true)
      → IsRun duties d (store duties d w m)
  unfolding store
  store-IsRun duties d m none k h = record {
    same_data = refl;
    for_latch = h;
    same_keys = λ j. refl;
  }
  store-IsRun duties d m (some x) k h = record {
    same_data = refl;
    for_latch = h;
    same_keys = λ j. contains_key-replace d.profile.profile_uid j (remember x m) duties k;
  }

  -- For a profile with its state and a duty, the threshold returns: it changes nothing of the data but
  -- the duty, and leaves one if the safety latch is triggered. The keys of its state stay.
  pub process-IsRun :
      (duties : Duties) (d : SpeedProfileData F) (duty : ℕ)
      → contains_key d.profile.profile_uid duties ≡ true
      → d.duty ≡ some duty
      → Returns (process duties d) (IsRun duties d)
  unfolding process
  process-IsRun duties d duty k e =
      let (m, found) = get_of_contains_key d.profile.profile_uid duties k in
      Returns-unwrap (IsRun duties d) _ _ m found (
        Returns-bind (IsRun duties d) (λ w. d.safety_latch_triggered ≡ true → is_some w ≡ true) _ _
          (duty_within_thresholds-latch m d duty e) (λ w h. store-IsRun duties d m w k h))
