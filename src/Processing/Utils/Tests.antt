-- ===== src/Processing/Utils/Tests.antt =====
-- The samples of processing/utils.rs over fixed-point numbers, and instances of the theorems.
use coolerocontrol.Base.{ℕ, ◌≡◌, ◌≤◌, refl, inl, inr, List, [], ◌∷◌, arith}
use coolerocontrol.Base.Fixed.{fixed, fixed-IsOrdered, fixed-IsRounded}
use coolerocontrol.Base.Outcome.{ok, Returns, ◌>>=◌}
use coolerocontrol.Processing.Utils.{Step, normalize_profile, interpolate_profile}
use coolerocontrol.Processing.Utils.Normal.{IsNormal}
use coolerocontrol.Processing.Utils.Failsafe.{normalize_profile-IsNormal}
use coolerocontrol.Processing.Utils.Interpolate.{duty_at, interpolate_profile-duty_at}
use coolerocontrol.Processing.Utils.Duty.{
  interpolate_profile_mono, interpolate_profile-failsafe, normalize_profile-failsafe,
}

abbrev given : List (Step ℕ)
given = (30000, 40) ∷ (25000, 25) ∷ (35000, 30) ∷ (40000, 35) ∷ (40000, 80) ∷ []

normalize_sample :
    normalize_profile given 60000 100
    ≡ ok ((25000, 25) ∷ (30000, 40) ∷ (35000, 40) ∷ (40000, 80) ∷ (60000, 100) ∷ [])
unfolding normalize_profile
normalize_sample = refl

normalize_empty : normalize_profile {F = ℕ} [] 60000 200 ≡ ok ((60000, 200) ∷ [])
unfolding normalize_profile
normalize_empty = refl

abbrev curve : List (Step ℕ)
curve = (20000, 50) ∷ (50000, 70) ∷ (60000, 100) ∷ []

interpolate_sample : interpolate_profile curve 33000 ≡ ok 59
unfolding interpolate_profile
interpolate_sample = refl

curve-IsNormal : IsNormal 60000 100 curve
curve-IsNormal = record {
  rising = (refl, omega arith, (refl, omega arith, tt));
  at_most = omega arith;
  failsafe = inr (inr (inl (refl, refl)));
}

normalize_profile-IsNormal_example :
    Returns (normalize_profile given 60000 100) (IsNormal 60000 100)
normalize_profile-IsNormal_example =
    normalize_profile-IsNormal fixed-IsOrdered given 60000 100 (omega arith)

interpolate_profile-duty_at_example :
    interpolate_profile curve 33000
    ≡ ok (duty_at {F = ℕ} (20000, 50) ((50000, 70) ∷ (60000, 100) ∷ []) 33000)
interpolate_profile-duty_at_example =
    interpolate_profile-duty_at fixed-IsOrdered (20000, 50) ((50000, 70) ∷ (60000, 100) ∷ []) 33000

interpolate_profile_mono_example :
    Returns
      (interpolate_profile curve 33000)
      λ d. (d ≤ 100) × Returns (interpolate_profile curve 41000) (λ d'. d ≤ d')
interpolate_profile_mono_example =
    interpolate_profile_mono fixed-IsOrdered fixed-IsRounded 60000 100 curve 33000 41000
      (omega arith) curve-IsNormal refl

interpolate_profile-failsafe_example : interpolate_profile curve 71000 ≡ ok 100
interpolate_profile-failsafe_example =
    interpolate_profile-failsafe fixed-IsOrdered fixed-IsRounded 60000 100 curve 71000 (omega arith)
      curve-IsNormal refl

normalize_profile-failsafe_example :
    (do p ← normalize_profile given 60000 100; interpolate_profile p 60000) ≡ ok 100
normalize_profile-failsafe_example =
    normalize_profile-failsafe fixed-IsOrdered fixed-IsRounded given 60000 100 60000 (omega arith)
      (omega arith) refl
