-- ===== src/Processing/Utils/Duty.antt =====
-- What a normalized profile guarantees of the duties that are read from it.
use coolerocontrol.Base.{ℕ, ◌≤◌, ◌<◌, ◌≡◌, inl, inr, true, List, [], ◌∷◌, arith, All-imp}
use coolerocontrol.Base.Float.{Float, IsOrdered, IsRounded, fleb, fltb}
use coolerocontrol.Base.Outcome.{Outcome, ok, err, panic, ◌>>=◌, Returns}
use coolerocontrol.Processing.Utils.{Step, normalize_profile, interpolate_profile}
use coolerocontrol.Processing.Utils.Normal.{IsRising, AtMost, HasFailsafe, IsNormal}
use coolerocontrol.Processing.Utils.Failsafe.{normalize_profile-IsNormal}
use coolerocontrol.Processing.Utils.Interpolate.{
  duty_after, duty_at, interpolate_profile-duty_at, duty_after-ge, duty_after_mono, IsSmall,
  segment, interpolated_bounds,
}

module _ {F : Type 0} ⦃fl : Float F⦄ (o : IsOrdered F) (r : IsRounded F) where
  duty_after-le :
      (m : ℕ) (below : Step F) (rest : List (Step F)) (temp : F)
      → IsRising below.0 below.1 rest
      → IsSmall o r rest
      → below.1 ≤ m
      → AtMost m rest
      → fleb below.0 temp ≡ true
      → duty_after below rest temp ≤ m
  unfolding duty_after
  duty_after-le m below [] temp i b l a h = l
  duty_after-le m below (step ∷ rest) temp i b l a h = ground (
    arith,
    o.leb_total step.0 temp,
    interpolated_bounds o r below step temp,
    segment o r below step temp i.0 i.1 b.0 h,
    duty_after-le m step rest temp i.2 b.1 a.0 a.1,
  )

  HasFailsafe-later :
      (c : F) (m : ℕ) (t : F) (d : ℕ) (rest : List (Step F))
      → IsRising t d rest
      → HasFailsafe c m rest
      → fltb t c ≡ true
  HasFailsafe-later c m t d [] i h = elim h [ ]
  HasFailsafe-later c m t d (s ∷ rest) i (inl h) = ground (arith, o.leb_trans s.0 c t)
  HasFailsafe-later c m t d (s ∷ rest) i (inr h) =
      ground
        (arith, HasFailsafe-later c m s.0 s.1 rest i.2 h, o.leb_total s.0 c, o.leb_trans s.0 c t)

  duty_after-failsafe :
      (c : F) (m : ℕ) (below : Step F) (rest : List (Step F)) (temp : F)
      → IsRising below.0 below.1 rest
      → IsSmall o r rest
      → AtMost m (below ∷ rest)
      → HasFailsafe c m (below ∷ rest)
      → fleb c temp ≡ true
      → fleb below.0 temp ≡ true
      → duty_after below rest temp ≡ m
  unfolding duty_after
  duty_after-failsafe c m below rest temp i b a (inl h) k l = omega (
    arith,
    h.1,
    duty_after-ge o r below rest temp i b l,
    duty_after-le m below rest temp i b a.0 a.1 l,
  )
  duty_after-failsafe c m below [] temp i b a (inr h) k l = elim h [ ]
  duty_after-failsafe c m below (step ∷ rest) temp i b a (inr (inl h)) k l = ground (
    arith,
    o.leb_trans step.0 c temp,
    duty_after-failsafe c m step rest temp i.2 b.1 a.1 (inl h) k,
  )
  duty_after-failsafe c m below (step ∷ rest) temp i b a (inr (inr h)) k l = ground (
    arith,
    HasFailsafe-later c m step.0 step.1 rest i.2 h,
    o.leb_total step.0 c,
    o.leb_trans step.0 c temp,
    o.leb_trans c temp step.0,
    duty_after-failsafe c m step rest temp i.2 b.1 a.1 (inr h) k,
  )

  small : (m : ℕ) (l : List (Step F)) → m < 256 → AtMost m l → IsSmall o r l
  small m l h = All-imp _ _ (λ s k. omega arith) l

  -- A profile in normal form, with a maximum of one byte, gives a duty of at most the maximum at
  -- any temperature, and a higher temperature never gets a lower duty.
  pub interpolate_profile_mono :
      (c : F) (m : ℕ) (profile : List (Step F)) (temp temp' : F)
      → m < 256
      → IsNormal c m profile
      → fleb temp temp' ≡ true
      → Returns
          (interpolate_profile profile temp)
          λ d. (d ≤ m) × Returns (interpolate_profile profile temp') (λ d'. d ≤ d')
  interpolate_profile_mono c m [] temp temp' b n h = elim n.rising [ ]
  interpolate_profile_mono c m (first ∷ rest) temp temp' b n h =
      rw
        (
          interpolate_profile-duty_at o first rest temp,
          interpolate_profile-duty_at o first rest temp',
        )
        (unfold duty_at in
          ground (
            arith,
            n.at_most.0,
            o.leb_total first.0 temp,
            o.leb_total first.0 temp',
            o.leb_trans temp temp' first.0,
            duty_after-le m first rest temp n.rising (small m rest b n.at_most.1) n.at_most.0
                n.at_most.1,
            duty_after-ge o r first rest temp' n.rising (small m rest b n.at_most.1),
            duty_after_mono o r first rest temp temp' n.rising (small m rest b n.at_most.1),
          ))

  -- A profile in normal form, with a maximum of one byte, gives the maximum duty at and above the
  -- critical temperature.
  pub interpolate_profile-failsafe :
      (c : F) (m : ℕ) (profile : List (Step F)) (temp : F)
      → m < 256
      → IsNormal c m profile
      → fleb c temp ≡ true
      → interpolate_profile profile temp ≡ ok m
  interpolate_profile-failsafe c m [] temp b n h = elim n.rising [ ]
  interpolate_profile-failsafe c m (first ∷ rest) temp b n h =
      rw (interpolate_profile-duty_at o first rest temp) (
        unfold duty_at in
        ground (
          arith,
          n.failsafe,
          o.leb_total first.0 temp,
          o.leb_total first.0 c,
          o.leb_trans c temp first.0,
          HasFailsafe-later c m first.0 first.1 rest n.rising,
          duty_after-failsafe c m first rest temp n.rising (small m rest b n.at_most.1) n.at_most
              n.failsafe h,
        ))

  -- A profile whose duties are within the maximum, once it is normalized, gives the maximum duty at
  -- every temperature from the critical one on.
  pub normalize_profile-failsafe :
      (profile : List (Step F)) (critical : F) (max : ℕ) (temp : F)
      → max < 256
      → AtMost max profile
      → fleb critical temp ≡ true
      → (do p ← normalize_profile profile critical max; interpolate_profile p temp) ≡ ok max
  normalize_profile-failsafe profile critical max temp b a h =
      go (normalize_profile profile critical max)
        (normalize_profile-IsNormal o profile critical max a)
    where
      go :
          (n : Outcome (List (Step F)))
          → Returns n (IsNormal critical max)
          → (do p ← n; interpolate_profile p temp) ≡ ok max
      go (ok p) n = interpolate_profile-failsafe critical max p temp b n h
      go (err e) n = elim n [ ]
      go panic n = elim n [ ]
