-- ===== src/Processing/Utils/Interpolate.antt =====
-- The duty at a temperature: the loop against a plain reading of the profile, bounds, and monotony.
use coolerocontrol.Base.{
  ℕ, ◌-◌, ◌≤◌, ◌<◌, ◌≡◌, ap, true, List, [], ◌∷◌, arith, if◌then◌else◌, last_from, All,
}
use coolerocontrol.Base.Float.{Float, IsOrdered, IsRounded, fleb, fltb}
use coolerocontrol.Base.Outcome.{ok}
use coolerocontrol.Processing.Utils.{Step, bracket, interpolated, duty_in, interpolate_profile}
use coolerocontrol.Processing.Utils.Normal.{IsRising, leb_self}

module _ {F : Type 0} ⦃fl : Float F⦄ where
  -- A plain reading: from a step at or below the temperature, up to the first step at or above it.
  unfoldable pub duty_after : Step F → List (Step F) → F → ℕ
  duty_after below [] temp = below.1
  duty_after below (step ∷ rest) temp =
      let further = duty_after step rest temp in
      if fleb temp step.0
      then (if fleb step.0 temp then step.1 else interpolated below step temp)
      else further

  unfoldable pub duty_at : Step F → List (Step F) → F → ℕ
  unfolding duty_after
  duty_at first rest temp = if fleb temp first.0 then first.1 else duty_after first rest temp

module _ {F : Type 0} ⦃fl : Float F⦄ (o : IsOrdered F) where
  bracket-duty_after :
      (below : Step F) (rest : List (Step F)) (temp : F)
      → fleb below.0 temp ≡ true
      → duty_in (bracket below (last_from below rest) rest temp) temp ≡ duty_after below rest temp
  unfolding bracket duty_in duty_after
  bracket-duty_after below [] temp h = ground (arith, leb_self o below.0)
  bracket-duty_after below (step ∷ rest) temp h = ground (
    arith,
    leb_self o step.0,
    o.leb_total step.0 temp,
    o.leb_trans step.0 below.0 temp,
    bracket-duty_after step rest temp,
  )

  bracket-duty_at :
      (first : Step F) (rest : List (Step F)) (temp : F)
      → duty_in (bracket first (last_from first rest) (first ∷ rest) temp) temp
        ≡ duty_at first rest temp
  unfolding bracket duty_in duty_at
  bracket-duty_at first rest temp =
      ground
        (arith, leb_self o first.0, o.leb_total first.0 temp, bracket-duty_after first rest temp)

  -- For a profile of at least one step, in normal form or not, the loop finds the duty of a plain
  -- reading: the first duty up to the first temperature, the last one beyond the last, the duty of
  -- a step at its temperature, and else the interpolation between the step before and the first one
  -- at or above.
  pub interpolate_profile-duty_at :
      (first : Step F) (rest : List (Step F)) (temp : F)
      → interpolate_profile (first ∷ rest) temp ≡ ok (duty_at first rest temp)
  unfolding interpolate_profile
  interpolate_profile-duty_at first rest temp = ap ok (bracket-duty_at first rest temp)

module _ {F : Type 0} ⦃fl : Float F⦄ (o : IsOrdered F) (r : IsRounded F) where
  -- The share of the way from the step below to the step above.
  abbrev share : Step F → Step F → F → F
  share below above temp = fl.div (fl.sub temp below.0) (fl.sub above.0 below.0)

  pub record InSegment (below above : Step F) (temp : F) : Type 0 where
    pub from : fleb below.0 temp ≡ true
    pub up_to : fleb temp above.0 ≡ true
    pub proper : fltb below.0 above.0 ≡ true
    pub duties : below.1 ≤ above.1
    pub small : above.1 < 256

  share_bounds :
      (below above : Step F) (temp : F)
      → InSegment below above temp
      → (fleb (fl.of_nat 0) (share below above temp) ≡ true)
        × (fleb (share below above temp) (fl.of_nat 1) ≡ true)
  share_bounds below above temp s = (
    r.div_nonneg _ _ (r.sub_pos above.0 below.0 s.proper) (r.sub_nonneg temp below.0 s.from),
    r.div-le-one _ _ (r.sub_pos above.0 below.0 s.proper) (r.sub_nonneg temp below.0 s.from)
        (r.sub_mono temp above.0 below.0 s.up_to),
  )

  interpolated_lem :
      (below above : Step F) (temp : F)
      → InSegment below above temp
      → interpolated below above temp
        ≡ fl.as_u8 (
            fl.round (
              fl.add
                (fl.of_nat below.1)
                (fl.mul (share below above temp) (fl.of_nat (above.1 - below.1)))))
  unfolding interpolated
  interpolated_lem below above temp s =
      ap (λ w. fl.as_u8 (fl.round (fl.add (fl.of_nat below.1) (fl.mul (share below above temp) w))))
        (r.of_nat_sub below.1 above.1 s.duties s.small)

  pub interpolated_bounds :
      (below above : Step F) (temp : F)
      → InSegment below above temp
      → (below.1 ≤ interpolated below above temp) × (interpolated below above temp ≤ above.1)
  interpolated_bounds below above temp s = rw (interpolated_lem below above temp s) (
    omega (
      arith,
      r.as_u8_of_nat below.1 (omega arith),
      ap (λ x. fl.as_u8 (fl.round x)) (r.of_nat_add below.1 0 (omega arith)),
      r.as_u8_mono _ _ (
          r.add_mono (fl.of_nat 0) _ (fl.of_nat below.1)
            (r.mul_nonneg _ (above.1 - below.1) (omega arith) (share_bounds below above temp s).0)),
    ),
    omega (
      arith,
      r.as_u8_of_nat above.1 s.small,
      ap (λ x. fl.as_u8 (fl.round x)) (r.of_nat_add below.1 (above.1 - below.1) (omega arith)),
      r.as_u8_mono _ _ (
          r.add_mono _ (fl.of_nat (above.1 - below.1)) (fl.of_nat below.1) (
            r.mul-le _ (above.1 - below.1) (omega arith) (share_bounds below above temp s).0
              (share_bounds below above temp s).1)),
    ),
  )

  interpolated_mono :
      (below above : Step F) (temp temp' : F)
      → InSegment below above temp
      → InSegment below above temp'
      → fleb temp temp' ≡ true
      → interpolated below above temp ≤ interpolated below above temp'
  interpolated_mono below above temp temp' s s' h =
      rw (interpolated_lem below above temp s, interpolated_lem below above temp' s')
        (r.as_u8_mono _ _ (
          r.add_mono _ _ (fl.of_nat below.1) (
            r.mul_mono _ _ (above.1 - below.1) (omega arith) (share_bounds below above temp s).0
              (r.div_mono _ _ _ (r.sub_pos above.0 below.0 s.proper)
                (r.sub_nonneg temp below.0 s.from) (r.sub_mono temp temp' below.0 h))
              (share_bounds below above temp' s').1)))

  abbrev pub IsSmall : List (Step F) → Type 0
  IsSmall = All (λ s. s.1 < 256)

  pub segment :
      (below step : Step F) (temp : F)
      → fltb below.0 step.0 ≡ true
      → below.1 ≤ step.1
      → step.1 < 256
      → fleb below.0 temp ≡ true
      → fleb temp step.0 ≡ true
      → InSegment below step temp
  segment below step temp p d b f u = record {
    from = f;
    up_to = u;
    proper = p;
    duties = d;
    small = b;
  }

  pub duty_after-ge :
      (below : Step F) (rest : List (Step F)) (temp : F)
      → IsRising below.0 below.1 rest
      → IsSmall rest
      → fleb below.0 temp ≡ true
      → below.1 ≤ duty_after below rest temp
  unfolding duty_after
  duty_after-ge below [] temp i b h = omega arith
  duty_after-ge below (step ∷ rest) temp i b h = ground (
    arith,
    o.leb_total step.0 temp,
    interpolated_bounds below step temp,
    segment below step temp i.0 i.1 b.0 h,
    duty_after-ge step rest temp i.2 b.1,
  )

  pub duty_after_mono :
      (below : Step F) (rest : List (Step F)) (temp temp' : F)
      → IsRising below.0 below.1 rest
      → IsSmall rest
      → fleb below.0 temp ≡ true
      → fleb temp temp' ≡ true
      → duty_after below rest temp ≤ duty_after below rest temp'
  unfolding duty_after
  duty_after_mono below [] temp temp' i b h k = omega arith
  duty_after_mono below (step ∷ rest) temp temp' i b h k = ground (
    arith,
    o.leb_total step.0 temp,
    o.leb_total step.0 temp',
    o.leb_trans below.0 temp temp',
    o.leb_trans step.0 temp temp',
    o.leb_trans temp temp' step.0,
    interpolated_bounds below step temp,
    segment below step temp i.0 i.1 b.0 h,
    segment below step temp' i.0 i.1 b.0,
    interpolated_bounds below step temp',
    interpolated_mono below step temp temp',
    duty_after-ge step rest temp' i.2 b.1,
    duty_after_mono step rest temp temp' i.2 b.1,
  )
