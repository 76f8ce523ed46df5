-- ===== src/Processing/Chain/Liveness.antt =====
-- The safety latch over many rounds.
use coolerocontrol.Base.{
  ℕ, ◌+◌, ◌≤◌, ◌≡◌, ◌∙◌, Option, none, some, List, [], ◌∷◌, arith, string_eq, length, All,
}
use coolerocontrol.Base.Dict.{get}
use coolerocontrol.Base.Float.{Float}
use coolerocontrol.Base.Outcome.{Outcome, ok, Returns, Returns-bind, ◌>>=◌}
use coolerocontrol.Processing.{NormalizedGraphProfile}
use coolerocontrol.Processing.Sensor.{AllDevices}
use coolerocontrol.Processing.Standard.Process.{HasHistory}
use coolerocontrol.Processing.Latch.{SafetyLatchMetadata}
use coolerocontrol.Processing.Latch.Counter.{IsCounting}
use coolerocontrol.Processing.Chain.{ProcessorCollection, process_speed_setting}
use coolerocontrol.Processing.Chain.Temp.{IsReady}
use coolerocontrol.Processing.Chain.Round.{IsScheduled, IsRound, process_speed_setting-IsRound}

module _ {F : Type 0} ⦃fl : Float F⦄ (tma_new_over : ℕ → List F → Option (List F)) where
  -- A round for each snapshot of the devices, with the duty that each round gave.
  unfoldable pub rounds :
      List (AllDevices F)
      → ProcessorCollection F
      → NormalizedGraphProfile F
      → Outcome (ProcessorCollection F × List (Option ℕ))
  rounds [] ps profile = ok (ps, [])
  rounds (s ∷ ss) ps profile = do
    r ← process_speed_setting tma_new_over s ps profile
    rest ← rounds ss r.0 profile
    ok (rest.0, r.1 ∷ rest.1)

  abbrev pub IsSilent : List (Option ℕ) → Type 0
  IsSilent = All (λ o. o ≡ none)

  IsRound-IsScheduled :
      (ps : ProcessorCollection F) (profile : NormalizedGraphProfile F) (m : SafetyLatchMetadata)
      (r : ProcessorCollection F × Option ℕ)
      → IsScheduled tma_new_over ps profile
      → IsRound tma_new_over ps profile.profile_uid m r
      → IsScheduled tma_new_over r.0 profile
  IsRound-IsScheduled ps profile m r s i = record {
    latch = i.latch_keys profile.profile_uid ∙ s.latch;
    std = i.std_keys profile.profile_uid ∙ s.std;
    thresh = i.thresh_keys profile.profile_uid ∙ s.thresh;
    curve = s.curve;
  }

  -- The rounds of a scheduled profile all return, whatever the devices report, as long as each has
  -- a status, the profile's function has what it needs and its latch counts within its limit. If
  -- none of them gave a duty, there were at most 60, less what the latch had counted before: after
  -- 61 rounds a duty has been set.
  pub rounds-silent-le :
      (ss : List (AllDevices F)) (ps : ProcessorCollection F) (profile : NormalizedGraphProfile F)
      (m : SafetyLatchMetadata)
      → All HasHistory ss
      → IsReady tma_new_over profile.function
      → IsScheduled tma_new_over ps profile
      → get profile.profile_uid ps.fun_safety_latch ≡ some m
      → IsCounting m
      → Returns (rounds ss ps profile) λ r. IsSilent r.1 → m.no_duty_set_counter + length ss ≤ 60
  unfolding rounds
  rounds-silent-le [] ps profile m h r s e c = λ _. omega (arith, c.counter)
  rounds-silent-le (x ∷ ss) ps profile m h r s e c =
      Returns-bind _ (IsRound tma_new_over ps profile.profile_uid m) _ _
        (process_speed_setting-IsRound tma_new_over x ps profile m h.0 r s e c)
        λ a i.
          Returns-bind _ _ _ (rounds ss a.0 profile)
            (rounds-silent-le ss a.0 profile i.after h.1 r (IsRound-IsScheduled ps profile m a s i)
              i.stored i.counted.counting)
            λ b k silent. omega (arith, i.counted.without_duty silent.0, k silent.1)
