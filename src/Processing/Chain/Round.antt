-- ===== src/Processing/Chain/Round.antt =====
-- One round of the chain: it returns, and the safety latch bounds the rounds without a duty.
use coolerocontrol.Base.{
  ◌==◌, ℕ, ◌≡◌, refl, ap, sym, subst, ◌∙◌, inl, inr, String, true, false, Option, none, some, List,
  [], ◌∷◌, arith, string_eq, Option-cases, is_empty,
}
use coolerocontrol.Base.Dict.{
  Dict, get-insert, get, insert, contains_key, contains_key_of_get, contains_key-replace,
  get-insert_self,
}
use coolerocontrol.Base.Float.{Float}
use coolerocontrol.Base.Outcome.{ok, Returns, Returns-unwrap, Returns-bind, Returns-imp, ◌>>=◌}
use coolerocontrol.Processing.{NormalizedGraphProfile, SpeedProfileData}
use coolerocontrol.Processing.Sensor.{AllDevices, is_some, graph_is_applicable, graph_process}
use coolerocontrol.Processing.Utils.{interpolate_profile}
use coolerocontrol.Processing.Threshold
use coolerocontrol.Processing.Threshold.Steps
use coolerocontrol.Processing.Standard
use coolerocontrol.Processing.Standard.Process
use coolerocontrol.Processing.Standard.Process.{HasHistory}
use coolerocontrol.Processing.Latch
use coolerocontrol.Processing.Latch.{SafetyLatchMetadata}
use coolerocontrol.Processing.Latch.Counter.{
  IsCounting, IsCounted, is_due, process_begin, process_end, finish-IsCounted,
}
use coolerocontrol.Processing.Chain.{
  ProcessorCollection, speed_profile_data, process_started, apply_graph, apply_threshold,
  post_process, process_speed_setting,
}
use coolerocontrol.Processing.Chain.Temp.{IsReady, pre_process-IsRun}

get-insert_other :
    {V : Type 0} (uid uid' k : String) (v w : V) (m : Dict String V)
    → uid' ≡ uid
    → uid == k ≡ false
    → get k (insert uid' v (insert uid w m)) ≡ get k m
get-insert_other uid uid' k v w m e h =
    rw e (ground (arith, get-insert uid k v (insert uid w m), get-insert uid k w m))

module _ {F : Type 0} ⦃fl : Float F⦄ (tma_new_over : ℕ → List F → Option (List F)) where
  interpolate_profile-returns :
      (profile : List (F × ℕ)) (temp : F)
      → is_empty profile ≡ false
      → Returns (interpolate_profile profile temp) (λ _. Unit {0})
  unfolding interpolate_profile
  interpolate_profile-returns [] temp h = cc
  interpolate_profile-returns (s ∷ rest) temp h = tt

  -- The duty stage keeps the data but for the duty; a temp gives a duty if the latch is triggered.
  record IsPost (duties : Threshold.Duties) (d : SpeedProfileData F)
      (r : Threshold.Duties × SpeedProfileData F) : Type 0 where
    same_data : r.1 ≡ record d { duty = r.1.duty }
    for_latch : d.safety_latch_triggered ≡ true → is_some d.temp ≡ true → is_some r.1.duty ≡ true
    same_keys : (k : String) → contains_key k r.0 ≡ contains_key k duties

  abbrev HasDuty : SpeedProfileData F → SpeedProfileData F → Type 0
  HasDuty d r = (r ≡ record d { duty = r.duty }) × (is_some d.temp ≡ true → is_some r.duty ≡ true)

  graph_process-HasDuty :
      (d : SpeedProfileData F) (temp : F)
      → d.temp ≡ some temp
      → is_empty d.profile.speed_profile ≡ false
      → Returns (graph_process d) (HasDuty d)
  unfolding graph_process
  graph_process-HasDuty d temp t c = Returns-unwrap (HasDuty d) _ _ temp t (
      Returns-bind (HasDuty d) (λ _. Unit {0}) (λ duty. ok (record d { duty = some duty })) _
        (interpolate_profile-returns d.profile.speed_profile temp c) (λ duty _. (refl, λ _. refl)))

  apply_graph-HasDuty :
      (d : SpeedProfileData F)
      → is_empty d.profile.speed_profile ≡ false
      → Returns (apply_graph tma_new_over d) (HasDuty d)
  unfolding apply_graph graph_is_applicable
  apply_graph-HasDuty d c = elim (Option-cases d.temp) [
    | inl cold ↦ rw (ap is_some cold, apply_graph) (refl, λ h. ground arith)
    | inr (temp, t) ↦ rw (ap is_some t, apply_graph) (graph_process-HasDuty d temp t c)
  ]

  apply_threshold-IsRun :
      (duties : Threshold.Duties) (d : SpeedProfileData F)
      → contains_key d.profile.profile_uid duties ≡ true
      → Returns (apply_threshold tma_new_over duties d) λ r.
        (r.1 ≡ record d { duty = r.1.duty })
        × (d.safety_latch_triggered ≡ true → is_some d.duty ≡ true → is_some r.1.duty ≡ true)
        × ((k : String) → contains_key k r.0 ≡ contains_key k duties)
  unfolding apply_threshold Threshold.is_applicable
  apply_threshold-IsRun duties d k = elim (Option-cases d.duty) [
    | inl idle ↦ rw (ap is_some idle, apply_threshold) (refl, (λ _ h. cc), λ _. refl)
    | inr (duty, e) ↦
        rw (ap is_some e, apply_threshold)
          (Returns-imp (Steps.IsRun duties d) _ _
            (λ r i. (i.same_data, (λ l _. i.for_latch l), i.same_keys))
            (Steps.process-IsRun duties d duty k e))
  ]

  post_process-IsPost :
      (duties : Threshold.Duties) (d : SpeedProfileData F)
      → is_empty d.profile.speed_profile ≡ false
      → contains_key d.profile.profile_uid duties ≡ true
      → Returns (post_process tma_new_over duties d) (IsPost duties d)
  unfolding post_process
  post_process-IsPost duties d c k =
      Returns-bind (IsPost duties d) (HasDuty d) _ _ (apply_graph-HasDuty d c) λ d1 g.
        Returns-imp _ (IsPost duties d) (apply_threshold tma_new_over duties d1)
          (λ r i. record {
            same_data = i.0 ∙ ap (λ (x : SpeedProfileData F). record x { duty = r.1.duty }) g.0;
            for_latch = λ l t. i.1 (ap (λ x. x.safety_latch_triggered) g.0 ∙ l) (g.1 t);
            same_keys = i.2;
          })
          (apply_threshold-IsRun duties d1 (
            subst (λ (x : SpeedProfileData F). contains_key x.profile.profile_uid duties ≡ true)
              (sym g.0) k))

  -- A profile that the processors keep state for, with a speed profile that is not empty.
  pub record IsScheduled (ps : ProcessorCollection F) (profile : NormalizedGraphProfile F)
      : Type 0 where
    pub latch : contains_key profile.profile_uid ps.fun_safety_latch ≡ true
    pub std : contains_key profile.profile_uid ps.fun_std_pre ≡ true
    pub thresh : contains_key profile.profile_uid ps.fun_duty_thresh_post ≡ true
    pub curve : is_empty profile.speed_profile ≡ false

  pub record IsRound (ps : ProcessorCollection F) (uid : String) (m : SafetyLatchMetadata)
      (r : ProcessorCollection F × Option ℕ) : Type 0 where
    pub after : SafetyLatchMetadata
    pub stored : get uid r.0.fun_safety_latch ≡ some after
    pub counted : IsCounted m after r.1
    pub other_latches :
        (k : String) → uid == k ≡ false → get k r.0.fun_safety_latch ≡ get k ps.fun_safety_latch
    pub latch_keys :
        (k : String) → contains_key k r.0.fun_safety_latch ≡ contains_key k ps.fun_safety_latch
    pub std_keys : (k : String) → contains_key k r.0.fun_std_pre ≡ contains_key k ps.fun_std_pre
    pub thresh_keys :
        (k : String)
        → contains_key k r.0.fun_duty_thresh_post ≡ contains_key k ps.fun_duty_thresh_post

  -- The data after the first run of the latch.
  record IsBegun (limited : SafetyLatchMetadata) (profile : NormalizedGraphProfile F)
      (d : SpeedProfileData F) : Type 0 where
    cold : d.temp ≡ none
    of_profile : d.profile ≡ profile
    started : d.processing_started ≡ true
    due : is_due limited ≡ true → d.safety_latch_triggered ≡ true

  start-IsBegun :
      (limited : SafetyLatchMetadata) (profile : NormalizedGraphProfile F)
      → IsBegun limited profile (Latch.start limited (speed_profile_data profile))
  unfolding Latch.start
  start-IsBegun limited profile = record {
    cold = refl;
    of_profile = refl;
    started = refl;
    due = λ h. rw h refl;
  }

  -- What the data after the duty stage still says of the data after the first run of the latch.
  same_profile :
      (d warm done : SpeedProfileData F)
      → warm ≡ record d { temp = warm.temp }
      → done ≡ record warm { duty = done.duty }
      → (done.profile ≡ d.profile)
        × (done.processing_started ≡ d.processing_started)
        × (warm.profile ≡ d.profile)
        × (warm.safety_latch_triggered ≡ d.safety_latch_triggered)
  same_profile d warm done w p = (
    ap (λ x. x.profile) p ∙ ap (λ x. x.profile) w,
    ap (λ x. x.processing_started) p ∙ ap (λ x. x.processing_started) w,
    ap (λ x. x.profile) w,
    ap (λ x. x.safety_latch_triggered) w,
  )

  process_end-IsRound :
      (ps : ProcessorCollection F) (profile : NormalizedGraphProfile F) (m : SafetyLatchMetadata)
      (latches : Latch.Latches) (d : SpeedProfileData F)
      (warm : Standard.Channels F × SpeedProfileData F)
      (done : Threshold.Duties × SpeedProfileData F)
      → IsScheduled ps profile
      → IsCounting m
      → let limited = Latch.with_limit profile.function.response_delay m in
        latches ≡ insert profile.profile_uid limited ps.fun_safety_latch
        → IsBegun limited profile d
        → Process.IsRun ps.fun_std_pre d warm
        → IsPost ps.fun_duty_thresh_post warm.1 done
        → Returns
            (do
              ended ← Latch.process latches done.1
              ok (
                record {
                  fun_safety_latch = ended.0;
                  fun_std_pre = warm.0;
                  fun_duty_thresh_post = done.0;
                },
                ended.1.duty,
              ))
            (IsRound ps profile.profile_uid m)
  process_end-IsRound ps profile m latches d warm done s c e b w p =
      rw (process_end latches done.1 limited got (q.1 ∙ b.started)) (record {
        after = Latch.finish limited done.1;
        stored = get-insert_self done.1.profile.profile_uid uid _ latches u;
        counted =
            finish-IsCounted profile.function.response_delay m done.1 c
              (λ due. p.for_latch (q.3 ∙ b.due due) (w.for_latch (b.due due)));
        other_latches = λ k n.
            rw e
              (get-insert_other uid done.1.profile.profile_uid k _ limited ps.fun_safety_latch u n);
        latch_keys = λ k.
            contains_key-replace done.1.profile.profile_uid k _ latches
              (contains_key_of_get _ latches limited got)
            ∙ ap (contains_key k) e
            ∙ contains_key-replace uid k limited ps.fun_safety_latch s.latch;
        std_keys = w.same_keys;
        thresh_keys = p.same_keys;
      })
    where
      uid : String
      uid = profile.profile_uid

      limited : SafetyLatchMetadata
      limited = Latch.with_limit profile.function.response_delay m

      q :
          (done.1.profile ≡ d.profile)
          × (done.1.processing_started ≡ d.processing_started)
          × (warm.1.profile ≡ d.profile)
          × (warm.1.safety_latch_triggered ≡ d.safety_latch_triggered)
      q = same_profile d warm.1 done.1 w.same_data p.same_data

      u : done.1.profile.profile_uid ≡ uid
      u = ap (λ (x : NormalizedGraphProfile F). x.profile_uid) (q.0 ∙ b.of_profile)

      got : get done.1.profile.profile_uid latches ≡ some limited
      got =
          rw e (get-insert_self uid done.1.profile.profile_uid limited ps.fun_safety_latch (sym u))

  process_started-IsRound :
      (all_devices : AllDevices F) (ps : ProcessorCollection F) (profile : NormalizedGraphProfile F)
      (m : SafetyLatchMetadata) (latches : Latch.Latches) (d : SpeedProfileData F)
      → HasHistory all_devices
      → IsReady tma_new_over profile.function
      → IsScheduled ps profile
      → IsCounting m
      → let limited = Latch.with_limit profile.function.response_delay m in
        latches ≡ insert profile.profile_uid limited ps.fun_safety_latch
        → IsBegun limited profile d
        → Returns
            (process_started tma_new_over all_devices ps latches d)
            (IsRound ps profile.profile_uid m)
  unfolding process_started
  process_started-IsRound all_devices ps profile m latches d h r s c e b =
      Returns-bind P (Process.IsRun ps.fun_std_pre d) _ _
        (pre_process-IsRun tma_new_over all_devices ps.fun_std_pre d b.cold h
          (subst (λ (x : NormalizedGraphProfile F). IsReady tma_new_over x.function)
            (sym b.of_profile) r)
          (subst
            (λ (x : NormalizedGraphProfile F). contains_key x.profile_uid ps.fun_std_pre ≡ true)
            (sym b.of_profile) s.std))
        λ warm w.
          Returns-bind P (IsPost ps.fun_duty_thresh_post warm.1) _ _
            (post_process-IsPost ps.fun_duty_thresh_post warm.1
              (subst (λ (x : NormalizedGraphProfile F). is_empty x.speed_profile ≡ false)
                (sym (ap (λ x. x.profile) w.same_data ∙ b.of_profile)) s.curve)
              (subst
                (λ (x : NormalizedGraphProfile F).
                  contains_key x.profile_uid ps.fun_duty_thresh_post ≡ true)
                (sym (ap (λ x. x.profile) w.same_data ∙ b.of_profile)) s.thresh))
            λ done p. process_end-IsRound ps profile m latches d warm done s c e b w p
    where
      P : ProcessorCollection F × Option ℕ → Type 0
      P = IsRound ps profile.profile_uid m

  -- A round of a scheduled profile returns, if every device that is present has a status, the
  -- profile's function has what it needs and its latch counts within its limit. The processors keep
  -- their keys, the latches of other profiles are as before, and the one of the profile has counted
  -- the round: back at 0 with a duty, one more without, and its counter stays within 60.
  pub process_speed_setting-IsRound :
      (all_devices : AllDevices F) (ps : ProcessorCollection F) (profile : NormalizedGraphProfile F)
      (m : SafetyLatchMetadata)
      → HasHistory all_devices
      → IsReady tma_new_over profile.function
      → IsScheduled ps profile
      → get profile.profile_uid ps.fun_safety_latch ≡ some m
      → IsCounting m
      → Returns
          (process_speed_setting tma_new_over all_devices ps profile)
          (IsRound ps profile.profile_uid m)
  unfolding process_speed_setting
  process_speed_setting-IsRound all_devices ps profile m h r s e c =
      rw (process_begin ps.fun_safety_latch (speed_profile_data profile) m e refl) (
        process_started-IsRound all_devices ps profile m _ _ h r s c refl (start-IsBegun _ profile))
