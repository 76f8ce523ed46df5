-- ===== src/Processing/Graph/Tick.antt =====
-- `process_all_profiles` and `update_speeds` of the graph commander.
use coolerocontrol.Base.{
  ℕ, ◌≡◌, refl, sym, subst, ◌∙◌, inl, inr, String, Bool, Option, some, List, [], ◌∷◌, arith,
  string_eq, string_eq_iff, ◌==◌, Bool-cases, All, if◌then◌else◌,
}
use coolerocontrol.Base.Dict.{get, contains_key, insert, get_of_contains_key, contains_key-insert}
use coolerocontrol.Base.Float.{Float}
use coolerocontrol.Base.Outcome.{Returns, Returns-bind, Returns-imp}
use coolerocontrol.Processing.{device_channel_eq}
use coolerocontrol.Processing.Sensor.{AllDevices}
use coolerocontrol.Processing.Standard.Process.{HasHistory}
use coolerocontrol.Processing.Latch
use coolerocontrol.Processing.Latch.Counter.{IsCounting}
use coolerocontrol.Processing.Chain.{ProcessorCollection}
use coolerocontrol.Processing.Chain.Round.{IsRound, process_speed_setting-IsRound}
use coolerocontrol.Processing.Graph.{
  Scheduled, OutputCache, GraphProfileCommander, process_profiles, process_all_profiles,
}
use coolerocontrol.Processing.Graph.Entries.{
  AllCounting, IsEntry, IsWellFormed, StateKept, entries-StateKept,
}

module _ {F : Type 0} ⦃fl : Float F⦄ (tma_new_over : ℕ → List F → Option (List F)) where
  round-StateKept :
      (ps : ProcessorCollection F) (cache : OutputCache) (uid : String)
      (m : Latch.SafetyLatchMetadata) (r : ProcessorCollection F × Option ℕ)
      → IsRound tma_new_over ps uid m r
      → (k : String)
      → StateKept k ps r.0 cache (if contains_key uid cache then insert uid r.1 cache else cache)
  round-StateKept ps cache uid m r i k = record {
    latch = λ h. i.latch_keys k ∙ h;
    std = λ h. i.std_keys k ∙ h;
    thresh = λ h. i.thresh_keys k ∙ h;
    output = λ h. ground (arith, contains_key-insert uid k r.1 cache);
  }

  round-AllCounting :
      (ps : ProcessorCollection F) (uid : String) (m : Latch.SafetyLatchMetadata)
      (r : ProcessorCollection F × Option ℕ)
      → IsRound tma_new_over ps uid m r
      → AllCounting ps.fun_safety_latch
      → AllCounting r.0.fun_safety_latch
  round-AllCounting ps uid m r i c k n e = elim (Bool-cases (uid == k)) [
    | inl hit ↦
        let same : i.after ≡ n = ground (
          arith,
          i.stored,
          subst (λ j. get j r.0.fun_safety_latch ≡ some n) (sym (string_eq_iff uid k hit)) e,
        ) in
        subst IsCounting same i.counted.counting
    | inr miss ↦ c k n (sym (i.other_latches k miss) ∙ e)
  ]

  -- What a tick keeps of the state.
  record IsTicked (ps : ProcessorCollection F) (cache : OutputCache)
      (done : ProcessorCollection F × OutputCache) : Type 0 where
    kept : (k : String) → StateKept k ps done.0 cache done.1
    counting : AllCounting done.0.fun_safety_latch

  process_profiles-IsTicked :
      (present : String → Bool) (all_devices : AllDevices F) (settings : Scheduled F)
      (ps : ProcessorCollection F) (cache : OutputCache)
      → HasHistory all_devices
      → All (IsEntry tma_new_over present ps cache) settings
      → AllCounting ps.fun_safety_latch
      → Returns (process_profiles tma_new_over all_devices settings ps cache) (IsTicked ps cache)
  unfolding process_profiles
  process_profiles-IsTicked present all_devices [] ps cache h e c = record {
    kept = λ k. record { latch = λ h. h; std = λ h. h; thresh = λ h. h; output = λ h. h };
    counting = c;
  }
  process_profiles-IsTicked present all_devices ((profile, channels) ∷ rest) ps cache h e c =
      let uid = profile.profile_uid in
      let (m, found) = get_of_contains_key uid ps.fun_safety_latch e.0.scheduled.latch in
      Returns-bind (IsTicked ps cache) (IsRound tma_new_over ps uid m) _ _
        (process_speed_setting-IsRound tma_new_over all_devices ps profile m h e.0.ready
          e.0.scheduled found (c uid m found))
        λ r i.
          let kept = round-StateKept ps cache uid m r i in
          Returns-imp (IsTicked r.0 _) (IsTicked ps cache) _
            (λ done t. record {
              kept = λ k. record {
                latch = λ x. (t.kept k).latch ((kept k).latch x);
                std = λ x. (t.kept k).std ((kept k).std x);
                thresh = λ x. (t.kept k).thresh ((kept k).thresh x);
                output = λ x. (t.kept k).output ((kept k).output x);
              };
              counting = t.counting;
            })
            (process_profiles-IsTicked present all_devices rest r.0 _ h
              (entries-StateKept tma_new_over present ps r.0 cache _ rest kept e.1)
              (round-AllCounting ps uid m r i c))

  -- Processing all scheduled profiles of a well-formed commander returns, if every device that is
  -- present has a status, and keeps the schedule as it is and the commander well-formed.
  pub process_all_profiles-IsWellFormed :
      (present : String → Bool) (all_devices : AllDevices F) (c : GraphProfileCommander F)
      → HasHistory all_devices
      → IsWellFormed tma_new_over present c
      → Returns (process_all_profiles tma_new_over all_devices c) λ c'.
        IsWellFormed tma_new_over present c' × (c'.scheduled_settings ≡ c.scheduled_settings)
  unfolding process_all_profiles
  process_all_profiles-IsWellFormed present all_devices c h w =
      Returns-bind _ (IsTicked c.processors c.process_output_cache) _ _
        (process_profiles-IsTicked present all_devices c.scheduled_settings c.processors
          c.process_output_cache h w.entries w.counting)
        λ done t. (
          record {
            entries =
                entries-StateKept tma_new_over present c.processors done.0 c.process_output_cache
                  done.1 c.scheduled_settings t.kept w.entries;
            counting = t.counting;
          },
          refl,
        )
