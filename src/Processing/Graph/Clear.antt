-- ===== src/Processing/Graph/Clear.antt =====
-- `clear_channel_setting` of the graph commander.
use coolerocontrol.Base.{
  ℕ, ◌≡◌, refl, String, Bool, true, false, Option, List, [], ◌∷◌, arith, string_eq, ◌==◌, is_empty,
  All, All-imp, if◌then◌else◌,
}
use coolerocontrol.Base.Dict.{Dict, remove, get-remove, contains_key-remove, All-remove_ne}
use coolerocontrol.Base.Set
use coolerocontrol.Base.Float.{Float}
use coolerocontrol.Processing.{
  DeviceChannelProfileSetting, graph, device_uid, NormalizedGraphProfile, device_channel_eq,
  graph_profile_eq,
}
use coolerocontrol.Processing.Latch
use coolerocontrol.Processing.Chain.{ProcessorCollection}
use coolerocontrol.Processing.Graph.{
  Scheduled, OutputCache, GraphProfileCommander, remove_channel, profiles_to_remove, clear_state,
  clear_profiles, clear_channel_setting,
}
use coolerocontrol.Processing.Graph.Entries.{
  AllCounting, IsEntry, IsWellFormed, KeyKept, IsEntry-StateKept,
}

KeyKept-remove :
    {A : Type 0} (k j : String) (m : Dict String A) → k == j ≡ false → KeyKept j m (remove k m)
KeyKept-remove k j m e h = ground (arith, contains_key-remove k j m)

AllCounting-remove :
    (uid : String) (latches : Latch.Latches)
    → AllCounting latches
    → AllCounting (remove uid latches)
AllCounting-remove uid latches c k m e = c k m (ground (arith, get-remove uid k latches))

module _ {F : Type 0} where
  -- No channel of an entry is the one of the key.
  abbrev pub Without :
      DeviceChannelProfileSetting
      → NormalizedGraphProfile F × List DeviceChannelProfileSetting
      → Type 0
  Without device_channel entry = Set.contains device_channel entry.1 ≡ false

module _ {F : Type 0} ⦃fl : Float F⦄ (tma_new_over : ℕ → List F → Option (List F)) where
  -- An entry that has lost a channel: it is as before, if any channel is left.
  record IsLeft (present : String → Bool) (ps : ProcessorCollection F) (cache : OutputCache)
      (device_channel : DeviceChannelProfileSetting)
      (entry : NormalizedGraphProfile F × List DeviceChannelProfileSetting) : Type 0 where
    lost : Without device_channel entry
    well : is_empty entry.1 ≡ false → IsEntry tma_new_over present ps cache entry

  remove_channel-IsLeft :
      (present : String → Bool) (ps : ProcessorCollection F) (cache : OutputCache)
      (device_channel : DeviceChannelProfileSetting) (settings : Scheduled F)
      → All (IsEntry tma_new_over present ps cache) settings
      → All (IsLeft present ps cache device_channel) (remove_channel device_channel settings)
  unfolding remove_channel
  remove_channel-IsLeft present ps cache device_channel [] h = tt
  remove_channel-IsLeft present ps cache device_channel ((profile, channels) ∷ rest) h = (
    record {
      lost = ground (
        arith,
        Set.contains-remove device_channel device_channel channels,
        device_channel_eq.eq_self device_channel,
      );
      well = λ u. record {
        scheduled = h.0.scheduled;
        cached = h.0.cached;
        ready = h.0.ready;
        used = u;
        targets =
            Set.All-remove (λ x. present (device_uid x) ≡ true) device_channel channels h.0.targets;
      };
    },
    remove_channel-IsLeft present ps cache device_channel rest h.1,
  )

  -- An entry that has lost its last channel has its profile on the list.
  abbrev IsListed :
      List (NormalizedGraphProfile F)
      → NormalizedGraphProfile F × List DeviceChannelProfileSetting
      → Type 0
  IsListed profiles entry = is_empty entry.1 ≡ true → Set.contains entry.0 profiles ≡ true

  -- While the profiles on the list are cleared: entries without a channel are still to come.
  record IsClearing (present : String → Bool) (device_channel : DeviceChannelProfileSetting)
      (profiles : List (NormalizedGraphProfile F)) (c : GraphProfileCommander F) : Type 0 where
    left :
        All (IsLeft present c.processors c.process_output_cache device_channel) c.scheduled_settings
    listed : All (IsListed profiles) c.scheduled_settings
    counting : AllCounting c.processors.fun_safety_latch

  IsListed-cons :
      (p : NormalizedGraphProfile F) (profiles : List (NormalizedGraphProfile F))
      (entry : NormalizedGraphProfile F × List DeviceChannelProfileSetting)
      → IsListed profiles entry
      → IsListed (p ∷ profiles) entry
  unfolding Set.contains
  IsListed-cons p profiles entry h e = ground (arith, h e)

  IsListed-step :
      (p : NormalizedGraphProfile F) (channels : List DeviceChannelProfileSetting)
      (others : List (NormalizedGraphProfile F)) (rest : Scheduled F)
      → All (IsListed others) rest
      → All (IsListed (if is_empty channels then p ∷ others else others)) ((p, channels) ∷ rest)
  unfolding Set.contains
  IsListed-step p [] others rest h = (
    (λ _. rw (string_eq.eq_self p.profile_uid) refl),
    All-imp _ _ (IsListed-cons p others) rest h,
  )
  IsListed-step p (x ∷ xs) others rest h = ((λ e. cc), h)

  profiles_to_remove-IsListed :
      (settings : Scheduled F) → All (IsListed (profiles_to_remove settings)) settings
  unfolding profiles_to_remove
  profiles_to_remove-IsListed [] = tt
  profiles_to_remove-IsListed ((p, channels) ∷ rest) =
      IsListed-step p channels (profiles_to_remove rest) rest (profiles_to_remove-IsListed rest)

  cleared-IsLeft :
      (present : String → Bool) (device_channel : DeviceChannelProfileSetting)
      (p : NormalizedGraphProfile F) (c : GraphProfileCommander F)
      (entry : NormalizedGraphProfile F × List DeviceChannelProfileSetting)
      → p == entry.0 ≡ false
      → IsLeft present c.processors c.process_output_cache device_channel entry
      → IsLeft present
          (clear_state p.profile_uid c).processors
          (clear_state p.profile_uid c).process_output_cache
          device_channel
          entry
  cleared-IsLeft present device_channel p c entry e h = record {
    lost = h.lost;
    well = λ u.
        IsEntry-StateKept tma_new_over present c.processors _ c.process_output_cache _ entry
          (record {
            latch = KeyKept-remove p.profile_uid entry.0.profile_uid _ e;
            std = KeyKept-remove p.profile_uid entry.0.profile_uid _ e;
            thresh = KeyKept-remove p.profile_uid entry.0.profile_uid _ e;
            output = KeyKept-remove p.profile_uid entry.0.profile_uid _ e;
          })
          (h.well u);
  }

  IsListed-next :
      (p : NormalizedGraphProfile F) (profiles : List (NormalizedGraphProfile F))
      (entry : NormalizedGraphProfile F × List DeviceChannelProfileSetting)
      → p == entry.0 ≡ false
      → IsListed (p ∷ profiles) entry
      → IsListed profiles entry
  unfolding Set.contains
  IsListed-next p profiles entry e h u = ground (arith, h u)

  clear_profiles-IsClearing :
      (present : String → Bool) (device_channel : DeviceChannelProfileSetting)
      (profiles : List (NormalizedGraphProfile F)) (c : GraphProfileCommander F)
      → IsClearing present device_channel profiles c
      → IsClearing present device_channel [] (clear_profiles profiles c)
  unfolding clear_profiles
  clear_profiles-IsClearing present device_channel [] c h = h
  clear_profiles-IsClearing present device_channel (p ∷ profiles) c h =
      clear_profiles-IsClearing present device_channel profiles _ (record {
        left =
            All-imp _ _ (λ entry r. cleared-IsLeft present device_channel p c entry r.1 r.0)
              (remove p c.scheduled_settings)
              (All-remove_ne (IsLeft present c.processors c.process_output_cache device_channel) p
                c.scheduled_settings h.left);
        listed =
            All-imp _ _ (λ entry r. IsListed-next p profiles entry r.1 r.0)
              (remove p c.scheduled_settings)
              (All-remove_ne (IsListed (p ∷ profiles)) p c.scheduled_settings h.listed);
        counting = AllCounting-remove p.profile_uid c.processors.fun_safety_latch h.counting;
      })

  finished :
      (present : String → Bool) (ps : ProcessorCollection F) (cache : OutputCache)
      (device_channel : DeviceChannelProfileSetting) (settings : Scheduled F)
      → All (IsLeft present ps cache device_channel) settings
      → All (IsListed []) settings
      → All (IsEntry tma_new_over present ps cache) settings × All (Without device_channel) settings
  unfolding Set.contains
  finished present ps cache device_channel [] h l = (tt, tt)
  finished present ps cache device_channel (entry ∷ rest) h l =
      let (entries, without) = finished present ps cache device_channel rest h.1 l.1 in
      ((h.0.well (ground (arith, l.0)), entries), (h.0.lost, without))

  -- Clearing a channel keeps a commander well-formed, and no profile applies to the channel any
  -- more, whether it did so by itself or as a member of a mix.
  pub clear_channel_setting-IsWellFormed :
      (present : String → Bool) (uid channel : String) (c : GraphProfileCommander F)
      → IsWellFormed tma_new_over present c
      → IsWellFormed tma_new_over present (clear_channel_setting uid channel c)
        × All (Without (graph uid channel)) (clear_channel_setting uid channel c).scheduled_settings
  unfolding clear_channel_setting
  clear_channel_setting-IsWellFormed present uid channel c w =
      let settings = remove_channel (graph uid channel) c.scheduled_settings in
      let done =
        clear_profiles-IsClearing present (graph uid channel) (profiles_to_remove settings)
          (record c { scheduled_settings = settings })
          (record {
            left =
                remove_channel-IsLeft present c.processors c.process_output_cache
                  (graph uid channel) c.scheduled_settings w.entries;
            listed = profiles_to_remove-IsListed settings;
            counting = w.counting;
          }) in
      let (entries, without) = finished present _ _ (graph uid channel) _ done.left done.listed in
      (record { entries = entries; counting = done.counting }, without)
