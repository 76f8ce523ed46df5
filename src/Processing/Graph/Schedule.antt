-- ===== src/Processing/Graph/Schedule.antt =====
-- `schedule_setting` of the graph commander.
use coolerocontrol.Base.{
  ℕ, ◌≡◌, refl, sym, subst, ◌∙◌, inl, inr, String, Bool, true, false, Option, none, some, List, [],
  ◌∷◌, arith, string_eq, string_eq_iff, ◌==◌, is_empty, Bool-cases, Option-cases, All,
  if◌then◌else◌,
}
use coolerocontrol.Base.Dict.{
  Dict, get, contains_key, insert, remove, get-insert, get-remove, contains_key-insert,
  contains_key-insert_self, contains_key-remove, All-remove, All-insert_absent, All-get,
}
use coolerocontrol.Base.Set
use coolerocontrol.Base.Float.{Float}
use coolerocontrol.Base.Outcome.{Outcome, Safe, Safe-bind, Safe-ensure}
use coolerocontrol.Setting.{Profile, Function}
use coolerocontrol.Processing.{
  DeviceChannelProfileSetting, device_uid, channel_name, NormalizedGraphProfile, device_channel_eq,
  graph_profile_eq,
}
use coolerocontrol.Processing.Sensor.{AllDevices}
use coolerocontrol.Processing.Standard
use coolerocontrol.Processing.Threshold
use coolerocontrol.Processing.Latch
use coolerocontrol.Processing.Chain.{ProcessorCollection}
use coolerocontrol.Processing.Latch.Counter.{IsCounting, new-IsCounting}
use coolerocontrol.Processing.Chain.Temp.{IsReady}
use coolerocontrol.Processing.Graph.{
  OutputCache, GraphProfileCommander, is_graph, with_channel, add_channel, schedule_setting,
}
use coolerocontrol.Processing.Graph.Normalized.{
  IsNormalized, normalize_profile_setting-IsNormalized,
}
use coolerocontrol.Processing.Graph.Entries.{
  AllCounting, IsEntry, IsWellFormed, StateKept, KeyKept, entries-StateKept,
}

KeyKept-insert :
    {A : Type 0} (k j : String) (v : A) (m : Dict String A) → KeyKept j m (insert k v m)
KeyKept-insert k j v m h = ground (arith, contains_key-insert k j v m)

pub AllCounting-insert :
    (uid : String) (latches : Latch.Latches)
    → AllCounting latches
    → AllCounting (insert uid Latch.new latches)
AllCounting-insert uid latches c k m e = elim (Bool-cases (uid == k)) [
  | inl hit ↦
      let new : Latch.new ≡ m = ground (arith, get-insert uid k Latch.new latches) in
      subst IsCounting new new-IsCounting
  | inr miss ↦ c k m (ground (arith, get-insert uid k Latch.new latches))
]

module _ {F : Type 0} ⦃fl : Float F⦄ (tma_new_over : ℕ → List F → Option (List F)) where
  -- The schedule after a channel has been added to a profile.
  pub record IsAdded (present : String → Bool) (c : GraphProfileCommander F)
      (device_channel : DeviceChannelProfileSetting) (uid : String) (c' : GraphProfileCommander F)
      : Type 0 where
    pub well_formed : IsWellFormed tma_new_over present c'
    pub added :
        (p : NormalizedGraphProfile F)
        → p.profile_uid == uid ≡ true
        → (channels : List DeviceChannelProfileSetting) × (get p c'.scheduled_settings
            ≡ some channels)
          × (Set.contains device_channel channels ≡ true)
    pub others :
        (p : NormalizedGraphProfile F)
        → p.profile_uid == uid ≡ false
        → get p c'.scheduled_settings ≡ get p c.scheduled_settings
    pub due : get uid c'.processors.fun_safety_latch ≡ some Latch.new

  with_channel-get :
      (c : GraphProfileCommander F) (n p : NormalizedGraphProfile F)
      (channels : List DeviceChannelProfileSetting)
      → get p (with_channel c n channels)
        ≡ (if n.profile_uid == p.profile_uid then some channels else get p c.scheduled_settings)
  with_channel-get c n p channels = ground (
    arith,
    get-insert n p channels (remove n c.scheduled_settings),
    get-remove n p c.scheduled_settings,
  )

  -- A profile with some channels takes the place of the one with its UID.
  with_channel-IsAdded :
      (present : String → Bool) (device_channel : DeviceChannelProfileSetting)
      (n : NormalizedGraphProfile F) (c : GraphProfileCommander F)
      (channels : List DeviceChannelProfileSetting) (std : Standard.Channels F)
      (duties : Threshold.Duties) (cache : OutputCache)
      → let ps : ProcessorCollection F = record {
        fun_safety_latch = Latch.init_state n.profile_uid c.processors.fun_safety_latch;
        fun_std_pre = std;
        fun_duty_thresh_post = duties;
      } in
        ((k : String) → StateKept k c.processors ps c.process_output_cache cache)
        → IsEntry tma_new_over present ps cache (n, channels)
        → Set.contains device_channel channels ≡ true
        → IsWellFormed tma_new_over present c
        → IsAdded present c device_channel n.profile_uid (record {
          scheduled_settings = with_channel c n channels;
          processors = ps;
          process_output_cache = cache;
        })
  with_channel-IsAdded present device_channel n c channels std duties cache kept entry i w =
      record {
        well_formed = record {
          entries =
              All-insert_absent (IsEntry tma_new_over present _ cache) n channels
                (remove n c.scheduled_settings)
                (ground (
                  arith,
                  contains_key-remove n n c.scheduled_settings,
                  string_eq.eq_self n.profile_uid,
                ))
                entry
                (All-remove (IsEntry tma_new_over present _ cache) n c.scheduled_settings (
                  entries-StateKept tma_new_over present c.processors _ c.process_output_cache cache
                    c.scheduled_settings kept w.entries));
          counting = AllCounting-insert n.profile_uid c.processors.fun_safety_latch w.counting;
        };
        added = λ q e. (
          channels,
          ground (
            arith,
            with_channel-get c n q channels,
            string_eq.eq_sym q.profile_uid n.profile_uid,
          ),
          i,
        );
        others = λ q e.
            ground (
              arith,
              with_channel-get c n q channels,
              string_eq.eq_sym n.profile_uid q.profile_uid,
            );
        due = ground (
          arith,
          get-insert n.profile_uid n.profile_uid Latch.new c.processors.fun_safety_latch,
          string_eq.eq_self n.profile_uid,
        );
      }

  new_profile-IsAdded :
      (present : String → Bool) (device_channel : DeviceChannelProfileSetting)
      (n : NormalizedGraphProfile F) (c : GraphProfileCommander F)
      → present (device_uid device_channel) ≡ true
      → is_empty n.speed_profile ≡ false
      → IsReady tma_new_over n.function
      → IsWellFormed tma_new_over present c
      → IsAdded present c device_channel n.profile_uid (add_channel device_channel n c none)
  unfolding add_channel Set.contains
  new_profile-IsAdded present device_channel n c p curve ready w =
      with_channel-IsAdded present device_channel n c (device_channel ∷ []) _ _ _
        (λ k. record {
          latch = KeyKept-insert n.profile_uid k Latch.new c.processors.fun_safety_latch;
          std = KeyKept-insert n.profile_uid k Standard.new c.processors.fun_std_pre;
          thresh = KeyKept-insert n.profile_uid k Threshold.new c.processors.fun_duty_thresh_post;
          output = KeyKept-insert n.profile_uid k none c.process_output_cache;
        })
        (record {
          scheduled = record {
            latch = contains_key-insert_self n.profile_uid Latch.new c.processors.fun_safety_latch;
            std = contains_key-insert_self n.profile_uid Standard.new c.processors.fun_std_pre;
            thresh =
                contains_key-insert_self n.profile_uid Threshold.new
                  c.processors.fun_duty_thresh_post;
            curve = curve;
          };
          cached = contains_key-insert_self n.profile_uid none c.process_output_cache;
          ready = ready;
          used = refl;
          targets = (p, tt);
        })
        (rw (device_channel_eq.eq_self device_channel) refl) w

  -- What is known of a profile that is scheduled already, under the UID of its successor.
  existing_profile-IsAdded :
      (present : String → Bool) (device_channel : DeviceChannelProfileSetting)
      (n old : NormalizedGraphProfile F) (existing : List DeviceChannelProfileSetting)
      (c : GraphProfileCommander F)
      → old.profile_uid ≡ n.profile_uid
      → IsEntry tma_new_over present c.processors c.process_output_cache (old, existing)
      → present (device_uid device_channel) ≡ true
      → is_empty n.speed_profile ≡ false
      → IsReady tma_new_over n.function
      → IsWellFormed tma_new_over present c
      → IsAdded present c device_channel n.profile_uid
          (add_channel device_channel n c (some existing))
  unfolding add_channel
  existing_profile-IsAdded present device_channel n old existing c same i p curve ready w =
      with_channel-IsAdded present device_channel n c (Set.insert device_channel existing) _ _ _
        (λ k. record {
          latch = KeyKept-insert n.profile_uid k Latch.new c.processors.fun_safety_latch;
          std = λ h. h;
          thresh = λ h. h;
          output = λ h. h;
        })
        (record {
          scheduled = record {
            latch = contains_key-insert_self n.profile_uid Latch.new c.processors.fun_safety_latch;
            std = rw (← same) i.scheduled.std;
            thresh = rw (← same) i.scheduled.thresh;
            curve = curve;
          };
          cached = rw (← same) i.cached;
          ready = ready;
          used = Set.insert-nonempty device_channel existing;
          targets =
              Set.All-insert (λ x. present (device_uid x) ≡ true) device_channel existing p
                i.targets;
        })
        (ground (
          arith,
          Set.contains-insert device_channel device_channel existing,
          device_channel_eq.eq_self device_channel,
        ))
        w

  add_channel-IsAdded :
      (present : String → Bool) (device_channel : DeviceChannelProfileSetting)
      (n : NormalizedGraphProfile F) (c : GraphProfileCommander F)
      → present (device_uid device_channel) ≡ true
      → is_empty n.speed_profile ≡ false
      → IsReady tma_new_over n.function
      → IsWellFormed tma_new_over present c
      → IsAdded present c device_channel n.profile_uid
          (add_channel device_channel n c (get n c.scheduled_settings))
  add_channel-IsAdded present device_channel n c p curve ready w =
      elim (Option-cases (get n c.scheduled_settings)) [
        | inl absent ↦ rw absent (new_profile-IsAdded present device_channel n c p curve ready w)
        | inr (existing, found) ↦
            let (old, same, entry) =
              All-get (IsEntry tma_new_over present c.processors c.process_output_cache) n existing
                c.scheduled_settings found w.entries in
            rw found (
              existing_profile-IsAdded present device_channel n old existing c
                (string_eq_iff old.profile_uid n.profile_uid same) entry p curve ready w)
      ]

  -- Scheduling in a well-formed commander never panics, where the functions of the configuration
  -- have what they need. If it succeeds, the commander stays well-formed, the channel is one of the
  -- profile's, other profiles keep their channels, and the latch of the profile is as at the start.
  pub schedule_setting-IsAdded :
      (all_devices : AllDevices F) (functions : Outcome (List (Function F)))
      (present : String → Bool) (device_channel : DeviceChannelProfileSetting) (profile : Profile F)
      (c : GraphProfileCommander F)
      → ((uid : String) → contains_key uid all_devices ≡ present uid)
      → Safe functions (All (IsReady tma_new_over))
      → IsWellFormed tma_new_over present c
      → Safe
          (schedule_setting all_devices functions device_channel profile c)
          (IsAdded present c device_channel profile.uid)
  unfolding schedule_setting
  schedule_setting-IsAdded all_devices functions present device_channel profile c d f w =
      Safe-ensure P _ (is_graph profile.p_type) _ λ _.
        Safe-bind P (IsNormalized tma_new_over all_devices (device_uid device_channel) profile.uid)
          _ _
          (normalize_profile_setting-IsNormalized tma_new_over all_devices functions
            (device_uid device_channel) (channel_name device_channel) profile f)
          λ n i.
            subst
              (λ (u : String).
                IsAdded present c device_channel u
                  (add_channel device_channel n c (get n c.scheduled_settings)))
              i.same_uid
              (add_channel-IsAdded present device_channel n c
                (sym (d (device_uid device_channel)) ∙ i.target) i.curve i.ready w)
    where
      P : GraphProfileCommander F → Type 0
      P = IsAdded present c device_channel profile.uid
