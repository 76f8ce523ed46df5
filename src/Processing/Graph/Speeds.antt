-- ===== src/Processing/Graph/Speeds.antt =====
-- What `update_speeds` of the graph commander applies.
use coolerocontrol.Base.{
  ℕ, ◌≡◌, refl, sym, ap, subst, ◌∙◌, inl, inr, String, Bool, true, Option, none, some, List, [],
  ◌∷◌, ◌++◌, arith, string_eq, Bool-cases, All, All-append, All-imp, Any, Any-append_left,
  Any-append_right,
}
use coolerocontrol.Base.Dict.{get, contains_key, get_of_contains_key}
use coolerocontrol.Base.Float.{Float}
use coolerocontrol.Base.Outcome.{Returns, Returns-bind, Returns-unwrap, Returns-imp}
use coolerocontrol.Device.{Device, DeviceType}
use coolerocontrol.Processing.{
  DeviceChannelProfileSetting, mix, graph, device_uid, NormalizedGraphProfile,
}
use coolerocontrol.Processing.Sensor.{AllDevices}
use coolerocontrol.Processing.Graph.{
  Scheduled, OutputCache, GraphProfileCommander, Applied, set_device_speed, apply_channels,
  apply_output, update_from, update_speeds,
}
use coolerocontrol.Processing.Graph.Entries.{IsEntry, IsWellFormed}

some_unique : {A : Type 0} (o : Option A) (a b : A) → o ≡ some a → o ≡ some b → a ≡ b
some_unique o a b h k = ground arith

abbrev pub Entry : Type 0 → Type 0
Entry F = NormalizedGraphProfile F × List DeviceChannelProfileSetting

-- A call is for a channel that a profile is applied to by itself, with the duty that the profile gave.
abbrev pub IsJustified : {F : Type 0} → Scheduled F → OutputCache → Applied → Type 0
IsJustified settings cache a =
    Any
      (λ entry.
        Any (λ c. c ≡ graph a.device_uid a.channel_name) entry.1
        × (get entry.0.profile_uid cache ≡ some (some a.duty)))
      settings

-- A channel that a profile is applied to by itself gets its call, if there is a repository.
abbrev pub IsReached :
    {F : Type 0}
    → (DeviceType → Bool)
    → AllDevices F
    → ℕ
    → List Applied
    → DeviceChannelProfileSetting
    → Type 0
IsReached has_repo all_devices duty applied (mix uid channel) = Unit
IsReached {F} has_repo all_devices duty applied (graph uid channel) =
    (device : Device F)
    → get uid all_devices ≡ some device
    → has_repo device.d_type ≡ true
    → Any (λ a. a ≡ record { device_uid = uid; channel_name = channel; duty = duty }) applied

module _ {F : Type 0} (has_repo : DeviceType → Bool) (all_devices : AllDevices F) where
  -- The calls are those that are justified, and no channel is left out.
  pub record IsApplied (settings : Scheduled F) (cache : OutputCache) (applied : List Applied)
      : Type 0 where
    pub justified : All (IsJustified settings cache) applied
    pub complete :
        All
          (λ entry.
            (duty : ℕ)
            → get entry.0.profile_uid cache ≡ some (some duty)
            → All (IsReached has_repo all_devices duty applied) entry.1)
          settings

  IsReached-append_left :
      (duty : ℕ) (xs ys : List Applied) (c : DeviceChannelProfileSetting)
      → IsReached has_repo all_devices duty xs c
      → IsReached has_repo all_devices duty (xs ++ ys) c
  IsReached-append_left duty xs ys (mix u n) h = tt
  IsReached-append_left duty xs ys (graph u n) h =
      λ device e r. Any-append_left _ xs ys (h device e r)

  IsReached-append_right :
      (duty : ℕ) (xs ys : List Applied) (c : DeviceChannelProfileSetting)
      → IsReached has_repo all_devices duty ys c
      → IsReached has_repo all_devices duty (xs ++ ys) c
  IsReached-append_right duty xs ys (mix u n) h = tt
  IsReached-append_right duty xs ys (graph u n) h =
      λ device e r. Any-append_right _ xs ys (h device e r)

  -- The calls for the channels of one profile.
  record IsDone (channels : List DeviceChannelProfileSetting) (duty : ℕ) (applied : List Applied)
      : Type 0 where
    sound :
        All
          (λ a. Any (λ c. c ≡ graph a.device_uid a.channel_name) channels × (a.duty ≡ duty))
          applied
    reached : All (IsReached has_repo all_devices duty applied) channels

  set_device_speed-IsDone :
      (uid channel : String) (duty : ℕ)
      → contains_key uid all_devices ≡ true
      → Returns
          (set_device_speed has_repo all_devices uid channel duty)
          (IsDone (graph uid channel ∷ []) duty)
  unfolding set_device_speed
  set_device_speed-IsDone uid channel duty k =
      let (device, found) = get_of_contains_key uid all_devices k in
      Returns-unwrap (IsDone (graph uid channel ∷ []) duty) _ _ device found
        (elim (Bool-cases (has_repo device.d_type)) [
          | inl there ↦
              rw there
                (record { sound = ((inl refl, refl), tt); reached = ((λ _ _ _. inl refl), tt) })
          | inr missing ↦ rw missing (record {
            sound = tt;
            reached = (
              (λ device' e r.
                  ground
                    (arith, missing, r, ap (λ d. has_repo d.d_type) (some_unique _ _ _ found e))),
              tt,
            );
          })
        ])

  apply_channels-IsDone :
      (duty : ℕ) (channels : List DeviceChannelProfileSetting)
      → All (λ c. contains_key (device_uid c) all_devices ≡ true) channels
      → Returns (apply_channels has_repo all_devices duty channels) (IsDone channels duty)
  unfolding apply_channels
  apply_channels-IsDone duty [] h = record { sound = tt; reached = tt }
  apply_channels-IsDone duty (mix uid channel ∷ rest) h =
      Returns-imp (IsDone rest duty) (IsDone (mix uid channel ∷ rest) duty) _
        (λ applied d. record {
          sound = All-imp _ _ (λ a s. (inr s.0, s.1)) applied d.sound;
          reached = (tt, d.reached);
        })
        (apply_channels-IsDone duty rest h.1)
  apply_channels-IsDone duty (graph uid channel ∷ rest) h =
      Returns-bind (IsDone (graph uid channel ∷ rest) duty) (IsDone (graph uid channel ∷ []) duty) _
        _ (set_device_speed-IsDone uid channel duty h.0)
        λ xs x.
          Returns-bind (IsDone (graph uid channel ∷ rest) duty) (IsDone rest duty) _ _
            (apply_channels-IsDone duty rest h.1)
            λ ys y. record {
              sound =
                  All-append _ xs ys (All-imp _ _ (λ a s. (only a s.0, s.1)) xs x.sound)
                    (All-imp _ _ (λ a s. (inr s.0, s.1)) ys y.sound);
              reached = (
                IsReached-append_left duty xs ys (graph uid channel) x.reached.0,
                All-imp _ _ (IsReached-append_right duty xs ys) rest y.reached,
              );
            }
    where
      only :
          (a : Applied)
          → Any (λ c. c ≡ graph a.device_uid a.channel_name) (graph uid channel ∷ [])
          → Any (λ c. c ≡ graph a.device_uid a.channel_name) (graph uid channel ∷ rest)
      only a (inl e) = inl e
      only a (inr e) = elim e [ ]

  -- The calls for one entry.
  record IsOutput (cache : OutputCache) (entry : Entry F) (applied : List Applied) : Type 0 where
    sound :
        All
          (λ a.
            Any (λ c. c ≡ graph a.device_uid a.channel_name) entry.1
            × (get entry.0.profile_uid cache ≡ some (some a.duty)))
          applied
    reached :
        (duty : ℕ)
        → get entry.0.profile_uid cache ≡ some (some duty)
        → All (IsReached has_repo all_devices duty applied) entry.1

  apply_output-IsOutput :
      (cache : OutputCache) (entry : Entry F) (o : Option ℕ)
      → get entry.0.profile_uid cache ≡ some o
      → All (λ c. contains_key (device_uid c) all_devices ≡ true) entry.1
      → Returns (apply_output has_repo all_devices entry.1 o) (IsOutput cache entry)
  unfolding apply_output
  apply_output-IsOutput cache entry none e t = record { sound = tt; reached = λ duty f. cc }
  apply_output-IsOutput cache entry (some x) e t =
      Returns-imp (IsDone entry.1 x) (IsOutput cache entry) _
        (λ applied d. record {
          sound = All-imp _ _ (λ a s. (s.0, e ∙ ap (λ y. some (some y)) (sym s.1))) applied d.sound;
          reached = λ duty f.
              subst (λ y. All (IsReached has_repo all_devices y applied) entry.1)
                (some_unique (some x) x duty refl (some_unique _ _ _ e f)) d.reached;
        })
        (apply_channels-IsDone x entry.1 t)

  All-IsReached-append_left :
      (duty : ℕ) (xs ys : List Applied) (channels : List DeviceChannelProfileSetting)
      → All (IsReached has_repo all_devices duty xs) channels
      → All (IsReached has_repo all_devices duty (xs ++ ys)) channels
  All-IsReached-append_left duty xs ys = All-imp _ _ (IsReached-append_left duty xs ys)

  All-IsReached-append_right :
      (duty : ℕ) (xs ys : List Applied) (channels : List DeviceChannelProfileSetting)
      → All (IsReached has_repo all_devices duty ys) channels
      → All (IsReached has_repo all_devices duty (xs ++ ys)) channels
  All-IsReached-append_right duty xs ys = All-imp _ _ (IsReached-append_right duty xs ys)

  update_from-IsApplied :
      (cache : OutputCache) (settings : Scheduled F)
      → All (λ entry. contains_key entry.0.profile_uid cache ≡ true) settings
      → All (λ entry. All (λ c. contains_key (device_uid c) all_devices ≡ true) entry.1) settings
      → Returns (update_from has_repo all_devices cache settings) (IsApplied settings cache)
  unfolding update_from
  update_from-IsApplied cache [] k t = record { justified = tt; complete = tt }
  update_from-IsApplied cache (entry ∷ rest) k t =
      let P = IsApplied (entry ∷ rest) cache in
      let (o, found) = get_of_contains_key entry.0.profile_uid cache k.0 in
      Returns-unwrap P _ _ o found (
        Returns-bind P (IsOutput cache entry) _ _ (apply_output-IsOutput cache entry o found t.0)
          λ xs x.
            Returns-bind P (IsApplied rest cache) _ _ (update_from-IsApplied cache rest k.1 t.1)
              λ ys y. record {
                justified =
                    All-append _ xs ys (All-imp _ _ (λ a s. inl s) xs x.sound)
                      (All-imp _ _ (λ a s. inr s) ys y.justified);
                complete = (
                  (λ duty e. All-IsReached-append_left duty xs ys entry.1 (x.reached duty e)),
                  All-imp _ _
                      (λ other h duty e. All-IsReached-append_right duty xs ys other.1 (h duty e))
                      rest y.complete,
                );
              })

module _ {F : Type 0} ⦃fl : Float F⦄ (tma_new_over : ℕ → List F → Option (List F)) where
  -- Applying the speeds returns for a well-formed commander whose devices are all there. Each call is
  -- for a channel that a profile is applied to by itself, with the duty that the profile gave; and
  -- each such channel gets its call, if there is a repository for its device.
  pub update_speeds-IsApplied :
      (has_repo : DeviceType → Bool) (all_devices : AllDevices F) (present : String → Bool)
      (c : GraphProfileCommander F)
      → ((uid : String) → contains_key uid all_devices ≡ present uid)
      → IsWellFormed tma_new_over present c
      → Returns
          (update_speeds has_repo all_devices c)
          (IsApplied has_repo all_devices c.scheduled_settings c.process_output_cache)
  unfolding update_speeds
  update_speeds-IsApplied has_repo all_devices present c d w =
      update_from-IsApplied has_repo all_devices c.process_output_cache c.scheduled_settings
        (All-imp _ _ (λ entry (i : IsEntry tma_new_over present _ _ entry). i.cached) _ w.entries)
        (All-imp _ _
          (λ entry (i : IsEntry tma_new_over present _ _ entry).
            All-imp _ _ (λ x h. d (device_uid x) ∙ h) entry.1 i.targets)
          _ w.entries)
