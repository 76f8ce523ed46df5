-- ===== src/Device/History.antt =====
-- The status history of a device: its length, its newest entry, its timestamps.
use mathlib.Core.List.{append-nil, append_assoc}
use coolerocontrol.Base.{
  ℕ, zero, suc, ◌-◌, ◌≤◌, ◌≡◌, ◌≢◌, refl, sym, ap, ◌∙◌, String, some, List, [], ◌∷◌, ◌++◌, map,
  arith, length, drop, tail, length-append, length-drop, get_last?-append, All,
}
use coolerocontrol.Base.Float.{Float}
use coolerocontrol.Device.{
  Device, Status, TempStatus, status_size, status_current, set_status, zeroed_temp, zeroed_status,
  zeroed_history, initialize_status_history_with,
}

module _ {F : Type 0} where
  pub status_current-set_status :
      (d : Device F) (s : Status F) → status_current (set_status d s) ≡ some s
  unfolding status_current set_status
  status_current-set_status d s = get_last?-append s _

  -- The daemon's loop: one snapshot after the other.
  unfoldable pub set_statuses : Device F → List (Status F) → Device F
  set_statuses d [] = d
  set_statuses d (s ∷ ss) = set_statuses (set_status d s) ss

  -- A history that is not empty is a sliding window of fixed length over all snapshots.
  abbrev pub IsWindow : List (Status F) → List (Status F) → List (Status F) → Type 0
  IsWindow before snapshots after =
      (length after ≡ length before) × (after ≡ drop (length snapshots) (before ++ snapshots))

  window_step :
      (s : Status F) (ss h : List (Status F))
      → h ≢ []
      → drop (length ss) ((tail h ++ s ∷ []) ++ ss) ≡ drop (length (s ∷ ss)) (h ++ s ∷ ss)
  window_step s ss [] h = absurd (h refl)
  window_step s ss (x ∷ xs) h = rw append_assoc

  snoc-ne-nil : (x : Status F) (xs : List (Status F)) → xs ++ x ∷ [] ≢ []
  snoc-ne-nil x [] e = cc
  snoc-ne-nil x (y ∷ ys) e = cc

  history-set_statuses :
      (d : Device F) (ss : List (Status F))
      → d.status_history ≢ []
      → (set_statuses d ss).status_history ≡ drop (length ss) (d.status_history ++ ss)
  unfolding set_statuses set_status
  history-set_statuses d [] h = sym (append-nil d.status_history)
  history-set_statuses d (s ∷ ss) h =
      history-set_statuses (set_status d s) ss (snoc-ne-nil s (tail d.status_history))
      ∙ window_step s ss d.status_history h

  -- From a history that is not empty, any run of snapshots leaves the newest `length` of all the
  -- statuses, oldest first, where `length` is that of the history at the start.
  pub set_statuses-IsWindow :
      (d : Device F) (ss : List (Status F))
      → d.status_history ≢ []
      → IsWindow d.status_history ss (set_statuses d ss).status_history
  set_statuses-IsWindow d ss h = (
    omega (
      arith,
      ap length (history-set_statuses d ss h),
      length-drop (length ss) (d.status_history ++ ss),
      length-append d.status_history ss,
    ),
    history-set_statuses d ss h,
  )

module _ {F : Type 0} ⦃fl : Float F⦄ where
  length-zeroed_history : (s : Status F) (n : ℕ) → length (zeroed_history s n) ≡ n
  unfolding zeroed_history
  length-zeroed_history s zero = refl
  length-zeroed_history s (suc n) = ap suc (length-zeroed_history s n)

  -- The names of the sensors that a status reports.
  abbrev pub temp_names : Status F → List String
  temp_names s = map (λ t. t.name) s.temps

  -- A status that stands for a time before the first real one.
  pub record IsPlaceholder (s z : Status F) : Type 0 where
    pub earlier : z.timestamp ≤ s.timestamp
    pub same_names : temp_names z ≡ temp_names s
    pub cold : All (λ t. t.temp ≡ fl.of_nat 0) z.temps

  names-zeroed_temp :
      (ts : List (TempStatus F)) → map (λ t. t.name) (map zeroed_temp ts) ≡ map (λ t. t.name) ts
  names-zeroed_temp [] = refl
  names-zeroed_temp (t ∷ ts) = ap (λ ns. t.name ∷ ns) (names-zeroed_temp ts)

  pub zeroed_temp-cold :
      (ts : List (TempStatus F)) → All (λ t. t.temp ≡ fl.of_nat 0) (map zeroed_temp ts)
  zeroed_temp-cold [] = tt
  zeroed_temp-cold (t ∷ ts) = (refl, zeroed_temp-cold ts)

  zeroed_status-IsPlaceholder : (s : Status F) (n : ℕ) → IsPlaceholder s (zeroed_status s n)
  unfolding zeroed_status
  zeroed_status-IsPlaceholder s n = record {
    earlier = omega arith;
    same_names = names-zeroed_temp s.temps;
    cold = zeroed_temp-cold s.temps;
  }

  zeroed_history-IsPlaceholder : (s : Status F) (n : ℕ) → All (IsPlaceholder s) (zeroed_history s n)
  unfolding zeroed_history
  zeroed_history-IsPlaceholder s zero = tt
  zeroed_history-IsPlaceholder s (suc n) =
      (zeroed_status-IsPlaceholder s (suc n), zeroed_history-IsPlaceholder s n)

  -- An initialized history has exactly `status_size` entries: placeholders, which are no later than
  -- the given status and report the same sensors at zero degrees, and then the status itself.
  pub initialize_status_history_with_lem :
      (d : Device F) (s : Status F)
      → let h = (initialize_status_history_with d s).status_history in
        (length h ≡ status_size)
        × (zs : List (Status F)) × (h ≡ zs ++ s ∷ [])
        × All (IsPlaceholder s) zs
  unfolding initialize_status_history_with
  initialize_status_history_with_lem d s = (
    omega (
      arith,
      length-append (zeroed_history s (status_size - 1)) (s ∷ []),
      length-zeroed_history s (status_size - 1),
    ),
    zeroed_history s (status_size - 1),
    refl,
    zeroed_history-IsPlaceholder s (status_size - 1),
  )
