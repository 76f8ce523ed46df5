-- ===== src/Processing/Graph/Normalized.antt =====
-- `normalize_profile_setting` of the graph commander.
use coolerocontrol.Base.{
  ℕ, ◌≡◌, refl, inl, inr, String, Bool, true, false, Option, List, [], ◌∷◌, ◌++◌, arith, string_eq,
  ◌==◌, is_empty, Option-cases, All, snoc-cons, find_by, find_by-All,
}
use coolerocontrol.Base.Dict.{get, contains_key, contains_key_of_get}
use coolerocontrol.Base.Float.{Float}
use coolerocontrol.Base.Outcome.{
  Outcome, Safe, Returns, Safe-bind, Safe-with_context, Safe-Returns, with_context,
}
use coolerocontrol.Setting.{Profile, Function}
use coolerocontrol.Processing.{NormalizedGraphProfile, device_channel_eq, graph_profile_eq}
use coolerocontrol.Processing.Sensor.{AllDevices}
use coolerocontrol.Processing.Utils.{
  Step, insert_step, sort_steps, normalize_sorted, normalize_profile,
}
use coolerocontrol.Processing.Chain.Temp.{IsReady}
use coolerocontrol.Processing.Graph.{
  get_max_device_duty, get_profiles_function, normalize_profile_setting,
}

module _ {F : Type 0} ⦃fl : Float F⦄ where
  insert_step-nonempty : (s : Step F) (xs : List (Step F)) → is_empty (insert_step s xs) ≡ false
  unfolding insert_step
  insert_step-nonempty s [] = refl
  insert_step-nonempty s (x ∷ xs) = ground arith

  normalize_sorted-nonempty :
      (max : ℕ) (xs : List (Step F))
      → is_empty xs ≡ false
      → Returns (normalize_sorted max xs) (λ q. is_empty q ≡ false)
  unfolding normalize_sorted
  normalize_sorted-nonempty max [] h = cc
  normalize_sorted-nonempty max (x ∷ xs) h = refl

  normalize_profile-nonempty :
      (profile : List (Step F)) (critical : F) (max : ℕ)
      → Returns (normalize_profile profile critical max) (λ q. is_empty q ≡ false)
  unfolding normalize_profile sort_steps
  normalize_profile-nonempty profile critical max =
      let (z, zs, e) = snoc-cons profile (critical, max) in
      normalize_sorted-nonempty max (sort_steps (profile ++ (critical, max) ∷ []))
        (rw e (insert_step-nonempty z (sort_steps zs)))

module _ {F : Type 0} where
  get_max_device_duty-present :
      (all_devices : AllDevices F) (uid channel : String)
      → Safe
          (get_max_device_duty all_devices uid channel)
          (λ _. contains_key uid all_devices ≡ true)
  unfolding get_max_device_duty
  get_max_device_duty-present all_devices uid channel =
      Safe-with_context _ _ _ (get uid all_devices) λ device e.
        Safe-with_context _ _ _ (get channel device.info.channels) λ channel_info _.
          Safe-with_context _ _ _ channel_info.speed_options
            λ _ _. contains_key_of_get uid all_devices device e

module _ {F : Type 0} ⦃fl : Float F⦄ (tma_new_over : ℕ → List F → Option (List F)) where
  get_profiles_function-IsReady :
      (functions : Outcome (List (Function F))) (function_uid : String)
      → Safe functions (All (IsReady tma_new_over))
      → Safe (get_profiles_function functions function_uid) (IsReady tma_new_over)
  unfolding get_profiles_function
  get_profiles_function-IsReady functions function_uid h =
      Safe-bind _ (All (IsReady tma_new_over)) _ functions h
        λ fs r. go (λ f. f.uid == function_uid) fs r
    where
      go :
          (p : Function F → Bool) (fs : List (Function F))
          → All (IsReady tma_new_over) fs
          → Safe
              (with_context
                "Function must be present in list of functions to schedule speed settings"
                (find_by p fs))
              (IsReady tma_new_over)
      go p fs r = elim (Option-cases (find_by p fs)) [
        | inl absent ↦ rw absent tt
        | inr (f, found) ↦ rw found (find_by-All (IsReady tma_new_over) p fs f found r)
      ]

  -- What a normalized profile has.
  pub record IsNormalized (all_devices : AllDevices F) (uid profile_uid : String)
      (normalized : NormalizedGraphProfile F) : Type 0 where
    pub same_uid : normalized.profile_uid ≡ profile_uid
    pub curve : is_empty normalized.speed_profile ≡ false
    pub ready : IsReady tma_new_over normalized.function
    pub target : contains_key uid all_devices ≡ true

  pub normalize_profile_setting-IsNormalized :
      (all_devices : AllDevices F) (functions : Outcome (List (Function F))) (uid channel : String)
      (profile : Profile F)
      → Safe functions (All (IsReady tma_new_over))
      → Safe
          (normalize_profile_setting all_devices functions uid channel profile)
          (IsNormalized all_devices uid profile.uid)
  unfolding normalize_profile_setting
  normalize_profile_setting-IsNormalized all_devices functions uid channel profile h =
      Safe-with_context P _ _ profile.temp_source λ temp_source _.
        Safe-with_context P _ _ profile.speed_profile λ speed_profile _.
          Safe-with_context P _ _ (get temp_source.device_uid all_devices) λ device _.
            Safe-bind P (λ _. contains_key uid all_devices ≡ true) _ _
              (get_max_device_duty-present all_devices uid channel)
              λ max_duty target.
                Safe-bind P (IsReady tma_new_over) _ _
                  (get_profiles_function-IsReady functions profile.function_uid h)
                  λ function ready.
                    Safe-bind P (λ q. is_empty q ≡ false) _ _
                      (Safe-Returns (λ q. is_empty q ≡ false) _
                        (normalize_profile-nonempty speed_profile (fl.of_nat device.info.temp_max)
                          max_duty))
                      λ q curve. record {
                        same_uid = refl;
                        curve = curve;
                        ready = ready;
                        target = target;
                      }
    where
      P : NormalizedGraphProfile F → Type 0
      P = IsNormalized all_devices uid profile.uid
