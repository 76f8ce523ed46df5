-- ===== src/Processing/Utils/Failsafe.antt =====
-- The failsafe survives normalization: a normalized profile reaches the maximum duty at or below the
-- critical temperature.
use coolerocontrol.Base.{
  ℕ, ◌≤◌, ◌<◌, ◌≡◌, refl, ◌⊎◌, inl, inr, true, false, List, [], ◌∷◌, ◌++◌, arith, ◌==◌, nat_eq,
  Bool-cases, All, All-append,
}
use coolerocontrol.Base.Float.{Float, IsOrdered, fleb, feqb}
use coolerocontrol.Base.Outcome.{Returns}
use coolerocontrol.Processing.Utils.{
  Step, step_leb, sort_steps, adjusted_duty, normalize_from, normalize_sorted, normalize_profile,
}
use coolerocontrol.Processing.Utils.Normal.{
  IsNormal, IsSorted, AtMost, HasFailsafe, leb_self, step_leb-fleb, sort_steps-IsSorted,
  sort_steps-AtMost, sort_steps-HasFailsafe, adjusted_duty_bounds, from_first,
  normalize_from-IsRising, normalize_from-AtMost,
}

adjusted_duty_full : (m d : ℕ) → d ≤ m → adjusted_duty m d m ≡ m
unfolding adjusted_duty
adjusted_duty_full m d h = ground arith

module _ {F : Type 0} ⦃fl : Float F⦄ where
  -- The failsafe lies ahead, at another temperature than `t`.
  abbrev Ahead : F → ℕ → F → List (Step F) → Type 0
  Ahead c m t [] = ⊥
  Ahead c m t (s ∷ rest) =
      ((fleb s.0 c ≡ true) × (s.1 ≡ m) × (feqb s.0 t ≡ false)) ⊎ Ahead c m t rest

  Ahead-HasFailsafe :
      (c : F) (m : ℕ) (t : F) (l : List (Step F)) → Ahead c m t l → HasFailsafe c m l
  Ahead-HasFailsafe c m t [] h = h
  Ahead-HasFailsafe c m t (s ∷ rest) (inl h) = inl (h.0, h.1)
  Ahead-HasFailsafe c m t (s ∷ rest) (inr h) = inr (Ahead-HasFailsafe c m t rest h)

  -- Past a step that asks for less, the failsafe is at a later temperature: of the steps with one
  -- temperature the largest duty stands first.
  HasFailsafe-Ahead :
      (c : F) (m : ℕ) (x : Step F) (l : List (Step F))
      → x.1 < m
      → All (λ y. step_leb x y ≡ true) l
      → HasFailsafe c m l
      → Ahead c m x.0 l
  unfolding step_leb
  HasFailsafe-Ahead c m x [] b s h = h
  HasFailsafe-Ahead c m x (y ∷ l) b s (inl h) = inl (h.0, h.1, ground arith)
  HasFailsafe-Ahead c m x (y ∷ l) b s (inr h) = inr (HasFailsafe-Ahead c m x l b s.1 h)

module _ {F : Type 0} ⦃fl : Float F⦄ (o : IsOrdered F) where
  HasFailsafe-below :
      (c : F) (m : ℕ) (x : Step F) (l : List (Step F))
      → All (λ y. step_leb x y ≡ true) l
      → HasFailsafe c m l
      → fleb x.0 c ≡ true
  HasFailsafe-below c m x [] s h = elim h [ ]
  HasFailsafe-below c m x (y ∷ l) s (inl h) = o.leb_trans x.0 y.0 c (step_leb-fleb o x y s.0) h.0
  HasFailsafe-below c m x (y ∷ l) s (inr h) = HasFailsafe-below c m x l s.1 h

  normalize_from-HasFailsafe :
      (c : F) (m : ℕ) (t : F) (d : ℕ) (l : List (Step F))
      → d ≤ m
      → AtMost m l
      → IsSorted l
      → Ahead c m t l
      → HasFailsafe c m (normalize_from m t d l)
  unfolding normalize_from
  normalize_from-HasFailsafe c m t d [] b a s h = h
  normalize_from-HasFailsafe c m t d (x ∷ rest) b a s (inl h) =
      rw h.2 (inl (h.0, rw h.1 (adjusted_duty_full m d b)))
  normalize_from-HasFailsafe c m t d (x ∷ rest) b a s (inr h) = elim (Bool-cases (feqb x.0 t)) [
    | inl same ↦ rw same (normalize_from-HasFailsafe c m t d rest b a.1 s.1 h)
    | inr new ↦ elim (Bool-cases (x.1 == m)) [
      | inl full ↦ rw new (
          inl (
            HasFailsafe-below c m x rest s.0 (Ahead-HasFailsafe c m t rest h),
            ground (arith, adjusted_duty_full m d b),
          ))
      | inr less ↦ rw new (elim (Bool-cases (adjusted_duty m d x.1 == m)) [
        | inl reached ↦
            inl (HasFailsafe-below c m x rest s.0 (Ahead-HasFailsafe c m t rest h), ground arith)
        | inr more ↦ rw more (
            inr (
              normalize_from-HasFailsafe c m x.0 (adjusted_duty m d x.1) rest
                (adjusted_duty_bounds m d x.1 b).1 a.1 s.1
                (HasFailsafe-Ahead c m x rest (ground arith) s.0 (Ahead-HasFailsafe c m t rest h))))
      ])
    ]
  ]

  normalize_sorted-IsNormal :
      (c : F) (m : ℕ) (l : List (Step F))
      → AtMost m l
      → IsSorted l
      → HasFailsafe c m l
      → Returns (normalize_sorted m l) (IsNormal c m)
  unfolding normalize_sorted
  normalize_sorted-IsNormal c m [] a s h = h
  normalize_sorted-IsNormal c m (x ∷ rest) a s h = record {
    rising = normalize_from-IsRising o m x.0 x.1 rest a.0 (from_first o x rest s) s.1;
    at_most = (a.0, normalize_from-AtMost o m x.0 x.1 rest a.0);
    failsafe = first h;
  }
    where
      first : HasFailsafe c m (x ∷ rest) → HasFailsafe c m (x ∷ normalize_from m x.0 x.1 rest)
      first (inl here) = inl here
      first (inr later) = elim (Bool-cases (x.1 == m)) [
        | inl full ↦ inl (HasFailsafe-below c m x rest s.0 later, ground arith)
        | inr less ↦ inr (
            normalize_from-HasFailsafe c m x.0 x.1 rest a.0 a.1 s.1
              (HasFailsafe-Ahead c m x rest (ground (arith, a.0)) s.0 later))
      ]

  HasFailsafe-snoc : (c : F) (m : ℕ) (l : List (Step F)) → HasFailsafe c m (l ++ (c, m) ∷ [])
  HasFailsafe-snoc c m [] = inl (leb_self o c, refl)
  HasFailsafe-snoc c m (x ∷ l) = inr (HasFailsafe-snoc c m l)

  -- If no given duty passes the maximum, a profile normalizes without a panic: temperatures of the
  -- result rise strictly, its duties do not fall and stay within the maximum, and it asks for the
  -- maximum at some temperature that is at most the critical one.
  pub normalize_profile-IsNormal :
      (profile : List (Step F)) (critical : F) (max : ℕ)
      → AtMost max profile
      → Returns (normalize_profile profile critical max) (IsNormal critical max)
  unfolding normalize_profile
  normalize_profile-IsNormal profile critical max h =
      normalize_sorted-IsNormal critical max (sort_steps given)
        (sort_steps-AtMost max given (All-append (λ s. s.1 ≤ max) profile _ h (omega arith, tt)))
        (sort_steps-IsSorted o given)
        (sort_steps-HasFailsafe critical max given (HasFailsafe-snoc critical max profile))
    where
      given : List (Step F)
      given = profile ++ (critical, max) ∷ []
