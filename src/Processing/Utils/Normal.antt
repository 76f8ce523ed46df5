-- ===== src/Processing/Utils/Normal.antt =====
-- The normal form of a profile: sorted, rising, within the maximum, with the failsafe in it.
use coolerocontrol.Base.{
  ℕ, ◌≤◌, ◌≡◌, ◌⊎◌, inl, inr, true, false, List, [], ◌∷◌, arith, ◌==◌, nat_eq, Bool-cases, All,
  All-imp,
}
use coolerocontrol.Base.Float.{Float, IsOrdered, fleb, fltb, feqb}
use coolerocontrol.Processing.Utils.{
  Step, step_leb, insert_step, sort_steps, adjusted_duty, normalize_from,
}

pub adjusted_duty_bounds :
    (max previous duty : ℕ)
    → previous ≤ max
    → (previous ≤ adjusted_duty max previous duty) × (adjusted_duty max previous duty ≤ max)
unfolding adjusted_duty
adjusted_duty_bounds max previous duty h = ground arith

module _ {F : Type 0} ⦃fl : Float F⦄ where
  -- Temperatures rise strictly after `temp`, and duties do not fall below `duty`.
  abbrev pub IsRising : F → ℕ → List (Step F) → Type 0
  IsRising temp duty [] = Unit {0}
  IsRising temp duty ((t, d) ∷ rest) = (fltb temp t ≡ true) × (duty ≤ d) × IsRising t d rest

  abbrev pub IsRisingProfile : List (Step F) → Type 0
  IsRisingProfile [] = ⊥
  IsRisingProfile ((t, d) ∷ rest) = IsRising t d rest

  abbrev pub AtMost : ℕ → List (Step F) → Type 0
  AtMost max = All (λ s. s.1 ≤ max)

  -- Some step asks for the duty `max` at or below the critical temperature.
  abbrev pub HasFailsafe : F → ℕ → List (Step F) → Type 0
  HasFailsafe critical max [] = ⊥
  HasFailsafe critical max (s ∷ rest) =
      ((fleb s.0 critical ≡ true) × (s.1 ≡ max)) ⊎ HasFailsafe critical max rest

  -- What a normalized profile promises.
  pub record IsNormal (critical : F) (max : ℕ) (profile : List (Step F)) : Type 0 where
    pub rising : IsRisingProfile profile
    pub at_most : AtMost max profile
    pub failsafe : HasFailsafe critical max profile

  abbrev pub IsSorted : List (Step F) → Type 0
  IsSorted [] = Unit {0}
  IsSorted (x ∷ xs) = All (λ y. step_leb x y ≡ true) xs × IsSorted xs

  insert_step-All :
      (P : Step F → Type 0) (s : Step F) (xs : List (Step F))
      → P s
      → All P xs
      → All P (insert_step s xs)
  unfolding insert_step
  insert_step-All P s [] p h = (p, tt)
  insert_step-All P s (x ∷ xs) p h = elim (Bool-cases (step_leb s x)) [
    | inl before ↦ rw before (p, h)
    | inr after ↦ rw after (h.0, insert_step-All P s xs p h.1)
  ]

  HasFailsafe-cons_after :
      (c : F) (m : ℕ) (s x : Step F) (xs : List (Step F))
      → (HasFailsafe c m (s ∷ xs) → HasFailsafe c m (insert_step s xs))
      → HasFailsafe c m (s ∷ x ∷ xs)
      → HasFailsafe c m (x ∷ insert_step s xs)
  HasFailsafe-cons_after c m s x xs ih (inl here) = inr (ih (inl here))
  HasFailsafe-cons_after c m s x xs ih (inr (inl there)) = inl there
  HasFailsafe-cons_after c m s x xs ih (inr (inr later)) = inr (ih (inr later))

  insert_step-HasFailsafe :
      (c : F) (m : ℕ) (s : Step F) (xs : List (Step F))
      → HasFailsafe c m (s ∷ xs)
      → HasFailsafe c m (insert_step s xs)
  unfolding insert_step
  insert_step-HasFailsafe c m s [] h = h
  insert_step-HasFailsafe c m s (x ∷ xs) h = elim (Bool-cases (step_leb s x)) [
    | inl before ↦ rw before h
    | inr after ↦ rw after (HasFailsafe-cons_after c m s x xs (insert_step-HasFailsafe c m s xs) h)
  ]

  pub sort_steps-AtMost : (m : ℕ) (xs : List (Step F)) → AtMost m xs → AtMost m (sort_steps xs)
  unfolding sort_steps
  sort_steps-AtMost m [] h = tt
  sort_steps-AtMost m (x ∷ xs) h =
      insert_step-All (λ s. s.1 ≤ m) x (sort_steps xs) h.0 (sort_steps-AtMost m xs h.1)

  pub sort_steps-HasFailsafe :
      (c : F) (m : ℕ) (xs : List (Step F)) → HasFailsafe c m xs → HasFailsafe c m (sort_steps xs)
  unfolding sort_steps
  sort_steps-HasFailsafe c m [] h = elim h [ ]
  sort_steps-HasFailsafe c m (x ∷ xs) (inl h) =
      insert_step-HasFailsafe c m x (sort_steps xs) (inl h)
  sort_steps-HasFailsafe c m (x ∷ xs) (inr h) =
      insert_step-HasFailsafe c m x (sort_steps xs) (inr (sort_steps-HasFailsafe c m xs h))

module _ {F : Type 0} ⦃fl : Float F⦄ (o : IsOrdered F) where
  pub leb_self : (a : F) → fleb a a ≡ true
  leb_self a = ground (arith, o.leb_total a a)

  step_leb_total : (a b : Step F) → step_leb a b ≡ false → step_leb b a ≡ true
  unfolding step_leb
  step_leb_total a b h = ground (arith, o.leb_total a.0 b.0)

  step_leb_trans :
      (a b c : Step F) → step_leb a b ≡ true → step_leb b c ≡ true → step_leb a c ≡ true
  unfolding step_leb
  step_leb_trans a b c h k = ground (
    arith,
    o.leb_total a.0 b.0,
    o.leb_total b.0 c.0,
    o.leb_trans a.0 b.0 c.0,
    o.leb_trans c.0 b.0 a.0,
    o.leb_trans c.0 a.0 b.0,
    o.leb_trans b.0 c.0 a.0,
  )

  pub step_leb-fleb : (a b : Step F) → step_leb a b ≡ true → fleb a.0 b.0 ≡ true
  unfolding step_leb
  step_leb-fleb a b h = ground (arith, o.leb_total a.0 b.0)

  insert_step-IsSorted :
      (s : Step F) (xs : List (Step F)) → IsSorted xs → IsSorted (insert_step s xs)
  unfolding insert_step
  insert_step-IsSorted s [] h = (tt, tt)
  insert_step-IsSorted s (x ∷ xs) h = elim (Bool-cases (step_leb s x)) [
    | inl before ↦ rw before ((before, All-imp _ _ (λ y. step_leb_trans s x y before) xs h.0), h)
    | inr after ↦ rw after (
      insert_step-All (λ y. step_leb x y ≡ true) s xs (step_leb_total s x after) h.0,
      insert_step-IsSorted s xs h.1,
    )
  ]

  pub sort_steps-IsSorted : (xs : List (Step F)) → IsSorted (sort_steps xs)
  unfolding sort_steps
  sort_steps-IsSorted [] = tt
  sort_steps-IsSorted (x ∷ xs) = insert_step-IsSorted x (sort_steps xs) (sort_steps-IsSorted xs)

  pub from_first :
      (x : Step F) (xs : List (Step F)) → IsSorted (x ∷ xs) → All (λ y. fleb x.0 y.0 ≡ true) xs
  from_first x xs h = All-imp _ _ (step_leb-fleb x) xs h.0

  pub normalize_from-IsRising :
      (m : ℕ) (t : F) (d : ℕ) (l : List (Step F))
      → d ≤ m
      → All (λ y. fleb t y.0 ≡ true) l
      → IsSorted l
      → IsRising t d (normalize_from m t d l)
  unfolding normalize_from
  normalize_from-IsRising m t d [] b a s = tt
  normalize_from-IsRising m t d (x ∷ rest) b a s = elim (Bool-cases (feqb x.0 t)) [
    | inl same ↦ rw same (normalize_from-IsRising m t d rest b a.1 s.1)
    | inr new ↦ rw new (
      ground arith,
      (adjusted_duty_bounds m d x.1 b).0,
      elim (Bool-cases (adjusted_duty m d x.1 == m)) [
        | inl full ↦ rw full tt
        | inr more ↦ rw more (
            normalize_from-IsRising m x.0 (adjusted_duty m d x.1) rest
              (adjusted_duty_bounds m d x.1 b).1 (from_first x rest s) s.1)
      ],
    )
  ]

  pub normalize_from-AtMost :
      (m : ℕ) (t : F) (d : ℕ) (l : List (Step F)) → d ≤ m → AtMost m (normalize_from m t d l)
  unfolding normalize_from
  normalize_from-AtMost m t d [] b = tt
  normalize_from-AtMost m t d (x ∷ rest) b = elim (Bool-cases (feqb x.0 t)) [
    | inl same ↦ rw same (normalize_from-AtMost m t d rest b)
    | inr new ↦ rw new (
      (adjusted_duty_bounds m d x.1 b).1,
      elim (Bool-cases (adjusted_duty m d x.1 == m)) [
        | inl full ↦ rw full tt
        | inr more ↦ rw more (
            normalize_from-AtMost m x.0 (adjusted_duty m d x.1) rest
              (adjusted_duty_bounds m d x.1 b).1)
      ],
    )
  ]
