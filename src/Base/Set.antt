-- ===== src/Base/Set.antt =====
-- `HashSet` as a list without repeats.
use mathlib.Core.Path.{◌≡◌, refl}
use mathlib.Core.Bool.{Bool, true, false}
use mathlib.Core.List.{List, [], ◌∷◌, ◌++◌}
use native.Mathlib.Omega.{arith}
use mathlib.Core.Logic.{inl, inr}
use coolerocontrol.Base.Tests.{if◌then◌else◌, Bool-cases}
use coolerocontrol.Base.Lists.{All, is_empty}
use coolerocontrol.Base.Equality.{Eq, ◌==◌}

module _ {ℓ} {A : Type ℓ} ⦃e : Eq A⦄ where
  unfoldable pub contains : A → List A → Bool
  contains a [] = false
  contains a (x ∷ xs) = if x == a then true else contains a xs

  -- An element that is equal to one of the set does not replace it.
  unfoldable pub insert : A → List A → List A
  insert a [] = a ∷ []
  insert a (x ∷ xs) = if x == a then x ∷ xs else x ∷ insert a xs

  unfoldable pub remove : A → List A → List A
  remove a [] = []
  remove a (x ∷ xs) = let rest = remove a xs in if x == a then rest else x ∷ rest

  pub contains-insert :
      (a b : A) (xs : List A) → contains b (insert a xs) ≡ (if a == b then true else contains b xs)
  unfolding contains insert
  contains-insert a b [] = refl
  contains-insert a b (x ∷ xs) =
      ground (arith, contains-insert a b xs, e.eq_trans x a b, e.eq_trans a x b, e.eq_sym x a)

  pub contains-remove :
      (a b : A) (xs : List A) → contains b (remove a xs) ≡ (if a == b then false else contains b xs)
  unfolding contains remove
  contains-remove a b [] = ground arith
  contains-remove a b (x ∷ xs) = ground (
    arith,
    contains-remove a b xs,
    e.eq_trans x a b,
    e.eq_trans x b a,
    e.eq_trans a x b,
    e.eq_sym x a,
    e.eq_sym a b,
  )

  pub insert-nonempty : (a : A) (xs : List A) → is_empty (insert a xs) ≡ false
  unfolding insert
  insert-nonempty a [] = refl
  insert-nonempty a (x ∷ xs) = ground arith

  module _ (P : A → Type 0) where
    pub All-insert : (a : A) (xs : List A) → P a → All P xs → All P (insert a xs)
    unfolding insert
    All-insert a [] p h = (p, tt)
    All-insert a (x ∷ xs) p h = elim (Bool-cases (x == a)) [
      | inl hit ↦ rw hit h
      | inr miss ↦ rw miss (h.0, All-insert a xs p h.1)
    ]

    pub All-remove : (a : A) (xs : List A) → All P xs → All P (remove a xs)
    unfolding remove
    All-remove a [] h = tt
    All-remove a (x ∷ xs) h = elim (Bool-cases (x == a)) [
      | inl hit ↦ rw hit (All-remove a xs h.1)
      | inr miss ↦ rw miss (h.0, All-remove a xs h.1)
    ]

    -- What is left is another element.
    pub All-remove_ne :
        (a : A) (xs : List A) → All P xs → All (λ x. P x × (a == x ≡ false)) (remove a xs)
    unfolding remove
    All-remove_ne a [] h = tt
    All-remove_ne a (x ∷ xs) h = elim (Bool-cases (x == a)) [
      | inl hit ↦ rw hit (All-remove_ne a xs h.1)
      | inr miss ↦ rw miss ((h.0, ground (arith, e.eq_sym a x)), All-remove_ne a xs h.1)
    ]

module _ {ℓ} {A : Type ℓ} ⦃e : Eq A⦄ where
  abbrev pub HasNoRepeats : List A → Type 0
  HasNoRepeats [] = Unit
  HasNoRepeats (x ∷ xs) = (contains x xs ≡ false) × HasNoRepeats xs

  pub contains-append :
      (a : A) (xs ys : List A)
      → contains a (xs ++ ys) ≡ (if contains a xs then true else contains a ys)
  unfolding contains
  contains-append a [] ys = refl
  contains-append a (x ∷ xs) ys = ground (arith, contains-append a xs ys)

  pub HasNoRepeats-append :
      (xs ys : List A)
      → HasNoRepeats xs
      → HasNoRepeats ys
      → ((a : A) → contains a xs ≡ true → contains a ys ≡ false)
      → HasNoRepeats (xs ++ ys)
  unfolding contains
  HasNoRepeats-append [] ys hx hy d = hy
  HasNoRepeats-append (x ∷ xs) ys hx hy d = (
    ground (arith, contains-append x xs ys, hx.0, d x, e.eq_self x),
    HasNoRepeats-append xs ys hx.1 hy (λ a h. d a (ground (arith, h))),
  )

  -- What each element in the set has.
  pub All-contains {κ} :
      (P : A → Type κ) (xs : List A) → ((a : A) → contains a xs ≡ true → P a) → All P xs
  unfolding contains
  All-contains P [] h = tt
  All-contains P (x ∷ xs) h =
      (h x (ground (arith, e.eq_self x)), All-contains P xs (λ a k. h a (ground (arith, k))))

  pub All-contains_ne : (a : A) (xs : List A) → contains a xs ≡ false → All (λ x. a == x ≡ false) xs
  unfolding contains
  All-contains_ne a [] h = tt
  All-contains_ne a (x ∷ xs) h = (ground (arith, e.eq_sym a x), All-contains_ne a xs (ground arith))
