-- ===== src/Processing/Mix/Combine.antt =====
-- `apply_mix_function`: what the three ways to combine the duties of members promise.
use native.Mathlib.Nat.{mod-eq_of_lt, div-mul-le_self, lt-div-mul-add, div-lt_iff_lt-mul}
use coolerocontrol.Base.{
  ℕ, ◌+◌, ◌*◌, ◌/◌, ◌≤◌, ◌<◌, ◌≡◌, ◌⊎◌, min, max, refl, ◌∙◌, inl, inr, List, [], ◌∷◌, arith, length,
  is_empty, All, Any, false,
}
use coolerocontrol.Base.Outcome.{Returns}
use coolerocontrol.Setting.{ProfileMixFunctionType}
use coolerocontrol.Processing.Mix.{apply_mix_function, min_from, max_from, sum}

-- The duty is a least or a greatest one of the members, or their average, rounded down.
abbrev pub IsCombined : List ℕ → ProfileMixFunctionType → ℕ → Type 0
IsCombined values ProfileMixFunctionType.min d = All (λ v. d ≤ v) values × Any (λ v. v ≡ d) values
IsCombined values ProfileMixFunctionType.max d = All (λ v. v ≤ d) values × Any (λ v. v ≡ d) values
IsCombined values ProfileMixFunctionType.avg d =
    (d * length values ≤ sum values) × (sum values < d * length values + length values)

min_from-le : (v : ℕ) (ws : List ℕ) → (min_from v ws ≤ v) × All (λ w. min_from v ws ≤ w) ws
min_from-le v [] = (omega arith, tt)
min_from-le v (w ∷ ws) =
    let (first, rest) = min_from-le (min v w) ws in
    (omega (arith, first), (omega (arith, first), rest))

le-max_from : (v : ℕ) (ws : List ℕ) → (v ≤ max_from v ws) × All (λ w. w ≤ max_from v ws) ws
le-max_from v [] = (omega arith, tt)
le-max_from v (w ∷ ws) =
    let (first, rest) = le-max_from (max v w) ws in
    (omega (arith, first), (omega (arith, first), rest))

min-cases : (v w : ℕ) → (v ≡ min v w) ⊎ (w ≡ min v w)
min-cases v w = omega arith

max-cases : (v w : ℕ) → (v ≡ max v w) ⊎ (w ≡ max v w)
max-cases v w = omega arith

-- The value of a fold that picks one of two is a member.
picked :
    (v w p m : ℕ) (ws : List ℕ)
    → (v ≡ p) ⊎ (w ≡ p)
    → Any (λ x. x ≡ m) (p ∷ ws)
    → Any (λ x. x ≡ m) (v ∷ w ∷ ws)
picked v w p m ws (inl a) (inl e) = inl (a ∙ e)
picked v w p m ws (inr b) (inl e) = inr (inl (b ∙ e))
picked v w p m ws c (inr h) = inr (inr h)

min_from-Any : (v : ℕ) (ws : List ℕ) → Any (λ w. w ≡ min_from v ws) (v ∷ ws)
min_from-Any v [] = inl refl
min_from-Any v (w ∷ ws) =
    picked v w (min v w) (min_from (min v w) ws) ws (min-cases v w) (min_from-Any (min v w) ws)

max_from-Any : (v : ℕ) (ws : List ℕ) → Any (λ w. w ≡ max_from v ws) (v ∷ ws)
max_from-Any v [] = inl refl
max_from-Any v (w ∷ ws) =
    picked v w (max v w) (max_from (max v w) ws) ws (max-cases v w) (max_from-Any (max v w) ws)

sum-lt : (v : ℕ) (vs : List ℕ) → All (λ w. w < 256) (v ∷ vs) → sum (v ∷ vs) < 256 * length (v ∷ vs)
sum-lt v [] h = omega (arith, h.0)
sum-lt v (w ∷ ws) h = omega (arith, h.0, sum-lt w ws h.1)

average-lt :
    (v : ℕ) (vs : List ℕ) → All (λ w. w < 256) (v ∷ vs) → sum (v ∷ vs) / length (v ∷ vs) < 256
average-lt v vs h = (div-lt_iff_lt-mul (omega arith)).1 (sum-lt v vs h)

-- The duties of at least one member, each of one byte, combine to what the mix function says: the
-- least, the greatest, or the average rounded down. The average does not wrap.
pub apply_mix_function-IsCombined :
    (values : List ℕ) (mix_function : ProfileMixFunctionType)
    → is_empty values ≡ false
    → All (λ v. v < 256) values
    → Returns (apply_mix_function values mix_function) (IsCombined values mix_function)
unfolding apply_mix_function
apply_mix_function-IsCombined [] mix_function n h = cc
apply_mix_function-IsCombined (v ∷ vs) ProfileMixFunctionType.min n h =
    (min_from-le v vs, min_from-Any v vs)
apply_mix_function-IsCombined (v ∷ vs) ProfileMixFunctionType.max n h =
    (le-max_from v vs, max_from-Any v vs)
apply_mix_function-IsCombined (v ∷ vs) ProfileMixFunctionType.avg n h =
    rw (mod-eq_of_lt (average-lt v vs h))
      (div-mul-le_self (sum (v ∷ vs)) (length (v ∷ vs)), lt-div-mul-add (omega arith))
