-- ===== src/Base/Dict.antt =====
-- `HashMap` as an association list. The order in which a `HashMap` is walked is not specified: it is
-- the list's, and theorems hold for every list.
use mathlib.Core.Path.{◌≡◌, refl, subst}
use mathlib.Core.Logic.{inl, inr}
use mathlib.Core.Bool.{Bool, true, false}
use mathlib.Core.List.{List, [], ◌∷◌}
use mathlib.Core.Option.{Option, none, some}
use native.Mathlib.Omega.{arith}
use coolerocontrol.Base.Tests.{if◌then◌else◌, Bool-cases}
use coolerocontrol.Base.Lists.{All, All-imp}
use coolerocontrol.Base.Equality.{Eq, ◌==◌, string_eq, string_eq_iff}
use Prim.Native.String.{String}

abbrev pub Dict {ℓ κ} : Type ℓ → Type κ → Type (ℓ ⊔ κ)
Dict K V = List (K × V)

module _ {ℓ κ} {K : Type ℓ} {V : Type κ} ⦃e : Eq K⦄ where
  unfoldable pub get : K → Dict K V → Option V
  get k [] = none
  get k ((j, v) ∷ m) = if j == k then some v else get k m

  unfoldable pub contains_key : K → Dict K V → Bool
  contains_key k [] = false
  contains_key k ((j, v) ∷ m) = if j == k then true else contains_key k m

  -- A new value replaces the old one and leaves the old key.
  unfoldable pub insert : K → V → Dict K V → Dict K V
  insert k v [] = (k, v) ∷ []
  insert k v ((j, w) ∷ m) = if j == k then (j, v) ∷ m else (j, w) ∷ insert k v m

  unfoldable pub remove : K → Dict K V → Dict K V
  remove k [] = []
  remove k ((j, v) ∷ m) = let rest = remove k m in if j == k then rest else (j, v) ∷ rest

  pub get-insert :
      (k j : K) (v : V) (m : Dict K V) → get j (insert k v m) ≡ (if k == j then some v else get j m)
  unfolding get insert
  get-insert k j v [] = refl
  get-insert k j v ((i, w) ∷ m) = ground (
    arith,
    get-insert k j v m,
    e.eq_trans i k j,
    e.eq_trans k i j,
    e.eq_trans i j k,
    e.eq_sym i k,
    e.eq_sym k j,
  )

  pub get-remove :
      (k j : K) (m : Dict K V) → get j (remove k m) ≡ (if k == j then none else get j m)
  unfolding get remove
  get-remove k j [] = ground arith
  get-remove k j ((i, w) ∷ m) = ground (
    arith,
    get-remove k j m,
    e.eq_trans i k j,
    e.eq_trans i j k,
    e.eq_trans k i j,
    e.eq_sym i k,
    e.eq_sym k j,
  )

  pub contains_key-insert :
      (k j : K) (v : V) (m : Dict K V)
      → contains_key j (insert k v m) ≡ (if k == j then true else contains_key j m)
  unfolding contains_key insert
  contains_key-insert k j v [] = refl
  contains_key-insert k j v ((i, w) ∷ m) =
      ground (arith, contains_key-insert k j v m, e.eq_trans i k j, e.eq_trans k i j, e.eq_sym i k)

  pub contains_key-insert_self :
      (k : K) (v : V) (m : Dict K V) → contains_key k (insert k v m) ≡ true
  contains_key-insert_self k v m = ground (arith, contains_key-insert k k v m, e.eq_self k)

  pub contains_key-remove :
      (k j : K) (m : Dict K V)
      → contains_key j (remove k m) ≡ (if k == j then false else contains_key j m)
  unfolding contains_key remove
  contains_key-remove k j [] = ground arith
  contains_key-remove k j ((i, w) ∷ m) = ground (
    arith,
    contains_key-remove k j m,
    e.eq_trans i k j,
    e.eq_trans i j k,
    e.eq_trans k i j,
    e.eq_sym i k,
    e.eq_sym k j,
  )

  -- No key stands twice.
  abbrev pub IsDistinct : Dict K V → Type 0
  IsDistinct [] = Unit
  IsDistinct ((k, v) ∷ m) = (contains_key k m ≡ false) × IsDistinct m

  -- What a key that is present reads.
  pub get_of_contains_key :
      (k : K) (m : Dict K V) → contains_key k m ≡ true → (v : V) × (get k m ≡ some v)
  unfolding contains_key get
  get_of_contains_key k [] h = cc
  get_of_contains_key k ((j, v) ∷ m) h = elim (Bool-cases (j == k)) [
    | inl hit ↦ (v, rw hit)
    | inr miss ↦ rw miss (get_of_contains_key k m (ground arith))
  ]

  pub get_absent : (k : K) (m : Dict K V) → contains_key k m ≡ false → get k m ≡ none
  unfolding contains_key get
  get_absent k [] h = refl
  get_absent k ((j, v) ∷ m) h = ground (arith, get_absent k m)

  pub contains_key_of_get :
      (k : K) (m : Dict K V) (v : V) → get k m ≡ some v → contains_key k m ≡ true
  unfolding contains_key get
  contains_key_of_get k [] v h = cc
  contains_key_of_get k ((j, w) ∷ m) v h = ground (arith, contains_key_of_get k m v)

  pub contains_key-congr :
      (k j : K) (m : Dict K V) → k == j ≡ true → contains_key k m ≡ contains_key j m
  unfolding contains_key
  contains_key-congr k j [] h = refl
  contains_key-congr k j ((i, v) ∷ m) h =
      ground (arith, contains_key-congr k j m h, e.eq_trans i k j, e.eq_trans i j k, e.eq_sym k j)

  -- An entry that is replaced leaves the keys as they are.
  pub contains_key-replace :
      (k j : K) (w : V) (m : Dict K V)
      → contains_key k m ≡ true
      → contains_key j (insert k w m) ≡ contains_key j m
  contains_key-replace k j w m h =
      ground (arith, contains_key-insert k j w m, contains_key-congr k j m)

  pub get-insert_self : (k j : K) (v : V) (m : Dict K V) → k ≡ j → get j (insert k v m) ≡ some v
  get-insert_self k j v m p =
      rw (get-insert k j v m, subst (λ x. (k == x) ≡ true) p (e.eq_self k)) refl

-- A predicate on the entries.
module _ {ℓ κ} {K : Type ℓ} {V : Type κ} ⦃e : Eq K⦄ (P : K × V → Type 0) where
  pub All-remove : (k : K) (m : Dict K V) → All P m → All P (remove k m)
  unfolding remove
  All-remove k [] h = tt
  All-remove k ((j, v) ∷ m) h = elim (Bool-cases (j == k)) [
    | inl hit ↦ rw hit (All-remove k m h.1)
    | inr miss ↦ rw miss (h.0, All-remove k m h.1)
  ]

  pub All-insert_absent :
      (k : K) (v : V) (m : Dict K V)
      → contains_key k m ≡ false
      → P (k, v)
      → All P m
      → All P (insert k v m)
  unfolding contains_key insert
  All-insert_absent k v [] a p h = (p, tt)
  All-insert_absent k v ((j, w) ∷ m) a p h = elim (Bool-cases (j == k)) [
    | inl hit ↦ ground arith
    | inr miss ↦ rw miss (h.0, All-insert_absent k v m (ground arith) p h.1)
  ]

  -- The entry that a lookup finds.
  pub All-get :
      (k : K) (v : V) (m : Dict K V)
      → get k m ≡ some v
      → All P m
      → (j : K) × (j == k ≡ true) × P (j, v)
  unfolding get
  All-get k v [] g h = cc
  All-get k v ((j, w) ∷ m) g h = elim (Bool-cases (j == k)) [
    | inl hit ↦ let same : w ≡ v = ground arith in (j, hit, subst (λ x. P (j, x)) same h.0)
    | inr miss ↦ All-get k v m (ground arith) h.1
  ]

  -- What is left has another key.
  pub All-remove_ne :
      (k : K) (m : Dict K V)
      → All P m
      → All (λ entry. P entry × (k == entry.0 ≡ false)) (remove k m)
  unfolding remove
  All-remove_ne k [] h = tt
  All-remove_ne k ((j, v) ∷ m) h = elim (Bool-cases (j == k)) [
    | inl hit ↦ rw hit (All-remove_ne k m h.1)
    | inr miss ↦ rw miss ((h.0, ground (arith, e.eq_sym k j)), All-remove_ne k m h.1)
  ]

module _ {ℓ κ} {K : Type ℓ} {V : Type κ} ⦃e : Eq K⦄ where
  pub IsDistinct-insert : (k : K) (v : V) (m : Dict K V) → IsDistinct m → IsDistinct (insert k v m)
  unfolding insert contains_key
  IsDistinct-insert k v [] h = (refl, tt)
  IsDistinct-insert k v ((j, w) ∷ m) h = elim (Bool-cases (j == k)) [
    | inl hit ↦ rw hit h
    | inr miss ↦ rw miss (
      ground (arith, h.0, contains_key-insert k j v m, e.eq_sym k j),
      IsDistinct-insert k v m h.1,
    )
  ]

  pub IsDistinct-remove : (k : K) (m : Dict K V) → IsDistinct m → IsDistinct (remove k m)
  unfolding remove
  IsDistinct-remove k [] h = tt
  IsDistinct-remove k ((j, w) ∷ m) h = elim (Bool-cases (j == k)) [
    | inl hit ↦ rw hit (IsDistinct-remove k m h.1)
    | inr miss ↦ rw miss (ground (arith, h.0, contains_key-remove k j m), IsDistinct-remove k m h.1)
  ]

-- A predicate on the entries that a replaced one keeps under its old key.
module _ {V : Type 0} (P : String × V → Type 0) where
  pub All-insert_key :
      (k : String) (v : V) (m : Dict String V)
      → ((j : String) → j ≡ k → P (j, v))
      → All P m
      → All P (insert k v m)
  unfolding insert
  All-insert_key k v [] p h = (p k refl, tt)
  All-insert_key k v ((j, w) ∷ m) p h = elim (Bool-cases (j == k)) [
    | inl hit ↦ rw hit (p j (string_eq_iff j k hit), h.1)
    | inr miss ↦ rw miss (h.0, All-insert_key k v m p h.1)
  ]

-- A predicate on the values.
module _ {ℓ κ} {K : Type ℓ} {V : Type κ} ⦃e : Eq K⦄ (P : V → Type 0) where
  pub All-insert :
      (k : K) (v : V) (m : Dict K V)
      → P v
      → All (λ entry. P entry.1) m
      → All (λ entry. P entry.1) (insert k v m)
  unfolding insert
  All-insert k v [] p h = (p, tt)
  All-insert k v ((j, w) ∷ m) p h = elim (Bool-cases (j == k)) [
    | inl hit ↦ rw hit (p, h.1)
    | inr miss ↦ rw miss (h.0, All-insert k v m p h.1)
  ]

-- Each entry is what its key reads, where no key stands twice.
module _ {ℓ κ} {K : Type ℓ} {V : Type κ} ⦃e : Eq K⦄ where
  pub keys_present : (m : Dict K V) → All (λ entry. contains_key entry.0 m ≡ true) m
  unfolding contains_key
  keys_present [] = tt
  keys_present ((k, v) ∷ m) =
      (ground (arith, e.eq_self k), All-imp _ _ (λ entry h. ground (arith, h)) m (keys_present m))

  other_keys :
      (k : K) (m : Dict K V) → contains_key k m ≡ false → All (λ entry. k == entry.0 ≡ false) m
  unfolding contains_key
  other_keys k [] h = tt
  other_keys k ((j, v) ∷ m) h = (ground (arith, e.eq_sym k j), other_keys k m (ground arith))

  pub entries_read : (m : Dict K V) → IsDistinct m → All (λ entry. get entry.0 m ≡ some entry.1) m
  unfolding get
  entries_read [] h = tt
  entries_read ((k, v) ∷ m) h =
      (ground (arith, e.eq_self k), All-zip m (other_keys k m h.0) (entries_read m h.1))
    where
      All-zip :
          (xs : Dict K V)
          → All (λ entry. k == entry.0 ≡ false) xs
          → All (λ entry. get entry.0 m ≡ some entry.1) xs
          → All (λ entry. (if k == entry.0 then some v else get entry.0 m) ≡ some entry.1) xs
      All-zip [] a b = tt
      All-zip (x ∷ xs) a b = (rw a.0 b.0, All-zip xs a.1 b.1)
