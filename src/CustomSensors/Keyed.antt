-- ===== src/CustomSensors/Keyed.antt =====
-- Lists of values with a name each: the names when one is added, removed or replaced.
use coolerocontrol.Base.{
  ◌≡◌, refl, sym, subst, string_eq_iff, ap, ◌∙◌, String, true, false, not, some, List, [], ◌∷◌,
  ◌++◌, map, if◌then◌else◌, string_eq, ◌==◌, arith, inl, inr, Bool-cases, Option-cases, filterb,
  find_by, All,
}
use coolerocontrol.Base.Set
use coolerocontrol.Base.Outcome.{ok}
use coolerocontrol.Config.Entries.{Family}
use coolerocontrol.Config.Fields.{traverse}
use coolerocontrol.Config.Store.{exists, replace, remove, find}

module _ {A : Type 0} (key : A → String) where
  abbrev pub keys : List A → List String
  keys xs = map key xs

  abbrev pub others : String → List A → List A
  others k xs = filterb (λ x. not (key x == k)) xs

  pub contains-snoc_key :
      (k : String) (x : A) (xs : List A)
      → Set.contains k (keys (xs ++ x ∷ []))
        ≡ (if key x == k then true else Set.contains k (keys xs))
  unfolding Set.contains
  contains-snoc_key k x [] = refl
  contains-snoc_key k x (y ∷ ys) = ground (arith, contains-snoc_key k x ys)

  pub contains-others :
      (k j : String) (xs : List A)
      → Set.contains j (keys (others k xs)) ≡ (if k == j then false else Set.contains j (keys xs))
  unfolding Set.contains
  contains-others k j [] = ground arith
  contains-others k j (x ∷ xs) = elim (Bool-cases (key x == k)) [
    | inl hit ↦
        rw (hit, filterb, map, Set.contains)
          (ground (
            arith,
            contains-others k j xs,
            hit,
            string_eq.eq_sym (key x) k,
            string_eq.eq_trans k (key x) j,
            string_eq.eq_trans (key x) k j,
          ))
    | inr miss ↦
        rw (miss, filterb, map, Set.contains)
          (ground (
            arith,
            contains-others k j xs,
            miss,
            string_eq.eq_sym k j,
            string_eq.eq_trans (key x) j k,
          ))
  ]

  pub HasNoRepeats-others :
      (k : String) (xs : List A)
      → Set.HasNoRepeats (keys xs)
      → Set.HasNoRepeats (keys (others k xs))
  HasNoRepeats-others k [] h = tt
  HasNoRepeats-others k (x ∷ xs) h = elim (Bool-cases (key x == k)) [
    | inl hit ↦ rw (hit, filterb, map, Set.HasNoRepeats) (HasNoRepeats-others k xs h.1)
    | inr miss ↦
        rw (miss, filterb, map, Set.HasNoRepeats)
          (ground (arith, h.0, contains-others k (key x) xs), HasNoRepeats-others k xs h.1)
  ]

  pub HasNoRepeats-snoc :
      (x : A) (xs : List A)
      → Set.contains (key x) (keys xs) ≡ false
      → Set.HasNoRepeats (keys xs)
      → Set.HasNoRepeats (keys (xs ++ x ∷ []))
  unfolding Set.contains
  HasNoRepeats-snoc x [] a h = (refl, tt)
  HasNoRepeats-snoc x (y ∷ ys) a h = (
    ground (arith, h.0, contains-snoc_key (key y) x ys, string_eq.eq_sym (key x) (key y)),
    HasNoRepeats-snoc x ys (ground arith) h.1,
  )

  -- Where no key stands twice, nothing else is left out.
  others_absent : (k : String) (xs : List A) → Set.contains k (keys xs) ≡ false → others k xs ≡ xs
  unfolding Set.contains
  others_absent k [] a = refl
  others_absent k (x ∷ xs) a = elim (Bool-cases (key x == k)) [
    | inl hit ↦ ground (arith, a, hit)
    | inr miss ↦ rw (miss, filterb) (ap (λ ys. x ∷ ys) (others_absent k xs (ground arith)))
  ]

  module _ (fam : Family) where
    pub exists-contains :
        (k : String) (xs : List A) → exists fam key k xs ≡ Set.contains k (keys xs)
    unfolding Set.contains
    exists-contains k [] = refl
    exists-contains k (x ∷ xs) = ground (arith, exists-contains k xs)

    some_inj : (a b : List A) → some a ≡ some b → a ≡ b
    some_inj a b h = ground arith

    pub remove-others :
        (k : String) (xs ys : List A)
        → Set.HasNoRepeats (keys xs)
        → remove fam key k xs ≡ some ys
        → ys ≡ others k xs
    remove-others k [] ys h e = cc
    remove-others k (x ∷ xs) ys h e = elim (Bool-cases (key x == k)) [
      | inl hit ↦
          let same : key x ≡ k = string_eq_iff (key x) k hit in
          let absent : Set.contains k (keys xs) ≡ false =
            subst (λ j. Set.contains j (keys xs) ≡ false) same h.0 in
          let this : some xs ≡ some ys = ground (arith, hit, e) in
          rw (hit, filterb) (sym (some_inj xs ys this) ∙ sym (others_absent k xs absent))
      | inr miss ↦ elim (Option-cases (remove fam key k xs)) [
        | inl none_left ↦ ground (arith, e, miss, none_left)
        | inr (zs, left) ↦
            let this : some (x ∷ zs) ≡ some ys = ground (arith, miss, left, e) in
            rw (miss, filterb)
              (sym (some_inj (x ∷ zs) ys this) ∙ ap (λ l. x ∷ l) (remove-others k xs zs h.1 left))
      ]
    ]

    pub keys-replace :
        (a : A) (xs ys : List A) → replace fam key (key a) a xs ≡ some ys → keys ys ≡ keys xs
    keys-replace a [] ys e = cc
    keys-replace a (x ∷ xs) ys e = elim (Bool-cases (key x == key a)) [
      | inl hit ↦
          let same : key x ≡ key a = string_eq_iff (key x) (key a) hit in
          let this : some (a ∷ xs) ≡ some ys = ground (arith, hit, e) in
          ap keys (sym (some_inj (a ∷ xs) ys this)) ∙ ap (λ j. j ∷ keys xs) (sym same)
      | inr miss ↦ elim (Option-cases (replace fam key (key a) a xs)) [
        | inl none_left ↦ ground (arith, e, miss, none_left)
        | inr (zs, left) ↦
            let this : some (x ∷ zs) ≡ some ys = ground (arith, miss, left, e) in
            ap keys (sym (some_inj (x ∷ zs) ys this))
            ∙ ap (λ js. key x ∷ js) (keys-replace a xs zs left)
      ]
    ]

    -- Each of the values is the one with its key.
    pub traverse_found :
        (xs ys : List A)
        → All (λ y. find_by (λ x. key x == key y) xs ≡ some y) ys
        → traverse (find fam key xs) (keys ys) ≡ ok ys
    traverse_found xs [] h = refl
    traverse_found xs (y ∷ ys) h = rw (h.0, traverse_found xs ys h.1) refl
