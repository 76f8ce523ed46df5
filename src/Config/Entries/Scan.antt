-- ===== src/Config/Entries/Scan.antt =====
-- The scans over an array of tables, as scans over the values that the tables hold.
use coolerocontrol.Base.{
  ℕ, suc, String, Option, none, some, List, [], ◌∷◌, ◌++◌, string_eq, ◌==◌, ◌≡◌, refl, subst, inl,
  inr, Bool-cases, ◌⊎◌, arith, length, find_by,
}
use coolerocontrol.Base.Outcome.{Outcome, ok, err, bind-ok}
use coolerocontrol.Config.Entries.{
  Family, has_uid, is_named, already_exists, update_found, position, find_in_array, remove_at,
}
use coolerocontrol.Config.Fields.{traverse}
use coolerocontrol.Config.Store.{exists, replace, remove, find}
use coolerocontrol.Config.Toml.{Toml}

-- Each element of one list is read as that of the other.
abbrev pub Reads {ℓ} : {A : Type ℓ} {B : Type 0} → (A → Outcome B) → List A → List B → Type 0
Reads f [] [] = Unit
Reads f [] (y ∷ ys) = ⊥
Reads f (x ∷ xs) [] = ⊥
Reads f (x ∷ xs) (y ∷ ys) = (f x ≡ ok y) × Reads f xs ys

module _ {ℓ} {A : Type ℓ} {B : Type 0} (f : A → Outcome B) where
  pub Reads-traverse : (xs : List A) (ys : List B) → traverse f xs ≡ ok ys → Reads f xs ys
  Reads-traverse [] [] h = tt
  Reads-traverse [] (y ∷ ys) h = cc
  Reads-traverse (x ∷ xs) ys h =
      let (z, e, k) = bind-ok (f x) _ ys h in
      let (zs, e', k') = bind-ok (traverse f xs) _ ys k in
      let s : z ∷ zs ≡ ys = cc in subst (λ v. Reads f (x ∷ xs) v) s (e, Reads-traverse xs zs e')

  pub traverse-Reads : (xs : List A) (ys : List B) → Reads f xs ys → traverse f xs ≡ ok ys
  traverse-Reads [] [] h = refl
  traverse-Reads [] (y ∷ ys) h = elim h [ ]
  traverse-Reads (x ∷ xs) [] h = elim h [ ]
  traverse-Reads (x ∷ xs) (y ∷ ys) h = rw (h.0, traverse-Reads xs ys h.1) refl

  pub Reads-append :
      (xs : List A) (bs : List B) (y : A) (c : B)
      → Reads f xs bs
      → f y ≡ ok c
      → Reads f (xs ++ y ∷ []) (bs ++ c ∷ [])
  Reads-append [] [] y c h k = (k, tt)
  Reads-append [] (b ∷ bs) y c h k = elim h [ ]
  Reads-append (x ∷ xs) [] y c h k = elim h [ ]
  Reads-append (x ∷ xs) (b ∷ bs) y c h k = (h.0, Reads-append xs bs y c h.1 k)

  pub length-Reads : (xs : List A) (ys : List B) → Reads f xs ys → length xs ≡ length ys
  length-Reads [] [] h = refl
  length-Reads [] (y ∷ ys) h = elim h [ ]
  length-Reads (x ∷ xs) [] h = elim h [ ]
  length-Reads (x ∷ xs) (y ∷ ys) h = omega (arith, length-Reads xs ys h.1)

-- The same for results that may be absent.
abbrev pub SomeReads {ℓ} :
    {A : Type ℓ} {B : Type 0} → (A → Outcome B) → Option (List A) → Option (List B) → Type 0
SomeReads f none none = Unit
SomeReads f none (some ys) = ⊥
SomeReads f (some xs) none = ⊥
SomeReads f (some xs) (some ys) = Reads f xs ys

pub SomeReads-cons {ℓ} :
    {A : Type ℓ} {B : Type 0} (f : A → Outcome B) (x : A) (y : B) (r : Option (List A))
    (q : Option (List B))
    → f x ≡ ok y
    → SomeReads f r q
    → SomeReads f
        (elim r [ none ↦ none | some xs ↦ some (x ∷ xs) ])
        (elim q [ none ↦ none | some ys ↦ some (y ∷ ys) ])
SomeReads-cons f x y none none h k = tt
SomeReads-cons f x y none (some ys) h k = elim k [ ]
SomeReads-cons f x y (some xs) none h k = elim k [ ]
SomeReads-cons f x y (some xs) (some ys) h k = (h, k)

-- The list without the position that was found.
abbrev pub without {ℓ} : {A : Type ℓ} → Option ℕ → List A → Option (List A)
without none xs = none
without (some n) xs = some (remove_at n xs)

abbrev pub next_position : Option ℕ → Option ℕ
next_position none = none
next_position (some n) = some (suc n)

pub without-next {ℓ} :
    {A : Type ℓ} {B : Type 0} (f : A → Outcome B) (x : A) (y : B) (xs : List A) (r : Option ℕ)
    (q : Option (List B))
    → f x ≡ ok y
    → SomeReads f (without r xs) q
    → SomeReads f
        (without (next_position r) (x ∷ xs))
        (elim q [ none ↦ none | some ys ↦ some (y ∷ ys) ])
without-next f x y xs none none h k = tt
without-next f x y xs none (some ys) h k = elim k [ ]
without-next f x y xs (some n) none h k = elim k [ ]
without-next f x y xs (some n) (some ys) h k = (h, k)

module _ {F : Type 0} (toml : Toml F) (fam : Family) where
  -- A table whose UID is a string.
  abbrev pub Named : toml.Table → String → Type 0
  Named table uid =
      (item : toml.Item) × (toml.get table fam.key ≡ some item) × (toml.as_str item ≡ some uid)

  pub has_uid_lem :
      (uid u : String) (t : toml.Table) → Named t u → has_uid toml fam uid t ≡ ok (u == uid)
  unfolding has_uid
  has_uid_lem uid u t (item, g, s) = rw (g, s) refl

  pub is_named_lem :
      (uid u : String) (t : toml.Table) → Named t u → is_named toml fam uid t ≡ ok (u == uid)
  unfolding is_named
  is_named_lem uid u t (item, g, s) = rw (g, s) refl

  module _ {A : Type 0} (read : toml.Table → Outcome A) (uid_of : A → String)
      (read_named : (t : toml.Table) (a : A) → read t ≡ ok a → Named t (uid_of a)) where
    pub already_exists_lem :
        (uid : String) (ts : List toml.Table) (xs : List A)
        → Reads read ts xs
        → already_exists toml fam uid ts ≡ ok (exists fam uid_of uid xs)
    unfolding already_exists
    already_exists_lem uid [] [] h = refl
    already_exists_lem uid [] (x ∷ xs) h = elim h [ ]
    already_exists_lem uid (t ∷ ts) [] h = elim h [ ]
    already_exists_lem uid (t ∷ ts) (x ∷ xs) h = elim (Bool-cases (uid_of x == uid)) [
      | inl hit ↦ rw (has_uid_lem uid (uid_of x) t (read_named t x h.0), hit) refl
      | inr miss ↦
          rw (has_uid_lem uid (uid_of x) t (read_named t x h.0), miss)
            (already_exists_lem uid ts xs h.1)
    ]

    pub update_found_lem :
        (uid : String) (a : A) (add : toml.Table → Outcome toml.Table)
        → ((t : toml.Table) (old : A)
            → read t ≡ ok old
            → (t' : toml.Table) × (add t ≡ ok t') × (read t' ≡ ok a))
        → (ts : List toml.Table) (xs : List A) → Reads read ts xs
        → (r : Option (List toml.Table)) × (update_found toml fam uid add ts ≡ ok r)
          × SomeReads read r (replace fam uid_of uid a xs)
    unfolding update_found
    update_found_lem uid a add adds [] [] h = (none, refl, tt)
    update_found_lem uid a add adds [] (x ∷ xs) h = elim h [ ]
    update_found_lem uid a add adds (t ∷ ts) [] h = elim h [ ]
    update_found_lem uid a add adds (t ∷ ts) (x ∷ xs) h = elim (Bool-cases (uid_of x == uid)) [
      | inl hit ↦
          let (t', e, k) = adds t x h.0 in
          (
            some (t' ∷ ts),
            rw (has_uid_lem uid (uid_of x) t (read_named t x h.0), hit, e) refl,
            rw hit (k, h.1),
          )
      | inr miss ↦
          let (r, e, k) = update_found_lem uid a add adds ts xs h.1 in
          (
            elim r [ none ↦ none | some ts' ↦ some (t ∷ ts') ],
            rw (has_uid_lem uid (uid_of x) t (read_named t x h.0), miss, e) refl,
            rw miss (SomeReads-cons read t x r (replace fam uid_of uid a xs) h.0 k),
          )
    ]

    pub position_lem :
        (uid : String) (ts : List toml.Table) (xs : List A)
        → Reads read ts xs
        → (r : Option ℕ) × (position toml fam uid ts ≡ ok r)
          × SomeReads read (without r ts) (remove fam uid_of uid xs)
    unfolding position
    position_lem uid [] [] h = (none, refl, tt)
    position_lem uid [] (x ∷ xs) h = elim h [ ]
    position_lem uid (t ∷ ts) [] h = elim h [ ]
    position_lem uid (t ∷ ts) (x ∷ xs) h = elim (Bool-cases (uid_of x == uid)) [
      | inl hit ↦
          (some 0, rw (has_uid_lem uid (uid_of x) t (read_named t x h.0), hit) refl, rw hit h.1)
      | inr miss ↦
          let (r, e, k) = position_lem uid ts xs h.1 in
          (
            next_position r,
            rw (has_uid_lem uid (uid_of x) t (read_named t x h.0), miss, e) refl,
            rw miss (without-next read t x ts r (remove fam uid_of uid xs) h.0 k),
          )
    ]

    pub find_in_array_lem :
        (uid : String) (ts : List toml.Table) (xs : List A)
        → Reads read ts xs
        → ((t : toml.Table) × (a : A) × (find_in_array toml fam uid ts ≡ ok t)
            × (find fam uid_of xs uid ≡ ok a)
            × (read t ≡ ok a))
          ⊎ ((find_in_array toml fam uid ts ≡ err fam.not_found)
              × (find fam uid_of xs uid ≡ err fam.not_found))
    unfolding find_in_array
    find_in_array_lem uid [] [] h = inr (refl, refl)
    find_in_array_lem uid [] (x ∷ xs) h = elim h [ ]
    find_in_array_lem uid (t ∷ ts) [] h = elim h [ ]
    find_in_array_lem uid (t ∷ ts) (x ∷ xs) h = elim (Bool-cases (uid_of x == uid)) [
      | inl hit ↦ inl (
        t,
        x,
        rw (is_named_lem uid (uid_of x) t (read_named t x h.0), hit) refl,
        rw (hit, find_by) refl,
        h.0,
      )
      | inr miss ↦
          let named = is_named_lem uid (uid_of x) t (read_named t x h.0) in
          elim (find_in_array_lem uid ts xs h.1) [
            | inl (t', a, e, k, r) ↦ inl (t', a, rw (named, miss) e, rw (miss, find_by) k, r)
            | inr (e, k) ↦ inr (rw (named, miss) e, rw (miss, find_by) k)
          ]
    ]

    -- What is found for each UID, in order.
    pub order_lem :
        (ts : List toml.Table) (xs : List A)
        → Reads read ts xs
        → (uids : List String)
        → ((ts' : List toml.Table) × (xs' : List A) × (traverse
                (λ u. find_in_array toml fam u ts)
                uids
              ≡ ok ts')
            × (traverse (find fam uid_of xs) uids ≡ ok xs')
            × Reads read ts' xs')
          ⊎ ((traverse (λ u. find_in_array toml fam u ts) uids ≡ err fam.not_found)
              × (traverse (find fam uid_of xs) uids ≡ err fam.not_found))
    order_lem ts xs h [] = inl ([], [], refl, refl, tt)
    order_lem ts xs h (uid ∷ uids) = elim (find_in_array_lem uid ts xs h) [
      | inr (e, k) ↦ inr (rw e refl, rw k refl)
      | inl (t, a, e, k, r) ↦ elim (order_lem ts xs h uids) [
        | inr (e', k') ↦ inr (rw (e, e') refl, rw (k, k') refl)
        | inl (ts', xs', e', k', r') ↦
            inl (t ∷ ts', a ∷ xs', rw (e, e') refl, rw (k, k') refl, (r, r'))
      ]
    ]
