-- ===== src/Config/Entries/Refines.antt =====
-- The methods on an array of tables refine the edits of a list of values.
use coolerocontrol.Base.{
  ℕ, String, Option, none, some, List, [], ◌∷◌, ◌++◌, string_eq, nat_eq, ◌==◌, ◌≡◌, ◌≢◌, refl, inl,
  inr, Bool-cases, Option-cases, ◌⊎◌, length,
}
use coolerocontrol.Base.Outcome.{Outcome, ok, ◌>>=◌, with_context, bind-ok, with_context-ok}
use coolerocontrol.Config.Entries.Scan.{
  Reads, SomeReads, Reads-traverse, traverse-Reads, Reads-append, length-Reads, Named,
  already_exists_lem, update_found_lem, position_lem, without, order_lem,
}
use coolerocontrol.Config.Entries.{
  Family, get_entries, or_insert, tables_of, store, remove_at, set_entry, update_entry,
  delete_entry, set_order,
}
use coolerocontrol.Config.Fields.{traverse}
use coolerocontrol.Config.Store.{Edit, exists, replace, remove, commit, edited}
use coolerocontrol.Config.Toml.{Toml, IsToml}

-- The method gives the result of the edit, and the document after it holds the values after it.
abbrev pub Refines :
    {F : Type 0} (toml : Toml F) (fam : Family) {A : Type 0}
    → (toml.Table → Outcome A)
    → Outcome (Unit {0}) × toml.Table
    → Outcome (Unit {0}) × List A
    → Type 0
Refines toml fam read r s = (r.0 ≡ s.0) × (get_entries toml fam read r.1 ≡ ok s.1)

module _ {F : Type 0} (toml : Toml F) (laws : IsToml toml) (fam : Family) {A : Type 0}
    (read : toml.Table → Outcome A) where
  -- The document holds an array of tables that read as the values.
  abbrev pub Holds : toml.Table → List A → Type 0
  Holds doc xs =
      (item : toml.Item) × (ts : List toml.Table) × (toml.get doc fam.name ≡ some item)
      × (toml.as_array_of_tables item ≡ some ts)
      × Reads read ts xs

  pub Holds-insert :
      (doc : toml.Table) (ts : List toml.Table) (xs : List A)
      → Reads read ts xs
      → Holds (toml.insert doc fam.name (toml.array_of_tables ts)) xs
  Holds-insert doc ts xs h = (
    toml.array_of_tables ts,
    ts,
    rw (laws.get-insert, string_eq.eq_self fam.name, laws.is_none-array_of_tables) refl,
    laws.as_array_of_tables-array_of_tables ts,
    h,
  )

  pub get_entries_of_Holds :
      (doc : toml.Table) (xs : List A) → Holds doc xs → get_entries toml fam read doc ≡ ok xs
  unfolding get_entries
  get_entries_of_Holds doc xs (item, ts, g, s, h) =
      rw (g, s, get_entries) (traverse-Reads read ts xs h)

  pub get_entries-Holds :
      (doc : toml.Table) (xs : List A)
      → get_entries toml fam read doc ≡ ok xs
      → (Holds doc xs) ⊎ ((toml.get doc fam.name ≡ none) × (xs ≡ []))
  unfolding get_entries
  get_entries-Holds doc xs h = elim (Option-cases (toml.get doc fam.name)) [
    | inl absent ↦ inr (
      absent,
      let e : ◌≡◌ {A = Outcome (List A)} (ok []) (ok xs) = rw (absent, get_entries) at h in cc,
    )
    | inr (item, present) ↦
        let (ts, s, k) =
          bind-ok (with_context fam.not_tables (toml.as_array_of_tables item))
            (λ ts. traverse read ts) xs (rw (present, get_entries) at h) in
        inl (item, ts, present, with_context-ok _ _ ts s, Reads-traverse read ts xs k)
  ]

  pub or_insert-Holds :
      (doc : toml.Table) (xs : List A)
      → get_entries toml fam read doc ≡ ok xs
      → Holds (or_insert toml fam doc) xs
  unfolding or_insert
  or_insert-Holds doc xs h = elim (get_entries-Holds doc xs h) [
    | inl (item, ts, g, s, k) ↦ rw (g, or_insert) (item, ts, g, s, k)
    | inr (absent, e) ↦ rw (absent, e, or_insert) (Holds-insert doc [] [] tt)
  ]

  tables_of_lem :
      (doc : toml.Table) (xs : List A)
      → Holds doc xs
      → (ts : List toml.Table) × (tables_of toml fam doc ≡ ok ts) × Reads read ts xs
  unfolding tables_of
  tables_of_lem doc xs (item, ts, g, s, h) = (ts, rw (g, s) refl, h)

  -- What may be absent is stored, or refused with the message.
  pub stored :
      (doc : toml.Table) (xs : List A) (uid_of : A → String)
      → Holds doc xs
      → (msg : String) (r : Option (List toml.Table)) (q : Option (List A)) → SomeReads read r q
      → Refines toml fam read
          (store toml fam doc (with_context msg r))
          (commit fam uid_of xs (with_context msg q))
  stored doc xs uid_of holds msg none none s = (refl, get_entries_of_Holds doc xs holds)
  stored doc xs uid_of holds msg none (some ys) s = elim s [ ]
  stored doc xs uid_of holds msg (some ts) none s = elim s [ ]
  stored doc xs uid_of holds msg (some ts) (some ys) s =
      (refl, get_entries_of_Holds _ ys (Holds-insert doc ts ys s))

  module _ (uid_of : A → String)
      (read_named : (t : toml.Table) (a : A) → read t ≡ ok a → Named toml fam t (uid_of a)) where
    pub set_entry-Refines :
        (doc : toml.Table) (xs : List A) (a : A) (new : Outcome toml.Table) (t : toml.Table)
        → get_entries toml fam read doc ≡ ok xs
        → new ≡ ok t
        → read t ≡ ok a
        → Refines toml fam read
            (set_entry toml fam (uid_of a) new doc)
            (edited fam uid_of (Edit.set a) xs)
    unfolding set_entry edited
    set_entry-Refines doc xs a new t h n r =
        let holds = or_insert-Holds doc xs h in
        let (ts, e, k) = tables_of_lem (or_insert toml fam doc) xs holds in
        let found = already_exists_lem toml fam read uid_of read_named (uid_of a) ts xs k in
        elim (Bool-cases (exists fam uid_of (uid_of a) xs)) [
          | inl hit ↦ (
            rw (e, found, hit) refl,
            rw (e, found, hit) (get_entries_of_Holds (or_insert toml fam doc) xs holds),
          )
          | inr miss ↦ (
            rw (e, found, miss, n) refl,
            rw (e, found, miss, n)
                (get_entries_of_Holds _ _ (
                  Holds-insert (or_insert toml fam doc) (ts ++ t ∷ []) (xs ++ a ∷ [])
                    (Reads-append read ts xs t a k r))),
          )
        ]

    pub update_entry-Refines :
        (doc : toml.Table) (xs : List A) (a : A) (add : toml.Table → Outcome toml.Table)
        → get_entries toml fam read doc ≡ ok xs
        → ((t : toml.Table) (old : A)
            → read t ≡ ok old
            → (t' : toml.Table) × (add t ≡ ok t') × (read t' ≡ ok a))
        → Refines toml fam read
            (update_entry toml fam (uid_of a) add doc)
            (edited fam uid_of (Edit.update a) xs)
    unfolding update_entry edited
    update_entry-Refines doc xs a add h adds =
        let holds = or_insert-Holds doc xs h in
        let (ts, e, k) = tables_of_lem (or_insert toml fam doc) xs holds in
        let (r, u, s) =
          update_found_lem toml fam read uid_of read_named (uid_of a) a add adds ts xs k in
        rw (e, u)
          (stored (or_insert toml fam doc) xs uid_of holds fam.update_missing r
            (replace fam uid_of (uid_of a) a xs) s)

    without_lem :
        (fam' : Family) (ts : List toml.Table) (r : Option ℕ)
        → (with_context fam'.delete_missing r >>= λ n. ok (remove_at n ts))
          ≡ with_context fam'.delete_missing (without r ts)
    without_lem fam' ts none = refl
    without_lem fam' ts (some n) = refl

    pub delete_entry-Refines :
        (doc : toml.Table) (xs : List A) (uid : String)
        → get_entries toml fam read doc ≡ ok xs
        → Refines toml fam read
            (delete_entry toml fam uid doc)
            (edited fam uid_of (Edit.delete uid) xs)
    unfolding delete_entry edited
    delete_entry-Refines doc xs uid h =
        let holds = or_insert-Holds doc xs h in
        let (ts, e, k) = tables_of_lem (or_insert toml fam doc) xs holds in
        let (r, u, s) = position_lem toml fam read uid_of read_named uid ts xs k in
        rw (e, u)
          (rw (without_lem fam ts r) (
            stored (or_insert toml fam doc) xs uid_of holds fam.delete_missing (without r ts)
              (remove fam uid_of uid xs) s))

    pub set_order-Refines :
        (doc : toml.Table) (xs : List A) (uids : List String)
        → get_entries toml fam read doc ≡ ok xs
        → xs ≢ []
        → Refines toml fam read
            (set_order toml fam uids doc)
            (edited fam uid_of (Edit.order uids) xs)
    unfolding set_order edited
    set_order-Refines doc xs uids h ne = elim (get_entries-Holds doc xs h) [
      | inr (absent, e) ↦ absurd (ne e)
      | inl (item, ts, g, s, k) ↦
          let same : length ts ≡ length xs = length-Reads read ts xs k in
          let kept = get_entries_of_Holds doc xs (item, ts, g, s, k) in
          elim (Bool-cases (length uids == length xs)) [
            | inr differ ↦ (rw (g, s, same, differ) refl, rw (g, s, same, differ) kept)
            | inl equal ↦ elim (order_lem toml fam read uid_of read_named ts xs k uids) [
              | inr (e', k') ↦
                  (rw (g, s, same, equal, e', k') refl, rw (g, s, same, equal, e', k') kept)
              | inl (ts', xs', e', k', r') ↦ (
                rw (g, s, same, equal, e', k') refl,
                rw (g, s, same, equal, e', k')
                    (get_entries_of_Holds _ xs' (Holds-insert doc ts' xs' r')),
              )
            ]
          ]
    ]
