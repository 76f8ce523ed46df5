-- ===== src/Config/DeviceSettings/Writes.antt =====
-- Writes below a place of an inline table, and the colors of a setting.
use mathlib.Core.List.{map-id}
use coolerocontrol.Base.{
  ℕ, ◌<◌, String, false, Option, none, some, List, [], ◌∷◌, ◌++◌, All, string_eq, ◌==◌, ◌≡◌, ◌⊎◌,
  inl, inr, refl, ap, ◌∙◌, sym,
}
use coolerocontrol.Base.Outcome.{Outcome, ok}
use coolerocontrol.Config.DeviceSettings.{modify_in, write_all, entry_if, rgb_item, colors_item}
use coolerocontrol.Config.Fields.{get_rgb, get_colors}
use coolerocontrol.Config.Tables.Written.{as_u8_written, traverse-map_all}
use coolerocontrol.Config.Tables.{assign}
use coolerocontrol.Config.Toml.{Toml, IsToml}

-- The components of the colors are bytes.
abbrev pub AreBytes : List (ℕ × ℕ × ℕ) → Type 0
AreBytes colors = All (λ c. (c.0 < 256) × (c.1 < 256) × (c.2 < 256)) colors

module _ {F : Type 0} (toml : Toml F) where
  -- Nothing stands under the key, or the inline table does.
  abbrev pub IsPlace : toml.Table → String → toml.Table → Type 0
  IsPlace t outer s =
      ((toml.get t outer ≡ none) × (s ≡ toml.new)) ⊎ (toml.get t outer ≡ some (toml.inline_table s))

  -- The item of a channel is absent, or the inline table.
  abbrev pub IsChannel : toml.Item → toml.Table → Type 0
  IsChannel c t = ((c ≡ toml.none_item) × (t ≡ toml.new)) ⊎ (c ≡ toml.inline_table t)

  abbrev pub insert_all : toml.Table → List (String × toml.Item) → toml.Table
  insert_all s [] = s
  insert_all s ((key, value) ∷ entries) = insert_all (toml.insert s key value) entries

  abbrev pub insert_if {ℓ} :
      {A : Type ℓ} → toml.Table → String → (A → toml.Item) → Option A → toml.Table
  insert_if s key f none = s
  insert_if s key f (some a) = toml.insert s key (f a)

  pub insert_all-entry_if {ℓ} :
      {A : Type ℓ} (s : toml.Table) (key : String) (f : A → toml.Item) (o : Option A)
      (es : List (String × toml.Item))
      → insert_all s (entry_if toml key f o ++ es) ≡ insert_all (insert_if s key f o) es
  insert_all-entry_if s key f none es = refl
  insert_all-entry_if s key f (some a) es = refl

module _ {F : Type 0} (toml : Toml F) (laws : IsToml toml) where
  pub get-insert_if {ℓ} :
      {A : Type ℓ} (s : toml.Table) (key j : String) (f : A → toml.Item) (o : Option A)
      → (key == j) ≡ false
      → toml.get (insert_if toml s key f o) j ≡ toml.get s j
  get-insert_if s key j f none h = refl
  get-insert_if s key j f (some a) h = rw (laws.get-insert, h) refl

  pub get-insert_if_self :
      {A : Type 0} (s : toml.Table) (key : String) (f : A → toml.Item) (o : Option A)
      → toml.get s key ≡ none
      → ((a : A) → toml.is_none (f a) ≡ false)
      → toml.get (insert_if toml s key f o) key ≡ elim o [ none ↦ none | some a ↦ some (f a) ]
  get-insert_if_self s key f none h n = h
  get-insert_if_self s key f (some a) h n = rw (laws.get-insert, string_eq.eq_self key, n a) refl

  pub assign_channel :
      (c : toml.Item) (t : toml.Table) (key : String) (item : toml.Item)
      → IsChannel toml c t
      → assign toml c key item ≡ ok (toml.inline_table (toml.insert t key item))
  assign_channel c t key item (inl (e, n)) =
      rw (e, laws.is_indexable-none_item, laws.set-none_item, n) refl
  assign_channel c t key item (inr e) =
      rw (e, laws.is_indexable-inline_table, laws.set-inline_table) refl

  or_none : Option toml.Item → toml.Item
  or_none o = elim o [ some i ↦ i | none ↦ toml.none_item ]

  index_place :
      (t s : toml.Table) (outer : String)
      → IsPlace toml t outer s
      → IsChannel toml (toml.index (toml.inline_table t) outer) s
  unfolding or_none
  index_place t s outer (inl (absent, e)) =
      inl (laws.index-inline_table t outer ∙ ap or_none absent, e)
  index_place t s outer (inr found) = inr (laws.index-inline_table t outer ∙ ap or_none found)

  -- What a change below `outer` sees: the inline table there, or nothing.
  pub modify_in_lem :
      (t s : toml.Table) (outer : String) (f : toml.Item → Outcome toml.Item) (s' : toml.Table)
      → IsPlace toml t outer s
      → ((i : toml.Item) → IsChannel toml i s → f i ≡ ok (toml.inline_table s'))
      → modify_in toml (toml.inline_table t) outer f
        ≡ ok (toml.inline_table (toml.insert t outer (toml.inline_table s')))
  modify_in_lem t s outer f s' place step =
      rw
        (
          laws.is_indexable-inline_table,
          step _ (index_place t s outer place),
          laws.set-inline_table,
        )
        refl

  -- A write to a channel below `outer`, where nothing stands there yet or an inline table does.
  pub modify_channel :
      (c : toml.Item) (t s : toml.Table) (outer : String) (f : toml.Item → Outcome toml.Item)
      (s' : toml.Table)
      → IsChannel toml c t
      → IsPlace toml t outer s
      → ((i : toml.Item) → IsChannel toml i s → f i ≡ ok (toml.inline_table s'))
      → modify_in toml c outer f
        ≡ ok (toml.inline_table (toml.insert t outer (toml.inline_table s')))
  modify_channel c t s outer f s' (inr e) place step =
      rw e (modify_in_lem t s outer f s' place step)
  modify_channel c t s outer f s' (inl (e, n)) (inl (absent, m)) step =
      rw
        (
          e,
          laws.is_indexable-none_item,
          step (toml.index toml.none_item outer) (inl (laws.index-none_item outer, m)),
          laws.set-none_item,
          n,
        )
        refl
  modify_channel c t s outer f s' (inl (e, n)) (inr found) step = absurd (
      let clash : ◌≡◌ {A = Option toml.Item} none (some (toml.inline_table s)) =
        sym (laws.get-new outer) ∙ sym (ap (λ x. toml.get x outer) n) ∙ found in
      cc)

  -- What a list of writes leaves under `outer`, and elsewhere.
  abbrev pub IsWritten : toml.Table → String → toml.Table → toml.Table → Type 0
  IsWritten t outer s t' =
      (toml.get t' outer ≡ some (toml.inline_table s))
      × ((j : String) → (outer == j) ≡ false → toml.get t' j ≡ toml.get t j)

  IsWritten-insert :
      (t s : toml.Table) (outer : String)
      → IsWritten t outer s (toml.insert t outer (toml.inline_table s))
  IsWritten-insert t s outer = (
    rw (laws.get-insert, string_eq.eq_self outer, laws.is_none-inline_table) refl,
    λ j h. rw (laws.get-insert, h) refl,
  )

  pub write_all_lem :
      (c : toml.Item) (t s : toml.Table) (outer key : String) (value : toml.Item)
      (es : List (String × toml.Item))
      → IsChannel toml c t
      → IsPlace toml t outer s
      → (t' : toml.Table) × (write_all toml c outer ((key, value) ∷ es) ≡ ok (toml.inline_table t'))
        × IsWritten t outer (insert_all toml (toml.insert s key value) es) t'
  write_all_lem c t s outer key value [] h place =
      let s' = toml.insert s key value in
      (
        toml.insert t outer (toml.inline_table s'),
        rw
            (modify_channel c t s outer (λ inner. assign toml inner key value) s' h place
              (λ i k. assign_channel i s key value k))
            refl,
        IsWritten-insert t s' outer,
      )
  write_all_lem c t s outer key value ((key', value') ∷ es) h place =
      let s' = toml.insert s key value in
      let t' = toml.insert t outer (toml.inline_table s') in
      let first =
        modify_channel c t s outer (λ inner. assign toml inner key value) s' h place
          (λ i k. assign_channel i s key value k) in
      let (found, others) = IsWritten-insert t s' outer in
      let (t'', e, (found', others')) =
        write_all_lem (toml.inline_table t') t' s' outer key' value' es (inr refl) (inr found) in
      (t'', rw first e, (found', λ j d. others' j d ∙ others j d))

  -- COLORS
  get_rgb_item :
      (c : ℕ × ℕ × ℕ)
      → (c.0 < 256) × (c.1 < 256) × (c.2 < 256)
      → get_rgb toml (rgb_item toml c) ≡ ok c
  unfolding get_rgb
  get_rgb_item (r, g, b) h =
      let wrong : String = "RGB values must be integers" in
      let range : String = "RGB values must be between 0-255" in
      rw
        (
          laws.as_array-array,
          as_u8_written toml laws wrong range r h.0,
          as_u8_written toml laws wrong range g h.1,
          as_u8_written toml laws wrong range b h.2,
        )
        refl

  all_rgb :
      (colors : List (ℕ × ℕ × ℕ))
      → AreBytes colors
      → All (λ c. get_rgb toml (rgb_item toml c) ≡ ok c) colors
  all_rgb [] h = tt
  all_rgb (c ∷ colors) h = (get_rgb_item c h.0, all_rgb colors h.1)

  pub get_colors_written :
      (table : toml.Table) (missing wrong : String) (colors : List (ℕ × ℕ × ℕ))
      → toml.get table "colors" ≡ some (colors_item toml colors)
      → AreBytes colors
      → get_colors toml table missing wrong ≡ ok colors
  unfolding get_colors
  get_colors_written table missing wrong colors g h =
      rw (g, laws.as_array-array)
        (traverse-map_all (get_rgb toml) (rgb_item toml) (λ c. c) colors (all_rgb colors h)
          ∙ ap ok (map-id colors))
