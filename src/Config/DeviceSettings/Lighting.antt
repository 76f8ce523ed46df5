-- ===== src/Config/DeviceSettings/Lighting.antt =====
-- Lighting and LCD settings, read back from the inline tables that they are written into.
use coolerocontrol.Base.{
  ℕ, ◌≤◌, String, Bool, true, false, Option, none, some, List, [], ◌∷◌, ◌++◌, if◌then◌else◌,
  string_eq, ◌==◌, ◌≡◌, refl, ap, ◌∙◌, arith,
}
use coolerocontrol.Base.Int.{pos, try_below-pos, clamp_self}
use coolerocontrol.Base.Outcome.{Outcome, ok, with_context}
use coolerocontrol.Config.DeviceSettings.Writes.{
  insert_all, insert_if, insert_all-entry_if, get-insert_if, get-insert_if_self, AreBytes,
  get_colors_written,
}
use coolerocontrol.Config.DeviceSettings.{lighting_entries, lcd_entries, colors_item, is_true}
use coolerocontrol.Config.Fields.{
  optional, get_temp_source, get_speed, lighting_of, get_brightness, as_orientation,
  get_orientation, get_image, lcd_of,
}
use coolerocontrol.Config.Tables.ProfileTable.{percent_written}
use coolerocontrol.Config.Tables.Written.{AllSome, AllSome-all, AllSome-imp, get_str_written}
use coolerocontrol.Config.Toml.{Toml, IsToml}
use coolerocontrol.Setting.{LightingSettings, LcdSettings}

-- The ranges of the fields of an LCD setting.
pub record IsLcd (l : LcdSettings) : Type 0 where
  pub brightness_le : AllSome (λ n. n ≤ 100) l.brightness
  pub orientation_le : AllSome (λ n. n ≤ 270) l.orientation
  pub colors_bytes : AreBytes l.colors

module _ {F : Type 0} (toml : Toml F) (laws : IsToml toml) where
  -- A field that was written if it was there.
  pub optional_if :
      {A B : Type 0} (read : toml.Item → Outcome B) (f : A → toml.Item) (g : A → B) (o : Option A)
      → AllSome (λ a. read (f a) ≡ ok (g a)) o
      → optional read (elim o [ none ↦ none | some a ↦ some (f a) ])
        ≡ ok (elim o [ none ↦ none | some a ↦ some (g a) ])
  optional_if read f g none h = refl
  optional_if read f g (some a) h = rw h refl

  backward_if : Bool → toml.Table → toml.Table
  backward_if b s = if b then toml.insert s "backward" (toml.boolean true) else s

  get-backward_if :
      (b : Bool) (s : toml.Table) (j : String)
      → ("backward" == j) ≡ false
      → toml.get (backward_if b s) j ≡ toml.get s j
  unfolding backward_if
  get-backward_if true s j h = rw (laws.get-insert, h) refl
  get-backward_if false s j h = refl

  insert_all-backward :
      (b : Bool) (s : toml.Table) (es : List (String × toml.Item))
      → insert_all toml s ((if b then ("backward", toml.boolean true) ∷ [] else []) ++ es)
        ≡ insert_all toml (backward_if b s) es
  unfolding backward_if
  insert_all-backward true s es = refl
  insert_all-backward false s es = refl

  option_self :
      {A : Type 0} (o : Option A) → elim o as (λ x. Option A) [ none ↦ none | some a ↦ some a ] ≡ o
  option_self none = refl
  option_self (some a) = refl

  module _ (l : LightingSettings) where
    -- The inline table of the lighting.
    pub lighting_table : toml.Table
    lighting_table =
        toml.insert
          (backward_if (is_true l.backward) (
            insert_if toml (toml.insert toml.new "mode" (toml.string l.mode)) "speed" toml.string
              l.speed))
          "colors" (colors_item toml l.colors)

    pub lighting_table_lem : insert_all toml toml.new (lighting_entries toml l) ≡ lighting_table
    unfolding lighting_table backward_if
    lighting_table_lem =
        insert_all-entry_if toml _ "speed" toml.string l.speed _
        ∙ insert_all-backward (is_true l.backward) _ _

    light_mode : toml.get lighting_table "mode" ≡ some (toml.string l.mode)
    unfolding lighting_table
    light_mode = simp (laws.get-insert) (
        get-backward_if _ _ "mode" refl
        ∙ get-insert_if toml laws _ "speed" "mode" _ l.speed refl
        ∙ simp (laws.get-insert, laws.is_none-string))

    light_speed :
        toml.get lighting_table "speed"
        ≡ elim l.speed [ none ↦ none | some s ↦ some (toml.string s) ]
    unfolding lighting_table
    light_speed = simp (laws.get-insert) (
        get-backward_if _ _ "speed" refl
        ∙ get-insert_if_self toml laws _ "speed" toml.string l.speed
            (simp (laws.get-insert, laws.get-new)) laws.is_none-string)

    light_colors : toml.get lighting_table "colors" ≡ some (colors_item toml l.colors)
    unfolding lighting_table
    light_colors = simp (laws.get-insert, laws.is_none-array)

    speed_written : get_speed toml lighting_table ≡ ok l.speed
    speed_written =
        ap (optional _) light_speed
        ∙ optional_if (λ v. with_context "lighting.speed should be a String" (toml.as_str v))
            toml.string (λ s. s) l.speed
            (AllSome-all _ l.speed (λ s. ap (with_context _) (laws.as_str-string s)))
        ∙ ap ok (option_self l.speed)

    -- Whatever `backward` is, it is read from the table around the lighting.
    pub lighting_of_written :
        (around : toml.Table)
        → toml.get around "backward" ≡ none
        → AreBytes l.colors
        → lighting_of toml around (toml.inline_table lighting_table)
          ≡ ok (record l { backward = none })
    lighting_of_written around b h =
        rw
          (
            laws.as_inline_table-inline_table,
            get_str_written toml laws lighting_table "mode" "lighting.mode should be present"
                "lighting.mode should be a String" l.mode light_mode,
            speed_written,
            b,
            get_colors_written toml laws lighting_table "lighting.colors should always be present"
                "lighting.colors should be an array" l.colors light_colors h,
          )
          refl

  -- The inline table of an LCD setting, without its source.
  module _ (l : LcdSettings) where
    pub lcd_table : toml.Table
    lcd_table =
        let t1 = toml.insert toml.new "mode" (toml.string l.mode) in
        let t2 = insert_if toml t1 "brightness" (λ n. toml.integer (pos n)) l.brightness in
        let t3 = insert_if toml t2 "orientation" (λ n. toml.integer (pos n)) l.orientation in
        let t4 = insert_if toml t3 "image_file_processed" toml.string l.image_file_processed in
        toml.insert t4 "colors" (colors_item toml l.colors)

    pub lcd_table_lem : insert_all toml toml.new (lcd_entries toml l) ≡ lcd_table
    unfolding lcd_table
    lcd_table_lem =
        insert_all-entry_if toml _ "brightness" (λ n. toml.integer (pos n)) l.brightness _
        ∙ insert_all-entry_if toml _ "orientation" (λ n. toml.integer (pos n)) l.orientation _
        ∙ insert_all-entry_if toml _ "image_file_processed" toml.string l.image_file_processed _

    -- Keys after which nothing of the same name is written.
    below_image :
        (j : String)
        → ("colors" == j) ≡ false
        → ("image_file_processed" == j) ≡ false
        → toml.get lcd_table j
          ≡ toml.get
              (insert_if toml
                (insert_if toml
                  (toml.insert toml.new "mode" (toml.string l.mode))
                  "brightness"
                  (λ n. toml.integer (pos n))
                  l.brightness)
                "orientation"
                (λ n. toml.integer (pos n))
                l.orientation)
              j
    unfolding lcd_table
    below_image j a b =
        rw (laws.get-insert, a)
          (get-insert_if toml laws _ "image_file_processed" j toml.string l.image_file_processed b)

    lcd_mode : toml.get lcd_table "mode" ≡ some (toml.string l.mode)
    lcd_mode =
        below_image "mode" refl refl
        ∙ get-insert_if toml laws _ "orientation" "mode" _ l.orientation refl
        ∙ get-insert_if toml laws _ "brightness" "mode" _ l.brightness refl
        ∙ simp (laws.get-insert, laws.is_none-string)

    lcd_brightness :
        toml.get lcd_table "brightness"
        ≡ elim l.brightness [ none ↦ none | some n ↦ some (toml.integer (pos n)) ]
    lcd_brightness =
        below_image "brightness" refl refl
        ∙ get-insert_if toml laws _ "orientation" "brightness" _ l.orientation refl
        ∙ get-insert_if_self toml laws _ "brightness" (λ n. toml.integer (pos n)) l.brightness
            (simp (laws.get-insert, laws.get-new)) (λ n. laws.is_none-integer (pos n))

    lcd_orientation :
        toml.get lcd_table "orientation"
        ≡ elim l.orientation [ none ↦ none | some n ↦ some (toml.integer (pos n)) ]
    lcd_orientation =
        below_image "orientation" refl refl
        ∙ get-insert_if_self toml laws _ "orientation" (λ n. toml.integer (pos n)) l.orientation
            (get-insert_if toml laws _ "brightness" "orientation" _ l.brightness refl
              ∙ simp (laws.get-insert, laws.get-new))
            (λ n. laws.is_none-integer (pos n))

    lcd_image :
        toml.get lcd_table "image_file_processed"
        ≡ elim l.image_file_processed [ none ↦ none | some s ↦ some (toml.string s) ]
    unfolding lcd_table
    lcd_image = simp (laws.get-insert) (
        get-insert_if_self toml laws _ "image_file_processed" toml.string l.image_file_processed
          (get-insert_if toml laws _ "orientation" "image_file_processed" _ l.orientation refl
            ∙ get-insert_if toml laws _ "brightness" "image_file_processed" _ l.brightness refl
            ∙ simp (laws.get-insert, laws.get-new))
          laws.is_none-string)

    lcd_colors : toml.get lcd_table "colors" ≡ some (colors_item toml l.colors)
    unfolding lcd_table
    lcd_colors = simp (laws.get-insert, laws.is_none-array)

    pub lcd_no_source : toml.get lcd_table "temp_source" ≡ none
    lcd_no_source =
        below_image "temp_source" refl refl
        ∙ get-insert_if toml laws _ "orientation" "temp_source" _ l.orientation refl
        ∙ get-insert_if toml laws _ "brightness" "temp_source" _ l.brightness refl
        ∙ simp (laws.get-insert, laws.get-new)

    orientation_value : (n : ℕ) → n ≤ 270 → as_orientation toml (toml.integer (pos n)) ≡ ok n
    orientation_value n h =
        rw
          (
            laws.as_integer-integer,
            try_below-pos 65536 n (omega arith),
            clamp_self 0 270 n (omega arith) h,
          )
          refl

    -- The LCD setting is read from a table that holds its fields, and its source.
    pub lcd_of_written :
        (table : toml.Table)
        → ((j : String) → ("temp_source" == j) ≡ false → toml.get table j ≡ toml.get lcd_table j)
        → get_temp_source toml table ≡ ok l.temp_source
        → IsLcd l
        → lcd_of toml (toml.inline_table table) ≡ ok l
    lcd_of_written table same source v =
        let brightness : get_brightness toml table ≡ ok l.brightness =
          ap (optional _) (same "brightness" refl ∙ lcd_brightness)
          ∙ optional_if _ (λ n. toml.integer (pos n)) (λ n. n) l.brightness
              (AllSome-imp _ _ l.brightness (percent_written toml laws _ _) v.brightness_le)
          ∙ ap ok (option_self l.brightness) in
        let orientation : get_orientation toml table ≡ ok l.orientation =
          ap (optional _) (same "orientation" refl ∙ lcd_orientation)
          ∙ optional_if _ (λ n. toml.integer (pos n)) (λ n. n) l.orientation
              (AllSome-imp _ _ l.orientation orientation_value v.orientation_le)
          ∙ ap ok (option_self l.orientation) in
        let image : get_image toml table ≡ ok l.image_file_processed =
          ap (optional _) (same "image_file_processed" refl ∙ lcd_image)
          ∙ optional_if
              (λ x. with_context "image_file_processed should be a String" (toml.as_str x))
              toml.string (λ s. s) l.image_file_processed
              (AllSome-all _ l.image_file_processed
                (λ s. ap (with_context _) (laws.as_str-string s)))
          ∙ ap ok (option_self l.image_file_processed) in
        rw
          (
            laws.as_inline_table-inline_table,
            get_str_written toml laws table "mode" "lcd.mode should be present"
                "lcd.mode should be a String" l.mode (same "mode" refl ∙ lcd_mode),
            brightness,
            orientation,
            image,
            get_colors_written toml laws table "lcd.colors should always be present"
                "lcd.colors should be an array" l.colors (same "colors" refl ∙ lcd_colors)
                v.colors_bytes,
            source,
          )
          refl
