-- ===== src/Config/DeviceSettings/Merged.antt =====
-- What a channel setting in the configuration file becomes when another is stored over it.
use coolerocontrol.Base.{
  ℕ, ◌≤◌, String, Option, none, some, string_eq, ◌≡◌, inr, refl, ap, ◌∙◌, arith,
}
use coolerocontrol.Base.Int.{pos, clamp_self}
use coolerocontrol.Base.Outcome.{Outcome, ok}
use coolerocontrol.Config.DeviceSettings.Lighting.{IsLcd}
use coolerocontrol.Config.DeviceSettings.Writes.{AreBytes, IsChannel, assign_channel}
use coolerocontrol.Config.DeviceSettings.{
  set_setting_fixed_speed, set_profile_uid, set_pwm_mode, set_profile_field,
}
use coolerocontrol.Config.Fields.{
  optional, get_speed_fixed, get_lighting, lighting_with, get_lcd, get_pwm_mode, get_profile_uid,
}
use coolerocontrol.Config.Tables.ProfileTable.{percent_written}
use coolerocontrol.Config.Tables.Written.{AllSome, as_clamped_written}
use coolerocontrol.Config.Toml.{Toml, IsToml}
use coolerocontrol.Setting.{LightingSettings, LcdSettings, Setting}

-- A speed or a profile replaces the other; the lighting loses its direction.
abbrev pub merged_profile : Option String → Setting → Setting
merged_profile none s = s
merged_profile (some uid) s = record s { speed_fixed = none; profile_uid = some uid }

abbrev pub merged_lcd : Option LcdSettings → (Setting → Setting) → Setting → Setting
merged_lcd none next s = next s
merged_lcd (some lcd) next s = record s { lcd = some lcd }

abbrev pub merged_lighting : Option LightingSettings → (Setting → Setting) → Setting → Setting
merged_lighting none next s = next s
merged_lighting (some l) next s = record s { lighting = some (record l { backward = none }) }

abbrev pub merged_speed : Option ℕ → (Setting → Setting) → Setting → Setting
merged_speed none next s = next s
merged_speed (some n) next s = record s { speed_fixed = some n; profile_uid = none }

abbrev pub merged_mode : Option ℕ → Setting → Setting
merged_mode none s = s
merged_mode (some n) s = record s { pwm_mode = some n }

-- The stored setting `old` after `setting` is stored: the first of the fields that is there decides.
unfoldable pub merged : Setting → Setting → Setting
merged setting old =
    merged_speed setting.speed_fixed
      (merged_lighting setting.lighting
        (merged_lcd setting.lcd (merged_profile setting.profile_uid)))
      (merged_mode setting.pwm_mode old)

-- The ranges of the fields of a setting.
pub record IsStorable (s : Setting) : Type 0 where
  pub speed_le : AllSome (λ n. n ≤ 100) s.speed_fixed
  pub mode_le : AllSome (λ n. n ≤ 2) s.pwm_mode
  pub lighting_bytes : AllSome (λ l. AreBytes l.colors) s.lighting
  pub lcd_ranges : AllSome IsLcd s.lcd

-- The inline table of a channel reads as the setting. Nothing in the program writes `backward` there.
pub record ReadsAs {F : Type 0} (toml : Toml F) (t : toml.Table) (s : Setting) : Type 0 where
  pub speed_is : get_speed_fixed toml t ≡ ok s.speed_fixed
  pub lighting_is : get_lighting toml t ≡ ok s.lighting
  pub lcd_is : get_lcd toml t ≡ ok s.lcd
  pub mode_is : get_pwm_mode toml t ≡ ok s.pwm_mode
  pub profile_is : get_profile_uid toml t ≡ ok s.profile_uid
  pub no_backward : toml.get t "backward" ≡ none

module _ {F : Type 0} (toml : Toml F) where
  pub speed_cong :
      (t t' : toml.Table)
      → toml.get t' "speed_fixed" ≡ toml.get t "speed_fixed"
      → get_speed_fixed toml t' ≡ get_speed_fixed toml t
  unfolding get_speed_fixed
  speed_cong t t' e = ap (optional _) e

  pub lighting_cong :
      (t t' : toml.Table)
      → toml.get t' "lighting" ≡ toml.get t "lighting"
      → toml.get t' "backward" ≡ toml.get t "backward"
      → get_lighting toml t' ≡ get_lighting toml t
  unfolding get_lighting
  lighting_cong t t' e b = λ i. optional (lighting_with toml (b i)) (e i)

  pub lcd_cong :
      (t t' : toml.Table) → toml.get t' "lcd" ≡ toml.get t "lcd" → get_lcd toml t' ≡ get_lcd toml t
  unfolding get_lcd
  lcd_cong t t' e = ap (optional _) e

  pub mode_cong :
      (t t' : toml.Table)
      → toml.get t' "pwm_mode" ≡ toml.get t "pwm_mode"
      → get_pwm_mode toml t' ≡ get_pwm_mode toml t
  unfolding get_pwm_mode
  mode_cong t t' e = ap (optional _) e

  pub profile_cong :
      (t t' : toml.Table)
      → toml.get t' "profile_uid" ≡ toml.get t "profile_uid"
      → get_profile_uid toml t' ≡ get_profile_uid toml t
  unfolding get_profile_uid
  profile_cong t t' e = ap (optional _) e

  no_speed : (t : toml.Table) → toml.get t "speed_fixed" ≡ none → get_speed_fixed toml t ≡ ok none
  unfolding get_speed_fixed
  no_speed t e = ap (optional _) e

  no_profile : (t : toml.Table) → toml.get t "profile_uid" ≡ none → get_profile_uid toml t ≡ ok none
  unfolding get_profile_uid
  no_profile t e = ap (optional _) e

module _ {F : Type 0} (toml : Toml F) (laws : IsToml toml) where
  speed_value :
      (n : ℕ)
      → n ≤ 100
      → (t : toml.Table) → toml.get t "speed_fixed" ≡ some (toml.integer (pos n))
      → get_speed_fixed toml t ≡ ok (some n)
  unfolding get_speed_fixed
  speed_value n h t e =
      ap (optional _) e
      ∙ rw
          (percent_written toml laws "speed_fixed should be an integer"
            "speed_fixed must be a value between 0-100" n h)
          refl

  mode_value :
      (n : ℕ)
      → n ≤ 2
      → (t : toml.Table) → toml.get t "pwm_mode" ≡ some (toml.integer (pos n))
      → get_pwm_mode toml t ≡ ok (some n)
  unfolding get_pwm_mode
  mode_value n h t e =
      ap (optional _) e
      ∙ rw
          (
            as_clamped_written toml laws 0 2 "pwm_mode should be an integer"
                "pwm_mode should be a value between 0-2" n (omega arith),
            clamp_self 0 2 n (omega arith) h,
          )
          refl

  profile_value :
      (uid : String) (t : toml.Table)
      → toml.get t "profile_uid" ≡ some (toml.string uid)
      → get_profile_uid toml t ≡ ok (some uid)
  unfolding get_profile_uid
  profile_value uid t e = ap (optional _) e ∙ rw laws.as_str-string refl

  -- The channel after a step, and the setting that it holds.
  abbrev pub Becomes : Outcome toml.Item → Setting → Type 0
  Becomes m s =
      (c : toml.Item) × (t : toml.Table) × (m ≡ ok c) × IsChannel toml c t × ReadsAs toml t s

  module _ (c : toml.Item) (t : toml.Table) (old : Setting) (h : IsChannel toml c t)
      (r : ReadsAs toml t old) where
    pub mode_step :
        (o : Option ℕ)
        → AllSome (λ n. n ≤ 2) o
        → Becomes (set_pwm_mode toml o c) (merged_mode o old)
    mode_step none v = (c, t, refl, h, r)
    mode_step (some n) v =
        let t' = toml.insert t "pwm_mode" (toml.integer (pos n)) in
        (
          toml.inline_table t',
          t',
          assign_channel toml laws c t "pwm_mode" (toml.integer (pos n)) h,
          inr refl,
          record {
            speed_is = speed_cong toml t t' (simp (laws.get-insert)) ∙ r.speed_is;
            lighting_is =
                lighting_cong toml t t' (simp (laws.get-insert)) (simp (laws.get-insert))
                ∙ r.lighting_is;
            lcd_is = lcd_cong toml t t' (simp (laws.get-insert)) ∙ r.lcd_is;
            mode_is = mode_value n v t' (simp (laws.get-insert, laws.is_none-integer));
            profile_is = profile_cong toml t t' (simp (laws.get-insert)) ∙ r.profile_is;
            no_backward = simp (laws.get-insert) r.no_backward;
          },
        )

    pub profile_step :
        (o : Option String) → Becomes (set_profile_field toml o c) (merged_profile o old)
    unfolding set_profile_uid
    profile_step none = (c, t, refl, h, r)
    profile_step (some uid) =
        let t1 = toml.insert t "speed_fixed" toml.none_item in
        let t' = toml.insert t1 "profile_uid" (toml.string uid) in
        (
          toml.inline_table t',
          t',
          rw (assign_channel toml laws c t "speed_fixed" toml.none_item h) (
              assign_channel toml laws (toml.inline_table t1) t1 "profile_uid" (toml.string uid)
                (inr refl)),
          inr refl,
          record {
            speed_is = no_speed toml t' (simp (laws.get-insert, laws.is_none-none_item));
            lighting_is =
                lighting_cong toml t t' (simp (laws.get-insert)) (simp (laws.get-insert))
                ∙ r.lighting_is;
            lcd_is = lcd_cong toml t t' (simp (laws.get-insert)) ∙ r.lcd_is;
            mode_is = mode_cong toml t t' (simp (laws.get-insert)) ∙ r.mode_is;
            profile_is = profile_value uid t' (simp (laws.get-insert, laws.is_none-string));
            no_backward = simp (laws.get-insert) r.no_backward;
          },
        )

    pub speed_step :
        (n : ℕ)
        → n ≤ 100
        → Becomes
            (set_setting_fixed_speed toml n c)
            (record old { speed_fixed = some n; profile_uid = none })
    unfolding set_setting_fixed_speed
    speed_step n v =
        let t1 = toml.insert t "profile_uid" toml.none_item in
        let t' = toml.insert t1 "speed_fixed" (toml.integer (pos n)) in
        (
          toml.inline_table t',
          t',
          rw (assign_channel toml laws c t "profile_uid" toml.none_item h) (
              assign_channel toml laws (toml.inline_table t1) t1 "speed_fixed"
                (toml.integer (pos n)) (inr refl)),
          inr refl,
          record {
            speed_is = speed_value n v t' (simp (laws.get-insert, laws.is_none-integer));
            lighting_is =
                lighting_cong toml t t' (simp (laws.get-insert)) (simp (laws.get-insert))
                ∙ r.lighting_is;
            lcd_is = lcd_cong toml t t' (simp (laws.get-insert)) ∙ r.lcd_is;
            mode_is = mode_cong toml t t' (simp (laws.get-insert)) ∙ r.mode_is;
            profile_is = no_profile toml t' (simp (laws.get-insert, laws.is_none-none_item));
            no_backward = simp (laws.get-insert) r.no_backward;
          },
        )
