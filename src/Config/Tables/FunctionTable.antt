-- ===== src/Config/Tables/FunctionTable.antt =====
-- The table that a function is written into, and what is read back from it.
use coolerocontrol.Base.{
  ℕ, ◌-◌, ◌<◌, some, if◌then◌else◌, leb, string_eq, ◌≡◌, refl, ap, ◌∙◌, arith,
}
use coolerocontrol.Base.Int.{pos, clamp}
use coolerocontrol.Base.Outcome.{ok, with_context}
use coolerocontrol.Config.Fields.{optional, function_type_str, function_type_from_str}
use coolerocontrol.Config.Tables.{
  item_or_none, validated_window, get_f_type, get_duty_minimum, get_duty_maximum,
  get_response_delay, get_deviance, get_only_downward, as_window, get_sample_window, get_function,
  add_function_properties_to_function_table,
}
use coolerocontrol.Config.Tables.Written.{
  AllSome, SomeLt, AllSome-imp, AllSome-all, option_map, option_map_id, get_str_written, present,
  optional_written, as_u8_written, as_clamped_written,
}
use coolerocontrol.Config.Toml.{Toml, IsToml}
use coolerocontrol.Setting.{Function, FunctionType}

function_type-roundtrip : (t : FunctionType) → function_type_from_str (function_type_str t) ≡ some t
unfolding function_type_str function_type_from_str
function_type-roundtrip FunctionType.identity = refl
function_type-roundtrip FunctionType.standard = refl
function_type-roundtrip FunctionType.exponential_moving_avg = refl

-- The fields of type `u8` hold a byte.
pub record IsBytes {F : Type 0} (f : Function F) : Type 0 where
  pub minimum : f.duty_minimum < 256
  pub maximum : f.duty_maximum < 256
  pub delay : AllSome (λ n. n < 256) f.response_delay
  pub window : AllSome (λ n. n < 256) f.sample_window

-- The function after a round through its table: the duties are clamped, the minimum stays below
-- the maximum, and a window outside 1 to 16 becomes the default.
unfoldable pub normalized_function : {F : Type 0} → Function F → Function F
normalized_function f =
    let maximum = clamp 2 100 f.duty_maximum in
    let minimum = clamp 2 99 f.duty_minimum in
    record f {
      duty_minimum = (if leb maximum minimum then maximum - 1 else minimum);
      duty_maximum = maximum;
      sample_window = option_map validated_window f.sample_window;
    }

validated_window_lt : (n : ℕ) → n < 256 → validated_window n < 256
unfolding validated_window
validated_window_lt n h = ground arith

validated_window_idem : (n : ℕ) → validated_window (validated_window n) ≡ validated_window n
unfolding validated_window
validated_window_idem n = ground arith

module _ {F : Type 0} (toml : Toml F) (laws : IsToml toml) (f : Function F) (t : toml.Table) where
  written : toml.Table
  written = add_function_properties_to_function_table toml f t

  get_uid : toml.get written "uid" ≡ some (toml.string f.uid)
  unfolding written add_function_properties_to_function_table
  get_uid = simp (laws.get-insert, laws.is_none-string)

  get_name : toml.get written "name" ≡ some (toml.string f.name)
  unfolding written add_function_properties_to_function_table
  get_name = simp (laws.get-insert, laws.is_none-string)

  get_type : toml.get written "f_type" ≡ some (toml.string (function_type_str f.f_type))
  unfolding written add_function_properties_to_function_table
  get_type = simp (laws.get-insert, laws.is_none-string)

  get_minimum : toml.get written "duty_minimum" ≡ some (toml.integer (pos f.duty_minimum))
  unfolding written add_function_properties_to_function_table
  get_minimum = simp (laws.get-insert, laws.is_none-integer)

  get_maximum : toml.get written "duty_maximum" ≡ some (toml.integer (pos f.duty_maximum))
  unfolding written add_function_properties_to_function_table
  get_maximum = simp (laws.get-insert, laws.is_none-integer)

  get_delay :
      toml.get written "response_delay"
      ≡ present toml (item_or_none toml (λ n. toml.integer (pos n)) f.response_delay)
  unfolding written add_function_properties_to_function_table
  get_delay = simp (laws.get-insert)

  get_dev : toml.get written "deviance" ≡ present toml (item_or_none toml toml.float f.deviance)
  unfolding written add_function_properties_to_function_table
  get_dev = simp (laws.get-insert)

  get_downward :
      toml.get written "only_downward"
      ≡ present toml (item_or_none toml toml.boolean f.only_downward)
  unfolding written add_function_properties_to_function_table
  get_downward = simp (laws.get-insert)

  get_window :
      toml.get written "sample_window"
      ≡ present toml
          (item_or_none toml (λ n. toml.integer (pos (validated_window n))) f.sample_window)
  unfolding written add_function_properties_to_function_table
  get_window = simp (laws.get-insert)

  get_duty_minimum-written :
      f.duty_minimum < 256 → get_duty_minimum toml written ≡ ok (clamp 2 99 f.duty_minimum)
  unfolding get_duty_minimum
  get_duty_minimum-written h =
      rw (get_minimum, as_clamped_written toml laws 2 99 _ _ f.duty_minimum h) refl

  get_duty_maximum-written :
      f.duty_maximum < 256 → get_duty_maximum toml written ≡ ok (clamp 2 100 f.duty_maximum)
  unfolding get_duty_maximum
  get_duty_maximum-written h =
      rw (get_maximum, as_clamped_written toml laws 2 100 _ _ f.duty_maximum h) refl

  f_type_written : get_f_type toml written ≡ ok f.f_type
  unfolding get_f_type
  f_type_written =
      rw
        (
          get_str_written toml laws written "f_type" _ _ (function_type_str f.f_type) get_type,
          function_type-roundtrip f.f_type,
        )
        refl

  delay_written :
      SomeLt f.response_delay 256 → get_response_delay toml written ≡ ok f.response_delay
  unfolding get_response_delay
  delay_written h =
      ap (optional _) get_delay
      ∙ optional_written toml laws (λ n. toml.integer (pos n)) _ (λ n. n) f.response_delay
          (λ n. laws.is_none-integer (pos n))
          (AllSome-imp _ _ f.response_delay (as_u8_written toml laws _ _) h)
      ∙ ap ok (option_map_id f.response_delay)

  deviance_written : get_deviance toml written ≡ ok f.deviance
  unfolding get_deviance
  deviance_written =
      ap (optional _) get_dev
      ∙ optional_written toml laws toml.float _ (λ x. x) f.deviance laws.is_none-float
          (AllSome-all _ f.deviance (λ x. ap (with_context _) (laws.as_float-float x)))
      ∙ ap ok (option_map_id f.deviance)

  downward_written : get_only_downward toml written ≡ ok f.only_downward
  unfolding get_only_downward
  downward_written =
      ap (optional _) get_downward
      ∙ optional_written toml laws toml.boolean _ (λ x. x) f.only_downward laws.is_none-boolean
          (AllSome-all _ f.only_downward (λ x. ap (with_context _) (laws.as_bool-boolean x)))
      ∙ ap ok (option_map_id f.only_downward)

  window_value :
      (n : ℕ)
      → n < 256
      → as_window toml (toml.integer (pos (validated_window n))) ≡ ok (validated_window n)
  window_value n h =
      rw
        (
          as_u8_written toml laws "sample_window should be an integer"
              "sample_window should be a value between 1-16" (validated_window n)
              (validated_window_lt n h),
          validated_window_idem n,
        )
        refl

  window_written :
      SomeLt f.sample_window 256
      → get_sample_window toml written ≡ ok (option_map validated_window f.sample_window)
  unfolding get_sample_window
  window_written h =
      ap (optional (as_window toml)) get_window
      ∙ optional_written toml laws (λ n. toml.integer (pos (validated_window n))) (as_window toml)
          validated_window f.sample_window (λ n. laws.is_none-integer (pos (validated_window n)))
          (AllSome-imp _ _ f.sample_window window_value h)

  -- A function that is written into a table, whatever the table held, is read back with its duties
  -- clamped to 2 to 99 and 2 to 100, the minimum below the maximum, and the default for a window
  -- outside 1 to 16; all else is unchanged. The fields of type `u8` hold a byte.
  pub get_function-written :
      IsBytes f
      → get_function toml (add_function_properties_to_function_table toml f t)
        ≡ ok (normalized_function f)
  unfolding get_function written normalized_function
  get_function-written b =
      rw
        (
          get_str_written toml laws written "uid" _ _ f.uid get_uid,
          get_str_written toml laws written "name" _ _ f.name get_name,
          f_type_written,
          get_duty_minimum-written b.minimum,
          get_duty_maximum-written b.maximum,
          delay_written b.delay,
          deviance_written,
          downward_written,
          window_written b.window,
        )
        refl
