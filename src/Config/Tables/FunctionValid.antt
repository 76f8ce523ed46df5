-- ===== src/Config/Tables/FunctionValid.antt =====
-- The functions that can be read from a table, whatever it holds.
use coolerocontrol.Base.{
  ℕ, ◌-◌, ◌<◌, ◌≤◌, String, Bool, Option, none, some, if◌then◌else◌, leb, string_eq, ◌≡◌, refl, ap,
  ◌⊎◌, inl, inr, Bool-cases, arith,
}
use coolerocontrol.Base.Int.{try_below, try_below-lt, clamp, clamp_bounds}
use coolerocontrol.Base.Outcome.{
  Outcome, ok, with_context, Safe, Safe-bind, Safe-with_context, Safe-context,
}
use coolerocontrol.Config.Fields.{function_type_from_str, optional, as_u8, as_clamped, get_str}
use coolerocontrol.Config.Tables.FunctionTable.{IsBytes, normalized_function}
use coolerocontrol.Config.Tables.Written.{AllSome, AllSome-imp, SomeLt, option_map}
use coolerocontrol.Config.Tables.{
  or_default, validated_window, get_f_type, get_duty_minimum, get_duty_maximum, get_response_delay,
  get_deviance, get_only_downward, as_window, get_sample_window, get_function,
}
use coolerocontrol.Config.Toml.{Toml}
use coolerocontrol.Setting.{Function, FunctionType}

-- The duties are percentages with the minimum below the maximum, and the window lies in 1 to 16.
pub record IsValid {F : Type 0} (f : Function F) : Type 0 where
  pub minimum_pos : 1 ≤ f.duty_minimum
  -- a minimum of one only stands below a maximum of two
  pub minimum_one : (2 ≤ f.duty_minimum) ⊎ (f.duty_maximum ≡ 2)
  pub below : f.duty_minimum < f.duty_maximum
  pub maximum_le : f.duty_maximum ≤ 100
  pub delay : SomeLt f.response_delay 256
  pub window : AllSome (λ n. (1 ≤ n) × (n ≤ 16)) f.sample_window

validated_window_bounds : (n : ℕ) → (1 ≤ validated_window n) × (validated_window n ≤ 16)
unfolding validated_window
validated_window_bounds n = ground arith

validated_window_self : (n : ℕ) → 1 ≤ n → n ≤ 16 → validated_window n ≡ n
unfolding validated_window
validated_window_self n h k = ground arith

window_self :
    (o : Option ℕ) → AllSome (λ n. (1 ≤ n) × (n ≤ 16)) o → option_map validated_window o ≡ o
window_self none h = refl
window_self (some n) h = ap some (validated_window_self n h.0 h.1)

pub IsValid-IsBytes : {F : Type 0} (f : Function F) → IsValid f → IsBytes f
IsValid-IsBytes f v = record {
  minimum = omega (arith, v.below, v.maximum_le);
  maximum = omega (arith, v.maximum_le);
  delay = v.delay;
  window = AllSome-imp _ _ f.sample_window (λ n h. omega arith) v.window;
}

minimum_self :
    (lo hi : ℕ)
    → 1 ≤ lo
    → (2 ≤ lo) ⊎ (hi ≡ 2)
    → lo < hi
    → hi ≤ 100
    → (if leb (clamp 2 100 hi) (clamp 2 99 lo) then clamp 2 100 hi - 1 else clamp 2 99 lo) ≡ lo
minimum_self lo hi a b c d = ground arith

maximum_self : (lo hi : ℕ) → 1 ≤ lo → lo < hi → hi ≤ 100 → clamp 2 100 hi ≡ hi
maximum_self lo hi a b c = ground arith

-- Such a function is read back as it was written.
pub normalized_function_self : {F : Type 0} (f : Function F) → IsValid f → normalized_function f ≡ f
unfolding normalized_function
normalized_function_self f v = λ i. record f {
  duty_minimum =
      minimum_self f.duty_minimum f.duty_maximum v.minimum_pos v.minimum_one v.below v.maximum_le i;
  duty_maximum = maximum_self f.duty_minimum f.duty_maximum v.minimum_pos v.below v.maximum_le i;
  sample_window = window_self f.sample_window v.window i;
}

module _ {ℓ κ} {A : Type ℓ} {B : Type κ} where
  Safe-optional :
      (P : B → Type 0) (f : A → Outcome B) (o : Option A)
      → ((a : A) → Safe (f a) P)
      → Safe (optional f o) (AllSome P)
  Safe-optional P f none h = tt
  Safe-optional P f (some a) h = Safe-bind (AllSome P) P (λ b. ok (some b)) (f a) (h a) (λ b p. p)

  Safe-get_or :
      (P : B → Type 0) (d : B) (f : A → Outcome B) (o : Option A)
      → P d
      → ((a : A) → Safe (f a) P)
      → Safe (or_default d f o) P
  Safe-get_or P d f none p h = p
  Safe-get_or P d f (some a) p h = h a

at_one : (lo hi : ℕ) → 2 ≤ lo → 2 ≤ hi → (2 ≤ (if leb hi lo then hi - 1 else lo)) ⊎ (hi ≡ 2)
at_one lo hi a b = elim (Bool-cases (leb hi 2)) [
  | inl small ↦ inr (ground arith)
  | inr large ↦ inl (ground arith)
]

ranges_of :
    {F : Type 0} (uid name : String) (f_type : FunctionType) (lo hi : ℕ) (delay : Option ℕ)
    (deviance : Option F) (downward : Option Bool) (window : Option ℕ)
    → (2 ≤ lo) × (lo ≤ 99)
    → (2 ≤ hi) × (hi ≤ 100)
    → SomeLt delay 256
    → AllSome (λ n. (1 ≤ n) × (n ≤ 16)) window
    → IsValid {F = F} (record {
      uid = uid;
      name = name;
      f_type = f_type;
      duty_minimum = (if leb hi lo then hi - 1 else lo);
      duty_maximum = hi;
      response_delay = delay;
      deviance = deviance;
      only_downward = downward;
      sample_window = window;
    })
ranges_of uid name f_type lo hi delay deviance downward window a b c d = record {
  minimum_pos = ground arith;
  minimum_one = at_one lo hi a.0 b.0;
  below = ground arith;
  maximum_le = b.1;
  delay = c;
  window = d;
}

module _ {F : Type 0} (toml : Toml F) where
  Safe-as_u8 :
      (wrong range : String) (item : toml.Item) → Safe (as_u8 toml wrong range item) (λ n. n < 256)
  Safe-as_u8 wrong range item =
      Safe-with_context (λ n. n < 256) _ wrong (toml.as_integer item)
        (λ z e. Safe-context _ range (try_below 256 z) (λ n k. try_below-lt 256 z n k))

  Safe-as_clamped :
      (lo hi : ℕ) (wrong range : String) (item : toml.Item)
      → lo ≤ hi
      → Safe (as_clamped toml lo hi wrong range item) (λ n. (lo ≤ n) × (n ≤ hi))
  Safe-as_clamped lo hi wrong range item h =
      Safe-bind _ _ _ (as_u8 toml wrong range item) (Safe-as_u8 wrong range item)
        (λ n p. clamp_bounds lo hi n h)

  -- The key holds the string.
  abbrev pub HasStr : toml.Table → String → String → Type 0
  HasStr t key s = (item : toml.Item) × (toml.get t key ≡ some item) × (toml.as_str item ≡ some s)

  pub Safe-get_str :
      (t : toml.Table) (key missing wrong : String)
      → Safe (get_str toml t key missing wrong) (HasStr t key)
  Safe-get_str t key missing wrong =
      Safe-with_context (HasStr t key) (λ item. with_context wrong (toml.as_str item)) missing
        (toml.get t key)
        (λ item e. Safe-context (HasStr t key) wrong (toml.as_str item) (λ s k. (item, e, k)))

  Safe-minimum : (t : toml.Table) → Safe (get_duty_minimum toml t) (λ n. (2 ≤ n) × (n ≤ 99))
  unfolding get_duty_minimum
  Safe-minimum t =
      Safe-get_or _ 2 _ (toml.get t "duty_minimum") (omega arith)
        (λ item. Safe-as_clamped 2 99 _ _ item (omega arith))

  Safe-maximum : (t : toml.Table) → Safe (get_duty_maximum toml t) (λ n. (2 ≤ n) × (n ≤ 100))
  unfolding get_duty_maximum
  Safe-maximum t =
      Safe-get_or _ 100 _ (toml.get t "duty_maximum") (omega arith)
        (λ item. Safe-as_clamped 2 100 _ _ item (omega arith))

  Safe-f_type : (t : toml.Table) → Safe (get_f_type toml t) (λ f_type. Unit {0})
  unfolding get_f_type
  Safe-f_type t =
      Safe-bind _ (HasStr t "f_type") _ (get_str toml t "f_type" _ _) (Safe-get_str t "f_type" _ _)
        (λ name h. Safe-context _ _ (function_type_from_str name) (λ f_type e. tt))

  Safe-delay : (t : toml.Table) → Safe (get_response_delay toml t) (AllSome (λ n. n < 256))
  unfolding get_response_delay
  Safe-delay t =
      Safe-optional (λ n. n < 256) _ (toml.get t "response_delay") (λ v. Safe-as_u8 _ _ v)

  Safe-deviance : (t : toml.Table) → Safe (get_deviance toml t) (AllSome (λ x. Unit {0}))
  unfolding get_deviance
  Safe-deviance t =
      Safe-optional (λ x. Unit {0}) _ (toml.get t "deviance")
        (λ v. Safe-context _ _ (toml.as_float v) (λ x e. tt))

  Safe-downward : (t : toml.Table) → Safe (get_only_downward toml t) (AllSome (λ b. Unit {0}))
  unfolding get_only_downward
  Safe-downward t =
      Safe-optional (λ b. Unit {0}) _ (toml.get t "only_downward")
        (λ v. Safe-context _ _ (toml.as_bool v) (λ b e. tt))

  Safe-window :
      (t : toml.Table) → Safe (get_sample_window toml t) (AllSome (λ n. (1 ≤ n) × (n ≤ 16)))
  unfolding get_sample_window
  Safe-window t =
      Safe-optional (λ n. (1 ≤ n) × (n ≤ 16)) (as_window toml) (toml.get t "sample_window")
        (λ v.
          Safe-bind (λ n. (1 ≤ n) × (n ≤ 16)) (λ n. n < 256) _ (as_u8 toml _ _ v) (Safe-as_u8 _ _ v)
            (λ n e. validated_window_bounds n))

  -- Reading a function does not panic, and what is read is valid, with the UID of the table.
  pub get_function-IsValid :
      (t : toml.Table) → Safe (get_function toml t) (λ f. IsValid f × HasStr t "uid" f.uid)
  unfolding get_function
  get_function-IsValid t =
      let P : Function F → Type 0 = λ f. IsValid f × HasStr t "uid" f.uid in
      Safe-bind P (HasStr t "uid") _
        (get_str toml t "uid" "Function UID should be present" "UID should be a string")
        (Safe-get_str t "uid" _ _)
        λ uid p1.
          Safe-bind P (HasStr t "name") _
            (get_str toml t "name" "Function Name should be present" "Name should be a string")
            (Safe-get_str t "name" _ _)
            λ name p2. Safe-bind P _ _ (get_f_type toml t) (Safe-f_type t) λ f_type p3.
              Safe-bind P _ _ (get_duty_minimum toml t) (Safe-minimum t) λ lo p4.
                Safe-bind P _ _ (get_duty_maximum toml t) (Safe-maximum t) λ hi p5.
                  Safe-bind P _ _ (get_response_delay toml t) (Safe-delay t) λ delay p6.
                    Safe-bind P _ _ (get_deviance toml t) (Safe-deviance t) λ deviance p7.
                      Safe-bind P _ _ (get_only_downward toml t) (Safe-downward t) λ downward p8.
                        Safe-bind P _ _ (get_sample_window toml t) (Safe-window t) λ window p9. (
                          ranges_of {F = F} uid name f_type lo hi delay deviance downward window p4
                              p5 p6 p9,
                          p1,
                        )
