-- ===== src/Config/Tables/Written.antt =====
-- What is read where an optional field was written.
use coolerocontrol.Base.{
  ℕ, ◌<◌, String, false, Option, none, some, if◌then◌else◌, string_eq, ◌≡◌, refl, List, [], ◌∷◌,
  map, All,
}
use coolerocontrol.Base.Int.{pos, try_below-pos, clamp}
use coolerocontrol.Base.Outcome.{Outcome, ok}
use coolerocontrol.Config.Fields.{optional, traverse, as_u8, as_clamped, get_str}
use coolerocontrol.Config.Tables.{item_or_none}
use coolerocontrol.Config.Toml.{Toml, IsToml}

-- The value, if there is one, has the property.
abbrev pub AllSome {ℓ} : {A : Type ℓ} → (A → Type 0) → Option A → Type 0
AllSome P none = Unit
AllSome P (some a) = P a

abbrev pub option_map {ℓ κ} : {A : Type ℓ} {B : Type κ} → (A → B) → Option A → Option B
option_map f none = none
option_map f (some a) = some (f a)

pub traverse-map {ℓ κ μ} :
    {A : Type ℓ} {B : Type κ} {C : Type μ} (f : B → Outcome C) (g : A → B) (h : A → C)
    → ((a : A) → f (g a) ≡ ok (h a))
    → (xs : List A) → traverse f (map g xs) ≡ ok (map h xs)
traverse-map f g h e [] = refl
traverse-map f g h e (x ∷ xs) = rw (e x, traverse-map f g h e xs) refl

-- The types `u8` and `u16` of an optional field.
abbrev pub SomeLt : Option ℕ → ℕ → Type 0
SomeLt o bound = AllSome (λ n. n < bound) o

pub option_map_id {ℓ} : {A : Type ℓ} (o : Option A) → option_map (λ a. a) o ≡ o
option_map_id none = refl
option_map_id (some a) = refl

pub AllSome-imp {ℓ} :
    {A : Type ℓ} (P Q : A → Type 0) (o : Option A)
    → ((a : A) → P a → Q a)
    → AllSome P o
    → AllSome Q o
AllSome-imp P Q none f h = tt
AllSome-imp P Q (some a) f h = f a h

pub AllSome-all {ℓ} : {A : Type ℓ} (P : A → Type 0) (o : Option A) → ((a : A) → P a) → AllSome P o
AllSome-all P none f = tt
AllSome-all P (some a) f = f a

-- What stands in a table under a key that was written.
abbrev pub present : {F : Type 0} (toml : Toml F) → toml.Item → Option toml.Item
present toml item = if toml.is_none item then none else some item

module _ {F : Type 0} (toml : Toml F) (laws : IsToml toml) where
  pub optional_written :
      {A B : Type 0} (g : A → toml.Item) (read : toml.Item → Outcome B) (norm : A → B)
      (o : Option A)
      → ((a : A) → toml.is_none (g a) ≡ false)
      → AllSome (λ a. read (g a) ≡ ok (norm a)) o
      → optional read (present toml (item_or_none toml g o)) ≡ ok (option_map norm o)
  optional_written g read norm none there reads = rw laws.is_none-none_item refl
  optional_written g read norm (some a) there reads = rw (there a, reads) refl

  pub as_u8_written :
      (wrong range : String) (n : ℕ)
      → n < 256
      → as_u8 toml wrong range (toml.integer (pos n)) ≡ ok n
  as_u8_written wrong range n h = rw (laws.as_integer-integer, try_below-pos 256 n h) refl

  pub as_clamped_written :
      (lo hi : ℕ) (wrong range : String) (n : ℕ)
      → n < 256
      → as_clamped toml lo hi wrong range (toml.integer (pos n)) ≡ ok (clamp lo hi n)
  as_clamped_written lo hi wrong range n h = rw (as_u8_written wrong range n h) refl

  pub get_str_written :
      (table : toml.Table) (key missing wrong s : String)
      → toml.get table key ≡ some (toml.string s)
      → get_str toml table key missing wrong ≡ ok s
  get_str_written table key missing wrong s h = rw (h, laws.as_str-string) refl

pub traverse-map_all {ℓ κ μ} :
    {A : Type ℓ} {B : Type κ} {C : Type μ} (f : B → Outcome C) (g : A → B) (h : A → C) (xs : List A)
    → All (λ a. f (g a) ≡ ok (h a)) xs
    → traverse f (map g xs) ≡ ok (map h xs)
traverse-map_all f g h [] e = refl
traverse-map_all f g h (x ∷ xs) e = rw (e.0, traverse-map_all f g h xs e.1) refl
