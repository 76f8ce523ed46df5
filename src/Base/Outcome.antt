-- ===== src/Base/Outcome.antt =====
-- The outcome of fallible code: a value, an `Err` with its message, or a panic (an `unwrap`, an
-- index or a map index that fails).
use mathlib.Core.Bool.{Bool, true, false}
use mathlib.Core.Path.{◌≡◌, refl, sym, subst}
use mathlib.Core.Logic.{◌≢◌, ◌⊎◌, inl, inr}
use mathlib.Core.Option.{Option, none, some}
use Prim.Native.String.{String}

pub data Outcome {ℓ} (A : Type ℓ) : Type ℓ where
  ok : A → Outcome A
  err : String → Outcome A
  panic : Outcome A

infixl 5 ◌>>=◌ ◌>>◌
abbrev pub ◌>>=◌ {ℓ κ} : {A : Type ℓ} {B : Type κ} → Outcome A → (A → Outcome B) → Outcome B
ok a >>= f = f a
err e >>= f = err e
panic >>= f = panic

abbrev pub ◌>>◌ {ℓ} : {B : Type ℓ} → Outcome (Unit {0}) → Outcome B → Outcome B
m >> k = m >>= λ _. k

-- `unwrap` and an index panic, `with_context(…)?` returns an error.
abbrev pub unwrap {ℓ} : {A : Type ℓ} → Option A → Outcome A
unwrap (some a) = ok a
unwrap none = panic

abbrev pub with_context {ℓ} : {A : Type ℓ} → String → Option A → Outcome A
with_context msg (some a) = ok a
with_context msg none = err msg

abbrev pub ensure : Bool → String → Outcome (Unit {0})
ensure true msg = ok tt
ensure false msg = err msg

-- The outcome is a value with the property `P`.
abbrev pub Returns {ℓ} : {A : Type ℓ} → Outcome A → (A → Type 0) → Type 0
Returns (ok a) P = P a
Returns (err e) P = ⊥
Returns panic P = ⊥

-- The outcome is no panic, and a value has the property `P`.
abbrev pub Safe {ℓ} : {A : Type ℓ} → Outcome A → (A → Type 0) → Type 0
Safe (ok a) P = P a
Safe (err e) P = Unit
Safe panic P = ⊥

-- The rules for a `do` block.
module _ {ℓ κ} {A : Type ℓ} {B : Type κ} where
  pub Returns-unwrap :
      (P : B → Type 0) (f : A → Outcome B) (o : Option A) (a : A)
      → o ≡ some a
      → Returns (f a) P
      → Returns (unwrap o >>= f) P
  Returns-unwrap P f o a e h = subst (λ c. Returns (unwrap c >>= f) P) (sym e) h

  pub Returns-bind :
      (P : B → Type 0) (Q : A → Type 0) (f : A → Outcome B) (m : Outcome A)
      → Returns m Q
      → ((a : A) → Q a → Returns (f a) P)
      → Returns (m >>= f) P
  Returns-bind P Q f (ok a) h k = k a h
  Returns-bind P Q f (err e) h k = elim h [ ]
  Returns-bind P Q f panic h k = elim h [ ]

pub Returns-imp {ℓ} :
    {A : Type ℓ} (P Q : A → Type 0) (m : Outcome A)
    → ((a : A) → P a → Q a)
    → Returns m P
    → Returns m Q
Returns-imp P Q (ok a) f h = f a h
Returns-imp P Q (err e) f h = h
Returns-imp P Q panic f h = h

module _ {ℓ κ} {A : Type ℓ} {B : Type κ} where
  pub Safe-bind :
      (P : B → Type 0) (Q : A → Type 0) (f : A → Outcome B) (m : Outcome A)
      → Safe m Q
      → ((a : A) → Q a → Safe (f a) P)
      → Safe (m >>= f) P
  Safe-bind P Q f (ok a) h k = k a h
  Safe-bind P Q f (err e) h k = tt
  Safe-bind P Q f panic h k = elim h [ ]

  pub Safe-with_context :
      (P : B → Type 0) (f : A → Outcome B) (msg : String) (o : Option A)
      → ((a : A) → o ≡ some a → Safe (f a) P)
      → Safe (with_context msg o >>= f) P
  Safe-with_context P f msg none k = tt
  Safe-with_context P f msg (some a) k = k a refl

pub Safe-ensure {κ} :
    {B : Type κ} (P : B → Type 0) (f : Unit {0} → Outcome B) (b : Bool) (msg : String)
    → (b ≡ true → Safe (f tt) P)
    → Safe (ensure b msg >>= f) P
Safe-ensure P f true msg k = k refl
Safe-ensure P f false msg k = tt

pub Safe-Returns {ℓ} : {A : Type ℓ} (P : A → Type 0) (m : Outcome A) → Returns m P → Safe m P
Safe-Returns P (ok a) h = h
Safe-Returns P (err e) h = tt
Safe-Returns P panic h = h

pub Safe-ok {ℓ} : {A : Type ℓ} (P : A → Type 0) (m : Outcome A) (a : A) → m ≡ ok a → Safe m P → P a
Safe-ok P m a e h = subst (λ o. Safe o P) e h

pub Returns-ok {ℓ} :
    {A : Type ℓ} (P : A → Type 0) (m : Outcome A) (a : A) → m ≡ ok a → Returns m P → P a
Returns-ok P m a e h = subst (λ o. Returns o P) e h

pub Outcome-cases {ℓ} :
    {A : Type ℓ} (m : Outcome A)
    → ((a : A) × (m ≡ ok a)) ⊎ ((e : String) × (m ≡ err e)) ⊎ (m ≡ panic)
Outcome-cases (ok a) = inl (a, refl)
Outcome-cases (err e) = inr (inl (e, refl))
Outcome-cases panic = inr (inr refl)

pub Safe-not_panic {ℓ} : {A : Type ℓ} (P : A → Type 0) (m : Outcome A) → m ≡ panic → Safe m P → ⊥
Safe-not_panic P m e h = subst (λ o. Safe o P) e h

pub err-ne-ok {ℓ} : {A : Type ℓ} (e : String) (a : A) → err e ≢ ok a
err-ne-ok e a h = cc

-- A successful `?`, taken apart.
pub bind-ok {ℓ κ} :
    {A : Type ℓ} {B : Type κ} (m : Outcome A) (f : A → Outcome B) (b : B)
    → m >>= f ≡ ok b
    → (a : A) × (m ≡ ok a) × (f a ≡ ok b)
bind-ok (ok a) f b h = (a, refl, h)
bind-ok (err e) f b h = cc
bind-ok panic f b h = cc

pub with_context-ok {ℓ} :
    {A : Type ℓ} (msg : String) (o : Option A) (a : A) → with_context msg o ≡ ok a → o ≡ some a
with_context-ok msg (some b) a h = cc
with_context-ok msg none a h = cc

pub Safe-context {ℓ} :
    {A : Type ℓ} (P : A → Type 0) (msg : String) (o : Option A)
    → ((a : A) → o ≡ some a → P a)
    → Safe (with_context msg o) P
Safe-context P msg none h = tt
Safe-context P msg (some a) h = h a refl

-- A value, if there is one, has the property `P`.
abbrev pub Partial {ℓ} : {A : Type ℓ} → Outcome A → (A → Type 0) → Type 0
Partial (ok a) P = P a
Partial (err e) P = Unit
Partial panic P = Unit

pub Partial-bind {ℓ κ} :
    {A : Type ℓ} {B : Type κ} (P : B → Type 0) (Q : A → Type 0) (f : A → Outcome B) (m : Outcome A)
    → Partial m Q
    → ((a : A) → Q a → Partial (f a) P)
    → Partial (m >>= f) P
Partial-bind P Q f (ok a) h k = k a h
Partial-bind P Q f (err e) h k = tt
Partial-bind P Q f panic h k = tt

pub Partial-unwrap {ℓ κ} :
    {A : Type ℓ} {B : Type κ} (P : B → Type 0) (f : A → Outcome B) (o : Option A)
    → ((a : A) → o ≡ some a → Partial (f a) P)
    → Partial (unwrap o >>= f) P
Partial-unwrap P f none k = tt
Partial-unwrap P f (some a) k = k a refl

pub Partial-imp {ℓ} :
    {A : Type ℓ} (P Q : A → Type 0) (m : Outcome A)
    → ((a : A) → P a → Q a)
    → Partial m P
    → Partial m Q
Partial-imp P Q (ok a) f h = f a h
Partial-imp P Q (err e) f h = tt
Partial-imp P Q panic f h = tt

-- Whatever the first outcome is.
pub Partial-bind_any {ℓ κ} :
    {A : Type ℓ} {B : Type κ} (P : B → Type 0) (f : A → Outcome B) (m : Outcome A)
    → ((a : A) → Partial (f a) P)
    → Partial (m >>= f) P
Partial-bind_any P f (ok a) k = k a
Partial-bind_any P f (err e) k = tt
Partial-bind_any P f panic k = tt

-- The outcome itself, where it is a value.
pub Partial_self : {A : Type 0} (m : Outcome A) → Partial m (λ a. m ≡ ok a)
Partial_self (ok a) = refl
Partial_self (err e) = tt
Partial_self panic = tt

pub Partial-ok {ℓ} :
    {A : Type ℓ} (P : A → Type 0) (m : Outcome A) (a : A) → m ≡ ok a → Partial m P → P a
Partial-ok P m a e h = subst (λ o. Partial o P) e h

pub Safe-Partial {ℓ} : {A : Type ℓ} (P : A → Type 0) (m : Outcome A) → Safe m P → Partial m P
Safe-Partial P (ok a) h = h
Safe-Partial P (err e) h = tt
Safe-Partial P panic h = tt

pub bind_assoc {ℓ κ μ} :
    {A : Type ℓ} {B : Type κ} {C : Type μ} (m : Outcome A) (f : A → Outcome B) (g : B → Outcome C)
    → ((m >>= f) >>= g) ≡ (m >>= λ a. (f a >>= g))
bind_assoc (ok a) f g = refl
bind_assoc (err e) f g = refl
bind_assoc panic f g = refl

-- The value that is returned.
pub Returns-value {ℓ} :
    {A : Type ℓ} (P : A → Type 0) (m : Outcome A) → Returns m P → (a : A) × (m ≡ ok a) × P a
Returns-value P (ok a) h = (a, refl, h)
Returns-value P (err e) h = elim h [ ]
Returns-value P panic h = elim h [ ]

-- The value itself, where there is no panic.
pub Safe_self : {A : Type 0} (m : Outcome A) → Safe m (λ a. Unit) → Safe m (λ a. m ≡ ok a)
Safe_self (ok a) h = refl
Safe_self (err e) h = tt
Safe_self panic h = h

pub Safe-imp {ℓ} :
    {A : Type ℓ} (P Q : A → Type 0) (m : Outcome A) → ((a : A) → P a → Q a) → Safe m P → Safe m Q
Safe-imp P Q (ok a) f h = f a h
Safe-imp P Q (err e) f h = tt
Safe-imp P Q panic f h = h

pub Partial-with_context {ℓ κ} :
    {A : Type ℓ} {B : Type κ} (P : B → Type 0) (f : A → Outcome B) (msg : String) (o : Option A)
    → ((a : A) → o ≡ some a → Partial (f a) P)
    → Partial (with_context msg o >>= f) P
Partial-with_context P f msg none k = tt
Partial-with_context P f msg (some a) k = k a refl
