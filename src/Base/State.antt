-- ===== src/Base/State.antt =====
-- Code that changes a state and may fail: the state after an error is the one that was reached.
use mathlib.Core.List.{List, [], ◌∷◌}
use mathlib.Core.Path.{◌≡◌, refl}
use mathlib.Core.Bool.{Bool, true, false}
use coolerocontrol.Base.Tests.{if◌then◌else◌}
use coolerocontrol.Base.Outcome.{Outcome, ok, err, panic}

abbrev pub Action : Type 0 → Type 0 → Type 0
Action S A = S → S × Outcome A

module _ {S A : Type 0} where
  abbrev pub lift : Outcome A → Action S A
  lift o s = (s, o)

  abbrev pub continue : {B : Type 0} → S × Outcome A → (A → Action S B) → S × Outcome B
  continue (s, ok a) f = f a s
  continue (s, err e) f = (s, err e)
  continue (s, panic) f = (s, panic)

  -- `unwrap_or_else` on the result: an error gives the default.
  abbrev pub recovered : A → S × Outcome A → S × Outcome A
  recovered default (s, ok a) = (s, ok a)
  recovered default (s, err e) = (s, ok default)
  recovered default (s, panic) = (s, panic)

  abbrev pub or_else : A → Action S A → Action S A
  or_else default m s = recovered default (m s)

infixl 5 ◌>>=◌ ◌>>◌
unfoldable pub ◌>>=◌ : {S A B : Type 0} → Action S A → (A → Action S B) → Action S B
m >>= f = λ s. continue (m s) f

abbrev pub ◌>>◌ : {S B : Type 0} → Action S (Unit {0}) → Action S B → Action S B
m >> k = m >>= λ _. k

module _ {S : Type 0} where
  abbrev pub done : Action S (Unit {0})
  done = lift (ok tt)

  -- `.ok()` drops an error.
  abbrev pub attempt : Action S (Unit {0}) → Action S (Unit {0})
  attempt = or_else tt

  -- A `for` loop whose body may return an error.
  unfoldable pub for_each : {A : Type 0} → (A → Action S (Unit {0})) → List A → Action S (Unit {0})
  for_each f [] = done
  for_each f (a ∷ xs) = do f a; for_each f xs

  -- From a state with `P` the action leads to one with `Q`, with or without an error.
  pub record Hoare {A : Type 0} (P : S → Type 0) (m : Action S A) (Q : S → Type 0) : Type 0 where
    pub holds : (s : S) → P s → Q (m s).0

  module _ {A B : Type 0} (P Q R : S → Type 0) where
    Hoare-continue :
        (r : S × Outcome A) (f : A → Action S B)
        → ((s : S) → Q s → R s)
        → ((a : A) → Hoare Q (f a) R)
        → Q r.0
        → R (continue r f).0
    Hoare-continue (s, ok a) f k h q = (h a).holds s q
    Hoare-continue (s, err e) f k h q = k s q
    Hoare-continue (s, panic) f k h q = k s q

    pub Hoare-bind :
        (m : Action S A) (f : A → Action S B)
        → ((s : S) → Q s → R s)
        → Hoare P m Q
        → ((a : A) → Hoare Q (f a) R)
        → Hoare P (m >>= f) R
    unfolding ◌>>=◌
    Hoare-bind m f k h1 h2 = record { holds = λ s p. Hoare-continue (m s) f k h2 (h1.holds s p) }

  -- A check or a lookup, whose value the rest knows.
  pub Hoare-check :
      {A B : Type 0} (P R : S → Type 0) (o : Outcome A) (f : A → Action S B)
      → ((s : S) → P s → R s)
      → ((a : A) → o ≡ ok a → Hoare P (f a) R)
      → Hoare P (lift o >>= f) R
  unfolding ◌>>=◌
  Hoare-check P R (ok a) f k h = record { holds = (h a refl).holds }
  Hoare-check P R (err e) f k h = record { holds = k }
  Hoare-check P R panic f k h = record { holds = k }

  pub Hoare-if :
      {A : Type 0} (P Q : S → Type 0) (b : Bool) (m n : Action S A)
      → Hoare P m Q
      → Hoare P n Q
      → Hoare P (if b then m else n) Q
  Hoare-if P Q true m n h k = h
  Hoare-if P Q false m n h k = k

  module _ (P : S → Type 0) where
    -- An action keeps `P`.
    abbrev pub Keeps : {A : Type 0} → Action S A → Type 0
    Keeps m = Hoare P m P

    pub Keeps-lift : {A : Type 0} (o : Outcome A) → Keeps (lift o)
    Keeps-lift o = record { holds = λ s p. p }

    pub Keeps-bind :
        {A B : Type 0} (m : Action S A) (f : A → Action S B)
        → Keeps m
        → ((a : A) → Keeps (f a))
        → Keeps (m >>= f)
    Keeps-bind m f h1 h2 = Hoare-bind P P P m f (λ s p. p) h1 h2

    -- A check or a lookup first.
    pub Keeps-check :
        {A B : Type 0} (o : Outcome A) (f : A → Action S B)
        → ((a : A) → Keeps (f a))
        → Keeps (lift o >>= f)
    Keeps-check o f h = Keeps-bind (lift o) f (Keeps-lift o) h

    recovered-keeps : {A : Type 0} (d : A) (r : S × Outcome A) → P r.0 → P (recovered d r).0
    recovered-keeps d (s, ok a) p = p
    recovered-keeps d (s, err e) p = p
    recovered-keeps d (s, panic) p = p

    pub Keeps-or_else : {A : Type 0} (d : A) (m : Action S A) → Keeps m → Keeps (or_else d m)
    Keeps-or_else d m h = record { holds = λ s p. recovered-keeps d (m s) (h.holds s p) }

    pub Keeps-for_each :
        {A : Type 0} (f : A → Action S (Unit {0})) (xs : List A)
        → ((a : A) → Keeps (f a))
        → Keeps (for_each f xs)
    unfolding for_each
    Keeps-for_each f [] h = Keeps-lift (ok tt)
    Keeps-for_each f (x ∷ xs) h =
        Keeps-bind (f x) (λ _. for_each f xs) (h x) (λ _. Keeps-for_each f xs h)
