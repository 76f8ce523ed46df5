-- ===== src/Config/Functions/Valid.antt =====
-- The functions that the configuration file gives to the rest of the program.
use coolerocontrol.Base.{
  String, true, ◌&&◌, List, [], ◌∷◌, ◌++◌, map, All, All-append, string_eq, ◌==◌, ◌≡◌, inl, inr,
  refl, subst, ◌∙◌, Bool-cases, Option-cases, arith,
}
use coolerocontrol.Base.Outcome.{
  Outcome, ok, err, panic, with_context, Safe-ok, Outcome-cases, bind-ok, err-ne-ok,
}
use coolerocontrol.Config.Entries.{get_entries, Edited}
use coolerocontrol.Config.Fields.{traverse}
use coolerocontrol.Config.Functions.{
  functions, has_default, get_current_functions, set_function, renamed, saved,
  with_default_function, get_functions,
}
use coolerocontrol.Config.Tables.FunctionValid.{IsValid, get_function-IsValid}
use coolerocontrol.Config.Tables.{get_function}
use coolerocontrol.Config.Toml.{Toml}
use coolerocontrol.Setting.{Function, default_function, default_function_uid}

traverse-All :
    {A B : Type 0} (P : B → Type 0) (f : A → Outcome B)
    → ((a : A) (b : B) → f a ≡ ok b → P b)
    → (xs : List A) (ys : List B) → traverse f xs ≡ ok ys
    → All P ys
traverse-All {A} {B} P f h [] ys e =
    subst (λ v. All P v) (let s : ◌≡◌ {A = List B} [] ys = cc in s) tt
traverse-All P f h (x ∷ xs) ys e =
    let (y, a, k) = bind-ok (f x) _ ys e in
    let (zs, b, k') = bind-ok (traverse f xs) _ ys k in
    let s : y ∷ zs ≡ ys = cc in subst (λ v. All P v) s (h x y a, traverse-All P f h xs zs b)

default_function-IsValid : (F : Type 0) → IsValid (default_function F)
default_function-IsValid F = record {
  minimum_pos = omega arith;
  minimum_one = inl (omega arith);
  below = omega arith;
  maximum_le = omega arith;
  delay = tt;
  window = tt;
}

has_default-append :
    {A : Type 0} (uid_of : A → String) (uid : String) (xs : List A) (y : A)
    → uid_of y == uid ≡ true
    → has_default uid_of uid (xs ++ y ∷ []) ≡ true
has_default-append uid_of uid [] y h = rw h refl
has_default-append uid_of uid (x ∷ xs) y h = elim (Bool-cases (uid_of x == uid)) [
  | inl hit ↦ rw hit refl
  | inr miss ↦ rw miss (has_default-append uid_of uid xs y h)
]

-- Whatever `has_default` finds is found after a map that keeps the UIDs.
has_default-map :
    {A : Type 0} (uid_of : A → String) (uid : String) (f : A → A)
    → ((a : A) → uid_of (f a) ≡ uid_of a)
    → (xs : List A) → has_default uid_of uid (map f xs) ≡ has_default uid_of uid xs
has_default-map uid_of uid f h [] = refl
has_default-map uid_of uid f h (x ∷ xs) = rw (h x, has_default-map uid_of uid f h xs) refl

All-map :
    {A : Type 0} (P : A → Type 0) (f : A → A)
    → ((a : A) → P a → P (f a))
    → (xs : List A) → All P xs
    → All P (map f xs)
All-map P f h [] a = tt
All-map P f h (x ∷ xs) a = (h x a.0, All-map P f h xs a.1)

module _ {F : Type 0} (toml : Toml F) where
  stored-IsValid :
      (doc : toml.Table) (fs : List (Function F))
      → get_current_functions toml doc ≡ ok fs
      → All IsValid fs
  unfolding get_current_functions get_entries
  stored-IsValid doc fs h = elim (Option-cases (toml.get doc "functions")) [
    | inl absent ↦
        let e : ◌≡◌ {A = Outcome (List (Function F))} (ok []) (ok fs) =
          rw (absent, get_entries) at h in
        let s : ◌≡◌ {A = List (Function F)} [] fs = cc in subst (λ v. All (IsValid {F = F}) v) s tt
    | inr (item, found) ↦
        let (ts, e, k) =
          bind-ok (with_context functions.not_tables (toml.as_array_of_tables item))
            (λ ts. traverse (get_function toml) ts) fs (rw (found, get_entries) at h) in
        traverse-All IsValid (get_function toml)
          (λ t f e. (Safe-ok _ (get_function toml t) f e (get_function-IsValid toml t)).0) ts fs k
  ]

  renamed_uid : (f : Function F) → (renamed toml f).uid ≡ f.uid
  renamed_uid f = elim (Bool-cases (f.uid == default_function_uid && f.name == "Identity")) [
    | inl hit ↦ rw hit refl
    | inr miss ↦ rw miss refl
  ]

  renamed-IsValid : (f : Function F) → IsValid f → IsValid (renamed toml f)
  renamed-IsValid f v = elim (Bool-cases (f.uid == default_function_uid && f.name == "Identity")) [
    | inl hit ↦ rw hit (record {
      minimum_pos = v.minimum_pos;
      minimum_one = v.minimum_one;
      below = v.below;
      maximum_le = v.maximum_le;
      delay = v.delay;
      window = v.window;
    })
    | inr miss ↦ rw miss v
  ]

  saved-ok :
      {A : Type 0} (save : toml.Table → Outcome (Unit {0})) (a b : A) (r : Edited toml functions)
      → (saved toml save a r).0 ≡ ok b
      → a ≡ b
  saved-ok save a b (ok u, doc) h = let (v, e, k) = bind-ok (save doc) (λ u. ok a) b h in cc
  saved-ok save a b (err e, doc) h = cc
  saved-ok save a b (panic, doc) h = cc

  returned :
      (save : toml.Table → Outcome (Unit {0})) (doc : toml.Table) (stored fs : List (Function F))
      → get_current_functions toml doc ≡ ok stored
      → (with_default_function toml save doc (ok stored)).0 ≡ ok fs
      → All IsValid fs × (has_default (λ f. f.uid) default_function_uid fs ≡ true)
  returned save doc stored fs k h =
      let valid = stored-IsValid doc stored k in
      elim (Bool-cases (has_default (λ (f : Function F). f.uid) default_function_uid stored)) [
        | inl found ↦
            let e : map (renamed toml) stored ≡ fs =
              let e' : ◌≡◌ {A = Outcome (List (Function F))} (ok (map (renamed toml) stored))
                  (ok fs) =
                rw found at h in
              cc in
            subst
              (λ v.
                All (IsValid {F = F}) v × (has_default (λ f. f.uid) default_function_uid v ≡ true))
              e
              (
                All-map IsValid (renamed toml) renamed-IsValid stored valid,
                has_default-map (λ f. f.uid) default_function_uid (renamed toml) renamed_uid stored
                    ∙ found,
              )
        | inr missing ↦
            let e =
              saved-ok save (stored ++ default_function F ∷ []) fs
                (set_function toml (default_function F) doc) (rw missing at h) in
            subst
              (λ v.
                All (IsValid {F = F}) v × (has_default (λ f. f.uid) default_function_uid v ≡ true))
              e
              (
                All-append IsValid stored (default_function F ∷ []) valid
                    (default_function-IsValid F, tt),
                has_default-append (λ f. f.uid) default_function_uid stored (default_function F)
                    refl,
              )
      ]

  -- `get_functions` returns functions in range only, and the default function is among them: the
  -- minimum of the duty lies between one and the maximum, which is at most 100, the response delay
  -- is a byte, and the sample window lies in 1 to 16.
  pub get_functions-IsValid :
      (save : toml.Table → Outcome (Unit {0})) (doc : toml.Table) (fs : List (Function F))
      → (get_functions toml save doc).0 ≡ ok fs
      → All IsValid fs × (has_default (λ f. f.uid) default_function_uid fs ≡ true)
  unfolding get_functions
  get_functions-IsValid save doc fs h = elim (Outcome-cases (get_current_functions toml doc)) [
    | inr (inl (e, k)) ↦ absurd (err-ne-ok e fs (rw k at h))
    | inr (inr k) ↦ let c : ◌≡◌ {A = Outcome (List (Function F))} panic (ok fs) = rw k at h in cc
    | inl (stored, k) ↦ returned save doc stored fs k (rw k at h)
  ]
