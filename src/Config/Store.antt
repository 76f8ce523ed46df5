-- ===== src/Config/Store.antt =====
-- What the profiles, the functions and the custom sensors of config.rs are to a client: a list of
-- values with a UID each. An edit that is refused changes nothing.
use coolerocontrol.Base.{
  String, Bool, false, ◌||◌, Option, none, some, List, [], ◌∷◌, ◌++◌, if◌then◌else◌, string_eq,
  nat_eq, ◌==◌, length, find_by, ◌≢◌,
}
use coolerocontrol.Base.Outcome.{Outcome, ok, err, panic, ◌>>◌, with_context, ensure}
use coolerocontrol.Config.Entries.{Family}
use coolerocontrol.Config.Fields.{traverse}

pub data Edit (A : Type 0) : Type 0 where
  set : A → Edit A
  update : A → Edit A
  delete : String → Edit A
  order : List String → Edit A

module _ {A : Type 0} (fam : Family) (uid_of : A → String) where
  abbrev pub exists : String → List A → Bool
  exists uid [] = false
  exists uid (x ∷ xs) = uid_of x == uid || exists uid xs

  -- the first value with the UID replaced, or removed
  abbrev pub replace : String → A → List A → Option (List A)
  replace uid a [] = none
  replace uid a (x ∷ xs) =
      if uid_of x == uid
      then some (a ∷ xs)
      else elim (replace uid a xs) [ none ↦ none | some ys ↦ some (x ∷ ys) ]

  abbrev pub remove : String → List A → Option (List A)
  remove uid [] = none
  remove uid (x ∷ xs) =
      if uid_of x == uid
      then some xs
      else elim (remove uid xs) [ none ↦ none | some ys ↦ some (x ∷ ys) ]

  abbrev pub find : List A → String → Outcome A
  find xs uid = with_context fam.not_found (find_by (λ x. uid_of x == uid) xs)

  abbrev pub commit : List A → Outcome (List A) → Outcome (Unit {0}) × List A
  commit xs (ok ys) = (ok tt, ys)
  commit xs (err e) = (err e, xs)
  commit xs panic = (panic, xs)

  unfoldable pub edited : Edit A → List A → Outcome (Unit {0}) × List A
  edited (Edit.set a) xs =
      if exists (uid_of a) xs then (err fam.exists, xs) else (ok tt, xs ++ (a ∷ []))
  edited (Edit.update a) xs = commit xs (with_context fam.update_missing (replace (uid_of a) a xs))
  edited (Edit.delete uid) xs = commit xs (with_context fam.delete_missing (remove uid xs))
  edited (Edit.order uids) xs =
      commit xs (do ensure (length uids == length xs) fam.not_equal; traverse (find xs) uids)

  -- A value that is set or updated is one that can be stored; there is something to order.
  abbrev pub IsAllowed : (A → Type 0) → Edit A → List A → Type 0
  IsAllowed Ok (Edit.set a) xs = Ok a
  IsAllowed Ok (Edit.update a) xs = Ok a
  IsAllowed Ok (Edit.delete uid) xs = Unit
  IsAllowed Ok (Edit.order uids) xs = xs ≢ []
