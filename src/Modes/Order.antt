-- ===== src/Modes/Order.antt =====
-- The modes and their order stay consistent, and each mode is listed.
use coolerocontrol.Base.{
  ◌≡◌, ◌≢◌, refl, sym, ap, ◌∙◌, inl, inr, String, Bool, true, false, none, some, List, [], ◌∷◌,
  ◌++◌, arith, map, string_eq, string_eq_iff, ◌==◌, Bool-cases, Option-cases, Any, if◌then◌else◌,
}
use coolerocontrol.Base.Dict.{
  Dict, get, contains_key, remove, contains_key-insert, contains_key-remove, contains_key_of_get,
  get-remove,
}
use coolerocontrol.Base.Set
use coolerocontrol.Base.Outcome.{Outcome, ok, err, err-ne-ok}
use coolerocontrol.Setting.{Setting}
use coolerocontrol.Modes.{
  Mode, ModeController, modes_in, get_modes, get_mode, save_modes_data, add_mode, by_device,
  create_with, retain_others, delete_mode,
}

-- A mode has a place in the order, and a place in the order has a mode.
abbrev pub IsConsistent : ModeController → Type 0
IsConsistent c = (uid : String) → contains_key uid c.modes ≡ Set.contains uid c.mode_order

-- The configuration file holds the modes and their order.
abbrev pub IsSaved : ModeController → Type 0
IsSaved c = c.config_file ≡ record { modes = map (λ e. e.1) c.modes; order = c.mode_order }

-- What an operation keeps: consistency, and a file that is up to date if it succeeds.
pub record IsKept (r : ModeController × Outcome (Unit {0})) : Type 0 where
  pub consistent : IsConsistent r.0
  pub saved : r.1 ≡ ok tt → IsSaved r.0

pub refused : (c : ModeController) (msg : String) → IsConsistent c → IsKept (c, err msg)
refused c msg h = record { consistent = h; saved = λ o. absurd (err-ne-ok msg tt o) }

pub save_modes_data-IsKept :
    (writes : Bool) (c : ModeController) → IsConsistent c → IsKept (save_modes_data writes c)
unfolding save_modes_data
save_modes_data-IsKept true c h = record { consistent = h; saved = λ _. refl }
save_modes_data-IsKept false c h = refused c _ h

true-ne-false : true ≢ false
true-ne-false h = cc

contains-snoc :
    (uid k : String) (xs : List String)
    → Set.contains k (xs ++ uid ∷ []) ≡ (if uid == k then true else Set.contains k xs)
unfolding Set.contains
contains-snoc uid k [] = refl
contains-snoc uid k (x ∷ xs) = ground (arith, contains-snoc uid k xs)

contains-retain_others :
    (uid k : String) (xs : List String)
    → Set.contains k (retain_others uid xs) ≡ (if uid == k then false else Set.contains k xs)
unfolding Set.contains retain_others
contains-retain_others uid k [] = ground arith
contains-retain_others uid k (x ∷ xs) = ground (
  arith,
  contains-retain_others uid k xs,
  string_eq.eq_trans x uid k,
  string_eq.eq_trans uid x k,
  string_eq.eq_trans x k uid,
  string_eq.eq_sym x uid,
  string_eq.eq_sym uid k,
)

-- Creating a mode from settings that could be read keeps the modes consistent, and if it succeeds
-- the file holds the modes and their order.
pub create_with-IsKept :
    (writes : Bool) (mode_uid name : String) (settings : Dict String (List Setting))
    (c : ModeController)
    → IsConsistent c
    → IsKept (create_with writes mode_uid name (ok settings) c)
unfolding create_with add_mode
create_with-IsKept writes mode_uid name settings c h = elim (Option-cases c.active_mode) [
  | inl idle ↦
      rw (idle, create_with)
        (save_modes_data-IsKept writes _ (λ k. ground (
          arith,
          h k,
          contains_key-insert mode_uid k
              (record { uid = mode_uid; name = name; all_device_settings = by_device settings [] })
              c.modes,
          contains-snoc mode_uid k c.mode_order,
        )))
  | inr (active, a) ↦ rw (a, create_with) (refused c _ h)
]

-- What is left after a mode has been deleted.
pub record IsDeleted (mode_uid : String) (c : ModeController)
    (r : ModeController × Outcome (Unit {0})) : Type 0 where
  pub kept : IsKept r
  pub gone : get_mode mode_uid r.0 ≡ none
  pub unlisted : Set.contains mode_uid r.0.mode_order ≡ false
  pub others :
      (k : String)
      → mode_uid == k ≡ false
      → (get_mode k r.0 ≡ get_mode k c)
        × (Set.contains k r.0.mode_order ≡ Set.contains k c.mode_order)

pub saved_as :
    (writes : Bool) (s : ModeController)
    → ((save_modes_data writes s).0.modes ≡ s.modes)
      × ((save_modes_data writes s).0.mode_order ≡ s.mode_order)
unfolding save_modes_data
saved_as true s = (refl, refl)
saved_as false s = (refl, refl)

-- Deleting a mode that exists keeps the modes consistent, and if it succeeds the file holds them;
-- the mode is gone and not listed any more, and the others are as before.
pub delete_mode-IsDeleted :
    (writes : Bool) (mode_uid : String) (c : ModeController)
    → IsConsistent c
    → contains_key mode_uid c.modes ≡ true
    → IsDeleted mode_uid c (delete_mode writes mode_uid c)
unfolding delete_mode get_mode
delete_mode-IsDeleted writes mode_uid c h present =
    let s = record c {
      modes = remove mode_uid c.modes;
      mode_order = retain_others mode_uid c.mode_order;
    } in
    let (same_modes, same_order) = saved_as writes s in
    rw (present, delete_mode)
      (record {
        kept = save_modes_data-IsKept writes s (λ k. ground (
          arith,
          h k,
          contains_key-remove mode_uid k c.modes,
          contains-retain_others mode_uid k c.mode_order,
        ));
        gone =
            rw same_modes
              (ground (arith, get-remove mode_uid mode_uid c.modes, string_eq.eq_self mode_uid));
        unlisted = rw same_order (
            ground (
              arith,
              contains-retain_others mode_uid mode_uid c.mode_order,
              string_eq.eq_self mode_uid,
            ));
        others = λ k other. (
          rw same_modes (ground (arith, get-remove mode_uid k c.modes)),
          rw same_order (ground (arith, contains-retain_others mode_uid k c.mode_order)),
        );
      })

modes_in-Any :
    (modes : Dict String Mode) (uid : String) (m : Mode) (order : List String)
    → get uid modes ≡ some m
    → Set.contains uid order ≡ true
    → Any (λ x. x ≡ m) (modes_in modes order)
unfolding modes_in Set.contains
modes_in-Any modes uid m [] e h = absurd (true-ne-false (sym h))
modes_in-Any modes uid m (u ∷ rest) e h = elim (Bool-cases (u == uid)) [
  | inl hit ↦
      let same : get u modes ≡ some m = ap (λ k. get k modes) (string_eq_iff u uid hit) ∙ e in
      rw (same, modes_in) (inl refl)
  | inr miss ↦
      let later = modes_in-Any modes uid m rest e (ground arith) in
      elim (Option-cases (get u modes)) [
        | inl absent ↦ rw (absent, modes_in) later
        | inr (x, found) ↦ rw (found, modes_in) (inr later)
      ]
]

-- Each mode of a consistent controller is listed.
pub get_modes_complete :
    (c : ModeController) (uid : String) (m : Mode)
    → IsConsistent c
    → get_mode uid c ≡ some m
    → Any (λ x. x ≡ m) (get_modes c)
unfolding get_modes get_mode
get_modes_complete c uid m h e =
    modes_in-Any c.modes uid m c.mode_order e (sym (h uid) ∙ contains_key_of_get uid c.modes m e)
