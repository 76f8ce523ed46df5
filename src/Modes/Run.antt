-- ===== src/Modes/Run.antt =====
-- The modes over any sequence of operations.
use coolerocontrol.Base.{
  ◌≡◌, refl, ◌∙◌, inl, inr, String, Bool, true, false, Option, some, List, [], string_eq,
  Option-cases, Any, Bool-cases, length, ◌==◌, nat_eq, All, ◌∷◌,
}
use coolerocontrol.Base.Dict.{Dict, get, contains_key, contains_key_of_get, contains_key-replace}
use coolerocontrol.Base.Set
use coolerocontrol.Base.Outcome.{ok, Outcome-cases, Partial-ok}
use coolerocontrol.Setting.{Setting}
use coolerocontrol.Modes.{
  Mode, ModeController, ModeConfigFile, get_modes, get_mode, create_with, update_mode,
  update_mode_order, delete_mode, add_mode, save_modes_data, by_device,
}
use coolerocontrol.Modes.Keys.{
  HasKeys, HasKeys-insert, HasKeys-remove, by_device-HasChannels, HasChannels,
}
use coolerocontrol.Modes.Load.{update_with, init, insert_modes, fill_data_from_mode_config_file}
use coolerocontrol.Modes.Deleted.{
  profile_deleted, remove_affected_settings, search_for_deleted_profile,
}
use coolerocontrol.Modes.Deleted.Removed.{
  remove_affected_settings-keys, remove_affected_settings-HasKeys, HasKeys-replace, mode_of_key,
}
use coolerocontrol.Modes.Order.{
  IsConsistent, IsKept, refused, save_modes_data-IsKept, create_with-IsKept, delete_mode-IsDeleted,
  get_modes_complete,
}

-- Renaming a mode keeps the modes consistent, whether the mode exists or not.
update_mode-IsKept :
    (writes : Bool) (mode_uid name : String) (c : ModeController)
    → IsConsistent c
    → IsKept (update_mode writes mode_uid name c)
unfolding update_mode
update_mode-IsKept writes mode_uid name c h = elim (Option-cases (get mode_uid c.modes)) [
  | inl absent ↦ rw (absent, update_mode) (refused c _ h)
  | inr (mode, found) ↦
      rw (found, update_mode)
        (save_modes_data-IsKept writes _ (λ k.
          contains_key-replace mode_uid k (record mode { name = name }) c.modes
            (contains_key_of_get mode_uid c.modes mode found)
          ∙ h k))
]

update_with-IsKept :
    (writes : Bool) (mode_uid : String) (settings : Dict String (List Setting)) (c : ModeController)
    → IsConsistent c
    → IsKept (update_with writes mode_uid (ok settings) c)
unfolding update_with
update_with-IsKept writes mode_uid settings c h = elim (Option-cases c.active_mode) [
  | inr (active, a) ↦ rw (a, update_with) (refused c _ h)
  | inl idle ↦ elim (Option-cases (get mode_uid c.modes)) [
    | inl absent ↦ rw (idle, absent, update_with) (refused c _ h)
    | inr (mode, found) ↦
        rw (idle, found, update_with)
          (save_modes_data-IsKept writes _ (λ k.
            contains_key-replace mode_uid k _ c.modes
              (contains_key_of_get mode_uid c.modes mode found)
            ∙ h k))
  ]
]

profile_deleted-IsKept :
    (writes : Bool) (profile_uid : String) (c : ModeController)
    → IsConsistent c
    → IsKept (profile_deleted writes profile_uid c)
unfolding profile_deleted
profile_deleted-IsKept writes profile_uid c h =
    let places = search_for_deleted_profile profile_uid c.modes in
    elim (Outcome-cases (remove_affected_settings places c.modes)) [
      | inl (modes, e) ↦
          rw (e, profile_deleted)
            (save_modes_data-IsKept writes _
              (λ k. Partial-ok _ _ modes e (remove_affected_settings-keys places c.modes) k ∙ h k))
      | inr (inl (msg, e)) ↦ rw (e, profile_deleted) (refused c msg h)
      | inr (inr e) ↦ rw (e, profile_deleted) (record { consistent = h; saved = λ o. cc })
    ]

-- One operation, with whatever result. A new order must have the UIDs of the old one.
pub data Step : ModeController → ModeController → Type 0 where
  created :
      {c : ModeController} (writes : Bool) (mode_uid name : String)
      (settings : Dict String (List Setting))
      → Step c (create_with writes mode_uid name (ok settings) c).0
  renamed :
      {c : ModeController} (writes : Bool) (mode_uid name : String)
      → Step c (update_mode writes mode_uid name c).0
  ordered :
      {c : ModeController} (writes : Bool) (mode_uids : List String)
      → ((k : String) → Set.contains k c.mode_order ≡ Set.contains k mode_uids)
      → Step c (update_mode_order writes mode_uids c).0
  deleted :
      {c : ModeController} (writes : Bool) (mode_uid : String)
      → Step c (delete_mode writes mode_uid c).0
  updated :
      {c : ModeController} (writes : Bool) (mode_uid : String)
      (settings : Dict String (List Setting))
      → Step c (update_with writes mode_uid (ok settings) c).0
  cleaned :
      {c : ModeController} (writes : Bool) (profile_uid : String)
      → Step c (profile_deleted writes profile_uid c).0
  determined :
      {c : ModeController} (active : Option String) → Step c (record c { active_mode = active })

-- The daemon starts with a file that lists its modes; the maps of the file have no key twice.
pub data Reachable : ModeController → Type 0 where
  started :
      (writes : Bool) (file : ModeConfigFile)
      → All (λ m. HasChannels m.all_device_settings) file.modes
      → ((k : String) → contains_key k (insert_modes file.modes []) ≡ Set.contains k file.order)
      → Reachable (init true writes file).0
  stepped : {c c' : ModeController} → Reachable c → Step c c' → Reachable c'

update_mode_order-IsKept :
    (writes : Bool) (mode_uids : List String) (c : ModeController)
    → IsConsistent c
    → ((k : String) → Set.contains k c.mode_order ≡ Set.contains k mode_uids)
    → IsKept (update_mode_order writes mode_uids c)
unfolding update_mode_order
update_mode_order-IsKept writes mode_uids c h p =
    elim (Bool-cases (length c.mode_order == length mode_uids)) [
      | inl same ↦ rw (same, update_mode_order) (save_modes_data-IsKept writes _ (λ k. h k ∙ p k))
      | inr other ↦ rw (other, update_mode_order) (refused c _ h)
    ]

delete_mode-IsConsistent :
    (writes : Bool) (mode_uid : String) (c : ModeController)
    → IsConsistent c
    → IsConsistent (delete_mode writes mode_uid c).0
delete_mode-IsConsistent writes mode_uid c h = elim (Bool-cases (contains_key mode_uid c.modes)) [
  | inl present ↦ (delete_mode-IsDeleted writes mode_uid c h present).kept.consistent
  | inr absent ↦ unfold delete_mode in rw (absent, delete_mode) h
]

Step-IsConsistent : (c c' : ModeController) → Step c c' → IsConsistent c → IsConsistent c'
Step-IsConsistent c c' (created writes mode_uid name settings) h =
    (create_with-IsKept writes mode_uid name settings c h).consistent
Step-IsConsistent c c' (renamed writes mode_uid name) h =
    (update_mode-IsKept writes mode_uid name c h).consistent
Step-IsConsistent c c' (ordered writes mode_uids p) h =
    (update_mode_order-IsKept writes mode_uids c h p).consistent
Step-IsConsistent c c' (deleted writes mode_uid) h = delete_mode-IsConsistent writes mode_uid c h
Step-IsConsistent c c' (updated writes mode_uid settings) h =
    (update_with-IsKept writes mode_uid settings c h).consistent
Step-IsConsistent c c' (cleaned writes profile_uid) h =
    (profile_deleted-IsKept writes profile_uid c h).consistent
Step-IsConsistent c c' (determined active) h = h

Reachable-IsConsistent : (c : ModeController) → Reachable c → IsConsistent c
unfolding init fill_data_from_mode_config_file
Reachable-IsConsistent c (started writes file d o) = o
Reachable-IsConsistent c (stepped {c = b} r s) =
    Step-IsConsistent b c s (Reachable-IsConsistent b r)

save_modes_data-HasKeys :
    (writes : Bool) (c : ModeController)
    → HasKeys c.modes
    → HasKeys (save_modes_data writes c).0.modes
unfolding save_modes_data
save_modes_data-HasKeys true c h = h
save_modes_data-HasKeys false c h = h

Step-HasKeys : (c c' : ModeController) → Step c c' → HasKeys c.modes → HasKeys c'.modes
unfolding create_with add_mode update_mode update_mode_order delete_mode update_with profile_deleted
Step-HasKeys c c' (created writes mode_uid name settings) h = elim (Option-cases c.active_mode) [
  | inr (active, a) ↦ rw (a, create_with) h
  | inl idle ↦
      rw (idle, create_with)
        (save_modes_data-HasKeys writes _ (
          HasKeys-insert
            (record { uid = mode_uid; name = name; all_device_settings = by_device settings [] })
            c.modes (by_device-HasChannels settings) h))
]
Step-HasKeys c c' (renamed writes mode_uid name) h = elim (Option-cases (get mode_uid c.modes)) [
  | inl absent ↦ rw (absent, update_mode) h
  | inr (mode, found) ↦
      rw (found, update_mode)
        (save_modes_data-HasKeys writes _ (
          HasKeys-replace mode_uid mode (record mode { name = name }) c.modes refl found
            (mode_of_key mode_uid mode c.modes h found).1 h))
]
Step-HasKeys c c' (ordered writes mode_uids p) h =
    elim (Bool-cases (length c.mode_order == length mode_uids)) [
      | inl same ↦ rw (same, update_mode_order) (save_modes_data-HasKeys writes _ h)
      | inr other ↦ rw (other, update_mode_order) h
    ]
Step-HasKeys c c' (deleted writes mode_uid) h = elim (Bool-cases (contains_key mode_uid c.modes)) [
  | inl present ↦
      rw (present, delete_mode)
        (save_modes_data-HasKeys writes _ (HasKeys-remove mode_uid c.modes h))
  | inr absent ↦ rw (absent, delete_mode) h
]
Step-HasKeys c c' (updated writes mode_uid settings) h = elim (Option-cases c.active_mode) [
  | inr (active, a) ↦ rw (a, update_with) h
  | inl idle ↦ elim (Option-cases (get mode_uid c.modes)) [
    | inl absent ↦ rw (idle, absent, update_with) h
    | inr (mode, found) ↦
        rw (idle, found, update_with)
          (save_modes_data-HasKeys writes _ (
            HasKeys-replace mode_uid mode
              (record mode { all_device_settings = by_device settings [] }) c.modes refl found
              (by_device-HasChannels settings) h))
  ]
]
Step-HasKeys c c' (cleaned writes profile_uid) h =
    let places = search_for_deleted_profile profile_uid c.modes in
    elim (Outcome-cases (remove_affected_settings places c.modes)) [
      | inl (modes, e) ↦
          rw (e, profile_deleted)
            (save_modes_data-HasKeys writes _
              (Partial-ok HasKeys _ modes e (remove_affected_settings-HasKeys places c.modes h)))
      | inr (inl (msg, e)) ↦ rw (e, profile_deleted) h
      | inr (inr e) ↦ rw (e, profile_deleted) h
    ]
Step-HasKeys c c' (determined active) h = h

insert_modes-HasKeys :
    (modes : List Mode) (found : Dict String Mode)
    → All (λ m. HasChannels m.all_device_settings) modes
    → HasKeys found
    → HasKeys (insert_modes modes found)
unfolding insert_modes
insert_modes-HasKeys [] found d h = h
insert_modes-HasKeys (m ∷ rest) found d h =
    insert_modes-HasKeys rest _ d.1 (HasKeys-insert m found d.0 h)

pub Reachable-HasKeys : (c : ModeController) → Reachable c → HasKeys c.modes
unfolding init fill_data_from_mode_config_file
Reachable-HasKeys c (started writes file d o) =
    insert_modes-HasKeys file.modes [] d (record { distinct = tt; entries = tt })
Reachable-HasKeys c (stepped {c = b} r s) = Step-HasKeys b c s (Reachable-HasKeys b r)

-- Whatever modes and profiles have been created, renamed, updated, reordered and deleted since the
-- daemon started: each mode that exists is listed, where the file listed its modes and every new
-- order had the UIDs of the old one.
pub Reachable-listed :
    (c : ModeController) (uid : String) (m : Mode)
    → Reachable c
    → get_mode uid c ≡ some m
    → Any (λ x. x ≡ m) (get_modes c)
Reachable-listed c uid m r e = get_modes_complete c uid m (Reachable-IsConsistent c r) e
