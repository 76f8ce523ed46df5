-- ===== src/Modes/Deleted/Lookup.antt =====
-- Removing settings from the modes: each setting that is removed reads as none, the others as before.
use coolerocontrol.Base.{
  Eq, ◌≡◌, refl, sym, ◌∙◌, ap, String, Bool, true, false, ◌&&◌, Option, none, some, List, [], ◌∷◌,
  string_eq, ◌==◌, if◌then◌else◌, is_empty, inl, inr, Bool-cases, Option-cases, All, string_eq_iff,
  arith,
}
use coolerocontrol.Base.Dict.{Dict, get, remove, insert, get-insert, get-remove}
use coolerocontrol.Base.Set
use coolerocontrol.Base.Outcome.{Returns, Returns-bind, Returns-imp}
use coolerocontrol.Setting.{Setting}
use coolerocontrol.Modes.{Mode, AllDeviceSettings}
use coolerocontrol.Modes.Deleted.{
  Place, without_setting, remove_affected_setting, remove_affected_settings,
}

abbrev pub same_place : Place → Place → Bool
same_place (m, d, c) (m', d', c') = (m == m') && ((d == d') && (c == c'))

pub same_place_self : (p : Place) → same_place p p ≡ true
same_place_self (m, d, c) =
    ground (arith, string_eq.eq_self m, string_eq.eq_self d, string_eq.eq_self c)

pub same_place_sym : (p q : Place) → same_place p q ≡ true → same_place q p ≡ true
same_place_sym (m, d, c) (m', d', c') h =
    ground (arith, string_eq.eq_sym m m', string_eq.eq_sym d d', string_eq.eq_sym c c')

pub same_place_trans :
    (p q r : Place) → same_place p q ≡ true → same_place q r ≡ true → same_place p r ≡ true
same_place_trans (m, d, c) (m', d', c') (m'', d'', c'') h k =
    ground
      (arith, string_eq.eq_trans m m' m'', string_eq.eq_trans d d' d'', string_eq.eq_trans c c' c'')

instance abbrev pub place_eq : Eq Place
place_eq = record {
  eq = same_place;
  eq_self = same_place_self;
  eq_sym = same_place_sym;
  eq_trans = same_place_trans;
}

abbrev pub setting_of : String → Option (Dict String Setting) → Option Setting
setting_of channel_name none = none
setting_of channel_name (some channels) = get channel_name channels

abbrev pub setting_in : String → String → Option Mode → Option Setting
setting_in device_uid channel_name none = none
setting_in device_uid channel_name (some mode) =
    setting_of channel_name (get device_uid mode.all_device_settings)

-- The setting at a place.
abbrev pub lookup : Place → Dict String Mode → Option Setting
lookup (m, d, c) modes = setting_in d c (get m modes)

get_of_empty :
    (c c' : String) (channels : Dict String Setting)
    → is_empty (remove c channels) ≡ true
    → (if c == c' then none else get c' channels) ≡ none
get_of_empty c c' channels h = sym (get-remove c c' channels) ∙ go (remove c channels) h
  where
    go : (m : Dict String Setting) → is_empty m ≡ true → get c' m ≡ none
    go [] h = unfold get in refl
    go (x ∷ m) h = cc

setting_of-without_setting :
    (d c d' c' : String) (channels : Dict String Setting) (settings : AllDeviceSettings)
    → get d settings ≡ some channels
    → setting_of c' (get d' (without_setting d c channels settings))
      ≡ (if (d == d') && (c == c') then none else setting_of c' (get d' settings))
unfolding without_setting
setting_of-without_setting d c d' c' channels settings there =
    elim (Bool-cases (is_empty (remove c channels))) [
      | inl nothing ↦ elim (Bool-cases (d == d')) [
        | inl same ↦
            let there' = sym (ap (λ x. get x settings) (string_eq_iff d d' same)) ∙ there in
            rw (nothing, get-remove d d' settings, same, there')
              (sym (get_of_empty c c' channels nothing))
        | inr other ↦ rw (nothing, get-remove d d' settings, other) refl
      ]
      | inr some_left ↦ elim (Bool-cases (d == d')) [
        | inl same ↦
            let there' = sym (ap (λ x. get x settings) (string_eq_iff d d' same)) ∙ there in
            rw (some_left, get-insert d d' (remove c channels) settings, same, there')
              (get-remove c c' channels)
        | inr other ↦ rw (some_left, get-insert d d' (remove c channels) settings, other) refl
      ]
    ]

abbrev IsPresent : Dict String Mode → Place → Type 0
IsPresent modes place = (s : Setting) × (lookup place modes ≡ some s)

-- Its mode and its device.
parts :
    (m d c : String) (modes : Dict String Mode)
    → IsPresent modes (m, d, c)
    → (mode : Mode) × (channels : Dict String Setting) × (get m modes ≡ some mode)
      × (get d mode.all_device_settings ≡ some channels)
parts m d c modes (s, e) = elim (Option-cases (get m modes)) [
  | inl absent ↦ ground (arith, absent)
  | inr (mode, found) ↦ elim (Option-cases (get d mode.all_device_settings)) [
    | inl absent ↦ ground (arith, found, absent)
    | inr (channels, there) ↦ (mode, channels, found, there)
  ]
]

abbrev Leaves : Place → Dict String Mode → Dict String Mode → Type 0
Leaves place modes left =
    (q : Place) → lookup q left ≡ (if place == q then none else lookup q modes)

remove_affected_setting-Leaves :
    (place : Place) (modes : Dict String Mode)
    → IsPresent modes place
    → Returns (remove_affected_setting place modes) (Leaves place modes)
unfolding remove_affected_setting
remove_affected_setting-Leaves (m, d, c) modes p =
    let (mode, channels, found, there) = parts m d c modes p in
    rw (found, there) (λ q. at q mode channels found there)
  where
    at :
        (q : Place) (mode : Mode) (channels : Dict String Setting)
        → get m modes ≡ some mode
        → get d mode.all_device_settings ≡ some channels
        → lookup q (
            insert m
              (record mode {
                all_device_settings = without_setting d c channels mode.all_device_settings;
              })
              modes)
          ≡ (if (m, d, c) == q then none else lookup q modes)
    at (m', d', c') mode channels found there = elim (Bool-cases (m == m')) [
      | inl same ↦
          let found' = sym (ap (λ x. get x modes) (string_eq_iff m m' same)) ∙ found in
          rw
            (
              get-insert m m'
                  (record mode {
                    all_device_settings = without_setting d c channels mode.all_device_settings;
                  })
                  modes,
              same,
              found',
            )
            (setting_of-without_setting d c d' c' channels mode.all_device_settings there)
      | inr other ↦
          rw
            (
              get-insert m m'
                  (record mode {
                    all_device_settings = without_setting d c channels mode.all_device_settings;
                  })
                  modes,
              other,
            )
            refl
    ]

Leaves-IsPresent :
    (place : Place) (modes left : Dict String Mode) (rest : List Place)
    → Leaves place modes left
    → All (λ q. place == q ≡ false) rest
    → All (IsPresent modes) rest
    → All (IsPresent left) rest
Leaves-IsPresent place modes left [] l n h = tt
Leaves-IsPresent place modes left (q ∷ rest) l n h =
    ((h.0.0, rw (l q, n.0) h.0.1), Leaves-IsPresent place modes left rest l n.1 h.1)

-- The places are present and different: each one can be removed.
pub remove_affected_settings-lookup :
    (places : List Place) (modes : Dict String Mode)
    → Set.HasNoRepeats places
    → All (λ place. (s : Setting) × (lookup place modes ≡ some s)) places
    → Returns (remove_affected_settings places modes) λ left.
      (q : Place) → lookup q left ≡ (if Set.contains q places then none else lookup q modes)
unfolding remove_affected_settings Set.contains
remove_affected_settings-lookup [] modes n h = λ q. refl
remove_affected_settings-lookup (place ∷ rest) modes n h =
    Returns-bind _ (Leaves place modes) _ (remove_affected_setting place modes)
      (remove_affected_setting-Leaves place modes h.0)
      λ removed l.
        Returns-imp _ _ (remove_affected_settings rest removed)
          (λ left r q. ground (arith, r q, l q))
          (remove_affected_settings-lookup rest removed n.1
            (Leaves-IsPresent place modes removed rest l (Set.All-contains_ne place rest n.0) h.1))
