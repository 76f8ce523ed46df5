-- ===== src/Processing/Lcd/Scheduled.antt =====
-- What is scheduled: by device, with a source each.
use coolerocontrol.Base.{
  ◌≡◌, sym, ◌∙◌, String, Bool, true, some, [], string_eq, All, inl, inr, Option-cases, subst,
  string_eq_iff,
}
use coolerocontrol.Base.Dict.{
  Dict, get, insert, remove, IsDistinct, IsDistinct-insert, All-get, All-insert, All-insert_key,
  All-remove,
}
use coolerocontrol.Setting.{LcdSettings, TempSource}
use coolerocontrol.Processing.Lcd.{insert_channel, remove_channel}

abbrev pub HasSource : LcdSettings → Type 0
HasSource lcd = (source : TempSource) × (lcd.temp_source ≡ some source)

-- `present` says which devices there are: the daemon finds them once.
module _ (present : String → Bool) where
  -- What is scheduled for a device that is there, with a source each.
  abbrev pub IsScheduled : String × Dict String LcdSettings → Type 0
  IsScheduled e = (present e.0 ≡ true) × All (λ entry. HasSource entry.1) e.1

  pub insert_channel-IsScheduled :
      (uid channel : String) (lcd : LcdSettings) (settings : Dict String (Dict String LcdSettings))
      → present uid ≡ true
      → HasSource lcd
      → All IsScheduled settings
      → All IsScheduled (insert_channel uid channel lcd settings)
  unfolding insert_channel
  insert_channel-IsScheduled uid channel lcd settings p source h =
      elim (Option-cases (get uid settings)) [
        | inl absent ↦ rw (absent, insert_channel) (put [] tt)
        | inr (channels, found) ↦
            let (j, same, shown) = All-get IsScheduled uid channels settings found h in
            rw (found, insert_channel) (put channels shown.1)
      ]
    where
      put :
          (channels : Dict String LcdSettings)
          → All (λ entry. HasSource entry.1) channels
          → All IsScheduled (insert uid (insert channel lcd channels) settings)
      put channels all =
          All-insert_key IsScheduled uid (insert channel lcd channels) settings
            (λ j e. (
              subst (λ x. present x ≡ true) (sym e) p,
              All-insert HasSource channel lcd channels source all,
            ))
            h

  pub remove_channel-IsScheduled :
      (uid channel : String) (settings : Dict String (Dict String LcdSettings))
      → All IsScheduled settings
      → All IsScheduled (remove_channel uid channel settings)
  unfolding remove_channel
  remove_channel-IsScheduled uid channel settings h = elim (Option-cases (get uid settings)) [
    | inl absent ↦ rw (absent, remove_channel) h
    | inr (channels, found) ↦
        let (j, same, shown) = All-get IsScheduled uid channels settings found h in
        let is_uid : j ≡ uid = string_eq_iff j uid same in
        rw (found, remove_channel)
          (All-insert_key IsScheduled uid (remove channel channels) settings
            (λ k e. (
              subst (λ x. present x ≡ true) (is_uid ∙ sym e) shown.0,
              All-remove (λ entry. HasSource entry.1) channel channels shown.1,
            ))
            h)
  ]

pub insert_channel-IsDistinct :
    {V : Type 0} (uid channel : String) (v : V) (settings : Dict String (Dict String V))
    → IsDistinct settings
    → IsDistinct (insert_channel uid channel v settings)
unfolding insert_channel
insert_channel-IsDistinct uid channel v settings h = elim (Option-cases (get uid settings)) [
  | inl absent ↦ rw (absent, insert_channel) (IsDistinct-insert uid _ settings h)
  | inr (channels, found) ↦ rw (found, insert_channel) (IsDistinct-insert uid _ settings h)
]

pub remove_channel-IsDistinct :
    {V : Type 0} (uid channel : String) (settings : Dict String (Dict String V))
    → IsDistinct settings
    → IsDistinct (remove_channel uid channel settings)
unfolding remove_channel
remove_channel-IsDistinct uid channel settings h = elim (Option-cases (get uid settings)) [
  | inl absent ↦ rw (absent, remove_channel) h
  | inr (channels, found) ↦ rw (found, remove_channel) (IsDistinct-insert uid _ settings h)
]
