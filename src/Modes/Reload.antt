-- ===== src/Modes/Reload.antt =====
-- The file holds the modes: reading it again gives the same ones.
use coolerocontrol.Base.{◌≡◌, String, string_eq}
use coolerocontrol.Base.Dict.{Dict}
use coolerocontrol.Modes.{ModeController, get_modes, get_mode}

-- The modes by UID, and their order.
abbrev pub SameModes : ModeController → ModeController → Type 0
SameModes r c =
    ((uid : String) → get_mode uid r ≡ get_mode uid c)
    × (r.mode_order ≡ c.mode_order)
    × (get_modes r ≡ get_modes c)
