-- ===== src/Modes/Deleted/Cleaned.antt =====
-- A profile that is deleted: what the modes hold afterwards.
use coolerocontrol.Base.{◌≡◌, String, Bool, true, none, if◌then◌else◌}
use coolerocontrol.Base.Dict.{Dict}
use coolerocontrol.Base.Outcome.{Outcome, ok, err}
use coolerocontrol.Modes.{ModeController}
use coolerocontrol.Modes.Order.{IsSaved}
use coolerocontrol.Modes.Deleted.{Place}
use coolerocontrol.Modes.Deleted.Lookup.{place_eq, lookup}
use coolerocontrol.Modes.Deleted.Found.{refers}

pub record IsCleaned (writes : Bool) (profile_uid : String) (c : ModeController)
    (r : ModeController × Outcome (Unit {0})) : Type 0 where
  pub returned : r.1 ≡ (if writes then ok tt else err "Writing Modes Configuration File")
  pub settings :
      (q : Place)
      → lookup q r.0.modes
        ≡ (if refers profile_uid (lookup q c.modes) then none else lookup q c.modes)
  pub order : r.0.mode_order ≡ c.mode_order
  pub saved : writes ≡ true → IsSaved r.0
