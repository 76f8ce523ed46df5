-- ===== src/Processing/Chain/Samples.antt =====
-- A sample machine with one scheduled profile, and what holds of it.
use coolerocontrol.Base.{
  ℕ, ◌≡◌, refl, String, false, Option, some, List, [], ◌∷◌, arith, string_eq, ap, is_empty,
}
use coolerocontrol.Base.Dict.{get, contains_key}
use coolerocontrol.Base.Fixed.{fixed}
use coolerocontrol.Device.{Device}
use coolerocontrol.Processing.Samples.{profile, devices_at, device_at, standard_function}
use coolerocontrol.Processing.Standard
use coolerocontrol.Processing.Standard.Stack.{HasSettings}
use coolerocontrol.Processing.Standard.Process.{HasHistory}
use coolerocontrol.Processing.Threshold
use coolerocontrol.Processing.Latch
use coolerocontrol.Processing.Chain.{ProcessorCollection}
use coolerocontrol.Processing.Chain.Temp.{IsReady}
use coolerocontrol.Processing.Chain.Round.{IsScheduled}

-- A moving average that returns its samples.
abbrev pub averages : ℕ → List ℕ → Option (List ℕ)
averages window samples = some samples

abbrev pub scheduled : ProcessorCollection ℕ
scheduled = record {
  fun_safety_latch = ("p1", Latch.new) ∷ [];
  fun_std_pre = ("p1", Standard.new) ∷ [];
  fun_duty_thresh_post = ("p1", Threshold.new) ∷ [];
}

get-one : {V : Type 0} (k j : String) (v w : V) → get k ((j, v) ∷ []) ≡ some w → w ≡ v
unfolding get
get-one k j v w h = ground arith

pub devices_at-HasHistory : (temp : ℕ) → HasHistory (devices_at temp)
devices_at-HasHistory temp uid device e =
    ap (λ (d : Device ℕ). is_empty d.status_history) (get-one uid "dev" (device_at temp) device e)

pub standard_settings : HasSettings standard_function
standard_settings = record {
  delay = 1;
  down = false;
  deviance = 2000;
  has_delay = refl;
  has_down = refl;
  has_deviance = refl;
}

pub profile-IsReady : IsReady averages standard_function
profile-IsReady = record { settings = λ _. standard_settings; window = λ h. cc }

pub scheduled-IsScheduled : IsScheduled averages scheduled profile
unfolding contains_key
scheduled-IsScheduled = record { latch = refl; std = refl; thresh = refl; curve = refl }
