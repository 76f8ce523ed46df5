-- ===== src/Processing/Graph/Samples.antt =====
-- A commander with the sample profile scheduled, and what holds of it.
use coolerocontrol.Base.{
  ℕ, ◌≡◌, refl, String, Bool, true, false, Option, none, some, [], ◌∷◌, string_eq, ◌==◌,
  if◌then◌else◌,
}
use coolerocontrol.Base.Dict.{contains_key, insert}
use coolerocontrol.Base.Fixed.{fixed}
use coolerocontrol.Setting.{Profile, ProfileType}
use coolerocontrol.Processing.{graph}
use coolerocontrol.Processing.Samples.{profile, devices_at}
use coolerocontrol.Processing.Chain.Samples.{
  averages, scheduled, profile-IsReady, scheduled-IsScheduled,
}
use coolerocontrol.Processing.Graph.{GraphProfileCommander}
use coolerocontrol.Processing.Graph.Entries.{AllCounting, IsWellFormed}
use coolerocontrol.Processing.Graph.Schedule.{AllCounting-insert}
use coolerocontrol.Processing.Graph.Run.{AllCounting-nil}

abbrev pub present : String → Bool
present uid = if "dev" == uid then true else false

abbrev pub given : Profile ℕ
given = record {
  uid = "p1";
  p_type = ProfileType.graph;
  name = "quiet";
  speed_fixed = none;
  speed_profile = some ((20000, 50) ∷ (50000, 70) ∷ (60000, 100) ∷ []);
  temp_source = some (record { temp_name = "cpu"; device_uid = "dev" });
  function_uid = "f1";
  member_profile_uids = [];
  mix_function_type = none;
}

-- The sample profile, scheduled for a fan; its output of the last round is kept.
abbrev pub commander : Option ℕ → GraphProfileCommander ℕ
commander output = record {
  scheduled_settings = (profile, graph "dev" "fan1" ∷ []) ∷ [];
  processors = scheduled;
  process_output_cache = ("p1", output) ∷ [];
}

pub same_devices : (temp : ℕ) (uid : String) → contains_key uid (devices_at temp) ≡ present uid
unfolding contains_key
same_devices temp uid = refl

scheduled-AllCounting : AllCounting scheduled.fun_safety_latch
unfolding insert
scheduled-AllCounting = AllCounting-insert "p1" [] AllCounting-nil

pub commander-IsWellFormed : (output : Option ℕ) → IsWellFormed averages present (commander output)
unfolding contains_key
commander-IsWellFormed output = record {
  entries = (
    record {
      scheduled = scheduled-IsScheduled;
      cached = refl;
      ready = profile-IsReady;
      used = refl;
      targets = (refl, tt);
    },
    tt,
  );
  counting = scheduled-AllCounting;
}
