-- ===== src/Processing/Settings/Stored.antt =====
-- The settings controller over the document of config.rs.
use coolerocontrol.Base.Float.{Float}
use coolerocontrol.Base.Outcome.{Outcome}
use coolerocontrol.Config.DeviceSettings.{get_device_settings, set_device_setting}
use coolerocontrol.Config.Functions.{get_functions}
use coolerocontrol.Config.Profiles.{get_profiles, update_profile}
use coolerocontrol.Config.Toml.{Toml}
use coolerocontrol.Processing.Settings.{Configuration}

-- `save` is what writing the file gives.
abbrev pub stored_configuration :
    {F : Type 0} ⦃fl : Float F⦄ (toml : Toml F)
    → (toml.Table → Outcome (Unit {0}))
    → Configuration F toml.Table
stored_configuration toml save = record {
  get_profiles = get_profiles toml save;
  get_functions = get_functions toml save;
  get_device_settings = get_device_settings toml;
  set_device_setting = set_device_setting toml;
  update_profile = update_profile toml;
}
