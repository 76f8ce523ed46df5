-- ===== src/Processing/Settings.antt =====
-- processing/settings.rs: how the settings reach the commanders and the repositories. Messages
-- stand without their values.
pub mod Apply
pub mod Propagate
pub mod Operation
pub mod Wake
pub mod Stored
pub mod Tests
pub mod Channels
pub mod Exclusive
pub mod Calls
pub mod Released
use coolerocontrol.Base.{
  ℕ, String, Bool, true, false, not, Option, none, some, List, [], ◌∷◌, ◌++◌, string_eq,
}
use coolerocontrol.Base.Dict.{get}
use coolerocontrol.Base.Float.{Float}
use coolerocontrol.Base.Outcome.{Outcome, ok, err, panic, with_context, ensure, ◌>>=◌, ◌>>◌}
use coolerocontrol.Base.State.{Action}
use coolerocontrol.Device.{Device, DeviceType, SpeedOptions, ChannelInfo}
use coolerocontrol.Setting.{Profile, Function, TempSource, LightingSettings, LcdSettings, Setting}
use coolerocontrol.Processing.{DeviceChannelProfileSetting}
use coolerocontrol.Processing.Sensor.{AllDevices}
use coolerocontrol.Processing.Graph
use coolerocontrol.Processing.Graph.{GraphProfileCommander}
use coolerocontrol.Processing.Mix
use coolerocontrol.Processing.Mix.{MixProfileCommander}
use coolerocontrol.Processing.Lcd
use coolerocontrol.Processing.Lcd.{LcdCommander}

-- What the controller uses of the configuration, whose document has the type `Doc`.
pub record Configuration (F Doc : Type 0) : Type 0 where
  pub get_profiles : Doc → Outcome (List (Profile F)) × Doc
  pub get_functions : Doc → Outcome (List (Function F)) × Doc
  pub get_device_settings : String → Doc → Outcome (List Setting)
  pub set_device_setting : String → Setting → Doc → Outcome Doc
  pub update_profile : Profile F → Doc → Outcome (Unit {0}) × Doc

-- A call of a repository for a channel of a device.
pub data Call (F : Type 0) : Type 0 where
  apply_setting_speed_fixed : String → String → ℕ → Call F
  apply_setting_speed_profile : String → String → TempSource → List (F × ℕ) → Call F
  apply_setting_lcd : String → String → LcdSettings → Call F
  apply_setting_lighting : String → String → LightingSettings → Call F
  apply_setting_pwm_mode : String → String → ℕ → Call F
  apply_setting_reset : String → String → Call F

-- What the controller runs with: the devices, the types of device that have a repository, the
-- configuration, and how a repository answers a call after the calls so far.
pub record Machine (F Doc : Type 0) : Type 0 where
  pub all_devices : AllDevices F
  pub has_repo : DeviceType → Bool
  pub configuration : Configuration F Doc
  pub answer : List (Call F) → Call F → Outcome (Unit {0})

-- The graph commander is a part of the mix commander, which shares it.
pub record SettingsController (F Doc : Type 0) : Type 0 where
  pub mix_commander : MixProfileCommander F
  pub lcd_commander : LcdCommander F
  pub config : Doc
  pub calls : List (Call F)

module _ {F Doc : Type 0} where
  abbrev pub with_graph :
      GraphProfileCommander F → SettingsController F Doc → SettingsController F Doc
  with_graph g s = record s { mix_commander = record s.mix_commander { graph_commander = g } }

  -- The methods of the commanders that clear a channel.
  abbrev pub clear_mix : String → String → Action (SettingsController F Doc) (Unit {0})
  clear_mix uid channel s =
      (record s { mix_commander = Mix.clear_channel_setting uid channel s.mix_commander }, ok tt)

  abbrev pub clear_graph : String → String → Action (SettingsController F Doc) (Unit {0})
  clear_graph uid channel s = (
    with_graph (Graph.clear_channel_setting uid channel s.mix_commander.graph_commander) s,
    ok tt,
  )

  abbrev pub clear_lcd : String → String → Action (SettingsController F Doc) (Unit {0})
  clear_lcd uid channel s =
      (record s { lcd_commander = Lcd.clear_channel_setting uid channel s.lcd_commander }, ok tt)

  abbrev pub with_commander :
      SettingsController F Doc
      → Outcome (GraphProfileCommander F)
      → SettingsController F Doc × Outcome (Unit {0})
  with_commander s (ok g) = (with_graph g s, ok tt)
  with_commander s (err e) = (s, err e)
  with_commander s panic = (s, panic)

  abbrev pub with_lcd :
      SettingsController F Doc
      → Outcome (LcdCommander F)
      → SettingsController F Doc × Outcome (Unit {0})
  with_lcd s (ok l) = (record s { lcd_commander = l }, ok tt)
  with_lcd s (err e) = (s, err e)
  with_lcd s panic = (s, panic)

  abbrev pub with_config :
      SettingsController F Doc → Outcome Doc → SettingsController F Doc × Outcome (Unit {0})
  with_config s (ok doc) = (record s { config = doc }, ok tt)
  with_config s (err e) = (s, err e)
  with_config s panic = (s, panic)

module _ {F Doc : Type 0} (machine : Machine F Doc) where
  unfoldable pub get_device_repo : String → Outcome (Device F)
  get_device_repo uid = do
    device ← with_context "Device Not Found" (get uid machine.all_devices)
    ensure (machine.has_repo device.d_type) "Repository for device is currently not running!"
    ok device

  abbrev pub get_channel_info : Device F → String → Outcome ChannelInfo
  get_channel_info device channel =
      with_context "Looking for Channel Info" (get channel device.info.channels)

  abbrev pub get_speed_options : Device F → String → Outcome SpeedOptions
  get_speed_options device channel = do
    info ← get_channel_info device channel
    with_context "Looking for Channel Speed Options" info.speed_options

  abbrev pub call : Call F → Action (SettingsController F Doc) (Unit {0})
  call c s = (record s { calls = s.calls ++ c ∷ [] }, machine.answer s.calls c)

  abbrev pub read_profiles : Action (SettingsController F Doc) (List (Profile F))
  read_profiles s =
      let r = machine.configuration.get_profiles s.config in (record s { config = r.1 }, r.0)

  abbrev pub read_functions : Action (SettingsController F Doc) (List (Function F))
  read_functions s =
      let r = machine.configuration.get_functions s.config in (record s { config = r.1 }, r.0)

  abbrev pub store_device_setting : String → Setting → Action (SettingsController F Doc) (Unit {0})
  store_device_setting uid setting s =
      with_config s (machine.configuration.set_device_setting uid setting s.config)

  abbrev pub store_profile : Profile F → Action (SettingsController F Doc) (Unit {0})
  store_profile profile s =
      let r = machine.configuration.update_profile profile s.config in
      (record s { config = r.1 }, r.0)

  abbrev pub schedule_lcd :
      String → String → LcdSettings → Action (SettingsController F Doc) (Unit {0})
  schedule_lcd uid channel lcd_settings s =
      with_lcd s (Lcd.schedule_setting machine.all_devices uid channel lcd_settings s.lcd_commander)

  -- The commanders read the functions once more: the configuration has then been read before, and
  -- another reading does not change it.
  module _ ⦃fl : Float F⦄ where
    abbrev pub schedule_graph_profile :
        DeviceChannelProfileSetting → Profile F → Action (SettingsController F Doc) (Unit {0})
    schedule_graph_profile device_channel profile s = with_commander s (
        Graph.schedule_setting machine.all_devices (machine.configuration.get_functions s.config).0
          device_channel profile s.mix_commander.graph_commander)

    abbrev pub schedule_mix_profile :
        String
        → String
        → Profile F
        → List (Profile F)
        → Action (SettingsController F Doc) (Unit {0})
    schedule_mix_profile uid channel profile member_profiles s =
        let r =
          Mix.schedule_setting machine.all_devices (machine.configuration.get_functions s.config).0
            uid channel profile member_profiles s.mix_commander in
        (record s { mix_commander = r.0 }, r.1)
