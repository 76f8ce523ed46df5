-- ===== src/Processing/Graph/Run.antt =====
-- The graph commander over any sequence of its operations.
use coolerocontrol.Base.{ℕ, ◌≡◌, String, Bool, List, Option, none, some, ◌≢◌, All, [], string_eq}
use coolerocontrol.Base.Dict.{get, contains_key}
use coolerocontrol.Base.Float.{Float}
use coolerocontrol.Base.Outcome.{Outcome, ok, Safe}
use coolerocontrol.Setting.{Profile, Function}
use coolerocontrol.Processing.{DeviceChannelProfileSetting}
use coolerocontrol.Processing.Sensor.{AllDevices}
use coolerocontrol.Processing.Standard.Process.{HasHistory}
use coolerocontrol.Processing.Chain.Temp.{IsReady}
use coolerocontrol.Processing.Graph.{
  GraphProfileCommander, new, schedule_setting, clear_channel_setting, process_all_profiles,
}
use coolerocontrol.Processing.Graph.Entries.{AllCounting}
use coolerocontrol.Processing.Latch.{SafetyLatchMetadata}

pub AllCounting-nil : AllCounting []
unfolding get
AllCounting-nil k m e = absurd (none-ne-some m e)
  where
    none-ne-some : (x : SafetyLatchMetadata) → none ≢ some x
    none-ne-some x h = cc

module _ {F : Type 0} ⦃fl : Float F⦄ (tma_new_over : ℕ → List F → Option (List F)) where
  -- Devices at some time: the same ones as ever, each with a status.
  pub record IsSnapshot (present : String → Bool) (all_devices : AllDevices F) : Type 0 where
    pub same : (uid : String) → contains_key uid all_devices ≡ present uid
    pub history : HasHistory all_devices

  -- One operation that succeeds.
  pub data Step (present : String → Bool)
      : GraphProfileCommander F → GraphProfileCommander F → Type 0 where
    scheduled :
        {c c' : GraphProfileCommander F} (all_devices : AllDevices F)
        (functions : Outcome (List (Function F))) (device_channel : DeviceChannelProfileSetting)
        (profile : Profile F)
        → IsSnapshot present all_devices
        → Safe functions (All (IsReady tma_new_over))
        → schedule_setting all_devices functions device_channel profile c ≡ ok c'
        → Step present c c'
    cleared :
        {c : GraphProfileCommander F} (uid channel : String)
        → Step present c (clear_channel_setting uid channel c)
    processed :
        {c c' : GraphProfileCommander F} (all_devices : AllDevices F)
        → IsSnapshot present all_devices
        → process_all_profiles tma_new_over all_devices c ≡ ok c'
        → Step present c c'

  pub data Reachable (present : String → Bool) : GraphProfileCommander F → Type 0 where
    started : Reachable present new
    stepped :
        {c c' : GraphProfileCommander F}
        → Reachable present c
        → Step present c c'
        → Reachable present c'
