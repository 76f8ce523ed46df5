-- ===== src/Processing/Graph.antt =====
-- processing/commanders/graph.rs: which profiles are scheduled for which channels, and what is
-- applied to them.
pub mod Entries
pub mod Normalized
pub mod Schedule
pub mod Clear
pub mod Tick
pub mod Speeds
pub mod Run
pub mod Samples
pub mod Tests
use coolerocontrol.Base.{
  ℕ, String, Bool, true, false, Option, none, some, List, [], ◌∷◌, ◌++◌, string_eq, ◌==◌, not,
  if◌then◌else◌, is_empty, find_by,
}
use coolerocontrol.Base.Dict.{Dict, get, contains_key, insert, remove}
use coolerocontrol.Base.Set
use coolerocontrol.Base.Float.{Float}
use coolerocontrol.Base.Outcome.{Outcome, ok, err, unwrap, with_context, ensure, ◌>>=◌, ◌>>◌}
use coolerocontrol.Device.{Device, DeviceType}
use coolerocontrol.Setting.{Profile, ProfileType, Function, TempSource}
use coolerocontrol.Processing.{
  DeviceChannelProfileSetting, mix, graph, device_uid, channel_name, NormalizedGraphProfile,
  device_channel_eq, graph_profile_eq,
}
use coolerocontrol.Processing.Sensor.{AllDevices}
use coolerocontrol.Processing.Utils.{normalize_profile}
use coolerocontrol.Processing.Standard
use coolerocontrol.Processing.Threshold
use coolerocontrol.Processing.Latch
use coolerocontrol.Processing.Chain.{ProcessorCollection, process_speed_setting}

abbrev pub Scheduled : Type 0 → Type 0
Scheduled F = Dict (NormalizedGraphProfile F) (List DeviceChannelProfileSetting)

abbrev pub OutputCache : Type 0
OutputCache = Dict String (Option ℕ)

pub record GraphProfileCommander (F : Type 0) : Type 0 where
  pub scheduled_settings : Scheduled F
  pub processors : ProcessorCollection F
  pub process_output_cache : OutputCache

abbrev pub new : {F : Type 0} → GraphProfileCommander F
new = record {
  scheduled_settings = [];
  processors = record { fun_safety_latch = []; fun_std_pre = []; fun_duty_thresh_post = [] };
  process_output_cache = [];
}

-- A call of `apply_setting_speed_fixed` on the repository of a device.
pub record Applied : Type 0 where
  pub device_uid : String
  pub channel_name : String
  pub duty : ℕ

-- `p_type == ProfileType::Graph`
abbrev pub is_graph : ProfileType → Bool
is_graph ProfileType.graph = true
is_graph ProfileType.default = false
is_graph ProfileType.fixed = false
is_graph ProfileType.mix = false

-- The call goes to the repository for the device's type, if there is one. Its error is only logged.
-- `has_repo` says for which types of device there is a repository.
unfoldable pub set_device_speed :
    {F : Type 0} → (DeviceType → Bool) → AllDevices F → String → String → ℕ → Outcome (List Applied)
set_device_speed has_repo all_devices uid channel duty_to_set = do
  device ← unwrap (get uid all_devices)
  ok (
      if has_repo device.d_type
      then record { device_uid = uid; channel_name = channel; duty = duty_to_set } ∷ []
      else [])

module _ {F : Type 0} where
  unfoldable pub get_max_device_duty : AllDevices F → String → String → Outcome ℕ
  get_max_device_duty all_devices uid channel = do
    device ← with_context "Target Device to schedule speed must be present" (get uid all_devices)
    channel_info ←
        with_context "Channel Info must be present for target device"
          (get channel device.info.channels)
    speed_options ←
        with_context "Speed Options must be present for target device" channel_info.speed_options
    ok speed_options.max_duty

  -- `functions` is what the configuration returns for `get_functions`.
  unfoldable pub get_profiles_function : Outcome (List (Function F)) → String → Outcome (Function F)
  get_profiles_function functions function_uid = do
    present ← functions
    with_context "Function must be present in list of functions to schedule speed settings"
        (find_by (λ f. f.uid == function_uid) present)

  abbrev pub with_channel :
      GraphProfileCommander F
      → NormalizedGraphProfile F
      → List DeviceChannelProfileSetting
      → Scheduled F
  with_channel c normalized device_channels =
      insert normalized device_channels (remove normalized c.scheduled_settings)

  -- For each channel of a profile with this output. Only `Graph` settings are applied here: a `Mix`
  -- one is applied by the mix commander.
  unfoldable pub apply_channels :
      (DeviceType → Bool)
      → AllDevices F
      → ℕ
      → List DeviceChannelProfileSetting
      → Outcome (List Applied)
  apply_channels has_repo all_devices duty_to_set [] = ok []
  apply_channels has_repo all_devices duty_to_set (mix uid channel ∷ rest) =
      apply_channels has_repo all_devices duty_to_set rest
  apply_channels has_repo all_devices duty_to_set (graph uid channel ∷ rest) = do
    applied ← set_device_speed has_repo all_devices uid channel duty_to_set
    others ← apply_channels has_repo all_devices duty_to_set rest
    ok (applied ++ others)

  -- A profile without output is skipped.
  unfoldable pub apply_output :
      (DeviceType → Bool)
      → AllDevices F
      → List DeviceChannelProfileSetting
      → Option ℕ
      → Outcome (List Applied)
  apply_output has_repo all_devices device_channels none = ok []
  apply_output has_repo all_devices device_channels (some duty_to_set) =
      apply_channels has_repo all_devices duty_to_set device_channels

  unfoldable pub update_from :
      (DeviceType → Bool) → AllDevices F → OutputCache → Scheduled F → Outcome (List Applied)
  update_from has_repo all_devices cache [] = ok []
  update_from has_repo all_devices cache ((profile, device_channels) ∷ rest) = do
    optional_duty_to_set ← unwrap (get profile.profile_uid cache)
    applied ← apply_output has_repo all_devices device_channels optional_duty_to_set
    others ← update_from has_repo all_devices cache rest
    ok (applied ++ others)

  unfoldable pub update_speeds :
      (DeviceType → Bool) → AllDevices F → GraphProfileCommander F → Outcome (List Applied)
  update_speeds has_repo all_devices c =
      update_from has_repo all_devices c.process_output_cache c.scheduled_settings

  -- The loop of `clear_channel_setting`: the channel leaves every profile, ...
  unfoldable pub remove_channel : DeviceChannelProfileSetting → Scheduled F → Scheduled F
  remove_channel device_channel [] = []
  remove_channel device_channel ((profile, device_channels) ∷ rest) =
      (profile, Set.remove device_channel device_channels) ∷ remove_channel device_channel rest

  -- ... the profiles that then have no channel are to be removed, ...
  unfoldable pub profiles_to_remove : Scheduled F → List (NormalizedGraphProfile F)
  profiles_to_remove [] = []
  profiles_to_remove ((profile, device_channels) ∷ rest) =
      let others = profiles_to_remove rest in
      if is_empty device_channels then profile ∷ others else others

  -- ... and their state is cleared.
  abbrev pub clear_state : String → GraphProfileCommander F → GraphProfileCommander F
  clear_state profile_uid c = record c {
    processors = record {
      fun_safety_latch = Latch.clear_state profile_uid c.processors.fun_safety_latch;
      fun_std_pre = Standard.clear_state profile_uid c.processors.fun_std_pre;
      fun_duty_thresh_post = Threshold.clear_state profile_uid c.processors.fun_duty_thresh_post;
    };
    process_output_cache = remove profile_uid c.process_output_cache;
  }

  unfoldable pub clear_profiles :
      List (NormalizedGraphProfile F) → GraphProfileCommander F → GraphProfileCommander F
  clear_profiles [] c = c
  clear_profiles (profile ∷ profiles) c =
      clear_profiles profiles (record (clear_state profile.profile_uid c) {
        scheduled_settings = remove profile c.scheduled_settings;
      })

  -- The kind of the setting is irrelevant: a channel leaves whether it is here for a graph or a mix.
  unfoldable pub clear_channel_setting :
      String → String → GraphProfileCommander F → GraphProfileCommander F
  clear_channel_setting uid channel c =
      let settings = remove_channel (graph uid channel) c.scheduled_settings in
      clear_profiles (profiles_to_remove settings) (record c { scheduled_settings = settings })

module _ {F : Type 0} ⦃fl : Float F⦄ where
  unfoldable pub normalize_profile_setting :
      AllDevices F
      → Outcome (List (Function F))
      → String
      → String
      → Profile F
      → Outcome (NormalizedGraphProfile F)
  normalize_profile_setting all_devices functions uid channel profile = do
    temp_source ←
        with_context "Not enough info to schedule a manual speed profile" profile.temp_source
    speed_profile ←
        with_context "Not enough info to schedule a manual speed profile" profile.speed_profile
    temp_source_device ←
        with_context "temp_source Device must currently be present to schedule speed"
          (get temp_source.device_uid all_devices)
    max_duty ← get_max_device_duty all_devices uid channel
    function ← get_profiles_function functions profile.function_uid
    normalized ←
        normalize_profile speed_profile (fl.of_nat temp_source_device.info.temp_max) max_duty
    ok (record {
      profile_uid = profile.uid;
      profile_name = profile.name;
      speed_profile = normalized;
      temp_source = temp_source;
      function = function;
    })

  -- A profile that is scheduled already is replaced, so that its settings are up to date, and its
  -- latch starts anew, so that the channel gets its duty right away.
  unfoldable pub add_channel :
      DeviceChannelProfileSetting
      → NormalizedGraphProfile F
      → GraphProfileCommander F
      → Option (List DeviceChannelProfileSetting)
      → GraphProfileCommander F
  add_channel device_channel normalized c (some existing_device_channels) = record {
    scheduled_settings =
        with_channel c normalized (Set.insert device_channel existing_device_channels);
    processors = record c.processors {
      fun_safety_latch = Latch.init_state normalized.profile_uid c.processors.fun_safety_latch;
    };
    process_output_cache = c.process_output_cache;
  }
  add_channel device_channel normalized c none = record {
    scheduled_settings = with_channel c normalized (device_channel ∷ []);
    processors = record {
      fun_safety_latch = Latch.init_state normalized.profile_uid c.processors.fun_safety_latch;
      fun_std_pre = Standard.init_state normalized.profile_uid c.processors.fun_std_pre;
      fun_duty_thresh_post =
          Threshold.init_state normalized.profile_uid c.processors.fun_duty_thresh_post;
    };
    process_output_cache = insert normalized.profile_uid none c.process_output_cache;
  }

  -- On an error nothing has changed.
  unfoldable pub schedule_setting :
      AllDevices F
      → Outcome (List (Function F))
      → DeviceChannelProfileSetting
      → Profile F
      → GraphProfileCommander F
      → Outcome (GraphProfileCommander F)
  schedule_setting all_devices functions device_channel profile c = do
    ensure (is_graph profile.p_type) "Only Graph Profiles are supported for scheduling"
    normalized ←
        normalize_profile_setting all_devices functions (device_uid device_channel)
          (channel_name device_channel) profile
    ok (add_channel device_channel normalized c (get normalized c.scheduled_settings))

  module _ (tma_new_over : ℕ → List F → Option (List F)) where
    -- One round of every profile. An output is cached only for a profile that the cache knows.
    unfoldable pub process_profiles :
        AllDevices F
        → Scheduled F
        → ProcessorCollection F
        → OutputCache
        → Outcome (ProcessorCollection F × OutputCache)
    process_profiles all_devices [] ps cache = ok (ps, cache)
    process_profiles all_devices ((profile, device_channels) ∷ rest) ps cache = do
      round ← process_speed_setting tma_new_over all_devices ps profile
      process_profiles all_devices rest round.0 (
          if contains_key profile.profile_uid cache
          then insert profile.profile_uid round.1 cache
          else cache)

    unfoldable pub process_all_profiles :
        AllDevices F → GraphProfileCommander F → Outcome (GraphProfileCommander F)
    process_all_profiles all_devices c = do
      done ← process_profiles all_devices c.scheduled_settings c.processors c.process_output_cache
      ok (record c { processors = done.0; process_output_cache = done.1 })
