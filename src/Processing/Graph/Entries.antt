-- ===== src/Processing/Graph/Entries.antt =====
-- What the graph commander keeps true of its schedule and of the state of its processors.
use coolerocontrol.Base.{
  ℕ, ◌≡◌, String, Bool, true, false, Option, some, List, string_eq, is_empty, All, All-imp,
}
use coolerocontrol.Base.Dict.{Dict, get, contains_key}
use coolerocontrol.Base.Float.{Float}
use coolerocontrol.Processing.{DeviceChannelProfileSetting, device_uid, NormalizedGraphProfile}
use coolerocontrol.Processing.Latch.{SafetyLatchMetadata, Latches}
use coolerocontrol.Processing.Latch.Counter.{IsCounting}
use coolerocontrol.Processing.Chain.{ProcessorCollection}
use coolerocontrol.Processing.Chain.Temp.{IsReady}
use coolerocontrol.Processing.Chain.Round.{IsScheduled}
use coolerocontrol.Processing.Graph.{Scheduled, OutputCache, GraphProfileCommander}

-- A key of the one dictionary is a key of the other.
abbrev pub KeyKept : {A B : Type 0} → String → Dict String A → Dict String B → Type 0
KeyKept k before after = contains_key k before ≡ true → contains_key k after ≡ true

-- Each latch counts within its limit.
abbrev pub AllCounting : Latches → Type 0
AllCounting latches = (k : String) (m : SafetyLatchMetadata) → get k latches ≡ some m → IsCounting m

module _ {F : Type 0} where
  -- A change of the state that keeps the keys of a profile keeps its entry.
  pub record StateKept (k : String) (ps ps' : ProcessorCollection F) (cache cache' : OutputCache)
      : Type 0 where
    pub latch : KeyKept k ps.fun_safety_latch ps'.fun_safety_latch
    pub std : KeyKept k ps.fun_std_pre ps'.fun_std_pre
    pub thresh : KeyKept k ps.fun_duty_thresh_post ps'.fun_duty_thresh_post
    pub output : KeyKept k cache cache'

module _ {F : Type 0} ⦃fl : Float F⦄ (tma_new_over : ℕ → List F → Option (List F)) where
  -- An entry of the schedule: its state is there, it has a place for its output, its function has
  -- what it needs, and its channels, at least one, are of devices that are present.
  pub record IsEntry (present : String → Bool) (ps : ProcessorCollection F) (cache : OutputCache)
      (entry : NormalizedGraphProfile F × List DeviceChannelProfileSetting) : Type 0 where
    pub scheduled : IsScheduled tma_new_over ps entry.0
    pub cached : contains_key entry.0.profile_uid cache ≡ true
    pub ready : IsReady tma_new_over entry.0.function
    pub used : is_empty entry.1 ≡ false
    pub targets : All (λ c. present (device_uid c) ≡ true) entry.1

  pub record IsWellFormed (present : String → Bool) (c : GraphProfileCommander F) : Type 0 where
    pub entries : All (IsEntry present c.processors c.process_output_cache) c.scheduled_settings
    pub counting : AllCounting c.processors.fun_safety_latch

  pub IsEntry-StateKept :
      (present : String → Bool) (ps ps' : ProcessorCollection F) (cache cache' : OutputCache)
      (entry : NormalizedGraphProfile F × List DeviceChannelProfileSetting)
      → StateKept entry.0.profile_uid ps ps' cache cache'
      → IsEntry present ps cache entry
      → IsEntry present ps' cache' entry
  IsEntry-StateKept present ps ps' cache cache' entry k i = record {
    scheduled = record {
      latch = k.latch i.scheduled.latch;
      std = k.std i.scheduled.std;
      thresh = k.thresh i.scheduled.thresh;
      curve = i.scheduled.curve;
    };
    cached = k.output i.cached;
    ready = i.ready;
    used = i.used;
    targets = i.targets;
  }

  pub entries-StateKept :
      (present : String → Bool) (ps ps' : ProcessorCollection F) (cache cache' : OutputCache)
      (settings : Scheduled F)
      → ((k : String) → StateKept k ps ps' cache cache')
      → All (IsEntry present ps cache) settings
      → All (IsEntry present ps' cache') settings
  entries-StateKept present ps ps' cache cache' settings k =
      All-imp _ _
        (λ entry. IsEntry-StateKept present ps ps' cache cache' entry (k entry.0.profile_uid))
        settings
