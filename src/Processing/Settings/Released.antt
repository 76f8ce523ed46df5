-- ===== src/Processing/Settings/Released.antt =====
-- What a fixed speed and a reset leave behind, with or without an error.
use coolerocontrol.Base.{
  ℕ, ◌≡◌, refl, inl, inr, String, false, List, [], ◌∷◌, ◌++◌, arith, string_eq, ◌==◌, All, All-imp,
}
use coolerocontrol.Base.Set
use coolerocontrol.Base.Outcome.{Outcome, ok, err, panic, Outcome-cases}
use coolerocontrol.Base.State.{◌>>=◌}
use coolerocontrol.Device.{Device}
use coolerocontrol.Processing.{DeviceChannelProfileSetting, graph, device_channel_eq}
use coolerocontrol.Processing.Graph.{GraphProfileCommander}
use coolerocontrol.Processing.Graph
use coolerocontrol.Processing.Mix.{MixProfileCommander}
use coolerocontrol.Processing.Mix
use coolerocontrol.Processing.Settings.{
  Machine, SettingsController, Call, apply_setting_speed_fixed, apply_setting_reset,
  get_device_repo,
}
use coolerocontrol.Processing.Settings.Apply.{set_fixed_speed, set_reset}
use coolerocontrol.Processing.Settings.Channels.{
  Free, clear_channel_setting-AllChannels, clear_mix-Free,
}

contains-ne :
    (a : DeviceChannelProfileSetting) (xs : List DeviceChannelProfileSetting)
    → All (λ x. Unit {0} × (a == x ≡ false)) xs
    → Set.contains a xs ≡ false
unfolding Set.contains
contains-ne a [] h = refl
contains-ne a (x ∷ xs) h = ground (arith, contains-ne a xs h.1, h.0.1, device_channel_eq.eq_sym x a)

all_unit : (xs : List DeviceChannelProfileSetting) → All (λ _. Unit {0}) xs
all_unit [] = tt
all_unit (x ∷ xs) = (tt, all_unit xs)

module _ {F : Type 0} where
  clear_graph-Free :
      (uid channel : String) (c : GraphProfileCommander F)
      → Free (graph uid channel) (Graph.clear_channel_setting uid channel c).scheduled_settings
  clear_graph-Free uid channel c =
      All-imp _ _ (λ entry. contains-ne (graph uid channel) entry.1)
        (Graph.clear_channel_setting uid channel c).scheduled_settings
        (clear_channel_setting-AllChannels (λ _. Unit {0}) uid channel c
          (every c.scheduled_settings))
    where
      every : (settings : Graph.Scheduled F) → All (λ entry. All (λ _. Unit {0}) entry.1) settings
      every [] = tt
      every (entry ∷ rest) = (all_unit entry.1, every rest)

  clear_mix-Free_graph :
      (uid channel : String) (c : MixProfileCommander F)
      → Free (graph uid channel) (Mix.clear_channel_setting uid channel c).scheduled_settings
  unfolding Set.contains
  clear_mix-Free_graph uid channel c = clear_mix-Free uid channel c

module _ {F Doc : Type 0} (machine : Machine F Doc) (uid channel : String)
    (s : SettingsController F Doc) where
  -- Neither commander has the channel, the configuration is as before, and the call's outcome is
  -- that of the operation.
  pub record IsReleased (c : Call F) (r : SettingsController F Doc × Outcome (Unit {0}))
      : Type 0 where
    pub outcome : r.1 ≡ machine.answer s.calls c
    pub called : r.0.calls ≡ s.calls ++ c ∷ []
    pub graph_free : Free (graph uid channel) r.0.mix_commander.graph_commander.scheduled_settings
    pub mix_free : Free (graph uid channel) r.0.mix_commander.scheduled_settings
    pub config : r.0.config ≡ s.config

  -- An error of the lookup changes nothing and is the error of the operation.
  abbrev pub IsResult :
      Call F → SettingsController F Doc × Outcome (Unit {0}) → Outcome (Device F) → Type 0
  IsResult c r (ok device) = IsReleased c r
  IsResult c r (err e) = r ≡ (s, err e)
  IsResult c r panic = r ≡ (s, panic)

  -- On every branch: if the device is not there or has no repository, a fixed speed and a reset
  -- change nothing and return that error. Otherwise both commanders let go of the channel, whatever
  -- the repository answers, the configuration stays, the one call is made, and its answer is the
  -- result.
  pub set_fixed_speed-set_reset-IsResult :
      (duty : ℕ)
      → IsResult
          (apply_setting_speed_fixed uid channel duty)
          (set_fixed_speed machine uid channel duty s)
          (get_device_repo machine uid)
        × IsResult
            (apply_setting_reset uid channel)
            (set_reset machine uid channel s)
            (get_device_repo machine uid)
  unfolding set_fixed_speed set_reset ◌>>=◌
  set_fixed_speed-set_reset-IsResult duty = elim (Outcome-cases (get_device_repo machine uid)) [
    | inl (device, e) ↦ rw e (
      record {
        outcome = refl;
        called = refl;
        graph_free = clear_graph-Free uid channel _;
        mix_free = clear_mix-Free_graph uid channel s.mix_commander;
        config = refl;
      },
      record {
        outcome = refl;
        called = refl;
        graph_free = clear_graph-Free uid channel _;
        mix_free = clear_mix-Free_graph uid channel s.mix_commander;
        config = refl;
      },
    )
    | inr (inl (msg, e)) ↦ rw e (refl, refl)
    | inr (inr e) ↦ rw e (refl, refl)
  ]
