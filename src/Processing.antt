-- ===== src/Processing.antt =====
-- processing/mod.rs: the data that a chain of processors works on, and the keys of the schedules.
pub mod Samples
pub mod Utils
pub mod Sensor
pub mod Standard
pub mod Threshold
pub mod Latch
pub mod Chain
pub mod Graph
pub mod Mix
pub mod Lcd
pub mod Settings
use coolerocontrol.Base.{
  ℕ, String, ◌≡◌, Bool, true, false, ◌&&◌, Option, none, some, List, [], arith, Eq, ◌==◌, string_eq,
}
use coolerocontrol.Setting.{TempSource, Function, default_function}

-- A device channel that a profile is applied to, by itself or as a member of a mix.
pub data DeviceChannelProfileSetting : Type 0 where
  mix graph : String → String → DeviceChannelProfileSetting

abbrev pub device_uid : DeviceChannelProfileSetting → String
device_uid (mix d c) = d
device_uid (graph d c) = d

abbrev pub channel_name : DeviceChannelProfileSetting → String
channel_name (mix d c) = c
channel_name (graph d c) = c

-- Two settings are the same key if they are for the same channel, whatever their kind.
abbrev pub device_channel_eqb : DeviceChannelProfileSetting → DeviceChannelProfileSetting → Bool
device_channel_eqb a b = device_uid a == device_uid b && channel_name a == channel_name b

pub device_channel_eq_self : (a : DeviceChannelProfileSetting) → device_channel_eqb a a ≡ true
device_channel_eq_self a =
    ground (arith, string_eq.eq_self (device_uid a), string_eq.eq_self (channel_name a))

pub device_channel_eq_sym :
    (a b : DeviceChannelProfileSetting)
    → device_channel_eqb a b ≡ true
    → device_channel_eqb b a ≡ true
device_channel_eq_sym a b h = ground (
  arith,
  string_eq.eq_sym (device_uid a) (device_uid b),
  string_eq.eq_sym (channel_name a) (channel_name b),
)

pub device_channel_eq_trans :
    (a b c : DeviceChannelProfileSetting)
    → device_channel_eqb a b ≡ true
    → device_channel_eqb b c ≡ true
    → device_channel_eqb a c ≡ true
device_channel_eq_trans a b c h k = ground (
  arith,
  string_eq.eq_trans (device_uid a) (device_uid b) (device_uid c),
  string_eq.eq_trans (channel_name a) (channel_name b) (channel_name c),
)

instance abbrev pub device_channel_eq : Eq DeviceChannelProfileSetting
device_channel_eq = record {
  eq = device_channel_eqb;
  eq_self = device_channel_eq_self;
  eq_sym = device_channel_eq_sym;
  eq_trans = device_channel_eq_trans;
}

pub record NormalizedGraphProfile (F : Type 0) : Type 0 where
  pub profile_uid : String
  pub profile_name : String
  pub speed_profile : List (F × ℕ)
  pub temp_source : TempSource
  pub function : Function F

-- Only the UID counts, so that a profile's settings can be replaced under the same key.
instance abbrev pub graph_profile_eq : {F : Type 0} → Eq (NormalizedGraphProfile F)
graph_profile_eq = record {
  eq = λ p q. p.profile_uid == q.profile_uid;
  eq_self = λ p. string_eq.eq_self p.profile_uid;
  eq_sym = λ p q. string_eq.eq_sym p.profile_uid q.profile_uid;
  eq_trans = λ p q r. string_eq.eq_trans p.profile_uid q.profile_uid r.profile_uid;
}

pub record SpeedProfileData (F : Type 0) : Type 0 where
  pub temp : Option F
  pub duty : Option ℕ
  pub profile : NormalizedGraphProfile F
  pub processing_started : Bool
  pub safety_latch_triggered : Bool
