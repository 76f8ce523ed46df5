-- ===== src/Device.antt =====
-- device.rs: a device, what it says of itself, and its status history. `F` is `f64`; a timestamp is
-- a number of seconds.
mod Info
pub mod History
pub mod Tests
pub use Info.*
use coolerocontrol.Base.{
  ℕ, zero, suc, ◌-◌, String, Option, none, some, List, [], ◌∷◌, ◌++◌, map, get_last?, tail,
}
use coolerocontrol.Base.Float.{Float}

-- only store the last 60 min. of recorded data
abbrev pub status_size : ℕ
status_size = 3600

pub record TempStatus (F : Type 0) : Type 0 where
  pub name : String
  pub temp : F

pub record ChannelStatus (F : Type 0) : Type 0 where
  pub name : String
  pub rpm : Option ℕ
  pub duty : Option F
  pub freq : Option ℕ
  pub pwm_mode : Option ℕ

pub record Status (F : Type 0) : Type 0 where
  pub timestamp : ℕ
  pub temps : List (TempStatus F)
  pub channels : List (ChannelStatus F)

-- `uid` is a SHA-256 hash of type, index, name and id, made once: here it is only read.
pub record Device (F : Type 0) : Type 0 where
  pub name : String
  pub d_type : DeviceType
  pub type_index : ℕ
  pub uid : String
  pub device_id : Option String
  pub status_history : List (Status F)
  pub lc_info : Option LcInfo
  pub info : DeviceInfo

abbrev pub zero_if_some {ℓ} : {A : Type ℓ} → A → Option A → Option A
zero_if_some z none = none
zero_if_some z (some _) = some z

module _ {F : Type 0} where
  unfoldable pub status_current : Device F → Option (Status F)
  status_current d = get_last? d.status_history

  -- Takes the oldest status off and adds the new one at the back.
  unfoldable pub set_status : Device F → Status F → Device F
  set_status d status = record d { status_history = tail d.status_history ++ status ∷ [] }

module _ {F : Type 0} ⦃fl : Float F⦄ where
  abbrev pub zeroed_temp : TempStatus F → TempStatus F
  zeroed_temp t = record t { temp = fl.of_nat 0 }

  unfoldable pub zeroed_channel : ChannelStatus F → ChannelStatus F
  zeroed_channel c = record c {
    rpm = zero_if_some 0 c.rpm;
    duty = zero_if_some (fl.of_nat 0) c.duty;
    freq = zero_if_some 0 c.freq;
  }

  unfoldable pub zeroed_status : Status F → ℕ → Status F
  unfolding zeroed_channel
  zeroed_status status pos = record {
    timestamp = status.timestamp - pos;
    temps = map zeroed_temp status.temps;
    channels = map zeroed_channel status.channels;
  }

  -- `for pos in (1..size).rev()`, with `n` rounds left
  unfoldable pub zeroed_history : Status F → ℕ → List (Status F)
  zeroed_history status zero = []
  zeroed_history status (suc n) = zeroed_status status (suc n) ∷ zeroed_history status n

  unfoldable pub initialize_status_history_with : Device F → Status F → Device F
  unfolding zeroed_history
  initialize_status_history_with d status = record d {
    status_history = zeroed_history status (status_size - 1) ++ status ∷ [];
  }
