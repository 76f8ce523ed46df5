-- ===== src/Config.antt =====
-- config.rs: the configuration file.
pub mod Toml
mod Tests
pub mod Sample
pub mod Fields
pub mod Tables
pub mod Entries
pub mod Store
pub mod Functions
pub mod General
pub mod DeviceSettings
pub mod Sensors
pub mod Profiles
