-- ===== src/Lib.antt =====
-- CoolerControl daemon (coolercontrold): the processing of fan and pump profiles, the settings
-- of channels, the configuration file and modes.
--
-- A profile maps the temperature of a sensor to the duty of a channel. Once per tick the daemon stores
-- a new status of each device in its history, and each scheduled profile runs through a chain of
-- processors: a function finds the temperature to apply (identity, exponential moving average, or the
-- standard function with hysteresis and a response delay), the graph processor finds the duty of the
-- profile's curve at that temperature, and the duty threshold limits the change of the duty. A safety
-- latch around the chain makes it apply a duty after a limited number of rounds without one. The
-- commanders schedule the profiles and apply the duties.
--
-- Parts, and the files that model them (paths are from the root of the repository):
-- - Device, Device/Info, Device/History: coolercontrold/src/device.rs and, for the type of a liquidctl
--   driver, coolercontrold/src/repositories/liquidctl/base_driver.rs. A device with its status history:
--   set_status, status_current, initialize_status_history_with.
-- - Setting: coolercontrold/src/setting.rs. Profiles, functions, temp sources, their defaults;
--   the settings of a channel and their equality; custom sensors.
-- - Processing: coolercontrold/src/processing/mod.rs. Keys of the schedules and the data of a chain.
-- - Processing/Utils: coolercontrold/src/processing/utils.rs. normalize_profile, interpolate_profile.
-- - Processing/Sensor, Standard, Threshold, Latch: coolercontrold/src/processing/processors/functions.rs
--   (and profiles.rs for the graph processor, in Sensor). Each processor's is_applicable, process,
--   init_state and clear_state; the state is a dictionary from the UID of a profile to its metadata.
-- - Processing/Chain: the chain in coolercontrold/src/processing/commanders/graph.rs,
--   process_speed_setting.
-- - Processing/Graph: coolercontrold/src/processing/commanders/graph.rs. The schedule of profiles and
--   channels with its operations, and the steps of the commander (Graph/Run).
-- - Processing/Mix: coolercontrold/src/processing/commanders/mix.rs. Mix profiles: how the duties of
--   members combine, what is applied, and how a mix is scheduled and cleared.
-- - Processing/Lcd: coolercontrold/src/processing/commanders/lcd.rs. Which screens show a temperature
--   (Lcd/Paired: each of them has its metadata), their update (Lcd/Update), and any sequence of these
--   (Lcd/Run).
-- - Processing/Settings: coolercontrold/src/processing/settings.rs, the settings controller.
--   Settings/Apply has what applies a setting to a channel, Settings/Propagate what follows changes of
--   profiles, functions and sensors, and the tick; Settings/Operation lists the methods. The
--   controller uses the configuration through the record Configuration, which Settings/Stored fills
--   with the operations of Config. Settings/Exclusive is about the two commanders together,
--   Settings/Calls about the calls of the repositories, Settings/Released about channels let go of,
--   and Settings/Wake has the histories after a wake-up.
-- - Modes: coolercontrold/src/modes.rs. Modes as snapshots of the settings of all devices: which one
--   is active (Modes/Active), what an activation applies (Modes/Activate), creation, deletion and the
--   order of modes (Modes/Order), the modes read from their file (Modes/Load, Modes/Reload), the saved
--   settings that are applied at boot (Modes/Boot), a profile that leaves the modes (Modes/Deleted),
--   and any sequence of operations (Modes/Run).
-- - CustomSensors: coolercontrold/src/repositories/custom_sensors_repo.rs. The current temperature of a
--   sensor that mixes others, and its five mix functions (CustomSensors/Mixed); the temperature that a
--   file holds (CustomSensors/File, Parsed, Reasonable); the history of a new sensor
--   (CustomSensors/Filling); the repository with its operations over the document of Config
--   (CustomSensors/Repo, Start), and any sequence of them (CustomSensors/Run).
-- - Config: coolercontrold/src/config.rs, the document of the configuration file. Config/Toml is the
--   interface of the crate toml_edit; Config/Fields reads the fields of a table, Config/Tables reads and
--   writes the tables of profiles, functions and custom sensors, and Config/Entries has the operations
--   on the arrays of tables, which Config/Profiles, Config/Functions and Config/Sensors instantiate.
--   Config/Store is the list that a client sees. Config/DeviceSettings has the settings of channels,
--   Config/General the other settings.
-- - Base: numbers, lists, dictionaries, sets, outcomes, and code that changes a state and may fail
--   (Base/State), which the parts share.
--
-- How the code is rendered:
-- - An f64 is an element of a type F with an instance of Base/Float, whose operations are total: it
--   stands for an f64 that is not NaN, on which partial_cmp succeeds. Theorems that need the order of
--   floats, or the bounds of a rounded interpolation, take them as the named hypotheses IsOrdered and
--   IsRounded; Base/Fixed shows that they can hold, with fixed-point numbers.
-- - A u8 is a number below 256, and its sums are taken modulo 256, as in a release build.
-- - unwrap, an index and a map index that fail are the outcome panic; an anyhow error is the outcome
--   err with its message (the part of the message that is computed is left out).
-- - A HashMap is an association list with the same lookups, and a HashSet a list. The order in which
--   they are walked is not specified: theorems hold for each order.
-- - An async method is one step on an explicit state: the locks of the code are held over the whole
--   method or around one map operation, and one task drives the chain.
-- - The crate toml_edit is a record of functions, Toml, with what its documentation says of tables and
--   items as the hypothesis IsToml; Config/Sample shows that it can hold. The code writes
--   item[key] = value as a place that is made if it is missing; a panic is written out.
-- - The image of an LCD screen is drawn and saved by a parameter, generate, which may fail.
-- - The moving average of the crate yata is a parameter, tma_new_over, with what its documentation says
--   of it as hypothesis (HasAverages).
-- - A text that is parsed is a list of code points (CustomSensors/File); other texts are only compared.
-- - The title case of the crate heck is a parameter, to_title_case.
-- - The new UUID of a mode, whether a file can be written, and how a repository answers a call are
--   inputs of the operations; what the configuration returns is one, but for the settings controller.
-- - Loops over lists are structural recursions, so that no fuel is needed.
--
-- Not modelled: what reads and writes the hardware (the hwmon, cpu, gpu and liquidctl repositories), the
-- HTTP API, the reading and saving of files, the images of LCD screens, the main program, the user interface and the Python service.
pub mod Base
pub mod Config
pub mod CustomSensors
pub mod Device
pub mod Modes
pub mod Processing
pub mod Setting
