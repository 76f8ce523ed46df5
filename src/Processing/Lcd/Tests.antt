-- ===== src/Processing/Lcd/Tests.antt =====
-- The LCD commander on a sample machine.
use coolerocontrol.Base.{
  Option, ℕ, ◌≡◌, refl, String, Bool, true, false, inl, inr, Bool-cases, ◌==◌, none, some, [], ◌∷◌,
  string_eq,
}
use coolerocontrol.Base.Dict.{Dict, get, contains_key, insert}
use coolerocontrol.Base.Fixed.{fixed}
use coolerocontrol.Base.Outcome.{Outcome, ok, err, Partial, Returns}
use coolerocontrol.CustomSensors.{current_temp, get_temp_from_status}
use coolerocontrol.Device.{Device, DeviceType}
use coolerocontrol.Setting.{LcdSettings}
use coolerocontrol.Processing.Samples.{devices_at, device_at, info}
use coolerocontrol.Processing.Lcd.{
  LcdCommander, schedule_setting, clear_channel_setting, insert_channel, new_metadata,
}
use coolerocontrol.Processing.Lcd.Run.{started, stepped, set, Reachable-update_lcd}
use coolerocontrol.Processing.Lcd.Update.{
  TempData, Shown, update_lcd, entries_of, channels_of, update_entries, get_source_temp_data,
  update_channel, set_temp_image, set_last_temp, image_settings,
}
use coolerocontrol.Processing.Lcd.Paired.{IsPaired, has_channel, lcd-IsPaired}

abbrev warm : LcdSettings
warm = record {
  mode = "temp";
  brightness = some 50;
  orientation = none;
  image_file_processed = none;
  colors = [];
  temp_source = some (record { temp_name = "cpu"; device_uid = "dev" });
}

abbrev shown : LcdCommander ℕ
shown = record {
  scheduled_settings = ("dev", ("lcd", warm) ∷ []) ∷ [];
  scheduled_settings_metadata = ("dev", ("lcd", new_metadata) ∷ []) ∷ [];
}

scheduled :
    schedule_setting
      (devices_at 45000)
      "dev"
      "lcd"
      warm
      (record { scheduled_settings = []; scheduled_settings_metadata = [] })
    ≡ ok shown
unfolding schedule_setting insert_channel get insert
scheduled = refl

-- A source that is not there.
refused :
    schedule_setting [] "dev" "lcd" warm shown
    ≡ err "temp_source Device must currently be present to schedule lcd update"
unfolding schedule_setting get
refused = refl

shown-IsPaired : IsPaired shown
unfolding get contains_key
shown-IsPaired uid channel = elim (Bool-cases ("dev" == uid)) [
  | inl hit ↦ rw hit refl
  | inr miss ↦ rw miss refl
]

shown_screens :
    Partial
      (schedule_setting (devices_at 45000) "dev" "lcd2" warm shown)
      (λ r. IsPaired r × (has_channel "lcd2" (get "dev" r.scheduled_settings) ≡ true))
    × IsPaired (clear_channel_setting "dev" "lcd2" shown)
    × (has_channel "lcd2" (get "dev" (clear_channel_setting "dev" "lcd2" shown).scheduled_settings)
        ≡ false)
shown_screens = lcd-IsPaired (devices_at 45000) "dev" "lcd2" warm shown shown-IsPaired

abbrev devices_there : String → Bool
devices_there uid = contains_key uid (devices_at 45000)

abbrev nothing : LcdCommander ℕ
nothing = record { scheduled_settings = []; scheduled_settings_metadata = [] }

abbrev drawn : String → String → TempData ℕ → Outcome String
drawn device_uid channel_name temp = ok "/tmp/single_temp.png"

abbrev has_repos : DeviceType → Bool
has_repos d_type = true

-- The device with a label for its temperature.
abbrev labelled : ℕ → Dict String (Device ℕ)
labelled temp =
    (
      "dev",
      record (device_at temp) {
        info = record info { temps = ("cpu", record { label = "CPU"; number = 1 }) ∷ [] };
      },
    )
    ∷ []

abbrev image : Option ℕ → Shown
image brightness = record {
  device_uid = "dev";
  channel_name = "lcd";
  lcd_settings = record warm {
    mode = "image";
    brightness = brightness;
    image_file_processed = some "/tmp/single_temp.png";
    temp_source = none;
  };
}

abbrev shown_at : ℕ → LcdCommander ℕ
shown_at temp = record shown {
  scheduled_settings_metadata = ("dev", ("lcd", record { last_temp_set = some temp }) ∷ []) ∷ [];
}

-- The first image comes with the brightness.
first_image :
    update_lcd has_repos drawn (labelled 45000) shown ≡ ok (shown_at 45000, image (some 50) ∷ [])
unfolding update_lcd entries_of channels_of update_entries get_source_temp_data update_channel
    set_temp_image set_last_temp image_settings get insert current_temp get_temp_from_status
first_image = refl

-- The same temperature, and another one.
no_image : update_lcd has_repos drawn (labelled 45000) (shown_at 45000) ≡ ok (shown_at 45000, [])
unfolding update_lcd entries_of channels_of update_entries get_source_temp_data update_channel get
    current_temp get_temp_from_status
no_image = refl

next_image :
    update_lcd has_repos drawn (labelled 46000) (shown_at 45000)
    ≡ ok (shown_at 46000, image none ∷ [])
unfolding update_lcd entries_of channels_of update_entries get_source_temp_data update_channel
    set_temp_image set_last_temp image_settings get insert current_temp get_temp_from_status
next_image = refl

Reachable-update_lcd_example :
    Returns
      (update_lcd has_repos drawn (labelled 50000) shown)
      λ r. (r.0.scheduled_settings ≡ shown.scheduled_settings) × IsPaired r.0
unfolding contains_key
Reachable-update_lcd_example =
    Reachable-update_lcd devices_there has_repos drawn (labelled 50000) shown (λ uid. refl)
      (stepped {c = nothing} started
        (set (devices_at 45000) "dev" "lcd" warm shown (λ uid. refl) scheduled))
