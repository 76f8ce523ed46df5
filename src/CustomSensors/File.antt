-- ===== src/CustomSensors/File.antt =====
-- repositories/custom_sensors_repo.rs: the temperature that a file holds. A text is a list of code
-- points. Messages stand without their values.
use coolerocontrol.Base.{
  ℕ, zero, suc, ◌+◌, ◌-◌, ◌*◌, String, Bool, ◌&&◌, ◌||◌, none, some, List, [], ◌∷◌, if◌then◌else◌,
  nat_eq, ◌==◌, ltb, leb, reverse,
}
use coolerocontrol.Base.Float.{Float}
use coolerocontrol.Base.Int.{ℤ, pos, negsuc}
use coolerocontrol.Base.Outcome.{Outcome, ok, err, ◌>>=◌}
use coolerocontrol.Device.{TempStatus}
use coolerocontrol.Setting.{CustomSensor}

abbrev pub max_custom_sensor_file_size_bytes : ℕ
max_custom_sensor_file_size_bytes = 15

-- What `read_to_string` gives.
pub data FileRead : Type 0 where
  contents : List ℕ → FileRead
  not_found : FileRead
  failed : String → FileRead

abbrev pub verify_file_exists : FileRead → Outcome (List ℕ)
verify_file_exists (contents content) = ok content
verify_file_exists not_found = err "File not found"
verify_file_exists (failed msg) = err msg

-- The bytes of a character in UTF-8.
abbrev pub len_utf8 : ℕ → ℕ
len_utf8 c = if ltb c 128 then 1 else if ltb c 2048 then 2 else if ltb c 65536 then 3 else 4

unfoldable pub byte_length : List ℕ → ℕ
byte_length [] = 0
byte_length (c ∷ cs) = len_utf8 c + byte_length cs

unfoldable pub verify_file_size : List ℕ → Outcome (List ℕ)
verify_file_size content =
    if ltb max_custom_sensor_file_size_bytes (byte_length content)
    then err "File size too large"
    else ok content

-- The characters that `trim` takes off.
abbrev pub is_whitespace : ℕ → Bool
is_whitespace c =
    (leb 9 c && leb c 13)
    || (c == 32)
    || (c == 133)
    || (c == 160)
    || (c == 5760)
    || (leb 8192 c && leb c 8202)
    || (c == 8232)
    || (c == 8233)
    || (c == 8239)
    || (c == 8287)
    || (c == 12288)

unfoldable pub trim_start : List ℕ → List ℕ
trim_start [] = []
trim_start (c ∷ cs) = let rest = trim_start cs in if is_whitespace c then rest else c ∷ cs

unfoldable pub trim : List ℕ → List ℕ
trim cs = reverse (trim_start (reverse (trim_start cs)))

-- The value of the digits after `acc`, which must not exceed the limit.
unfoldable pub digits_from : ℕ → String → ℕ → List ℕ → Outcome ℕ
digits_from limit too_far acc [] = ok acc
digits_from limit too_far acc (c ∷ cs) =
    let acc' = acc * 10 + (c - 48) in
    let rest = digits_from limit too_far acc' cs in
    if leb 48 c && leb c 57
    then (if ltb limit acc' then err too_far else rest)
    else err "invalid digit found in string"

abbrev pub digits : ℕ → String → List ℕ → Outcome ℕ
digits limit too_far [] = err "invalid digit found in string"
digits limit too_far (c ∷ cs) = digits_from limit too_far 0 (c ∷ cs)

abbrev pub negated : ℕ → ℤ
negated zero = pos 0
negated (suc n) = negsuc n

abbrev pub positive_i32 : List ℕ → Outcome ℤ
positive_i32 cs = do n ← digits 2147483647 "number too large to fit in target type" cs; ok (pos n)

abbrev pub negative_i32 : List ℕ → Outcome ℤ
negative_i32 cs = do
  n ← digits 2147483648 "number too small to fit in target type" cs
  ok (negated n)

-- `parse::<i32>`
unfoldable pub parse_i32 : List ℕ → Outcome ℤ
parse_i32 [] = err "cannot parse integer from empty string"
parse_i32 (c ∷ cs) =
    if c == 43 then positive_i32 cs else if c == 45 then negative_i32 cs else positive_i32 (c ∷ cs)

abbrev pub verify_i32 : List ℕ → Outcome ℤ
verify_i32 content = parse_i32 (trim content)

module _ {F : Type 0} ⦃fl : Float F⦄ where
  -- Millidegrees.
  abbrev pub verify_temp_value : ℤ → Outcome F
  verify_temp_value (pos temp) =
      if leb temp 120000
      then ok (fl.div (fl.of_nat temp) (fl.of_nat 1000))
      else err "File does not contain a reasonable temperature"
  verify_temp_value (negsuc temp) = err "File does not contain a reasonable temperature"

  unfoldable pub temp_of_file : FileRead → Outcome F
  temp_of_file file = do
    content ← verify_file_exists file
    sized ← verify_file_size content
    temp ← verify_i32 sized
    verify_temp_value temp

  module _ (read_to_string : String → FileRead) where
    unfoldable pub get_custom_sensor_file_temp : CustomSensor → Outcome F
    get_custom_sensor_file_temp sensor = elim sensor.file_path [
      | none ↦ err "File path not present for custom sensor"
      | some path ↦ temp_of_file (read_to_string path)
    ]

    abbrev pub or_zero_temp : Outcome F → F
    or_zero_temp (ok temp) = temp
    or_zero_temp _ = fl.of_nat 0

    unfoldable pub process_custom_sensor_data_file_current : CustomSensor → TempStatus F
    process_custom_sensor_data_file_current sensor = record {
      name = sensor.id;
      temp = or_zero_temp (get_custom_sensor_file_temp sensor);
    }
