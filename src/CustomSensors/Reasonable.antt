-- ===== src/CustomSensors/Reasonable.antt =====
-- The temperature of a file: what is accepted, and that a number written out is read back.
use coolerocontrol.Base.{
  ◌&&◌, nat_eq, ◌==◌, ℕ, ◌+◌, ◌-◌, ◌*◌, ◌≤◌, ◌≡◌, ◌≢◌, refl, String, true, false, some, List, [],
  ◌∷◌, ◌++◌, map, arith, leb, ltb, inl, inr, Bool-cases, Option-cases,
}
use coolerocontrol.Base.Float.{Float}
use coolerocontrol.Base.Int.{ℤ, pos, negsuc}
use coolerocontrol.Base.Outcome.{ok, ◌>>=◌, Safe_self, Safe-imp, Safe, Safe-bind}
use coolerocontrol.CustomSensors.File.{
  FileRead, contents, not_found, failed, verify_file_size, verify_temp_value, temp_of_file,
  get_custom_sensor_file_temp, trim, digits_from, digits, negated, parse_i32, byte_length,
  max_custom_sensor_file_size_bytes,
}
use coolerocontrol.Setting.{CustomSensor}
use coolerocontrol.CustomSensors.Parsed.{
  AllWhitespace, value_from, digit, AllDigits, digits-AllPlain, trim-plain, map-ne-nil,
  parse_i32-digits,
}

digits_from-Safe :
    (limit : ℕ) (msg : String) (acc : ℕ) (cs : List ℕ)
    → Safe (digits_from limit msg acc cs) (λ n. Unit)
unfolding digits_from
digits_from-Safe limit msg acc [] = tt
digits_from-Safe limit msg acc (c ∷ cs) =
    let rest = digits_from-Safe limit msg (acc * 10 + (c - 48)) cs in
    elim (Bool-cases (leb 48 c && leb c 57)) [
      | inl is_digit ↦ elim (Bool-cases (ltb limit (acc * 10 + (c - 48)))) [
        | inl too_far ↦ rw (is_digit, too_far) tt
        | inr near ↦ rw (is_digit, near) rest
      ]
      | inr other ↦ rw other tt
    ]

signed-Safe :
    (limit : ℕ) (msg : String) (cs : List ℕ) (f : ℕ → ℤ)
    → Safe (digits limit msg cs >>= λ n. ok (f n)) (λ n. Unit)
signed-Safe limit msg [] f = tt
signed-Safe limit msg (c ∷ cs) f =
    Safe-bind (λ n. Unit) (λ n. Unit) (λ n. ok (f n)) (digits limit msg (c ∷ cs))
      (digits_from-Safe limit msg 0 (c ∷ cs)) (λ n _. tt)

parse_i32-Safe : (cs : List ℕ) → Safe (parse_i32 cs) (λ v. Unit)
unfolding parse_i32
parse_i32-Safe [] = tt
parse_i32-Safe (c ∷ cs) = elim (Bool-cases (c == 43)) [
  | inl plus ↦ rw plus (signed-Safe 2147483647 "number too large to fit in target type" cs pos)
  | inr no_plus ↦ elim (Bool-cases (c == 45)) [
    | inl minus ↦
        rw (no_plus, minus)
          (signed-Safe 2147483648 "number too small to fit in target type" cs negated)
    | inr no_minus ↦
        rw (no_plus, no_minus)
          (signed-Safe 2147483647 "number too large to fit in target type" (c ∷ cs) pos)
  ]
]

module _ {F : Type 0} ⦃fl : Float F⦄ where
  -- A temperature that a file gives.
  pub record IsReasonable (file : FileRead) (temp : F) : Type 0 where
    pub content : List ℕ
    pub read : file ≡ contents content
    pub small : byte_length content ≤ max_custom_sensor_file_size_bytes
    pub millidegrees : ℕ
    pub number : parse_i32 (trim content) ≡ ok (pos millidegrees)
    pub bounded : millidegrees ≤ 120000
    pub same : temp ≡ fl.div (fl.of_nat millidegrees) (fl.of_nat 1000)

module _ (F : Type 0) ⦃fl : Float F⦄ where
  verify_temp_value-IsReasonable :
      (content : List ℕ) (v : ℤ)
      → byte_length content ≤ max_custom_sensor_file_size_bytes
      → parse_i32 (trim content) ≡ ok v
      → Safe (verify_temp_value {F = F} v) (IsReasonable (contents content))
  verify_temp_value-IsReasonable content (pos n) small e = elim (Bool-cases (leb n 120000)) [
    | inl below ↦ rw below (record {
      content = content;
      read = refl;
      small = small;
      millidegrees = n;
      number = e;
      bounded = ground arith;
      same = refl;
    })
    | inr above ↦ rw above tt
  ]
  verify_temp_value-IsReasonable content (negsuc n) small e = tt

  temp_of_file-IsReasonable :
      (file : FileRead) → Safe (temp_of_file {F = F} file) (IsReasonable file)
  unfolding temp_of_file verify_file_size
  temp_of_file-IsReasonable not_found = tt
  temp_of_file-IsReasonable (failed msg) = tt
  temp_of_file-IsReasonable (contents content) =
      elim (Bool-cases (ltb max_custom_sensor_file_size_bytes (byte_length content))) [
        | inl large ↦ rw large tt
        | inr small ↦ rw small (
            Safe-bind (IsReasonable (contents content)) (λ v. parse_i32 (trim content) ≡ ok v) _
              (parse_i32 (trim content)) (Safe_self _ (parse_i32-Safe (trim content)))
              λ v e. verify_temp_value-IsReasonable content v (ground arith) e)
      ]

  -- Reading the temperature of a file sensor does not panic. What it gives is the number in the file
  -- in thousandths, where the file has at most 15 bytes and the number lies in 0 to 120000.
  pub get_custom_sensor_file_temp-IsReasonable :
      (read_to_string : String → FileRead) (sensor : CustomSensor)
      → Safe (get_custom_sensor_file_temp {F = F} read_to_string sensor) λ temp.
        (path : String) × (sensor.file_path ≡ some path) × IsReasonable (read_to_string path) temp
  unfolding get_custom_sensor_file_temp
  get_custom_sensor_file_temp-IsReasonable read_to_string sensor =
      elim (Option-cases sensor.file_path) [
        | inl absent ↦ rw absent tt
        | inr (path, e) ↦ rw e (
            Safe-imp _ _ (temp_of_file (read_to_string path)) (λ temp h. (path, refl, h))
              (temp_of_file-IsReasonable (read_to_string path)))
      ]

module _ {F : Type 0} ⦃fl : Float F⦄ where
  -- A file with decimal digits between whitespace, of at most 15 bytes and with a value of at most
  -- 120000, gives the value in thousandths.
  pub get_custom_sensor_file_temp-value_from :
      (read_to_string : String → FileRead) (sensor : CustomSensor) (path : String)
      (before ds after : List ℕ)
      → sensor.file_path ≡ some path
      → read_to_string path ≡ contents (before ++ (map digit ds ++ after))
      → AllWhitespace before
      → AllWhitespace after
      → AllDigits ds
      → ds ≢ []
      → byte_length (before ++ (map digit ds ++ after)) ≤ max_custom_sensor_file_size_bytes
      → value_from 0 ds ≤ 120000
      → get_custom_sensor_file_temp read_to_string sensor
        ≡ ok (fl.div (fl.of_nat (value_from 0 ds)) (fl.of_nat 1000))
  unfolding get_custom_sensor_file_temp temp_of_file verify_file_size
  get_custom_sensor_file_temp-value_from read_to_string sensor path before ds after p r b a h n s
        v =
      let content = before ++ (map digit ds ++ after) in
      let small : ltb max_custom_sensor_file_size_bytes (byte_length content) ≡ false =
        ground arith in
      let below : leb (value_from 0 ds) 120000 ≡ true = ground arith in
      rw
        (
          p,
          r,
          small,
          trim-plain before (map digit ds) after b a (digits-AllPlain ds h) (map-ne-nil ds n),
          parse_i32-digits ds h n (omega (arith, v)),
          below,
        )
        refl
