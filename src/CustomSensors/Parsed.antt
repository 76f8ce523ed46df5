-- ===== src/CustomSensors/Parsed.antt =====
-- The text of a file: whitespace is taken off, and digits give their value.
use mathlib.Core.List.{append-nil, reverse-cons, reverse-append, reverse-reverse}
use coolerocontrol.Base.{
  subst, All-append, nat_eq, ◌==◌, ℕ, ◌+◌, ◌*◌, ◌≤◌, ◌<◌, ◌≡◌, ◌≢◌, refl, sym, ◌∙◌, ap, String,
  true, false, List, [], ◌∷◌, ◌++◌, map, reverse, arith, All,
}
use coolerocontrol.Base.Int.{pos}
use coolerocontrol.Base.Outcome.{ok}
use coolerocontrol.CustomSensors.File.{is_whitespace, trim_start, trim, digits_from, parse_i32}

abbrev pub AllWhitespace : List ℕ → Type 0
AllWhitespace = All (λ c. is_whitespace c ≡ true)

-- The value of decimal digits, after `acc`.
abbrev pub value_from : ℕ → List ℕ → ℕ
value_from acc [] = acc
value_from acc (d ∷ ds) = value_from (acc * 10 + d) ds

abbrev pub digit : ℕ → ℕ
digit d = 48 + d

abbrev pub AllDigits : List ℕ → Type 0
AllDigits = All (λ d. d < 10)

acc-le-value_from : (acc : ℕ) (ds : List ℕ) → acc ≤ value_from acc ds
acc-le-value_from acc [] = omega arith
acc-le-value_from acc (d ∷ ds) = omega (arith, acc-le-value_from (acc * 10 + d) ds)

digits_from-map :
    (limit : ℕ) (msg : String) (acc : ℕ) (ds : List ℕ)
    → AllDigits ds
    → value_from acc ds ≤ limit
    → digits_from limit msg acc (map digit ds) ≡ ok (value_from acc ds)
unfolding digits_from
digits_from-map limit msg acc [] h b = refl
digits_from-map limit msg acc (d ∷ ds) h b = ground (
  arith,
  digits_from-map limit msg (acc * 10 + d) ds h.1 b,
  acc-le-value_from (acc * 10 + d) ds,
  h.0,
)

abbrev pub AllPlain : List ℕ → Type 0
AllPlain = All (λ c. is_whitespace c ≡ false)

pub digits-AllPlain : (ds : List ℕ) → AllDigits ds → AllPlain (map digit ds)
digits-AllPlain [] h = tt
digits-AllPlain (d ∷ ds) h = (ground (arith, h.0), digits-AllPlain ds h.1)

trim_start-append : (ws xs : List ℕ) → AllWhitespace ws → trim_start (ws ++ xs) ≡ trim_start xs
unfolding trim_start
trim_start-append [] xs h = refl
trim_start-append (w ∷ ws) xs h = rw h.0 (trim_start-append ws xs h.1)

trim_start-plain : (xs ys : List ℕ) → AllPlain xs → xs ≢ [] → trim_start (xs ++ ys) ≡ xs ++ ys
unfolding trim_start
trim_start-plain [] ys h n = absurd (n refl)
trim_start-plain (x ∷ xs) ys h n = rw h.0 refl

All-reverse : (P : ℕ → Type 0) (xs : List ℕ) → All P xs → All P (reverse xs)
All-reverse P [] h = tt
All-reverse P (x ∷ xs) h =
    subst (All P) (sym (reverse-cons x xs))
      (All-append P (reverse xs) (x ∷ []) (All-reverse P xs h.1) (h.0, tt))

reverse-ne-nil : (xs : List ℕ) → xs ≢ [] → reverse xs ≢ []
reverse-ne-nil xs n h = n (sym (reverse-reverse xs) ∙ ap reverse h)

-- Whitespace on both sides goes.
pub trim-plain :
    (before xs after : List ℕ)
    → AllWhitespace before
    → AllWhitespace after
    → AllPlain xs
    → xs ≢ []
    → trim (before ++ (xs ++ after)) ≡ xs
unfolding trim
trim-plain before xs after b a p n =
    rw
      (
        trim_start-append before (xs ++ after) b,
        trim_start-plain xs after p n,
        reverse-append xs after,
        trim_start-append (reverse after) (reverse xs) (All-reverse _ after a),
      )
      (ap reverse (
          ap trim_start (sym (append-nil (reverse xs)))
          ∙ trim_start-plain (reverse xs) [] (All-reverse _ xs p) (reverse-ne-nil xs n)
          ∙ append-nil (reverse xs))
        ∙ reverse-reverse xs)

pub map-ne-nil : (ds : List ℕ) → ds ≢ [] → map digit ds ≢ []
map-ne-nil [] n h = n refl
map-ne-nil (d ∷ ds) n h = cc

pub parse_i32-digits :
    (ds : List ℕ)
    → AllDigits ds
    → ds ≢ []
    → value_from 0 ds ≤ 2147483647
    → parse_i32 (map digit ds) ≡ ok (pos (value_from 0 ds))
unfolding parse_i32
parse_i32-digits [] h n b = absurd (n refl)
parse_i32-digits (d ∷ ds) h n b =
    let value =
      digits_from-map 2147483647 "number too large to fit in target type" 0 (d ∷ ds) h b in
    let plus : (48 + d == 43) ≡ false = ground (arith, h.0) in
    let minus : (48 + d == 45) ≡ false = ground (arith, h.0) in rw (plus, minus, value) refl
