-- ===== src/Util/Bytes/Tests.antt =====
-- Runs of StringToBytes and BytesToString, and their theorems at concrete inputs.
use motor.Base.{
  ℕ, zero, suc, ◌+◌, ◌*◌, ◌/◌, ◌%◌, ◌^◌, Text, lit, ◌≡◌, refl, Option, none, some, [], ◌∷◌, ◌++◌,
  leb, ◌==◌, if◌then◌else◌, is_empty, lookup, text_eq,
}
use motor.Util.Bytes.{
  Float64, unknown_format, parse_failed, ok, err, digits_value, string_to_bytes, bytes_to_string,
  is_digit, in_unit, round, unit, to_upper,
}
use motor.Util.Bytes.Parsed.{IsLargest, counted, string_to_bytes-bytes_to_string}

digits : ℕ → ℕ → Text → Text
digits zero n s = s
digits (suc fuel) n s =
    let rest = digits fuel (n / 10) ((b'0' + n % 10) ∷ s) in
    if n == 0 then (if is_empty s then b'0' ∷ [] else s) else rest

hundreds : Option ℕ → Option ℕ
hundreds none = none
hundreds (some n) = some (n * 100)

-- Numbers of two decimals, by their hundredths; negative ones are left out.
abbrev float : Float64 ℕ
float = record {
  of_int = λ negative n. n * 100;
  mul = λ a b. (a * b) / 100;
  div = λ a b. (a * 100) / b;
  ge = λ a b. leb b a;
  math_round = λ a. ((a + 50) / 100) * 100;
  pow10 = λ n. 100 * 10 ^ n;
  parse_float = λ s. if is_empty s then none else hundreds (digits_value 0 s);
  format_float = λ a.
      digits 20 (a / 100) []
      ++ (if a % 100 == 0
          then []
          else b'.' ∷ (b'0' + a % 100 / 10) ∷ (if a % 10 == 0 then [] else (b'0' + a % 10) ∷ []));
}

-- 10 KB, and 1.5 KB
abbrev ten_kb : ℕ
ten_kb = 1024000

abbrev one_and_a_half_kb : ℕ
one_and_a_half_kb = 153600

prints : bytes_to_string float ten_kb ≡ lit "10KB"
unfolding bytes_to_string digits is_empty
prints = refl

prints_fraction : bytes_to_string float one_and_a_half_kb ≡ lit "1.5KB"
unfolding bytes_to_string digits is_empty
prints_fraction = refl

reads : string_to_bytes float (lit " 10 kb ") ≡ ok 1024000
unfolding string_to_bytes lookup text_eq to_upper hundreds
reads = refl

reads_int : string_to_bytes float (lit "+7") ≡ ok 700
unfolding string_to_bytes hundreds
reads_int = refl

refuses_big : string_to_bytes float (lit "9223372036854775808") ≡ err unknown_format
unfolding string_to_bytes
refuses_big = refl

refuses_unit : string_to_bytes float (lit "KB") ≡ err parse_failed
unfolding string_to_bytes lookup text_eq to_upper
refuses_unit = refl

string_to_bytes-bytes_to_string_example :
    let r = round float (in_unit float ten_kb).1 2 in
    (i : ℕ) × IsLargest float ten_kb i
    × ((in_unit float ten_kb).1 ≡ counted float ten_kb i)
    × (string_to_bytes float (bytes_to_string float ten_kb) ≡ ok (float.mul r (unit float i)))
unfolding in_unit round digits is_digit is_empty hundreds digits_value
string_to_bytes-bytes_to_string_example =
    string_to_bytes-bytes_to_string float ten_kb refl (refl, (refl, tt)) refl
