-- ===== src/Util/Bytes.antt =====
-- util/bytesfmt.go, with what it uses of strings, unicode and strconv.ParseInt on texts of ASCII. The
-- arithmetic of float64, ParseFloat and FormatFloat are arguments.
pub mod Split
pub mod Parsed
mod Tests
use motor.Base.{
  ℕ, ◌+◌, ◌-◌, ◌*◌, ◌^◌, Text, lit, Dict, Bool, true, false, ◌&&◌, ◌||◌, Option, none, some, List,
  [], ◌∷◌, ◌++◌, map, leb, ltb, ◌==◌, is_empty, lookup, if◌then◌else◌,
}

pub record Float64 (F : Type 0) : Type 0 where
  -- float64 of an int64, by its sign and its absolute value
  pub of_int : Bool → ℕ → F
  pub mul : F → F → F
  pub div : F → F → F
  -- is the first at least the second
  pub ge : F → F → Bool
  -- math.Round, and math.Pow(10, n)
  pub math_round : F → F
  pub pow10 : ℕ → F
  -- strconv.ParseFloat(s, 64), `none` for an error, and strconv.FormatFloat(x, 'f', -1, 64)
  pub parse_float : Text → Option F
  pub format_float : F → Text

pub data Error : Type 0 where
  unknown_format unknown_suffix parse_failed : Error

pub data Result (A : Type 0) : Type 0 where
  ok : A → Result A
  err : Error → Result A

pub is_space : ℕ → Bool
is_space c = c == b' ' || (leb 9 c && leb c 13)

pub is_digit : ℕ → Bool
is_digit c = leb b'0' c && leb c b'9'

pub trim_start : Text → Text
unfolding is_space
trim_start [] = []
trim_start (c ∷ s) = let rest = trim_start s in if is_space c then rest else c ∷ s

pub trim_end : Text → Text
unfolding is_space is_empty
trim_end [] = []
trim_end (c ∷ s) = let rest = trim_end s in if is_empty rest && is_space c then [] else c ∷ rest

-- strings.TrimSpace
unfoldable pub trim_space : Text → Text
unfolding trim_start trim_end
trim_space s = trim_end (trim_start s)

upper_byte : ℕ → ℕ
upper_byte c = if leb b'a' c && leb c b'z' then c - 32 else c

-- strings.ToUpper
unfoldable pub to_upper : Text → Text
unfolding upper_byte
to_upper s = map upper_byte s

digits_value : ℕ → Text → Option ℕ
unfolding is_digit
digits_value n [] = some n
digits_value n (c ∷ s) =
    let rest = digits_value (n * 10 + (c - b'0')) s in if is_digit c then rest else none

-- An int64 has the absolute value.
in_range : Bool → Option ℕ → Option (Bool × ℕ)
in_range negative none = none
in_range negative (some n) =
    if ltb n (2 ^ 63) || (negative && n == 2 ^ 63) then some (negative, n) else none

unsigned : Bool → Text → Option (Bool × ℕ)
unfolding in_range digits_value
unsigned negative [] = none
unsigned negative (c ∷ s) = in_range negative (digits_value 0 (c ∷ s))

-- strconv.ParseInt(s, 10, 64): is it negative, and its absolute value
unfoldable pub parse_int : Text → Option (Bool × ℕ)
unfolding unsigned
parse_int [] = none
parse_int (c ∷ s) =
    if c == b'-'
    then unsigned true s
    else if c == b'+'
    then unsigned false s
    else unsigned false (c ∷ s)

onto : ℕ → Option (Text × Text) → Option (Text × Text)
onto c none = none
onto c (some (s, t)) = some (c ∷ s, t)

-- The text before and from the first rune that is no digit, if there is one.
unfoldable pub split : Text → Option (Text × Text)
unfolding is_digit onto
split [] = none
split (c ∷ s) = let rest = split s in if is_digit c then onto c rest else some ([], c ∷ s)

module _ {F : Type 0} (float : Float64 F) where
  -- 1 << (10 * iota), as a float64
  abbrev pub unit : ℕ → F
  unit i = float.of_int false (2 ^ (10 * i))

  unfoldable pub unit_map : Dict F
  unit_map =
      (lit "B", unit 0)
      ∷ (lit "K", unit 1)
      ∷ (lit "M", unit 2)
      ∷ (lit "G", unit 3)
      ∷ (lit "T", unit 4)
      ∷ (lit "P", unit 5)
      ∷ (lit "KB", unit 1)
      ∷ (lit "MB", unit 2)
      ∷ (lit "GB", unit 3)
      ∷ (lit "TB", unit 4)
      ∷ (lit "PB", unit 5)
      ∷ []

  unfoldable pub scaled : F → Option F → Result F
  scaled u none = err parse_failed
  scaled u (some value) = ok (float.mul value u)

  with_unit : Text → Option F → Result F
  unfolding scaled
  with_unit count none = err unknown_suffix
  with_unit count (some u) = scaled u (float.parse_float count)

  of_split : Option (Text × Text) → Result F
  unfolding with_unit unit_map
  of_split none = err unknown_format
  of_split (some (count, suffix)) =
      with_unit (trim_space count) (lookup (to_upper (trim_space suffix)) unit_map)

  of_trimmed : Text → Option (Bool × ℕ) → Result F
  unfolding of_split split
  of_trimmed s (some (negative, n)) = ok (float.of_int negative n)
  of_trimmed s none = of_split (split s)

  unfoldable pub string_to_bytes : Text → Result F
  unfolding of_trimmed trim_space parse_int
  string_to_bytes s = let t = trim_space s in of_trimmed t (parse_int t)

  -- The cases of the switch: the name of the unit, and the value in it.
  unfoldable pub in_unit : F → Text × F
  in_unit bytes =
      if float.ge bytes (unit 5)
      then (lit "PB", float.div bytes (unit 5))
      else if float.ge bytes (unit 4)
      then (lit "TB", float.div bytes (unit 4))
      else if float.ge bytes (unit 3)
      then (lit "GB", float.div bytes (unit 3))
      else if float.ge bytes (unit 2)
      then (lit "MB", float.div bytes (unit 2))
      else if float.ge bytes (unit 1)
      then (lit "KB", float.div bytes (unit 1))
      else if float.ge bytes (unit 0)
      then (lit "B", bytes)
      else ([], bytes)

  -- round(n, decimal)
  unfoldable pub round : F → ℕ → F
  round n decimal =
      float.div (float.math_round (float.mul n (float.pow10 decimal))) (float.pow10 decimal)

  unfoldable pub bytes_to_string : F → Text
  unfolding in_unit round
  bytes_to_string bytes =
      let (name, value) = in_unit bytes in float.format_float (round value 2) ++ name
