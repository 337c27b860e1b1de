-- ===== src/Conf/Ctype.antt =====
-- conf/ctype.go: settings that are read from a text. time.ParseDuration, the arithmetic of float64 and
-- its conversion to uint64 are arguments.
use motor.Base.{ℕ, Text, Bool, true, false, Option, none, some}
use motor.Util.Bytes.{Float64, ok, err, string_to_bytes}

-- UnmarshalText of Duration: is there no error, and the variable after it, the bits of an int64.
unfoldable pub duration : (Text → Option ℕ) → Text → ℕ → Bool × ℕ
duration parse_duration text d = elim (parse_duration text) [
  | none ↦ (false, d)
  | some value ↦ (true, value)
]

-- UnmarshalText of ByteSize
unfoldable pub byte_size : {F : Type 0} → Float64 F → (F → ℕ) → Text → ℕ → Bool × ℕ
byte_size float to_uint64 text d = elim (string_to_bytes float text) [
  | err e ↦ (false, d)
  | ok value ↦ (true, to_uint64 value)
]
