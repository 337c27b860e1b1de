-- ===== src/Base/Durations.antt =====
-- time.Duration: an int64 of nanoseconds, here by its bits.
use Prim.Native.Nat.{ℕ, ◌*◌, ◌%◌, ◌^◌}

-- time.Duration(n) * time.Second
unfoldable pub seconds : ℕ → ℕ
seconds n = (n * 1000000000) % 2 ^ 64

-- time.Duration(n) * time.Minute
unfoldable pub minutes : ℕ → ℕ
minutes n = (n * 60000000000) % 2 ^ 64
