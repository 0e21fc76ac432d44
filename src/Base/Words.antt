-- ===== src/Base/Words.antt =====
-- Two's-complement words as bit patterns below 2^32 and 2^64: Go's int32 and int64.
use Prim.Native.Nat.{ℕ, ◌+◌, ◌-◌, ◌*◌, ◌%◌}
use mathlib.Core.Bool.{Bool}
use edge_fleet_operator_demo.Base.Tests.{ltb, leb}

abbrev pub i32_half : ℕ
i32_half = 2147483648

abbrev pub i32_mod : ℕ
i32_mod = 4294967296

abbrev pub i32 : ℕ → ℕ
i32 n = n % i32_mod

abbrev pub i32_add : ℕ → ℕ → ℕ
i32_add a b = (a + b) % i32_mod

abbrev pub i32_sub : ℕ → ℕ → ℕ
i32_sub a b = (a + i32_mod - b) % i32_mod

abbrev pub i32_mul : ℕ → ℕ → ℕ
i32_mul a b = a * b % i32_mod

-- Signed comparison: shift the sign away.
abbrev pub i32_leb : ℕ → ℕ → Bool
i32_leb a b = leb ((a + i32_half) % i32_mod) ((b + i32_half) % i32_mod)

abbrev pub i32_ltb : ℕ → ℕ → Bool
i32_ltb a b = ltb ((a + i32_half) % i32_mod) ((b + i32_half) % i32_mod)

abbrev pub i64_half : ℕ
i64_half = 9223372036854775808

abbrev pub i64_mod : ℕ
i64_mod = 18446744073709551616

abbrev pub i64_add : ℕ → ℕ → ℕ
i64_add a b = (a + b) % i64_mod

abbrev pub i64_sub : ℕ → ℕ → ℕ
i64_sub a b = (a + i64_mod - b) % i64_mod

abbrev pub i64_ltb : ℕ → ℕ → Bool
i64_ltb a b = ltb ((a + i64_half) % i64_mod) ((b + i64_half) % i64_mod)
