-- ===== src/Prelude/Int.antt =====
-- Signed numbers, and the casts between 64-bit integers (`as u64`, `as i64`).
use hayate.Prelude.Tests.{ltb, if◌then◌else◌}
use hayate.Prelude.Decimal.{u64_limit}
use Prim.Native.Nat.{ℕ, suc, ◌-◌, ◌<◌}
use mathlib.Core.Path.{◌≡◌}
use native.Mathlib.Omega.{arith}

-- `negsuc n` is -(n + 1).
pub data ℤ : Type 0 where
  pos : ℕ → ℤ
  negsuc : ℕ → ℤ

-- 2 ^ 63
abbrev pub i64_limit : ℕ
i64_limit = 9223372036854775808

-- `n as u64` of an `i64`
abbrev pub as_u64 : ℤ → ℕ
as_u64 (pos n) = n
as_u64 (negsuc n) = u64_limit - suc n

-- `n as i64` of a `u64`
abbrev pub as_i64 : ℕ → ℤ
as_i64 n = if ltb n i64_limit then pos n else negsuc (u64_limit - suc n)

pub as_i64-pos : (n : ℕ) → n < i64_limit → as_i64 n ≡ pos n
as_i64-pos n h = ground arith
