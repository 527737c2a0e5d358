-- ===== src/Common/Int.antt =====
-- Signed integers, as the source's `int` and durations read from configuration.
use Prim.Native.Nat.{ℕ, suc, ◌-◌, ◌%◌, ◌^◌}

-- `negsuc n` is -(n + 1).
pub data ℤ : Type 0 where
  pos : ℕ → ℤ
  negsuc : ℕ → ℤ

-- `static_cast<uint64_t>` of a signed integer.
abbrev pub cast_u64 : ℤ → ℕ
cast_u64 (pos n) = n % 2 ^ 64
cast_u64 (negsuc n) = (2 ^ 64 - suc (n % 2 ^ 64)) % 2 ^ 64
