-- ===== src/Prelude/Int.antt =====
-- Signed integers, for the Go values that may be negative (durations, parsed numbers).
use Prim.Native.Nat.{ℕ}

-- `negsuc n` is -(n + 1).
pub data ℤ : Type 0 where
  pos : ℕ → ℤ
  negsuc : ℕ → ℤ
