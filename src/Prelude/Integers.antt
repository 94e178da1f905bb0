-- ===== src/Prelude/Integers.antt =====
-- The integers over the native numbers, for the few values that may be negative.
use Prim.Native.Nat.{ℕ}

-- `pos n` is n, `negsuc n` is -(n + 1).
pub data ℤ : Type 0 where
  pos negsuc : ℕ → ℤ
