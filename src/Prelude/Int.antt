-- ===== src/Prelude/Int.antt =====
-- `i64` values that the program only carries (timestamps, high-water marks).
use Prim.Native.Nat.{ℕ}

-- `negsuc n` is -(n + 1).
pub data ℤ : Type 0 where
  pos : ℕ → ℤ
  negsuc : ℕ → ℤ
