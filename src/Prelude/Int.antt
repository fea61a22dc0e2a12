-- ===== src/Prelude/Int.antt =====
-- Signed integers, for the ints of the program whose sign it tests. `negsuc n` is -(n + 1).
use Prim.Native.Nat.{ℕ}

pub data ℤ : Type 0 where
  pos : ℕ → ℤ
  negsuc : ℕ → ℤ
