-- ===== src/Prelude/Int.antt =====
-- Signed integers, for the ints of requests and files. The program only compares them.
use Prim.Native.Nat.{ℕ}

-- `negsuc n` is -(n + 1).
pub data ℤ : Type 0 where
  pos : ℕ → ℤ
  negsuc : ℕ → ℤ
