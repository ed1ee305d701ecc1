-- ===== src/Prelude/Int.antt =====
-- `int` arguments that the code may be handed negative. `negsuc n` is -(n + 1).
use Prim.Native.Nat.{ℕ}

pub data ℤ : Type 0 where
  pos : ℕ → ℤ
  negsuc : ℕ → ℤ
