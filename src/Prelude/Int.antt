-- ===== src/Prelude/Int.antt =====
-- Signed 64-bit values that can be below zero.
use Prim.Native.Nat.{ℕ}
use mathlib.Core.Bool.{Bool, true, false}
use chatster.Prelude.Tests.{ltb}

-- `negsuc n` is -(n + 1).
pub data ℤ : Type 0 where
  pos : ℕ → ℤ
  negsuc : ℕ → ℤ

abbrev pub less : ℤ → ℤ → Bool
less (negsuc m) (negsuc n) = ltb n m
less (negsuc m) (pos n) = true
less (pos m) (negsuc n) = false
less (pos m) (pos n) = ltb m n
