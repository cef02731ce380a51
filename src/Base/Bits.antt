-- ===== src/Base/Bits.antt =====
-- Masks: `bit_and` is at most its second argument, and a byte that is built bit by bit.
use Prim.Native.Nat.{ℕ, zero, suc, ◌/◌, ◌≤◌, min, bit_and, digits, bit_and-bitwise}
use native.Mathlib.Omega.{arith}

digits-le : (n a b : ℕ) → digits (λ b. zero) min n a b ≤ b
digits-le zero a b = omega arith
digits-le (suc n) zero b = omega arith
digits-le (suc n) (suc a) b = omega (arith, digits-le n (suc a / 2) (b / 2))

pub bit_and-le : (a b : ℕ) → bit_and a b ≤ b
bit_and-le a b = omega (arith, bit_and-bitwise a b, digits-le a a b)
