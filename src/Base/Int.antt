-- ===== src/Base/Int.antt =====
-- The signed integers of `off_t` and `int`, over the native numbers.
use Prim.Native.Nat.{ℕ, suc, ◌+◌, ◌-◌, ◌*◌, ◌/◌, ◌%◌, ◌^◌, ◌≤◌, ◌<◌}
use mathlib.Core.Path.{◌≡◌, ap}
use mathlib.Core.Logic.{◌≢◌, inl, inr}
use mathlib.Core.Bool.{Bool, true, false}
use native.Mathlib.Omega.{arith}
use grintorrent.Base.Tests.{Bool-cases, ltb, leb, ◌==◌, if◌then◌else◌}

-- `negsuc n` is -(n + 1).
pub data ℤ : Type 0 where
  pos : ℕ → ℤ
  negsuc : ℕ → ℤ

abbrev pub pos_part : ℤ → ℕ
pos_part (pos n) = n
pos_part (negsuc n) = 0

abbrev pub neg_part : ℤ → ℕ
neg_part (pos n) = 0
neg_part (negsuc n) = suc n

-- a - b, as an integer.
abbrev pub sub_ℕ : ℕ → ℕ → ℤ
sub_ℕ a b = if leb b a then pos (a - b) else negsuc (b - a - 1)

infixl 65 ◌+ℤ◌ ◌-ℤ◌
infixl 70 ◌*ℤ◌
unfoldable pub ◌+ℤ◌ : ℤ → ℤ → ℤ
a +ℤ b = sub_ℕ (pos_part a + pos_part b) (neg_part a + neg_part b)

unfoldable pub ◌-ℤ◌ : ℤ → ℤ → ℤ
a -ℤ b = sub_ℕ (pos_part a + neg_part b) (neg_part a + pos_part b)

unfoldable pub ◌*ℤ◌ : ℤ → ℤ → ℤ
a *ℤ b =
    sub_ℕ (pos_part a * pos_part b + neg_part a * neg_part b)
      (pos_part a * neg_part b + neg_part a * pos_part b)

-- `/` of C, which rounds towards 0, by a positive number.
unfoldable pub quot_ℤ : ℤ → ℕ → ℤ
quot_ℤ a n = sub_ℕ (pos_part a / n) (neg_part a / n)

-- `%` of C, with the sign of the dividend.
unfoldable pub rem_ℤ : ℤ → ℕ → ℤ
rem_ℤ a n = sub_ℕ (pos_part a % n) (neg_part a % n)

-- The conversion of an `off_t` to `size_t`.
unfoldable pub to_size_t : ℤ → ℕ
to_size_t a = (pos_part a + 2 ^ 64 - neg_part a) % 2 ^ 64

abbrev pub ltb_ℤ : ℤ → ℤ → Bool
ltb_ℤ a b = ltb (pos_part a + neg_part b) (pos_part b + neg_part a)

abbrev pub leb_ℤ : ℤ → ℤ → Bool
leb_ℤ a b = leb (pos_part a + neg_part b) (pos_part b + neg_part a)

abbrev pub eqb_ℤ : ℤ → ℤ → Bool
eqb_ℤ a b = (pos_part a + neg_part b) == (pos_part b + neg_part a)

pub quot_ℤ-pos : (n k : ℕ) → 0 < k → quot_ℤ (pos n) k ≡ pos (n / k)
unfolding quot_ℤ
quot_ℤ-pos n k h = ground arith

pub rem_ℤ-pos : (n k : ℕ) → 0 < k → rem_ℤ (pos n) k ≡ pos (n % k)
unfolding rem_ℤ
rem_ℤ-pos n k h = ground arith

pub to_size_t-pos : (n : ℕ) → n < 2 ^ 64 → to_size_t (pos n) ≡ n
unfolding to_size_t
to_size_t-pos n h = omega arith

pub *ℤ-pos : (a b : ℕ) → pos a *ℤ pos b ≡ pos (a * b)
unfolding ◌*ℤ◌
*ℤ-pos a b = ground arith

pub -ℤ-pos : (a b : ℕ) → b ≤ a → pos a -ℤ pos b ≡ pos (a - b)
unfolding ◌-ℤ◌
-ℤ-pos a b h = ground arith

pub eqb_ℤ→eq : (a b : ℤ) → eqb_ℤ a b ≡ true → a ≡ b
eqb_ℤ→eq (pos m) (pos n) h = ap pos (ground arith)
eqb_ℤ→eq (pos m) (negsuc n) h = absurd (ground arith)
eqb_ℤ→eq (negsuc m) (pos n) h = absurd (ground arith)
eqb_ℤ→eq (negsuc m) (negsuc n) h = ap negsuc (ground arith)

pub eqb_ℤ_ne : (a b : ℤ) → a ≢ b → eqb_ℤ a b ≡ false
eqb_ℤ_ne a b ne = elim (Bool-cases (eqb_ℤ a b)) [
  | inl same ↦ absurd (ne (eqb_ℤ→eq a b same))
  | inr other ↦ other
]
