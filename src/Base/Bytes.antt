-- ===== src/Base/Bytes.antt =====
-- Numbers in little-endian bytes, and text as bytes.
use Prim.Native.Char.{code}
use Prim.Native.String.{String}
use Prim.Native.Nat.{ℕ, zero, suc, ◌+◌, ◌*◌, ◌/◌, ◌%◌, ◌^◌, ◌<◌}
use mathlib.Core.Path.{◌≡◌, refl, ap}
use mathlib.Core.List.{List, [], ◌∷◌}
use native.Mathlib.Nat.{pow-suc}
use native.Mathlib.Omega.{arith}
use grintorrent.Base.Lists.{length}

-- The bytes of an ASCII literal, without the terminator
abbrev pub bytes_of : String → List ℕ
bytes_of String.[] = []
bytes_of (String.◌∷◌ c s) = code c ∷ bytes_of s

unfoldable pub le_bytes : ℕ → ℕ → List ℕ
le_bytes zero n = []
le_bytes (suc k) n = n % 256 ∷ le_bytes k (n / 256)

unfoldable pub le_value : List ℕ → ℕ
le_value [] = 0
le_value (b ∷ bs) = b + 256 * le_value bs

pub length-le_bytes : (k n : ℕ) → length (le_bytes k n) ≡ k
unfolding le_bytes
length-le_bytes zero n = refl
length-le_bytes (suc k) n = ap suc (length-le_bytes k (n / 256))

pub le_value-le_bytes : (k n : ℕ) → n < 256 ^ k → le_value (le_bytes k n) ≡ n
unfolding le_value le_bytes
le_value-le_bytes zero n h = omega arith
le_value-le_bytes (suc k) n h =
    omega (arith, le_value-le_bytes k (n / 256) (omega (arith, pow-suc 256 k)))
