-- ===== src/Base/Slices.antt =====
-- Slices of a byte string.
use Prim.Native.Nat.{ℕ, zero, suc, ◌+◌, ◌-◌, ◌≤◌, ◌<◌, min}
use Prim.Native.Nat.add
use mathlib.Core.Path.{◌≡◌, refl, sym, ap, ◌∙◌}
use mathlib.Core.List.{List, [], ◌∷◌, ◌++◌}
use native.Mathlib.Omega.{arith}
use grintorrent.Base.Lists.{length, take, drop, get_or, length-take, length-drop}

-- `n` bytes from an offset on
abbrev pub slice {ℓ} : {A : Type ℓ} → ℕ → ℕ → List A → List A
slice p n xs = take n (drop p xs)

pub take-nil {ℓ} : (A : Type ℓ) (n : ℕ) → take {A = A} n [] ≡ []
take-nil A zero = refl
take-nil A (suc n) = refl

pub drop-nil {ℓ} : (A : Type ℓ) (n : ℕ) → drop {A = A} n [] ≡ []
drop-nil A zero = refl
drop-nil A (suc n) = refl

module _ {ℓ} {A : Type ℓ} where
  pub drop-drop : (a b : ℕ) (xs : List A) → drop a (drop b xs) ≡ drop (b + a) xs
  drop-drop a zero xs = ap (λ n. drop n xs) (omega arith)
  drop-drop a (suc b) [] = drop-nil A a ∙ sym (drop-nil A (suc b + a))
  drop-drop a (suc b) (x ∷ xs) = rw (add.suc b a) (drop-drop a b xs)

  pub take-add : (a b : ℕ) (xs : List A) → take (a + b) xs ≡ take a xs ++ take b (drop a xs)
  take-add zero b xs = ap (λ n. take n xs) (omega arith)
  take-add (suc a) b [] = take-nil A (suc a + b) ∙ sym (take-nil A b)
  take-add (suc a) b (x ∷ xs) = rw (add.suc a b) (ap (◌∷◌ x) (take-add a b xs))

  pub slice-add :
      (p a b : ℕ) (xs : List A) → slice p (a + b) xs ≡ slice p a xs ++ slice (p + a) b xs
  slice-add p a b xs =
      take-add a b (drop p xs) ∙ ap (λ ys. slice p a xs ++ take b ys) (drop-drop a p xs)

  pub length-slice : (p n : ℕ) (xs : List A) → length (slice p n xs) ≡ min n (length xs - p)
  length-slice p n xs = omega (arith, length-take n (drop p xs), length-drop p xs)

  pub take-length : (n : ℕ) (xs : List A) → length xs ≤ n → take n xs ≡ xs
  take-length zero [] h = refl
  take-length zero (x ∷ xs) h = absurd (omega arith)
  take-length (suc n) [] h = refl
  take-length (suc n) (x ∷ xs) h = ap (◌∷◌ x) (take-length n xs (omega arith))

pub take-append {ℓ} : {A : Type ℓ} (n : ℕ) (xs ys : List A) → length xs ≡ n → take n (xs ++ ys) ≡ xs
take-append zero [] ys e = refl
take-append zero (x ∷ xs) ys e = absurd (omega arith)
take-append (suc n) [] ys e = absurd (omega arith)
take-append (suc n) (x ∷ xs) ys e = ap (◌∷◌ x) (take-append n xs ys (omega arith))

pub drop-append {ℓ} : {A : Type ℓ} (n : ℕ) (xs ys : List A) → length xs ≡ n → drop n (xs ++ ys) ≡ ys
drop-append zero [] ys e = refl
drop-append zero (x ∷ xs) ys e = absurd (omega arith)
drop-append (suc n) [] ys e = absurd (omega arith)
drop-append (suc n) (x ∷ xs) ys e = drop-append n xs ys (omega arith)

pub take-append_le {ℓ} :
    {A : Type ℓ} (n : ℕ) (xs ys : List A) → n ≤ length xs → take n (xs ++ ys) ≡ take n xs
take-append_le zero xs ys le = refl
take-append_le (suc n) [] ys le = absurd (omega arith)
take-append_le (suc n) (x ∷ xs) ys le = ap (◌∷◌ x) (take-append_le n xs ys (omega arith))

pub drop-append_le {ℓ} :
    {A : Type ℓ} (n : ℕ) (xs ys : List A) → n ≤ length xs → drop n (xs ++ ys) ≡ drop n xs ++ ys
drop-append_le zero xs ys le = refl
drop-append_le (suc n) [] ys le = absurd (omega arith)
drop-append_le (suc n) (x ∷ xs) ys le = drop-append_le n xs ys (omega arith)

pub take-take {ℓ} : {A : Type ℓ} (m n : ℕ) (xs : List A) → m ≤ n → take m (take n xs) ≡ take m xs
take-take zero n xs le = refl
take-take (suc m) zero xs le = absurd (omega arith)
take-take (suc m) (suc n) [] le = refl
take-take (suc m) (suc n) (x ∷ xs) le = ap (◌∷◌ x) (take-take m n xs (omega arith))

pub drop-cons {ℓ} :
    {A : Type ℓ} (xs : List A) (i : ℕ) (d : A)
    → i < length xs
    → drop i xs ≡ get_or xs i d ∷ drop (i + 1) xs
drop-cons [] i d lt = absurd (omega arith)
drop-cons (x ∷ xs) zero d lt = refl
drop-cons (x ∷ xs) (suc i) d lt = rw (add.suc i 1) (drop-cons xs i d (omega arith))
