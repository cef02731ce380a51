-- ===== src/Base/Lists.antt =====
-- Arrays and byte strings as lists, indexed by the native numbers.
use Prim.Native.Nat.{ℕ, zero, suc, ◌+◌, ◌-◌, ◌<◌, ◌≤◌, min}
use mathlib.Core.Path.{◌≡◌, refl, ap}
use mathlib.Core.Logic.{◌≢◌}
use mathlib.Core.Option.{Option, none, some}
use mathlib.Core.List.{List, [], ◌∷◌, ◌++◌}
use native.Mathlib.Omega.{arith}

module _ {ℓ} {A : Type ℓ} where
  abbrev pub length : List A → ℕ
  length [] = 0
  length (x ∷ xs) = suc (length xs)

  abbrev pub get_elem? : List A → ℕ → Option A
  get_elem? [] i = none
  get_elem? (x ∷ xs) zero = some x
  get_elem? (x ∷ xs) (suc i) = get_elem? xs i

  abbrev pub get_or : List A → ℕ → A → A
  get_or [] i d = d
  get_or (x ∷ xs) zero d = x
  get_or (x ∷ xs) (suc i) d = get_or xs i d

  -- A write out of bounds changes nothing.
  abbrev pub set : List A → ℕ → A → List A
  set [] i v = []
  set (x ∷ xs) zero v = v ∷ xs
  set (x ∷ xs) (suc i) v = x ∷ set xs i v

  abbrev pub take : ℕ → List A → List A
  take zero xs = []
  take (suc n) [] = []
  take (suc n) (x ∷ xs) = x ∷ take n xs

  abbrev pub drop : ℕ → List A → List A
  drop zero xs = xs
  drop (suc n) [] = []
  drop (suc n) (x ∷ xs) = drop n xs

  abbrev pub replicate : ℕ → A → List A
  replicate zero a = []
  replicate (suc n) a = a ∷ replicate n a

  pub length-append : (xs ys : List A) → length (xs ++ ys) ≡ length xs + length ys
  length-append [] ys = omega arith
  length-append (x ∷ xs) ys = omega (arith, length-append xs ys)

  pub length-set : (xs : List A) (i : ℕ) (v : A) → length (set xs i v) ≡ length xs
  length-set [] i v = refl
  length-set (x ∷ xs) zero v = refl
  length-set (x ∷ xs) (suc i) v = ap suc (length-set xs i v)

  pub length-take : (n : ℕ) (xs : List A) → length (take n xs) ≡ min n (length xs)
  length-take zero xs = omega arith
  length-take (suc n) [] = omega arith
  length-take (suc n) (x ∷ xs) = omega (arith, length-take n xs)

  pub length-drop : (n : ℕ) (xs : List A) → length (drop n xs) ≡ length xs - n
  length-drop zero xs = omega arith
  length-drop (suc n) [] = omega arith
  length-drop (suc n) (x ∷ xs) = omega (arith, length-drop n xs)

  pub length-replicate : (n : ℕ) (a : A) → length (replicate n a) ≡ n
  length-replicate zero a = refl
  length-replicate (suc n) a = ap suc (length-replicate n a)

  pub take-append-drop : (n : ℕ) (xs : List A) → take n xs ++ drop n xs ≡ xs
  take-append-drop zero xs = refl
  take-append-drop (suc n) [] = refl
  take-append-drop (suc n) (x ∷ xs) = ap (◌∷◌ x) (take-append-drop n xs)

  pub get_elem?-eq-get_or :
      (xs : List A) (i : ℕ) (d : A) → i < length xs → get_elem? xs i ≡ some (get_or xs i d)
  get_elem?-eq-get_or [] i d h = absurd (omega arith)
  get_elem?-eq-get_or (x ∷ xs) zero d h = refl
  get_elem?-eq-get_or (x ∷ xs) (suc i) d h = get_elem?-eq-get_or xs i d (omega arith)

  pub get_or_of_get_elem? :
      (xs : List A) (i : ℕ) (d : A) {a : A} → get_elem? xs i ≡ some a → get_or xs i d ≡ a
  get_or_of_get_elem? [] i d h = cc
  get_or_of_get_elem? (x ∷ xs) zero d h = cc
  get_or_of_get_elem? (x ∷ xs) (suc i) d h = get_or_of_get_elem? xs i d h

  pub get_elem?-beyond : (xs : List A) (i : ℕ) → length xs ≤ i → get_elem? xs i ≡ none
  get_elem?-beyond [] i h = refl
  get_elem?-beyond (x ∷ xs) zero h = absurd (omega arith)
  get_elem?-beyond (x ∷ xs) (suc i) h = get_elem?-beyond xs i (omega arith)

  pub get_or-beyond : (xs : List A) (i : ℕ) (d : A) → length xs ≤ i → get_or xs i d ≡ d
  get_or-beyond [] i d h = refl
  get_or-beyond (x ∷ xs) zero d h = absurd (omega arith)
  get_or-beyond (x ∷ xs) (suc i) d h = get_or-beyond xs i d (omega arith)

  pub get_or-set_self :
      (xs : List A) (i : ℕ) (v d : A) → i < length xs → get_or (set xs i v) i d ≡ v
  get_or-set_self [] i v d h = absurd (omega arith)
  get_or-set_self (x ∷ xs) zero v d h = refl
  get_or-set_self (x ∷ xs) (suc i) v d h = get_or-set_self xs i v d (omega arith)

  pub get_or-set_ne :
      (xs : List A) (i j : ℕ) (v d : A) → i ≢ j → get_or (set xs i v) j d ≡ get_or xs j d
  get_or-set_ne [] i j v d h = refl
  get_or-set_ne (x ∷ xs) zero zero v d h = absurd (h refl)
  get_or-set_ne (x ∷ xs) zero (suc j) v d h = refl
  get_or-set_ne (x ∷ xs) (suc i) zero v d h = refl
  get_or-set_ne (x ∷ xs) (suc i) (suc j) v d h = get_or-set_ne xs i j v d (λ e. h (ap suc e))

  pub get_or-replicate : (n i : ℕ) (a : A) → get_or (replicate n a) i a ≡ a
  get_or-replicate zero i a = refl
  get_or-replicate (suc n) zero a = refl
  get_or-replicate (suc n) (suc i) a = get_or-replicate n i a
