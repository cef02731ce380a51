-- ===== src/Base/Results.antt =====
-- Results of code that may do what C leaves undefined, or not return.
use mathlib.Core.Path.{◌≡◌, refl}
use mathlib.Core.Option.{Option, none, some}

-- What goes wrong: an access outside of an object, a use of NULL, a `free` of what `malloc` did
-- not return, a lock that its own thread already holds, a signed number that does not fit its type.
pub data Fault : Type 0 where
  out_of_bounds null_pointer bad_free deadlock overflow : Fault

pub data Run {ℓ} (A : Type ℓ) : Type ℓ where
  ok : A → Run A
  fault : Fault → Run A
  out_of_fuel : Run A

infixl 5 ◌>>=◌ ◌>>◌
abbrev pub ◌>>=◌ {ℓ κ} : {A : Type ℓ} {B : Type κ} → Run A → (A → Run B) → Run B
ok a >>= f = f a
fault e >>= f = fault e
out_of_fuel >>= f = out_of_fuel

abbrev pub ◌>>◌ {ℓ κ} : {A : Type ℓ} {B : Type κ} → Run A → Run B → Run B
m >> k = m >>= λ _. k

-- A use of a pointer that may be NULL.
abbrev pub deref {ℓ} : {A : Type ℓ} → Option A → Run A
deref none = fault null_pointer
deref (some a) = ok a

-- An access that the object may not allow.
abbrev pub in_bounds {ℓ} : {A : Type ℓ} → Option A → Run A
in_bounds none = fault out_of_bounds
in_bounds (some a) = ok a

pub bind_assoc {ℓ κ μ} :
    {A : Type ℓ} {B : Type κ} {C : Type μ} (m : Run A) (f : A → Run B) (g : B → Run C)
    → (m >>= f) >>= g ≡ m >>= (λ a. f a >>= g)
bind_assoc (ok a) f g = refl
bind_assoc (fault e) f g = refl
bind_assoc out_of_fuel f g = refl

pub Run-cases {ℓ} :
    {A : Type ℓ} (P : Run A → Type ℓ) (r : Run A)
    → ((a : A) → r ≡ ok a → P r)
    → ((e : Fault) → r ≡ fault e → P r)
    → (r ≡ out_of_fuel → P r)
    → P r
Run-cases P (ok a) f g h = f a refl
Run-cases P (fault e) f g h = g e refl
Run-cases P out_of_fuel f g h = h refl

-- What holds of every result that the code returns.
abbrev pub Post {ℓ κ} : {A : Type ℓ} → (A → Type κ) → Run A → Type κ
Post P (ok a) = P a
Post P (fault e) = Unit
Post P out_of_fuel = Unit

pub Post-bind {ℓ κ μ ν} :
    {A : Type ℓ} {B : Type κ} (Q : A → Type μ) (P : B → Type ν) (m : Run A) (f : A → Run B)
    → Post Q m
    → ((a : A) → Q a → Post P (f a))
    → Post P (m >>= f)
Post-bind Q P (ok a) f q next = next a q
Post-bind Q P (fault e) f q next = tt
Post-bind Q P out_of_fuel f q next = tt

pub Post-any {ℓ} : {A : Type ℓ} (m : Run A) → Post (λ _. Unit {0}) m
Post-any (ok a) = tt
Post-any (fault e) = tt
Post-any out_of_fuel = tt
