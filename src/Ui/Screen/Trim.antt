-- ===== src/Ui/Screen/Trim.antt =====
-- `safe_trim` against a definition by recursion on the text.
use grintorrent.Base.{
  ℕ, zero, suc, ◌≡◌, ◌≢◌, refl, sym, ap, subst, Bool, true, false, ◌&&◌, Bool-cases, inl, inr, List,
  [], ◌∷◌, ◌++◌, arith, ==-eq-false, if◌then◌else◌, length, get_or, set, length-append, ok,
}
use mathlib.Core.List.{append_assoc}
use grintorrent.File.Verify.{c_str}
use grintorrent.Ui.Screen.{trim_loop, safe_trim}

abbrev null : List ℕ → Bool
null [] = true
null (c ∷ cs) = false

-- No byte of a string is its terminator.
abbrev pub IsText : List ℕ → Type 0
IsText [] = Unit
IsText (c ∷ cs) = (c ≢ 0) × IsText cs

-- The text without the white space at its end
unfoldable pub rstrip : (ℕ → Bool) → List ℕ → List ℕ
rstrip isspace [] = []
rstrip isspace (c ∷ cs) =
    let rest = rstrip isspace cs in if null rest && isspace c then [] else c ∷ rest

get_or-append : (p : List ℕ) (c : ℕ) (rest : List ℕ) → get_or (p ++ c ∷ rest) (length p) 0 ≡ c
get_or-append [] c rest = refl
get_or-append (x ∷ p) c rest = get_or-append p c rest

set-append :
    (p : List ℕ) (c d : ℕ) (rest : List ℕ) → set (p ++ c ∷ rest) (length p) d ≡ p ++ d ∷ rest
set-append [] c d rest = refl
set-append (x ∷ p) c d rest = ap (◌∷◌ x) (set-append p c d rest)

pub c_str_lem : (s rest : List ℕ) → IsText s → c_str (s ++ 0 ∷ rest) ≡ ok s
unfolding c_str
c_str_lem [] rest t = refl
c_str_lem (c ∷ s) rest (ne, t) = rw (c_str, ==-eq-false c 0 ne, c_str_lem s rest t)

snoc-view : (c : ℕ) (s : List ℕ) → (p : List ℕ) × (x : ℕ) × (c ∷ s ≡ p ++ x ∷ [])
snoc-view c [] = ([], c, refl)
snoc-view c (d ∷ s) = let (p, x, e) = snoc-view d s in (c ∷ p, x, ap (◌∷◌ c) e)

IsText-init : (p : List ℕ) (x : ℕ) → IsText (p ++ x ∷ []) → IsText p
IsText-init [] x t = tt
IsText-init (c ∷ p) x (ne, t) = (ne, IsText-init p x t)

module _ (isspace : ℕ → Bool) where
  rstrip-space :
      (p : List ℕ) (c : ℕ) → isspace c ≡ true → rstrip isspace (p ++ c ∷ []) ≡ rstrip isspace p
  unfolding rstrip
  rstrip-space [] c e = rw e
  rstrip-space (x ∷ p) c e = rw (rstrip-space p c e)

  rstrip_kept :
      (p : List ℕ) (c : ℕ) → isspace c ≡ false → rstrip isspace (p ++ c ∷ []) ≡ p ++ c ∷ []
  unfolding rstrip
  rstrip_kept [] c e = rw e
  rstrip_kept (x ∷ []) c e = rw e
  rstrip_kept (x ∷ y ∷ p) c e = rw (rstrip_kept (y ∷ p) c e)

  trim_loop_lem :
      (k : ℕ) (s rest : List ℕ)
      → length s ≡ k
      → IsText s
      → c_str (trim_loop isspace k (s ++ 0 ∷ rest)) ≡ ok (rstrip isspace s)
  unfolding trim_loop rstrip
  trim_loop_lem zero [] rest e t = c_str_lem [] rest tt
  trim_loop_lem zero (c ∷ s) rest e t = absurd (omega arith)
  trim_loop_lem (suc k) [] rest e t = absurd (omega arith)
  trim_loop_lem (suc k) (c ∷ s) rest e t =
      let (p, x, split) = snoc-view c s in
      let count : length p ≡ k =
        omega (arith, ap (λ (l : List ℕ). length l) split, length-append p (x ∷ [])) in
      let text : IsText (p ++ x ∷ []) = subst (λ (l : List ℕ). IsText l) split t in
      subst
        (λ (l : List ℕ). c_str (trim_loop isspace (suc k) (l ++ 0 ∷ rest)) ≡ ok (rstrip isspace l))
        (sym split)
        (rw (append_assoc p (x ∷ []) (0 ∷ rest), sym count)
          (elim (Bool-cases (isspace x)) [
            | inl space ↦
                rw
                  (
                    get_or-append p x (0 ∷ rest),
                    space,
                    set-append p x 0 (0 ∷ rest),
                    rstrip-space p x space,
                  )
                  (subst
                    (λ (n : ℕ).
                      c_str (trim_loop isspace n (p ++ 0 ∷ 0 ∷ rest)) ≡ ok (rstrip isspace p))
                    (sym count) (trim_loop_lem k p (0 ∷ rest) count (IsText-init p x text)))
            | inr other ↦
                rw
                  (
                    get_or-append p x (0 ∷ rest),
                    other,
                    rstrip_kept p x other,
                    ← append_assoc p (x ∷ []) (0 ∷ rest),
                  )
                  (c_str_lem (p ++ x ∷ []) rest text)
          ]))

  -- For a string and its terminator, whatever follows, safe_trim leaves the string without the
  -- white space at its end, as a definition by recursion on the string gives it.
  pub safe_trim_lem :
      (s rest : List ℕ)
      → IsText s
      → (out : List ℕ) × (safe_trim isspace (s ++ 0 ∷ rest) ≡ ok out)
        × (c_str out ≡ ok (rstrip isspace s))
  unfolding safe_trim rstrip
  safe_trim_lem [] rest t = ([] ++ 0 ∷ rest, rw (c_str_lem [] rest tt) refl, c_str_lem [] rest tt)
  safe_trim_lem (c ∷ s) rest t =
      let n = length (c ∷ s) in
      (
        trim_loop isspace n ((c ∷ s) ++ 0 ∷ rest),
        rw (c_str_lem (c ∷ s) rest t, ==-eq-false n 0 (omega arith)) refl,
        trim_loop_lem n (c ∷ s) rest refl t,
      )
