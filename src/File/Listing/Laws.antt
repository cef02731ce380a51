-- ===== src/File/Listing/Laws.antt =====
-- `list_tfiles` stops early when it has met as many files as the table counts; it misses none.
use mathlib.Core.List.{append_assoc, append-nil}
use grintorrent.Base.{
  ℕ, zero, suc, ◌+◌, ◌≤◌, ◌≡◌, refl, sym, ◌∙◌, ap, Bool, false, Bool-cases, inl, inr, List, [], ◌∷◌,
  ◌++◌, arith, length, get_or, drop, drop-cons, get_elem?-eq-get_or, ok, if◌then◌else◌, lt→ltb,
  ltb-eq-false, dec_lt,
}
use grintorrent.Base.Int.{pos, ltb_ℤ}
use grintorrent.Tfile.{TfileDef, Tfile, blank, zero_digest, is_zero, is_zero→eq}
use grintorrent.Htable.{Htable}
use grintorrent.Htable.Probe.{key}
use grintorrent.Htable.Invariant.{IsValid, occupied}
use grintorrent.File.Listing.{list_loop, list_tfiles}

-- `tf->tdef.size > 0`
abbrev pub sized : Tfile → Bool
sized tf = ltb_ℤ (pos 0) tf.tdef.size

-- The definitions of the entries with a size above 0, in the order of the table.
unfoldable pub listed : List Tfile → List TfileDef
listed [] = []
listed (e ∷ es) = if sized e then e.tdef ∷ listed es else listed es

-- An empty entry has no size above 0.
abbrev pub Blanks : Htable → Type 0
Blanks ht = (i : ℕ) → key ht i ≡ zero_digest → sized (get_or ht.table i blank) ≡ false

drop-beyond : (es : List Tfile) (i : ℕ) → length es ≤ i → drop i es ≡ []
drop-beyond [] zero le = refl
drop-beyond [] (suc i) le = refl
drop-beyond (e ∷ es) zero le = absurd (omega arith)
drop-beyond (e ∷ es) (suc i) le = drop-beyond es i (omega arith)

length-listed-le :
    (es : List Tfile)
    → ((i : ℕ) → (get_or es i blank).tdef.f_hash ≡ zero_digest → sized (get_or es i blank) ≡ false)
    → length (listed es) ≤ occupied es
unfolding listed occupied
length-listed-le [] h = omega arith
length-listed-le (e ∷ es) h =
    let rest = length-listed-le es (λ i. h (suc i)) in
    elim (Bool-cases (is_zero e.tdef.f_hash)) [
      | inl z ↦ rw (z, h 0 (is_zero→eq _ z)) rest
      | inr nz ↦ rw nz (ground (arith, rest))
    ]

nil_of_length {ℓ} : {A : Type ℓ} (xs : List A) → length xs ≡ 0 → xs ≡ []
nil_of_length [] h = refl
nil_of_length (x ∷ xs) h = absurd (omega arith)

list_loop-listed :
    (ht : Htable) (k i j : ℕ) (acc : List TfileDef)
    → length ht.table ≡ ht.capacity
    → k + i ≡ ht.capacity
    → j + length (listed (drop i ht.table)) ≤ ht.size
    → list_loop ht k i j acc ≡ ok (acc ++ listed (drop i ht.table))
unfolding list_loop listed
list_loop-listed ht zero i j acc width e le = rw (drop-beyond ht.table i (omega arith), append-nil)
list_loop-listed ht (suc k) i j acc width e le = elim (dec_lt j ht.size) [
  | no full ↦
      rw (lt→ltb i ht.capacity (omega arith), ltb-eq-false j ht.size (omega arith))
        (ap ok (
          sym (append-nil acc)
          ∙ ap (◌++◌ acc) (sym (nil_of_length (listed (drop i ht.table)) (omega arith)))))
  | yes more ↦
      let entry = get_or ht.table i blank in
      let split = drop-cons ht.table i blank (omega arith) in
      rw
        (
          lt→ltb i ht.capacity (omega arith),
          lt→ltb j ht.size more,
          get_elem?-eq-get_or ht.table i blank (omega arith),
          split,
        )
        (elim (Bool-cases (sized entry)) [
          | inl big ↦
              let l : listed (drop i ht.table) ≡ entry.tdef ∷ listed (drop (i + 1) ht.table) =
                rw (split, big) in
              rw big (
                list_loop-listed ht k (i + 1) (j + 1) (acc ++ entry.tdef ∷ []) width (omega arith)
                  (omega (arith, ap length l))
                ∙ ap ok (append_assoc acc (entry.tdef ∷ []) (listed (drop (i + 1) ht.table))))
          | inr small ↦
              let l : listed (drop i ht.table) ≡ listed (drop (i + 1) ht.table) =
                rw (split, small) in
              rw small (
                list_loop-listed ht k (i + 1) j acc width (omega arith)
                  (omega (arith, ap length l)))
        ])
]

-- In a valid table whose empty entries have no size, list_tfiles returns the definitions of all
-- entries with a size above 0, in the order of the table, and nothing else.
pub list_tfiles_lem : (ht : Htable) → IsValid ht → Blanks ht → list_tfiles ht ≡ ok (listed ht.table)
unfolding list_tfiles
list_tfiles_lem ht v blanks =
    list_loop-listed ht ht.capacity 0 0 [] v.width (omega arith)
      (omega (arith, length-listed-le ht.table blanks, v.counted))
