-- ===== src/Htable/Invariant.antt =====
-- The invariant of the table, and where a probe for a digest ends in a valid table.
use mathlib.Core.Option
use grintorrent.Base.{
  ℕ, zero, suc, ◌+◌, ◌-◌, ◌^◌, ◌≤◌, ◌<◌, ◌≡◌, ◌≢◌, sym, ◌∙◌, inl, inr, false, Option, none, some,
  List, [], ◌∷◌, arith, Bool-cases, length, get_or, dec_le, if◌then◌else◌, Run, ok, fault,
  out_of_bounds,
}
use grintorrent.Tfile.{Digest, Tfile, zero_digest, blank, is_zero, is_zero→eq}
use grintorrent.Htable.{Htable, Found, probe, home, rounds}
use grintorrent.Htable.Probe.{
  key, Occupied, Occupied-lt, home-lt, probe-vacant, probe-present, probe_beyond, probe_run,
}

-- How many entries are in use.
unfoldable pub occupied : List Tfile → ℕ
occupied [] = 0
occupied (e ∷ es) = if is_zero e.tdef.f_hash then occupied es else suc (occupied es)

pub record IsValid (ht : Htable) : Type 0 where
  pub width : length ht.table ≡ ht.capacity
  pub positive : 0 < ht.capacity
  pub small : ht.capacity < 2 ^ 63
  pub counted : ht.size ≡ occupied ht.table
  -- No entry stands before its home, and none between the two is empty.
  pub from_home : (i : ℕ) → Occupied ht i → home ht (key ht i) ≤ i
  pub chained : (i j : ℕ) → Occupied ht i → home ht (key ht i) ≤ j → j < i → Occupied ht j
  pub unique : (i j : ℕ) → Occupied ht i → key ht i ≡ key ht j → i ≡ j

-- The first empty entry at or behind an index.
unfoldable pub vacancy : List Tfile → ℕ → Option ℕ
vacancy [] s = none
vacancy (e ∷ es) zero = if is_zero e.tdef.f_hash then some 0 else Option.map suc (vacancy es 0)
vacancy (e ∷ es) (suc s) = Option.map suc (vacancy es s)

abbrev pub slot_key : List Tfile → ℕ → Digest
slot_key es i = (get_or es i blank).tdef.f_hash

-- What `vacancy` promises of its result.
abbrev pub IsVacancy : List Tfile → ℕ → Option ℕ → Type 0
IsVacancy es s none = (j : ℕ) → s ≤ j → j < length es → slot_key es j ≢ zero_digest
IsVacancy es s (some i) =
    (s ≤ i)
    × (i < length es)
    × (slot_key es i ≡ zero_digest)
    × ((j : ℕ) → s ≤ j → j < i → slot_key es j ≢ zero_digest)

IsVacancy-cons :
    (e : Tfile) (es : List Tfile) (s s' : ℕ) (o : Option ℕ)
    → s' ≤ suc s
    → ((j : ℕ) → s' ≤ j → j < suc s → slot_key (e ∷ es) j ≢ zero_digest)
    → IsVacancy es s o
    → IsVacancy (e ∷ es) s' (Option.map suc o)
IsVacancy-cons e es s s' none le before v = go
  where
    go : (j : ℕ) → s' ≤ j → j < suc (length es) → slot_key (e ∷ es) j ≢ zero_digest
    go zero lo hi = before zero lo (omega arith)
    go (suc j) lo hi = elim (dec_le s j) [
      | yes p ↦ v j p (omega arith)
      | no p ↦ before (suc j) lo (omega arith)
    ]
IsVacancy-cons e es s s' (some i) le before v = (omega (arith, v.0), omega (arith, v.1), v.2, go)
  where
    go : (j : ℕ) → s' ≤ j → j < suc i → slot_key (e ∷ es) j ≢ zero_digest
    go zero lo hi = before zero lo (omega arith)
    go (suc j) lo hi = elim (dec_le s j) [
      | yes p ↦ v.3 j p (omega arith)
      | no p ↦ before (suc j) lo (omega arith)
    ]

pub vacancy_lem : (es : List Tfile) (s : ℕ) → IsVacancy es s (vacancy es s)
unfolding vacancy
vacancy_lem [] s = λ j lo hi. absurd (omega arith)
vacancy_lem (e ∷ es) zero = elim (Bool-cases (is_zero e.tdef.f_hash)) [
  | inl z ↦ rw z (omega arith, omega arith, is_zero→eq _ z, λ j lo hi. absurd (omega arith))
  | inr z ↦ rw z (IsVacancy-cons e es 0 0 (vacancy es 0) (omega arith) (first z) (vacancy_lem es 0))
]
  where
    first :
        is_zero e.tdef.f_hash ≡ false → (j : ℕ) → 0 ≤ j → j < 1 → slot_key (e ∷ es) j ≢ zero_digest
    first z zero lo hi = λ q. ground (arith, q)
    first z (suc j) lo hi = absurd (omega arith)
vacancy_lem (e ∷ es) (suc s) =
    IsVacancy-cons e es s (suc s) (vacancy es s) (omega arith) (λ j lo hi. absurd (omega arith))
      (vacancy_lem es s)

-- What a loop from the home of `h` finds when no entry holds `h`.
abbrev pub Absent : Htable → Digest → Type 0
Absent ht h = (i : ℕ) → Occupied ht i → key ht i ≢ h

abbrev pub probe_result : Option ℕ → Run Found
probe_result none = fault out_of_bounds
probe_result (some i) = ok (Found.vacant i)

module _ {ht : Htable} (v : IsValid ht) (h : Digest) where
  start : home ht h < length ht.table
  start = omega (arith, home-lt ht h v.positive v.small, v.width)

  pub probe-Absent :
      Absent ht h → probe ht h (rounds ht) (home ht h) ≡ probe_result (vacancy ht.table (home ht h))
  probe-Absent absent = go (vacancy ht.table (home ht h)) (vacancy_lem ht.table (home ht h))
    where
      go :
          (o : Option ℕ)
          → IsVacancy ht.table (home ht h) o
          → probe ht h (rounds ht) (home ht h) ≡ probe_result o
      go none all =
          probe_run ht h (length ht.table - home ht h) (suc (suc (home ht h))) _ _ (length ht.table)
            (omega (arith, start)) (omega (arith, start)) (omega (arith, v.width))
            (λ j lo hi. (all j lo hi, absent j (all j lo hi)))
          ∙ probe_beyond ht h _ _ (omega arith)
      go (some i) (lo, hi, z, all) =
          probe_run ht h (i - home ht h) (suc (length ht.table + 1 - (i - home ht h))) _ _ i
            (omega arith) (omega arith) (omega (arith, v.width))
            (λ j lo' hi'. (all j lo' hi', absent j (all j lo' hi')))
          ∙ probe-vacant ht h _ i hi z

  pub probe-key :
      (i : ℕ)
      → h ≢ zero_digest
      → key ht i ≡ h
      → probe ht h (rounds ht) (home ht h) ≡ ok (Found.present i)
  probe-key i nz e =
      probe_run ht h (i - home ht h) (suc (length ht.table + 1 - (i - home ht h))) _ _ i
        (omega (arith, before)) (omega (arith, Occupied-lt ht i occ, before))
        (omega (arith, Occupied-lt ht i occ, v.width))
        (λ j lo hi. (
          v.chained i j occ (rw e lo) hi,
          λ q. absurd (omega (arith, v.unique i j occ (e ∙ sym q))),
        ))
      ∙ probe-present ht h _ i occ e
    where
      occ : Occupied ht i
      occ = λ z. nz (sym e ∙ z)

      before : home ht h ≤ i
      before = rw e at (v.from_home i occ)
