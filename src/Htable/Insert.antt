-- ===== src/Htable/Insert.antt =====
-- What the insertion of `add_htable` promises, when it does not grow the table.
use grintorrent.Base.{
  ℕ, zero, suc, ◌+◌, ◌*◌, ◌%◌, ◌^◌, ◌≤◌, ◌<◌, ◌≡◌, ◌≢◌, refl, sym, ◌∙◌, Option, none, some, arith,
  length-set, get_or-set_self, get_or-set_ne, length, get_or, set, Bool, Run, ok, fault,
  out_of_bounds, List, ◌>>=◌, [], ◌∷◌, ap, false, ◌⊎◌, inl, inr, ℕ_discrete, subst, ltb-eq-false,
}
use grintorrent.Tfile.{Digest, Tfile, TfileDef, zero_digest, blank, is_zero, is_zero_ne}
use grintorrent.Htable.{Htable, Found, home, place, write_def, search_htable, add_htable}
use grintorrent.Htable.Probe.{key, Occupied}
use grintorrent.Htable.Invariant.{
  IsValid, occupied, vacancy, IsVacancy, vacancy_lem, Absent, probe_result, probe-Absent, probe-key,
}
use grintorrent.Htable.Search.{search_htable-key}

occupied-le : (es : List Tfile) → occupied es ≤ length es
unfolding occupied
occupied-le [] = omega arith
occupied-le (e ∷ es) = ground (arith, occupied-le es)

occupied-set :
    (es : List Tfile) (i : ℕ) (e : Tfile)
    → i < length es
    → (get_or es i blank).tdef.f_hash ≡ zero_digest
    → is_zero e.tdef.f_hash ≡ false
    → occupied (set es i e) ≡ occupied es + 1
unfolding occupied
occupied-set [] i e lt z nz = absurd (omega arith)
occupied-set (x ∷ es) zero e lt z nz = rw (nz, z) (omega arith)
occupied-set (x ∷ es) (suc i) e lt z nz = ground (arith, occupied-set es i e)

module _ (ht : Htable) (i : ℕ) (t : TfileDef) where
  pub key-write_def_self : i < length ht.table → key (write_def ht i t) i ≡ t.f_hash
  unfolding write_def
  key-write_def_self lt = ap (λ (e : Tfile). e.tdef.f_hash) (get_or-set_self ht.table i _ blank lt)

  pub key-write_def_ne : (j : ℕ) → i ≢ j → key (write_def ht i t) j ≡ key ht j
  unfolding write_def
  key-write_def_ne j ne = ap (λ (e : Tfile). e.tdef.f_hash) (get_or-set_ne ht.table i j _ blank ne)

  pub home-write_def : (h : Digest) → home (write_def ht i t) h ≡ home ht h
  unfolding write_def home
  home-write_def h = refl

-- What insertion returns when no entry holds the digest.
abbrev pub place_result : Htable → TfileDef → Option ℕ → Run (Option ℕ × Htable)
place_result ht t none = fault out_of_bounds
place_result ht t (some i) = ok (some i, write_def ht i t)

module _ {ht : Htable} (v : IsValid ht) (t : TfileDef) where
  -- In a valid table, a definition whose digest is not there goes into the first empty entry at or
  -- behind the digest's home; if there is none, the loop reads behind the end of the array.
  pub place-Absent :
      Absent ht t.f_hash → place ht t ≡ place_result ht t (vacancy ht.table (home ht t.f_hash))
  unfolding place
  place-Absent absent =
      rw (probe-Absent v t.f_hash absent) (go (vacancy ht.table (home ht t.f_hash)))
    where
      go :
          (o : Option ℕ)
          → (probe_result o >>= λ r. elim r [
            | Found.vacant i ↦ ok (some i, write_def ht i t)
            | Found.present i ↦ ok (none, ht)
          ])
            ≡ place_result ht t o
      go none = refl
      go (some i) = refl

  -- A definition whose digest is there is refused, and the table stays as it was.
  pub place-key :
      (i : ℕ) → t.f_hash ≢ zero_digest → key ht i ≡ t.f_hash → place ht t ≡ ok (none, ht)
  unfolding place
  place-key i nz e = rw (probe-key v t.f_hash i nz e)

  module _ (nz : t.f_hash ≢ zero_digest) (absent : Absent ht t.f_hash) (i : ℕ)
      (found : vacancy ht.table (home ht t.f_hash) ≡ some i) where
    facts :
        (home ht t.f_hash ≤ i)
        × (i < length ht.table)
        × (key ht i ≡ zero_digest)
        × ((j : ℕ) → home ht t.f_hash ≤ j → j < i → Occupied ht j)
    facts =
        subst (IsVacancy ht.table (home ht t.f_hash)) found
          (vacancy_lem ht.table (home ht t.f_hash))

    abbrev after : Htable
    after = write_def ht i t

    pub key_cases :
        (j : ℕ) → ((j ≡ i) × (key after j ≡ t.f_hash)) ⊎ ((i ≢ j) × (key after j ≡ key ht j))
    key_cases j = elim (ℕ_discrete i j) [
      | yes e ↦ inl (sym e, rw (← e) (key-write_def_self ht i t facts.1))
      | no ne ↦ inr (ne, key-write_def_ne ht i t j ne)
    ]

    still : (j : ℕ) → Occupied ht j → Occupied after j
    still j occ = elim (key_cases j) [
      | inl (e, k) ↦ λ z. nz (sym k ∙ z)
      | inr (ne, k) ↦ λ z. occ (sym k ∙ z)
    ]

    from_home-after : (j : ℕ) → Occupied after j → home after (key after j) ≤ j
    from_home-after j occ = elim (key_cases j) [
      | inl (e, k) ↦ rw (k, home-write_def, e) facts.0
      | inr (ne, k) ↦ rw (k, home-write_def) (v.from_home j (λ z. occ (k ∙ z)))
    ]

    chained_after :
        (j m : ℕ) → Occupied after j → home after (key after j) ≤ m → m < j → Occupied after m
    chained_after j m occ lo hi = elim (key_cases j) [
      | inl (e, k) ↦ still m (facts.3 m (rw (k, home-write_def) at lo) (rw e at hi))
      | inr (ne, k) ↦ still m (v.chained j m (λ z. occ (k ∙ z)) (rw (k, home-write_def) at lo) hi)
    ]

    unique_after : (j m : ℕ) → Occupied after j → key after j ≡ key after m → j ≡ m
    unique_after j m occ e = elim (key_cases j) [
      | inl (p, k) ↦ elim (key_cases m) [
        | inl (q, l) ↦ p ∙ sym q
        | inr (ne, l) ↦ absurd (absent m (λ z. nz (sym k ∙ e ∙ l ∙ z)) (sym l ∙ sym e ∙ k))
      ]
      | inr (ne, k) ↦ elim (key_cases m) [
        | inl (q, l) ↦ absurd (absent j (λ z. occ (k ∙ z)) (sym k ∙ e ∙ l))
        | inr (ne', l) ↦ v.unique j m (λ z. occ (k ∙ z)) (sym k ∙ e ∙ l)
      ]
    ]

    -- Insertion at a vacancy keeps the invariant.
    pub write_def-IsValid : IsValid (write_def ht i t)
    unfolding write_def
    write_def-IsValid = record {
      width = length-set ht.table i _ ∙ v.width;
      positive = v.positive;
      small = v.small;
      counted = omega (
        arith,
        occupied-set ht.table i (record (get_or ht.table i blank) { tdef = t }) facts.1 facts.2
            (is_zero_ne _ nz),
        occupied-le ht.table,
        v.width,
        v.small,
        v.counted,
      );
      from_home = from_home-after;
      chained = chained_after;
      unique = unique_after;
    }

    -- Afterwards a search finds the new definition there, and every other digest that some entry
    -- held where it stood.
    pub search-write_def :
        (search_htable (write_def ht i t) t.f_hash ≡ ok (some i))
        × ((j : ℕ) → Occupied ht j → search_htable (write_def ht i t) (key ht j) ≡ ok (some j))
    search-write_def = (
      search_htable-key write_def-IsValid t.f_hash i nz (key-write_def_self ht i t facts.1),
      λ j occ.
          search_htable-key write_def-IsValid (key ht j) j occ
            (key-write_def_ne ht i t j (λ e. occ (rw (← e) facts.2))),
    )

-- Without need for growth `add_htable` is the insertion.
pub add_htable-place :
    (calloc : ℕ → Bool) (f : ℕ) (ht : Htable) (t : TfileDef)
    → ht.size * 2 ≤ ht.capacity
    → add_htable calloc (suc f) ht t ≡ place ht t
unfolding add_htable
add_htable-place calloc f ht t le =
    rw (ltb-eq-false ht.capacity ((ht.size * 2) % 2 ^ 64) (omega arith))

-- In a valid table with room, a new non-zero digest with an empty entry at or behind its home goes
-- into the first such entry; the invariant is kept, and a search finds the new definition there and
-- every old digest where it stood.
pub add_htable_inserts :
    (calloc : ℕ → Bool) (f : ℕ) {ht : Htable} (t : TfileDef) (i : ℕ)
    → IsValid ht
    → ht.size * 2 ≤ ht.capacity
    → t.f_hash ≢ zero_digest
    → Absent ht t.f_hash
    → vacancy ht.table (home ht t.f_hash) ≡ some i
    → (add_htable calloc (suc f) ht t ≡ ok (some i, write_def ht i t))
      × IsValid (write_def ht i t)
      × (search_htable (write_def ht i t) t.f_hash ≡ ok (some i))
      × ((j : ℕ) → Occupied ht j → search_htable (write_def ht i t) (key ht j) ≡ ok (some j))
add_htable_inserts calloc f {ht} t i v room nz absent found =
    let s = search-write_def v t nz absent i found in
    (
      add_htable-place calloc f ht t room ∙ rw (place-Absent v t absent, found),
      write_def-IsValid v t nz absent i found,
      s.0,
      s.1,
    )

-- In a valid table with room, a definition whose non-zero digest is there already is refused with
-- NULL, and the table stays as it was.
pub add_htable-key :
    (calloc : ℕ → Bool) (f : ℕ) {ht : Htable} (t : TfileDef) (i : ℕ)
    → IsValid ht
    → ht.size * 2 ≤ ht.capacity
    → t.f_hash ≢ zero_digest
    → key ht i ≡ t.f_hash
    → add_htable calloc (suc f) ht t ≡ ok (none, ht)
add_htable-key calloc f {ht} t i v room nz e =
    add_htable-place calloc f ht t room ∙ place-key v t i nz e

-- In a valid table with room, a new digest faults with an access outside of the array when every
-- entry from its home to the end is in use, however many are empty before its home.
pub add_htable_overruns :
    (calloc : ℕ → Bool) (f : ℕ) {ht : Htable} (t : TfileDef)
    → IsValid ht
    → ht.size * 2 ≤ ht.capacity
    → Absent ht t.f_hash
    → ((j : ℕ) → home ht t.f_hash ≤ j → j < ht.capacity → Occupied ht j)
    → add_htable calloc (suc f) ht t ≡ fault out_of_bounds
add_htable_overruns calloc f {ht} t v room absent full =
    add_htable-place calloc f ht t room
    ∙ place-Absent v t absent
    ∙ ap (place_result ht t) (go (vacancy ht.table (home ht t.f_hash)) (vacancy_lem _ _))
  where
    go : (o : Option ℕ) → IsVacancy ht.table (home ht t.f_hash) o → o ≡ none
    go none w = refl
    go (some i) (lo, hi, z, all) = absurd (full i lo (omega (arith, v.width)) z)

pub vacancy-lt : (es : List Tfile) (s i : ℕ) → vacancy es s ≡ some i → i < length es
vacancy-lt es s i e = (subst (IsVacancy es s) e (vacancy_lem es s)).1

pub length-write_def :
    (ht : Htable) (i : ℕ) (t : TfileDef) → length (write_def ht i t).table ≡ length ht.table
unfolding write_def
length-write_def ht i t = length-set ht.table i _

pub tdef-write_def :
    (ht : Htable) (i : ℕ) (t : TfileDef)
    → i < length ht.table
    → (get_or (write_def ht i t).table i blank).tdef ≡ t
unfolding write_def
tdef-write_def ht i t lt = ap (λ (e : Tfile). e.tdef) (get_or-set_self ht.table i _ blank lt)
