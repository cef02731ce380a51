-- ===== src/Htable/Probe.antt =====
-- The probing loop of `add_htable` and `search_htable`: what one round does, and a run of rounds.
use grintorrent.Base.{
  ℕ, zero, suc, ◌+◌, ◌-◌, ◌^◌, ◌%◌, ◌≤◌, ◌<◌, ◌≡◌, ◌≢◌, sym, ◌∙◌, arith, leb-eq-false, ltb, inl,
  inr, Bool-cases, length, get_or, get_elem?-eq-get_or, get_elem?-beyond, get_or-beyond, ok, fault,
  out_of_bounds,
}
use grintorrent.Base.Bits.{bit_and-le}
use grintorrent.Tfile.{Digest, zero_digest, blank, is_zero_ne, same_digest_ne, same_digest_refl}
use grintorrent.Htable.{Htable, Found, probe, home}

-- The digest in an entry; an index out of range reads as an empty entry.
abbrev pub key : Htable → ℕ → Digest
key ht i = (get_or ht.table i blank).tdef.f_hash

-- The entry is in use.
abbrev pub Occupied : Htable → ℕ → Type 0
Occupied ht i = key ht i ≢ zero_digest

pub Occupied-lt : (ht : Htable) (i : ℕ) → Occupied ht i → i < length ht.table
Occupied-lt ht i occ = elim (Bool-cases (ltb i (length ht.table))) [
  | inl e ↦ ground arith
  | inr e ↦ absurd (occ (ground (arith, get_or-beyond ht.table i blank)))
]

pub home-lt :
    (ht : Htable) (h : Digest) → 0 < ht.capacity → ht.capacity < 2 ^ 63 → home ht h < ht.capacity
unfolding home
home-lt ht h lo hi = omega (arith, bit_and-le h.h1 ((ht.capacity + 2 ^ 64 - 1) % 2 ^ 64))

module _ (ht : Htable) (h : Digest) where
  -- An entry that the loop goes past: it is in use by another digest.
  abbrev pub Passed : ℕ → Type 0
  Passed j = Occupied ht j × (key ht j ≢ h)

  pub probe-vacant :
      (f i : ℕ)
      → i < length ht.table
      → key ht i ≡ zero_digest
      → probe ht h (suc f) i ≡ ok (Found.vacant i)
  unfolding probe
  probe-vacant f i lt e = rw (get_elem?-eq-get_or ht.table i blank lt, e)

  pub probe-present :
      (f i : ℕ) → Occupied ht i → key ht i ≡ h → probe ht h (suc f) i ≡ ok (Found.present i)
  unfolding probe
  probe-present f i occ e = rw (
    get_elem?-eq-get_or ht.table i blank (Occupied-lt ht i occ),
    is_zero_ne _ occ,
    e,
    same_digest_refl h,
  )

  pub probe_beyond : (f i : ℕ) → length ht.table ≤ i → probe ht h (suc f) i ≡ fault out_of_bounds
  unfolding probe
  probe_beyond f i le = rw (get_elem?-beyond ht.table i le)

  pub probe_next :
      (f i : ℕ) → i < ht.capacity → Passed i → probe ht h (suc f) i ≡ probe ht h f (i + 1)
  unfolding probe
  probe_next f i lt (occ, other) = rw (
    get_elem?-eq-get_or ht.table i blank (Occupied-lt ht i occ),
    is_zero_ne _ occ,
    same_digest_ne h _ (λ e. other (sym e)),
    leb-eq-false ht.capacity i lt,
  )

  -- `n` rounds over entries that the loop goes past.
  pub probe_run :
      (n f k s i : ℕ)
      → n + s ≡ i
      → k ≡ n + f
      → i ≤ ht.capacity
      → ((j : ℕ) → s ≤ j → j < i → Passed j)
      → probe ht h k s ≡ probe ht h f i
  probe_run zero f k s i e e' le p =
      let same : s ≡ i = omega arith in let rest : k ≡ f = omega arith in rw (same, rest)
  probe_run (suc n) f zero s i e e' le p = absurd (omega arith)
  probe_run (suc n) f (suc k) s i e e' le p =
      probe_next k s (omega arith) (p s (omega arith) (omega arith))
      ∙ probe_run n f k (s + 1) i (omega arith) (omega arith) le (λ j lo hi. p j (omega arith) hi)
