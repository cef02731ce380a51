-- ===== src/Htable/Search.antt =====
-- What `search_htable` and `init_htable` promise.
use grintorrent.Base.{
  ℕ, zero, suc, ◌^◌, ◌<◌, ◌≡◌, ◌≢◌, refl, sym, Option, none, some, arith, replicate,
  length-replicate, get_or-replicate, get_or, Run, ok, fault, out_of_bounds, ◌>>=◌,
}
use grintorrent.Tfile.{Digest, zero_digest, blank}
use grintorrent.Htable.{Htable, Found, home, init_htable, search_htable, starting_capacity}
use grintorrent.Htable.Probe.{key}
use grintorrent.Htable.Invariant.{
  IsValid, occupied, vacancy, Absent, probe_result, probe-Absent, probe-key,
}

-- A loop that finds no entry meets an empty one, or leaves the array.
abbrev pub absent_result : Option ℕ → Run (Option ℕ)
absent_result none = fault out_of_bounds
absent_result (some i) = ok none

module _ {ht : Htable} (v : IsValid ht) (h : Digest) where
  -- In a valid table a search for a non-zero digest that some entry holds returns that entry.
  pub search_htable-key :
      (i : ℕ) → h ≢ zero_digest → key ht i ≡ h → search_htable ht h ≡ ok (some i)
  unfolding search_htable
  search_htable-key i nz e = rw (probe-key v h i nz e)

  -- In a valid table a search for a digest that no entry holds returns NULL if an entry at or
  -- behind its home is empty, and else reads behind the end of the array.
  pub search_htable-Absent :
      Absent ht h → search_htable ht h ≡ absent_result (vacancy ht.table (home ht h))
  unfolding search_htable
  search_htable-Absent absent = rw (probe-Absent v h absent) (go (vacancy ht.table (home ht h)))
    where
      go :
          (o : Option ℕ)
          → (probe_result o >>= λ r. elim r [
            | Found.vacant i ↦ ok none
            | Found.present i ↦ ok (some i)
          ])
            ≡ absent_result o
      go none = refl
      go (some i) = refl

occupied-replicate : (n : ℕ) → occupied (replicate n blank) ≡ 0
unfolding occupied
occupied-replicate zero = refl
occupied-replicate (suc n) = occupied-replicate n

-- A table of `n` entries that `calloc` gave is valid.
pub blank-IsValid :
    (n : ℕ)
    → 0 < n
    → n < 2 ^ 63
    → IsValid (record { capacity = n; size = 0; table = replicate n blank })
blank-IsValid n lo hi = record {
  width = length-replicate n blank;
  positive = lo;
  small = hi;
  counted = sym (occupied-replicate n);
  from_home = λ i occ. absurd (occ (empty i));
  chained = λ i j occ. absurd (occ (empty i));
  unique = λ i j occ. absurd (occ (empty i));
}
  where
    empty : (i : ℕ) → (get_or (replicate n blank) i blank).tdef.f_hash ≡ zero_digest
    empty i = rw get_or-replicate

pub init_htable-IsValid : IsValid init_htable
unfolding init_htable
init_htable-IsValid = blank-IsValid starting_capacity (omega arith) (omega arith)
