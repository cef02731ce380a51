-- ===== src/File/Open/Laws.antt =====
-- What `open_tfile` hands out, and that opening and saving keep the table in order.
use grintorrent.Base.{
  ℕ, suc, ◌+◌, ◌-◌, ◌*◌, ◌/◌, ◌^◌, lt→ltb, le→leb, ◌>>=◌, ◌≤◌, ◌<◌, ◌≡◌, ◌≢◌, refl, sym, ◌∙◌, Bool,
  true, false, Bool-cases, inl, inr, Option, some, none, List, arith, length, get_or, Run, ok,
  fault, out_of_bounds, ==-eq-false, ℕ_discrete, ◌⊎◌,
}
use grintorrent.Base.Int.{ℤ, pos, leb_ℤ, negsuc, ◌*ℤ◌, quot_ℤ, quot_ℤ-pos, *ℤ-pos, -ℤ-pos}
use grintorrent.System.{Os}
use grintorrent.Tfile.{Digest, Tfile, blank, num_chunks, zero_digest}
use grintorrent.Htable.{Htable, home}
use grintorrent.Htable.Probe.{key, Occupied-lt}
use grintorrent.Htable.Invariant.{IsValid, Absent, vacancy}
use grintorrent.Htable.Search.{search_htable-key, search_htable-Absent}
use grintorrent.Htable.Replace.{put, set_self, get_elem?-entry}
use grintorrent.File.Chunks.{chunk, chunk_len}
use grintorrent.File.Verify.{region}
use grintorrent.File.Verify.Entry.{region-slice, region-negsuc}
use grintorrent.File.Open.{
  Pointer, locate, path_of, map_tfile, in_off_t, chunk_size_of, failed, open_found, open_tfile,
}

chunk_size_of-pos : (n i : ℕ) → i < num_chunks → chunk_size_of (pos n) (pos i) ≡ pos (chunk_len n i)
unfolding chunk_size_of
chunk_size_of-pos n i lt =
    let last : 7 * (n / 8) ≤ n = omega arith in
    rw (quot_ℤ-pos n num_chunks (omega arith), *ℤ-pos i (n / num_chunks))
      (elim (ℕ_discrete i 7) [ yes e ↦ rw (e, -ℤ-pos n (7 * (n / 8)) last) | no ne ↦ ground arith ])

chunk_size_of-negsuc : (n k : ℕ) → chunk_size_of (pos n) (negsuc k) ≡ pos (n / num_chunks)
unfolding chunk_size_of
chunk_size_of-negsuc n k =
    rw (quot_ℤ-pos n num_chunks (omega arith), ==-eq-false 0 (7 + suc k) (omega arith))

pub within_file : (n c : ℕ) → c < num_chunks → c * (n / 8) + chunk_len n c ≤ n
within_file n c lt = elim (ℕ_discrete c 7) [
  | yes e ↦ rw e (omega arith)
  | no ne ↦
      let le : (c + 1) * (n / 8) ≤ 7 * (n / 8) = grind arith in
      rw (==-eq-false c 7 ne) (grind arith)
]

negsuc-*ℤ : (k q : ℕ) → 0 < q → negsuc k *ℤ pos q ≡ negsuc (suc k * q - 1)
unfolding ◌*ℤ◌
negsuc-*ℤ k q h = let some_bytes : 0 < suc k * q = grind arith in ground arith

in_off_t-pos : (a : ℕ) → a < 2 ^ 63 → in_off_t (pos a) ≡ ok (pos a)
in_off_t-pos a lt = rw (lt→ltb a (2 ^ 63) lt) refl

in_off_t-negsuc : (a : ℕ) → a < 2 ^ 63 → in_off_t (negsuc a) ≡ ok (negsuc a)
in_off_t-negsuc a lt = rw (le→leb (suc a) (2 ^ 63) (omega arith)) refl

module _ (os : Os) {ht : Htable} (v : IsValid ht) (d : Digest) where
  -- In a valid table, an index past the last chunk, and a digest that is not there and has an empty
  -- entry at or behind its home, are refused, and nothing changes.
  pub open_tfile-refused :
      (c : ℤ)
      → (leb_ℤ (pos num_chunks) c ≡ true)
        ⊎ (Absent ht d × ((i : ℕ) × (vacancy ht.table (home ht d) ≡ some i)))
      → open_tfile os ht d c ≡ ok (failed, none, ht)
  unfolding open_tfile
  open_tfile-refused c (inl past) = rw past
  open_tfile-refused c (inr (absent, (i, free))) = elim (Bool-cases (leb_ℤ (pos num_chunks) c)) [
    | inl past ↦ rw past
    | inr within ↦ rw (within, search_htable-Absent v d absent, free)
  ]

  module _ (i : ℕ) (nz : d ≢ zero_digest) (e : key ht i ≡ d) where
    abbrev entry : Tfile
    entry = get_or ht.table i blank

    lt : i < length ht.table
    lt = Occupied-lt ht i (λ z. nz (sym e ∙ z))

    -- What it returns for an entry, from the result of `map_tfile`.
    abbrev opened : ℤ → Bool × Tfile → Run (ℤ × Option Pointer × Htable)
    opened c (true, tf) = do
      offset ← in_off_t (c *ℤ quot_ℤ entry.tdef.size num_chunks)
      ok (chunk_size_of entry.tdef.size c, some (record { slot = i; offset = offset }), put ht i tf)
    opened c (false, tf) = ok (failed, none, put ht i tf)

    pub open_tfile-entry :
        (c : ℤ) (r : Bool × Tfile)
        → leb_ℤ (pos num_chunks) c ≡ false
        → map_tfile os entry ≡ ok r
        → open_tfile os ht d c ≡ opened c r
    unfolding open_tfile open_found
    open_tfile-entry c (true, tf) within mapped =
        rw (within, search_htable-key v d i nz e, get_elem?-entry ht i lt, mapped)
    open_tfile-entry c (false, tf) within mapped =
        rw (within, search_htable-key v d i nz e, get_elem?-entry ht i lt, mapped)

    -- For a file of a valid table that is mapped with its size, open_tfile returns the chunk's
    -- length and a pointer to the chunk's offset, at which that many bytes are the chunk; the table
    -- stays as it was.
    pub open_tfile-chunk :
        (c : ℕ) (bytes : List ℕ)
        → c < num_chunks
        → entry.m_location ≡ some bytes
        → entry.tdef.size ≡ pos (length bytes)
        → length bytes < 2 ^ 63
        → (p : Pointer) × (open_tfile os ht d (pos c)
            ≡ ok (pos (chunk_len (length bytes) c), some p, ht))
          × (p.slot ≡ i)
          × (p.offset ≡ pos (c * (length bytes / num_chunks)))
          × (region bytes p.offset (chunk_len (length bytes) c) ≡ ok (chunk bytes (length bytes) c))
    unfolding map_tfile
    open_tfile-chunk c bytes small mapped size short =
        let n = length bytes in
        (
          record { slot = i; offset = pos (c * (n / num_chunks)) },
          open_tfile-entry (pos c) (true, entry) (ground arith) (rw (map_tfile, mapped))
              ∙ rw (
                size,
                chunk_size_of-pos n c small,
                quot_ℤ-pos n num_chunks (omega arith),
                *ℤ-pos c (n / num_chunks),
                in_off_t-pos (c * (n / num_chunks)) (omega (arith, within_file n c small)),
                set_self ht.table i,
              ),
          refl,
          refl,
          region-slice bytes (c * (n / 8)) (chunk_len n c) (within_file n c small),
        )

    -- For a file of a valid table that is mapped with its size, of eight bytes at least, a negative
    -- chunk index whose product with the size of a chunk fits in off_t is not refused: the pointer
    -- stands before the mapping, and an access of any length there is outside of it.
    pub open_tfile_negative :
        (k : ℕ) (bytes : List ℕ)
        → entry.m_location ≡ some bytes
        → entry.tdef.size ≡ pos (length bytes)
        → num_chunks ≤ length bytes
        → suc k * (length bytes / num_chunks) ≤ 2 ^ 63
        → (p : Pointer) × (open_tfile os ht d (negsuc k)
            ≡ ok (pos (length bytes / num_chunks), some p, ht))
          × (p.slot ≡ i)
          × ((len : ℕ) → region bytes p.offset len ≡ fault out_of_bounds)
    unfolding map_tfile
    open_tfile_negative k bytes mapped size room fits =
        let n = length bytes in
        let q = n / num_chunks in
        let some_bytes : 0 < q = omega arith in
        (
          record { slot = i; offset = negsuc (suc k * q - 1) },
          open_tfile-entry (negsuc k) (true, entry) (ground arith) (rw (map_tfile, mapped))
              ∙ rw (
                size,
                chunk_size_of-negsuc n k,
                quot_ℤ-pos n num_chunks (omega arith),
                negsuc-*ℤ k q some_bytes,
                in_off_t-negsuc (suc k * q - 1) (grind arith),
                set_self ht.table i,
              ),
          refl,
          region-negsuc bytes (suc k * q - 1),
        )

    -- For a file of a valid table that is not mapped yet, with a size that is not negative, a path
    -- that opens and a mapping that the system gives, open_tfile stores the mapping, and the name
    -- as the path if there was none, and returns the chunk's length and pointer.
    pub open_tfile-maps :
        (c : ℕ) (path bytes : List ℕ) (n : ℕ)
        → c < num_chunks
        → entry.m_location ≡ none
        → entry.tdef.size ≡ pos n
        → n < 2 ^ 63
        → path_of (locate entry) ≡ ok path
        → os.open_write path ≡ true
        → os.mmap path (pos n) ≡ some bytes
        → open_tfile os ht d (pos c)
          ≡ ok (
            pos (chunk_len n c),
            some (record { slot = i; offset = pos (c * (n / num_chunks)) }),
            put ht i (record (locate entry) { m_location = some bytes }),
          )
    unfolding map_tfile
    open_tfile-maps c path bytes n small unmapped size short at_path opens maps =
        open_tfile-entry (pos c) (true, record (locate entry) { m_location = some bytes })
          (ground arith) (rw (map_tfile, unmapped, at_path, opens, size, maps))
        ∙ rw (
          size,
          chunk_size_of-pos n c small,
          quot_ℤ-pos n num_chunks (omega arith),
          *ℤ-pos c (n / num_chunks),
          in_off_t-pos (c * (n / num_chunks)) (omega (arith, within_file n c small)),
        )
