-- ===== src/File/Verify.antt =====
-- `verify_tfile` and `is_chunk_verified`: which chunks of a file match their hashes.
pub mod Bits
pub mod Entry
pub mod Table
use grintorrent.Base.{
  ℕ, zero, suc, ◌+◌, ◌-◌, ◌*◌, ◌/◌, ◌%◌, ◌^◌, Bool, true, false, ◌||◌, Option, none, some, List, [],
  ◌∷◌, bit_and, bit_or, ltb, leb, ◌==◌, if◌then◌else◌, length, get_elem?, get_or, set, take, drop,
  Run, ok, fault, out_of_bounds, ◌>>=◌, in_bounds,
}
use grintorrent.Base.Int.{ℤ, pos, negsuc, ◌-ℤ◌, ◌*ℤ◌, quot_ℤ, to_size_t, ltb_ℤ, leb_ℤ}
use grintorrent.System.{Md5, Os}
use grintorrent.Tfile.{
  Digest, TfileDef, Tfile, Location, num_chunks, verified_file, unverified_file, zero_digest,
  same_digest,
}
use grintorrent.Htable.{Htable, search_htable}
use grintorrent.File.Hash.{md5_hash, hash_chunks}

-- The string at a `char *` of a buffer; a buffer with no terminator is read past its end.
unfoldable pub c_str : List ℕ → Run (List ℕ)
c_str [] = fault out_of_bounds
c_str (c ∷ cs) = if c == 0 then ok [] else (do s ← c_str cs; ok (c ∷ s))

-- `n` bytes at an offset into a mapping
pub region : List ℕ → ℤ → ℕ → Run (List ℕ)
region bytes (negsuc a) n = fault out_of_bounds
region bytes (pos a) n =
    if leb (a + n) (length bytes) then ok (take n (drop a bytes)) else fault out_of_bounds

abbrev pub bit : Bool → ℕ
bit true = 1
bit false = 0

-- `verified_chunks | (… << (NUM_CHUNKS - 1 - i))` over the chunks, with the rounds left
pub match_loop : (ℕ → Bool) → ℕ → ℕ → ℕ → ℕ
match_loop same zero i verified = verified
match_loop same (suc k) i verified =
    match_loop same k (i + 1) (bit_or verified (bit (same i) * 2 ^ (num_chunks - 1 - i)) % 2 ^ 8)

pub compare_hashes : List Digest → List Digest → ℕ
unfolding match_loop
compare_hashes c_hashes t_hashes =
    match_loop (λ i. same_digest (get_or c_hashes i zero_digest) (get_or t_hashes i zero_digest))
      num_chunks 0 unverified_file

-- `(chunks >> (NUM_CHUNKS - 1 - chunk_index)) & 0x01`, behind the test of the index
unfoldable pub is_chunk_verified : ℕ → ℤ → Bool
is_chunk_verified chunks (negsuc i) = false
is_chunk_verified chunks (pos i) =
    if leb num_chunks i then false else bit_and (chunks / 2 ^ (num_chunks - 1 - i)) 1 == 1

module _ (m : Md5) where
  open m use {md5}

  -- `for (int i = 0; i < NUM_CHUNKS - 1; i++)` over a mapping, with the rounds left
  pub map_chunk_loop : List ℕ → ℤ → ℕ → ℕ → List Digest → Run (List Digest)
  map_chunk_loop bytes c_size zero i hashes = ok hashes
  map_chunk_loop bytes c_size (suc k) i hashes = do
    chunk ← region bytes (c_size *ℤ pos i) (to_size_t c_size)
    map_chunk_loop bytes c_size k (i + 1) (set hashes i (md5 chunk))

  pub map_chunks : List ℕ → ℤ → List Digest → Run (List Digest)
  map_chunks bytes size hashes =
      let c_size = quot_ℤ size num_chunks in
      let offset = c_size *ℤ pos (num_chunks - 1) in
      do
        last ← region bytes offset (to_size_t (size -ℤ offset))
        map_chunk_loop bytes c_size (num_chunks - 1) 0 (set hashes (num_chunks - 1) (md5 last))

  -- Behind the search. The two arrays on the stack hold `hash` and `hashes` at first.
  pub verify_mapped : TfileDef → List ℕ → List Digest → Run ℕ
  verify_mapped tdef bytes hashes = do
    whole ← region bytes (pos 0) (to_size_t tdef.size)
    if same_digest (md5 whole) tdef.f_hash then ok verified_file else (do
      c_hashes ← map_chunks bytes tdef.size hashes
      ok (compare_hashes c_hashes tdef.c_hashes))

  pub verify_file : Os → TfileDef → List ℕ → Digest → List Digest → Run ℕ
  verify_file os tdef path hash hashes = elim (os.open_read path) [
    | none ↦ ok unverified_file
    | some file ↦ do
      (_, test_hash, p) ← md5_hash m file.read 0 (pos 0) file.st_size hash
      if same_digest test_hash tdef.f_hash then ok verified_file else (do
        c_hashes ← hash_chunks m file.read p tdef.size hashes
        ok (compare_hashes c_hashes tdef.c_hashes))
  ]

  pub verify_unmapped : Os → TfileDef → Location → Digest → List Digest → Run ℕ
  verify_unmapped os tdef Location.null hash hashes = ok unverified_file
  verify_unmapped os tdef (Location.heap path) hash hashes = verify_file os tdef path hash hashes
  verify_unmapped os tdef Location.own_name hash hashes = do
    path ← c_str tdef.name
    verify_file os tdef path hash hashes

  pub verify_entry : Os → Tfile → Digest → List Digest → Run ℕ
  verify_entry os tf hash hashes = elim tf.m_location [
    | none ↦ verify_unmapped os tf.tdef tf.f_location hash hashes
    | some bytes ↦ verify_mapped tf.tdef bytes hashes
  ]

  pub verify_tfile : Os → Htable → Digest → Digest → List Digest → Run ℕ
  verify_tfile os ht key hash hashes = do
    found ← search_htable ht key
    elim found [
      | none ↦ ok unverified_file
      | some i ↦ do tf ← in_bounds (get_elem? ht.table i); verify_entry os tf hash hashes
    ]
