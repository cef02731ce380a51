-- ===== src/File/Verify/Entry.antt =====
-- What `verify_tfile` finds of an entry that is mapped, and of one that is a file.
use grintorrent.Base.{
  ℕ, zero, suc, ◌+◌, ◌-◌, ◌*◌, ◌/◌, ◌^◌, ◌≤◌, ◌<◌, ◌≡◌, refl, ◌∙◌, ap, Bool, ◌||◌, some, List,
  arith, length, slice, set, get_or, Run, ok, fault, out_of_bounds, ◌>>=◌, ==-eq-false, Bool-cases,
  inl, inr, take-length, lt→ltb, le→leb, if◌then◌else◌,
}
use grintorrent.Base.Int.{pos, negsuc, quot_ℤ-pos, *ℤ-pos, -ℤ-pos, to_size_t-pos}
use grintorrent.System.{Md5, Md5Laws, Reads, Os, FileView}
use grintorrent.Tfile.{
  Digest, TfileDef, num_chunks, zero_digest, verified_file, same_digest, same_digest_refl,
}
use grintorrent.File.Chunks.{chunk, fill, filled, get_or-filled}
use grintorrent.File.Hash.Laws.{md5_hash_lem}
use grintorrent.File.Hash.Chunks.{hash_chunks_lem}
use grintorrent.File.Verify.{
  region, map_chunk_loop, map_chunks, compare_hashes, is_chunk_verified, verify_mapped, verify_file,
}
use grintorrent.File.Verify.Bits.{is_chunk_verified-compare_hashes, full_bit}

pub region-slice :
    (bytes : List ℕ) (o n : ℕ)
    → o + n ≤ length bytes
    → region bytes (pos o) n ≡ ok (slice o n bytes)
unfolding region
region-slice bytes o n le = rw (le→leb (o + n) (length bytes) le)

pub region-negsuc : (bytes : List ℕ) (o n : ℕ) → region bytes (negsuc o) n ≡ fault out_of_bounds
unfolding region
region-negsuc bytes o n = refl

module _ (m : Md5) where
  open m use {md5}

  module _ (bytes : List ℕ) (c : ℕ) (small : c < 2 ^ 64) where
    map_chunk_loop-fill :
        (digest : ℕ → Digest) (k i : ℕ) (hashes : List Digest)
        → (i + k) * c ≤ length bytes
        → ((j : ℕ) → j < i + k → digest j ≡ md5 (slice (j * c) c bytes))
        → map_chunk_loop m bytes (pos c) k i hashes ≡ ok (fill digest k i hashes)
    unfolding map_chunk_loop
    map_chunk_loop-fill digest zero i hashes le each = refl
    map_chunk_loop-fill digest (suc k) i hashes le each =
        let room : i * c + c ≤ length bytes = grind arith in
        let turn : c * i ≡ i * c = grind arith in
        rw
          (
            *ℤ-pos c i,
            to_size_t-pos c small,
            turn,
            region-slice bytes (i * c) c room,
            ← each i (omega arith),
          )
          (map_chunk_loop-fill digest k (i + 1) (set hashes i (digest i)) (grind arith)
            (λ j lt. each j (omega arith)))

  map_chunks_lem :
      (bytes : List ℕ) (hashes : List Digest)
      → length bytes < 2 ^ 63
      → map_chunks m bytes (pos (length bytes)) hashes
        ≡ ok (filled (λ i. md5 (chunk bytes (length bytes) i)) hashes)
  unfolding map_chunks
  map_chunks_lem bytes hashes small =
      let n = length bytes in
      let c = n / 8 in
      let digest = λ (i : ℕ). md5 (chunk bytes n i) in
      let turn : c * 7 ≡ 7 * c = omega arith in
      rw
        (
          quot_ℤ-pos n num_chunks (omega arith),
          *ℤ-pos c 7,
          turn,
          -ℤ-pos n (7 * c) (omega arith),
          to_size_t-pos (n - 7 * c) (omega arith),
          region-slice bytes (7 * c) (n - 7 * c) (omega arith),
        )
        (map_chunk_loop-fill bytes c (omega arith) digest 7 0 (set hashes 7 (digest 7))
          (omega arith) whole_chunk)
    where
      whole_chunk :
          (j : ℕ)
          → j < 0 + 7
          → md5 (chunk bytes (length bytes) j)
            ≡ md5 (slice (j * (length bytes / 8)) (length bytes / 8) bytes)
      whole_chunk j lt = rw (==-eq-false j 7 (omega arith))

  -- Chunk `i` of a file, whose first `n` bytes the definition covers, is what the definition
  -- says: the whole file has its hash, or the chunk has the hash of the chunk.
  abbrev pub matches : TfileDef → List ℕ → ℕ → ℕ → Bool
  matches tdef content n i =
      same_digest (md5 content) tdef.f_hash
      || same_digest (md5 (chunk content n i)) (get_or tdef.c_hashes i zero_digest)

  -- The result is a byte in which exactly the chunks that match read as verified.
  abbrev pub Verifies : TfileDef → List ℕ → ℕ → Run ℕ → Type 0
  Verifies tdef content n r =
      (v : ℕ) × (r ≡ ok v)
      × ((i : ℕ) → i < num_chunks → is_chunk_verified v (pos i) ≡ matches tdef content n i)

  -- The common end of both branches: the byte is full, or it is built from the chunks' digests.
  chunks-Verifies :
      (tdef : TfileDef) (content : List ℕ) (n : ℕ) (hashes : List Digest) (rest : Run (List Digest))
      → length hashes ≡ num_chunks
      → rest ≡ ok (filled (λ i. md5 (chunk content n i)) hashes)
      → Verifies tdef content n (
          if same_digest (md5 content) tdef.f_hash
          then ok verified_file
          else (rest >>= λ c_hashes. ok (compare_hashes c_hashes tdef.c_hashes)))
  chunks-Verifies tdef content n hashes rest eight e =
      elim (Bool-cases (same_digest (md5 content) tdef.f_hash)) [
        | inl whole ↦ (verified_file, rw whole, λ i lt. rw whole (full_bit i lt))
        | inr other ↦
            let digest = λ (i : ℕ). md5 (chunk content n i) in
            (
              compare_hashes (filled digest hashes) tdef.c_hashes,
              rw (other, e),
              λ i lt.
                  is_chunk_verified-compare_hashes (filled digest hashes) tdef.c_hashes i
                  ∙ rw (lt→ltb i num_chunks lt, other)
                      (ap (λ (d : Digest). same_digest d (get_or tdef.c_hashes i zero_digest))
                        (get_or-filled digest hashes i eight lt)),
            )
      ]

  -- For an entry that is mapped: in the byte that `verify_tfile` returns exactly those chunks read
  -- as verified that match the definition.
  pub verify_mapped-Verifies :
      (tdef : TfileDef) (bytes : List ℕ) (hashes : List Digest)
      → tdef.size ≡ pos (length bytes)
      → length bytes < 2 ^ 63
      → length hashes ≡ num_chunks
      → Verifies tdef bytes (length bytes) (verify_mapped m tdef bytes hashes)
  unfolding verify_mapped
  verify_mapped-Verifies tdef bytes hashes size small eight =
      let n = length bytes in
      let whole : region bytes (pos 0) n ≡ ok bytes =
        region-slice bytes 0 n (omega arith) ∙ ap ok (take-length n bytes (omega arith)) in
      rw (size, to_size_t-pos n (omega arith), whole)
        (chunks-Verifies tdef bytes n hashes _ eight (map_chunks_lem bytes hashes small))

  -- The same of a regular file that is not mapped; it may be longer than the definition says.
  pub verify_file-Verifies :
      Md5Laws m
      → (os : Os) (tdef : TfileDef) (path content : List ℕ) (file : FileView) (n : ℕ)
        (hash : Digest) (hashes : List Digest)
      → os.open_read path ≡ some file
      → Reads file.read content
      → file.st_size ≡ pos (length content)
      → tdef.size ≡ pos n
      → n ≤ length content
      → length hashes ≡ num_chunks
      → Verifies tdef content n (verify_file m os tdef path hash hashes)
  unfolding verify_file
  verify_file-Verifies laws os tdef path content file n hash hashes opened reads st size le eight =
      let whole =
        md5_hash_lem m laws file.read content reads 0 0 (length content) hash (omega arith)
        ∙ ap (λ (s : List ℕ). let r : Run (ℕ × Digest × ℕ) = ok (0, md5 s, 0 + length content) in r)
            (take-length (length content) content (omega arith)) in
      rw (opened, verify_file, st, whole, size)
        (chunks-Verifies tdef content n hashes _ eight
          (hash_chunks_lem m laws file.read content reads (0 + length content) n hashes le))

  -- A regular file that has the definition's hash as a whole verifies fully.
  pub verify_file_whole :
      Md5Laws m
      → (os : Os) (tdef : TfileDef) (path content : List ℕ) (file : FileView) (hash : Digest)
        (hashes : List Digest)
      → os.open_read path ≡ some file
      → Reads file.read content
      → file.st_size ≡ pos (length content)
      → tdef.f_hash ≡ md5 content
      → verify_file m os tdef path hash hashes ≡ ok verified_file
  unfolding verify_file
  verify_file_whole laws os tdef path content file hash hashes opened reads st same =
      let whole =
        md5_hash_lem m laws file.read content reads 0 0 (length content) hash (omega arith)
        ∙ ap (λ (s : List ℕ). let r : Run (ℕ × Digest × ℕ) = ok (0, md5 s, 0 + length content) in r)
            (take-length (length content) content (omega arith)) in
      rw (opened, verify_file, st, whole, same, same_digest_refl (md5 content))
