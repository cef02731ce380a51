-- ===== src/File/Hash/Chunks.antt =====
-- The loops over the chunks: read from a file and from a mapping, they leave the same digests.
use grintorrent.Base.{
  ℕ, zero, suc, ◌+◌, ◌-◌, ◌*◌, ◌/◌, ◌≤◌, ◌<◌, ◌≡◌, refl, Option, List, ==-eq-false, arith, length,
  slice, set, get_or, ok,
}
use grintorrent.Base.Int.{pos, quot_ℤ-pos, *ℤ-pos, -ℤ-pos}
use grintorrent.System.{Md5, Md5Laws, Reads}
use grintorrent.Tfile.{Digest, num_chunks, zero_digest}
use grintorrent.File.Chunks.{chunk, fill, filled}
use grintorrent.File.Hash.{hash_chunk_loop, hash_chunks}
use grintorrent.File.Hash.Laws.{md5_hash_lem}

module _ (m : Md5) (laws : Md5Laws m) (read : ℕ → ℕ → Option (List ℕ)) (content : List ℕ)
    (reads : Reads read content) where
  open m use {md5}

  hash_chunk_loop-fill :
      (digest : ℕ → Digest) (k i p c : ℕ) (hashes : List Digest)
      → (i + k) * c ≤ length content
      → ((j : ℕ) → j < i + k → digest j ≡ md5 (slice (j * c) c content))
      → hash_chunk_loop m read k i p (pos c) hashes ≡ ok (fill digest k i hashes)
  unfolding hash_chunk_loop
  hash_chunk_loop-fill digest zero i p c hashes le each = refl
  hash_chunk_loop-fill digest (suc k) i p c hashes le each =
      let room : i * c + c ≤ length content = grind arith in
      rw
        (
          *ℤ-pos i c,
          md5_hash_lem m laws read content reads p (i * c) c (get_or hashes i zero_digest) room,
          ← each i (omega arith),
        )
        (hash_chunk_loop-fill digest k (i + 1) (i * c + c) c (set hashes i (digest i)) (grind arith)
          (λ j lt. each j (omega arith)))

  -- On a regular file of `n` bytes at least, both loops of the code leave the digests of the chunks
  -- of its first `n` bytes.
  pub hash_chunks_lem :
      (p n : ℕ) (hashes : List Digest)
      → n ≤ length content
      → hash_chunks m read p (pos n) hashes ≡ ok (filled (λ i. md5 (chunk content n i)) hashes)
  unfolding hash_chunks
  hash_chunks_lem p n hashes le =
      let c = n / 8 in
      let digest = λ (i : ℕ). md5 (chunk content n i) in
      let turn : c * 7 ≡ 7 * c = omega arith in
      rw
        (
          quot_ℤ-pos n num_chunks (omega arith),
          *ℤ-pos c 7,
          turn,
          -ℤ-pos n (7 * c) (omega arith),
          md5_hash_lem m laws read content reads p (7 * c) (n - 7 * c) (get_or hashes 7 zero_digest)
              (omega arith),
        )
        (hash_chunk_loop-fill digest 7 0 (7 * c + (n - 7 * c)) c (set hashes 7 (digest 7))
          (omega arith) (whole_chunk))
    where
      whole_chunk :
          (j : ℕ) → j < 0 + 7 → md5 (chunk content n j) ≡ md5 (slice (j * (n / 8)) (n / 8) content)
      whole_chunk j lt = rw (==-eq-false j 7 (omega arith))
