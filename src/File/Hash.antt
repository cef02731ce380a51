-- ===== src/File/Hash.antt =====
-- `md5_hash`, and the loop over the chunks of a file that `generate_tfile` and `verify_tfile` have.
pub mod Laws
pub mod Chunks
use grintorrent.Base.{
  ℕ, zero, suc, ◌+◌, ◌-◌, ◌*◌, ◌%◌, ◌^◌, Bool, Option, none, some, List, ltb, ◌==◌, if◌then◌else◌,
  length, get_or, set, Run, ok, fault, out_of_bounds, ◌>>=◌,
}
use grintorrent.Base.Int.{
  ℤ, pos, negsuc, pos_part, rem_ℤ, to_size_t, ◌-ℤ◌, ◌*ℤ◌, quot_ℤ, eqb_ℤ, sub_ℕ,
}
use grintorrent.System.{Md5}
use grintorrent.Tfile.{Digest, num_chunks, zero_digest}

abbrev pub block_read_size : ℕ
block_read_size = 8192

module _ (m : Md5) (read : ℕ → ℕ → Option (List ℕ)) where
  open m use {Ctx, init, update, final}

  -- The loop over whole blocks; `none` if a `read` falls short. The number is the file position.
  pub hash_blocks : ℕ → Ctx → ℕ → Option Ctx × ℕ
  hash_blocks zero c p = (some c, p)
  hash_blocks (suc n) c p = elim (read p block_read_size) [
    | none ↦ (none, p)
    | some block ↦
        let rest = hash_blocks n (update c block) (p + block_read_size) in
        if length block == block_read_size then rest else (none, p + length block)
  ]

  -- The last `read`, of `rest` bytes. A count that turns negative overruns the block.
  pub hash_rest : Ctx → ℕ → ℤ → Run (Option Ctx × ℕ)
  hash_rest c p rest = elim (read p (to_size_t rest)) [
    | none ↦ if eqb_ℤ (negsuc 0) rest then fault out_of_bounds else ok (none, p)
    | some block ↦
        if ltb block_read_size (length block)
        then fault out_of_bounds
        else if eqb_ℤ (pos (length block)) rest
        then ok (some (update c block), p + length block)
        else ok (none, p + length block)
  ]

  -- An `lseek` to a negative offset fails.
  pub seek : ℕ → ℤ → ℕ
  seek p (pos n) = n
  seek p (negsuc n) = p

  -- `MD5_Final` behind the last `read`, or the status 1 with `hash` as it was.
  pub hash_tail : Digest → ℤ → Option Ctx × ℕ → Run (ℕ × Digest × ℕ)
  hash_tail hash rest (none, p) = ok (1, hash, p)
  hash_tail hash rest (some c, p) = do
    (last, p') ← hash_rest c p rest
    elim last [ none ↦ ok (1, hash, p') | some c' ↦ ok (0, final c', p') ]

  -- The status that it returns, what stands in `hash` then, and the file position.
  pub md5_hash : ℕ → ℤ → ℤ → Digest → Run (ℕ × Digest × ℕ)
  md5_hash p offset size hash =
      hash_tail hash (rem_ℤ size block_read_size)
        (hash_blocks (pos_part (quot_ℤ size block_read_size)) init (seek p offset))

  -- `for (int i = 0; i < NUM_CHUNKS - 1; i++)`, with the rounds left
  pub hash_chunk_loop : ℕ → ℕ → ℕ → ℤ → List Digest → Run (List Digest)
  hash_chunk_loop zero i p c_size hashes = ok hashes
  hash_chunk_loop (suc k) i p c_size hashes = do
    (_, h, p') ← md5_hash p (pos i *ℤ c_size) c_size (get_or hashes i zero_digest)
    hash_chunk_loop k (i + 1) p' c_size (set hashes i h)

  -- The last chunk first, then the others. The status of `md5_hash` is not looked at.
  pub hash_chunks : ℕ → ℤ → List Digest → Run (List Digest)
  hash_chunks p size hashes =
      let c_size = quot_ℤ size num_chunks in
      let offset = c_size *ℤ pos (num_chunks - 1) in
      do
        (_, h, p') ← md5_hash p offset (size -ℤ offset) (get_or hashes (num_chunks - 1) zero_digest)
        hash_chunk_loop (num_chunks - 1) 0 p' c_size (set hashes (num_chunks - 1) h)
