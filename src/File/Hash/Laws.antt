-- ===== src/File/Hash/Laws.antt =====
-- The loop of `md5_hash` against one hash of the bytes that it covers.
use mathlib.Core.List.{append_assoc}
use grintorrent.Base.{
  ℕ, zero, suc, ◌+◌, ◌*◌, ◌/◌, ◌%◌, ◌≤◌, ◌<◌, ◌≡◌, refl, sym, ◌∙◌, ap, ap₂, ℕ_discrete, dec_le, ◌⊎◌,
  inl, inr, Option, none, some, List, ◌++◌, arith, length, slice, slice-add, length-slice, ==_iff,
  ==-eq-false, Run, ok,
}
use grintorrent.Base.Int.{pos, quot_ℤ-pos, rem_ℤ-pos, to_size_t-pos}
use grintorrent.System.{Md5, Md5Laws, Reads}
use grintorrent.Tfile.{Digest}
use grintorrent.File.Hash.{block_read_size, hash_blocks, hash_rest, hash_tail, seek, md5_hash}

module _ (m : Md5) (laws : Md5Laws m) (read : ℕ → ℕ → Option (List ℕ)) (content : List ℕ)
    (reads : Reads read content) where
  open m use {Ctx, init, update, final, md5}

  -- What the loop over whole blocks leaves behind `n` blocks from `p`.
  record Hashed (n : ℕ) (c : Ctx) (p : ℕ) (r : Option Ctx × ℕ) : Type 0 where
    ctx : Ctx
    result : r ≡ (some ctx, p + n * block_read_size)
    hashes :
        (more : List ℕ) → update ctx more ≡ update c (slice p (n * block_read_size) content ++ more)

  hash_blocks-Hashed :
      (n : ℕ) (c : Ctx) (p : ℕ)
      → p + n * block_read_size ≤ length content
      → Hashed n c p (hash_blocks m read n c p)
  unfolding hash_blocks
  hash_blocks-Hashed zero c p le = record {
    ctx = c;
    result = ap (λ (q : ℕ). (some c, q)) (omega arith);
    hashes = λ more. refl;
  }
  hash_blocks-Hashed (suc n) c p le =
      let block = slice p block_read_size content in
      let full : length block ≡ block_read_size =
        omega (arith, length-slice p block_read_size content) in
      let ih = hash_blocks-Hashed n (update c block) (p + block_read_size) (omega arith) in
      record {
        ctx = ih.ctx;
        result =
            rw
              (reads p block_read_size, hash_blocks, (==_iff (length block) block_read_size).1 full)
              (ih.result ∙ ap (λ (q : ℕ). (some ih.ctx, q)) (omega arith));
        hashes = λ more.
            ih.hashes more
            ∙ laws.update-append c block _
            ∙ ap (update c) (sym (append_assoc block _ more))
            ∙ ap (λ (s : List ℕ). update c (s ++ more))
                (sym (slice-add p block_read_size (n * block_read_size) content))
            ∙ ap (λ (k : ℕ). update c (slice p k content ++ more)) (omega arith);
      }

  -- The last `read` takes the `r` bytes from `p` on.
  hash_rest_lem :
      (c : Ctx) (p r : ℕ)
      → r < block_read_size
      → p + r ≤ length content
      → hash_rest m read c p (pos r) ≡ ok (some (update c (slice p r content)), p + r)
  unfolding hash_rest
  hash_rest_lem c p r lt le =
      let count = to_size_t-pos r (omega arith) in
      let full : length (slice p r content) ≡ r = omega (arith, length-slice p r content) in
      rw (count, hash_rest, reads p r, full) (ground arith)

  -- On a regular file that reaches over the section, md5_hash returns 0 with the digest of the
  -- section's bytes, wherever the file position stood, and leaves it behind the section.
  pub md5_hash_lem :
      (p o n : ℕ) (hash : Digest)
      → o + n ≤ length content
      → md5_hash m read p (pos o) (pos n) hash ≡ ok (0, md5 (slice o n content), o + n)
  unfolding md5_hash hash_tail seek
  md5_hash_lem p o n hash le =
      let q = n / block_read_size in
      let r = n % block_read_size in
      let split : q * block_read_size + r ≡ n = omega arith in
      let b = hash_blocks-Hashed q init o (omega arith) in
      let e = o + q * block_read_size in
      rw
        (
          quot_ℤ-pos n block_read_size (omega arith),
          rem_ℤ-pos n block_read_size (omega arith),
          b.result,
          hash_rest_lem b.ctx e r (omega arith) (omega arith),
        )
        (ap₂ (λ (d : Digest) (k : ℕ). let r : Run (ℕ × Digest × ℕ) = ok (0, d, k) in r)
          (ap final
              (b.hashes _ ∙ ap (update init) (sym (slice-add o (q * block_read_size) r content)))
            ∙ laws.final-update _
            ∙ ap (λ (k : ℕ). md5 (slice o k content)) split)
          (omega arith))

  hash_blocks_short :
      (n : ℕ) (c : Ctx) (p : ℕ)
      → length content < p + n * block_read_size
      → (0 < n)
      → (p' : ℕ) × (hash_blocks m read n c p ≡ (none, p'))
  unfolding hash_blocks
  hash_blocks_short zero c p lt some_block = absurd (omega arith)
  hash_blocks_short (suc n) c p lt some_block =
      let block = slice p block_read_size content in
      elim (ℕ_discrete (length block) block_read_size) [
        | yes full ↦
            let ih =
              hash_blocks_short n (update c block) (p + block_read_size) (omega arith)
                (omega (arith, length-slice p block_read_size content)) in
            (
              ih.0,
              rw
                  (
                    reads p block_read_size,
                    hash_blocks,
                    (==_iff (length block) block_read_size).1 full,
                  )
                  ih.1,
            )
        | no part ↦ (
          p + length block,
          rw (
            reads p block_read_size,
            hash_blocks,
            ==-eq-false (length block) block_read_size part,
          ),
        )
      ]

  -- Either the blocks fall short, or they are all there.
  hash_blocks_cases :
      (n : ℕ) (c : Ctx) (p : ℕ)
      → ((p' : ℕ) × (hash_blocks m read n c p ≡ (none, p')))
        ⊎ ((c' : Ctx) × (hash_blocks m read n c p ≡ (some c', p + n * block_read_size))
            × ((n ≡ 0) ⊎ (p + n * block_read_size ≤ length content)))
  unfolding hash_blocks
  hash_blocks_cases zero c p = inr (c, ap (λ (q : ℕ). (some c, q)) (omega arith), inl refl)
  hash_blocks_cases (suc n) c p = elim (dec_le (p + suc n * block_read_size) (length content)) [
    | yes le ↦ let b = hash_blocks-Hashed (suc n) c p le in inr (b.ctx, b.result, inr le)
    | no gt ↦ inl (hash_blocks_short (suc n) c p (omega arith) (omega arith))
  ]

  hash_rest_short :
      (c : Ctx) (p r : ℕ)
      → r < block_read_size
      → length content < p + r
      → 0 < r
      → (p' : ℕ) × (hash_rest m read c p (pos r) ≡ ok (none, p'))
  unfolding hash_rest
  hash_rest_short c p r lt short pos_r =
      let count = to_size_t-pos r (omega arith) in
      let part : length (slice p r content) < r = omega (arith, length-slice p r content) in
      (p + length (slice p r content), rw (count, hash_rest, reads p r) (ground arith))

  -- On a regular file that ends before the section does, md5_hash returns 1 and leaves the buffer
  -- for the hash as it was.
  pub md5_hash_short :
      (p o n : ℕ) (hash : Digest)
      → length content < o + n
      → 0 < n
      → (p' : ℕ) × (md5_hash m read p (pos o) (pos n) hash ≡ ok (1, hash, p'))
  unfolding md5_hash hash_tail seek
  md5_hash_short p o n hash lt some_byte =
      let q = n / block_read_size in
      let r = n % block_read_size in
      let split : q * block_read_size + r ≡ n = omega arith in
      let e = o + q * block_read_size in
      elim (hash_blocks_cases q init o) [
        | inl (p', short) ↦ (
          p',
          rw (
            quot_ℤ-pos n block_read_size (omega arith),
            rem_ℤ-pos n block_read_size (omega arith),
            short,
          ),
        )
        | inr (c, all, room) ↦
            let last = hash_rest_short c e r (omega arith) (omega arith) (omega arith) in
            (
              last.0,
              rw (
                quot_ℤ-pos n block_read_size (omega arith),
                rem_ℤ-pos n block_read_size (omega arith),
                all,
                last.1,
              ),
            )
      ]
