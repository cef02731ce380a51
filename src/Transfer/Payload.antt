-- ===== src/Transfer/Payload.antt =====
-- `chunk_payload_t` of src/client.h as bytes: the file's hash, the chunk's index, and the chunk's
-- size in network order; the chunk follows.
use mathlib.Core.List.{append_assoc}
use grintorrent.Base.{
  ℕ, ◌+◌, ◌-◌, ◌*◌, ◌/◌, ◌%◌, ◌^◌, ◌≤◌, ◌<◌, ◌≡◌, refl, List, [], ◌∷◌, ◌++◌, arith, if◌then◌else◌,
  ltb, length, length-append, take, drop, slice, take-append, drop-append,
}
use grintorrent.Base.Bytes.{le_bytes, le_value, length-le_bytes, le_value-le_bytes}
use grintorrent.Base.Int.{ℤ, pos, negsuc, pos_part, neg_part}
use grintorrent.Tfile.{Digest}
use grintorrent.Share.Wire.{
  digest_size, IsDigest, encode_digest, decode_digest, length-encode_digest,
  decode_digest-encode_digest,
}

-- The header as the code reads it, with `ntohl` applied to the size.
pub record ChunkPayload : Type 0 where
  pub file_hash : Digest
  pub chunk_index : ℤ
  pub chunk_size : ℕ

-- `sizeof(chunk_payload_t)`
abbrev pub payload_size : ℕ
payload_size = 24

-- An `int` as 32 bits, and back
abbrev pub int_bits : ℤ → ℕ
int_bits a = (pos_part a + 2 ^ 32 - neg_part a) % 2 ^ 32

abbrev pub of_bits : ℕ → ℤ
of_bits n = if ltb n (2 ^ 31) then pos n else negsuc (2 ^ 32 - n - 1)

-- A 32-bit number in network order, as `htonl` leaves it in memory
pub be_bytes : ℕ → List ℕ
be_bytes n = n / 2 ^ 24 % 256 ∷ n / 2 ^ 16 % 256 ∷ n / 2 ^ 8 % 256 ∷ n % 256 ∷ []

pub be_value : List ℕ → ℕ
be_value (a ∷ b ∷ c ∷ d ∷ rest) = a * 2 ^ 24 + b * 2 ^ 16 + c * 2 ^ 8 + d
be_value _ = 0

pub encode_payload : Digest → ℤ → ℕ → List ℕ → List ℕ
encode_payload file_hash chunk_index chunk_size chunk_data =
    encode_digest file_hash
    ++ (le_bytes 4 (int_bits chunk_index) ++ (be_bytes chunk_size ++ chunk_data))

pub decode_payload : List ℕ → ChunkPayload
decode_payload bytes =
    let behind_hash = drop digest_size bytes in
    record {
      file_hash = decode_digest (take digest_size bytes);
      chunk_index = of_bits (le_value (take 4 behind_hash));
      chunk_size = be_value (take 4 (drop 4 behind_hash));
    }

be_value-be_bytes : (n : ℕ) → n < 2 ^ 32 → be_value (be_bytes n) ≡ n
unfolding be_value be_bytes
be_value-be_bytes n h = omega arith

pub of_bits-int_bits :
    (a : ℤ) → pos_part a < 2 ^ 31 → neg_part a ≤ 2 ^ 31 → of_bits (int_bits a) ≡ a
of_bits-int_bits (pos n) hi lo = ground arith
of_bits-int_bits (negsuc n) hi lo = ground arith

length-be_bytes : (n : ℕ) → length (be_bytes n) ≡ 4
unfolding be_bytes
length-be_bytes n = refl

pub length-encode_payload :
    (d : Digest) (c : ℤ) (size : ℕ) (chunk_data : List ℕ)
    → length (encode_payload d c size chunk_data) ≡ payload_size + length chunk_data
unfolding encode_payload
length-encode_payload d c size chunk_data =
    let index = le_bytes 4 (int_bits c) in
    omega (
      arith,
      length-append (encode_digest d) (index ++ (be_bytes size ++ chunk_data)),
      length-append index (be_bytes size ++ chunk_data),
      length-append (be_bytes size) chunk_data,
      length-encode_digest d,
      length-le_bytes 4 (int_bits c),
      length-be_bytes size,
    )

module _ (d : Digest) (c : ℤ) (size : ℕ) (chunk_data : List ℕ) where
  -- The header of a chunk is read back with its hash, its index and its size, whatever follows,
  -- when these fit the C types.
  pub decode_payload-encode_payload :
      (rest : List ℕ)
      → IsDigest d
      → (pos_part c < 2 ^ 31) × (neg_part c ≤ 2 ^ 31)
      → size < 2 ^ 32
      → decode_payload (encode_payload d c size chunk_data ++ rest)
        ≡ record { file_hash = d; chunk_index = c; chunk_size = size }
  unfolding encode_payload decode_payload
  decode_payload-encode_payload rest v (hi, lo) small =
      let index = le_bytes 4 (int_bits c) in
      let long = length-encode_digest d in
      let four = length-le_bytes 4 (int_bits c) in
      rw
        (
          append_assoc (encode_digest d) (index ++ (be_bytes size ++ chunk_data)) rest,
          append_assoc index (be_bytes size ++ chunk_data) rest,
          append_assoc (be_bytes size) chunk_data rest,
          take-append digest_size (encode_digest d)
              (index ++ (be_bytes size ++ (chunk_data ++ rest))) long,
          drop-append digest_size (encode_digest d)
              (index ++ (be_bytes size ++ (chunk_data ++ rest))) long,
          take-append 4 index (be_bytes size ++ (chunk_data ++ rest)) four,
          drop-append 4 index (be_bytes size ++ (chunk_data ++ rest)) four,
          take-append 4 (be_bytes size) (chunk_data ++ rest) (length-be_bytes size),
          decode_digest-encode_digest d v,
          le_value-le_bytes 4 (int_bits c) (omega arith),
          of_bits-int_bits c hi lo,
          be_value-be_bytes size small,
        )
        refl

  -- The chunk stands behind the header.
  pub slice-encode_payload :
      (rest : List ℕ)
      → slice payload_size (length chunk_data) (encode_payload d c size chunk_data ++ rest)
        ≡ chunk_data
  unfolding encode_payload
  slice-encode_payload rest =
      let index = le_bytes 4 (int_bits c) in
      let hdr = encode_digest d ++ (index ++ be_bytes size) in
      let long : length hdr ≡ payload_size = omega (
        arith,
        length-append (encode_digest d) (index ++ be_bytes size),
        length-append index (be_bytes size),
        length-encode_digest d,
        length-le_bytes 4 (int_bits c),
        length-be_bytes size,
      ) in
      let apart : (encode_digest d ++ (index ++ (be_bytes size ++ chunk_data))) ++ rest
          ≡ hdr ++ (chunk_data ++ rest) =
        rw
          (
            append_assoc (encode_digest d) (index ++ (be_bytes size ++ chunk_data)) rest,
            append_assoc index (be_bytes size ++ chunk_data) rest,
            append_assoc (be_bytes size) chunk_data rest,
            append_assoc (encode_digest d) (index ++ be_bytes size) (chunk_data ++ rest),
            append_assoc index (be_bytes size) (chunk_data ++ rest),
          )
          refl in
      rw (apart, drop-append payload_size hdr (chunk_data ++ rest) long)
        (take-append (length chunk_data) chunk_data rest refl)
