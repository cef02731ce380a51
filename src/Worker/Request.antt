-- ===== src/Worker/Request.antt =====
-- `chunk_request_t` of src/client.h as bytes.
use mathlib.Core.List.{append_assoc}
use grintorrent.Base.{
  ℕ, ◌^◌, ◌≤◌, ◌<◌, ◌≡◌, refl, List, ◌∷◌, ◌++◌, arith, length, length-append, take, drop, replicate,
  get_or, take-append, drop-append,
}
use grintorrent.Base.Bytes.{le_bytes, le_value, length-le_bytes, le_value-le_bytes}
use grintorrent.Base.Int.{ℤ, pos_part, neg_part}
use grintorrent.Tfile.{Digest}
use grintorrent.Share.Wire.{
  digest_size, IsDigest, encode_digest, decode_digest, length-encode_digest,
  decode_digest-encode_digest,
}
use grintorrent.Transfer.Payload.{int_bits, of_bits, of_bits-int_bits}

-- `return_addr` is the bytes of a `struct sockaddr_in`.
pub record ChunkRequest : Type 0 where
  pub file_hash : Digest
  pub chunk_index : ℤ
  pub return_addr : List ℕ
  pub return_addr_len : ℕ
  pub ttl : ℕ

-- `sizeof(struct sockaddr_in)`
abbrev pub addr_size : ℕ
addr_size = 16

-- `sizeof(chunk_request_t)`, with three bytes of padding
abbrev pub request_size : ℕ
request_size = 44

pub encode_request : ChunkRequest → List ℕ
encode_request r =
    encode_digest r.file_hash
    ++ (le_bytes 4 (int_bits r.chunk_index)
        ++ (r.return_addr ++ (le_bytes 4 r.return_addr_len ++ (r.ttl ∷ replicate 3 0))))

-- `*(chunk_request_t *)data_read`
pub decode_request : List ℕ → ChunkRequest
decode_request bytes =
    let behind_hash = drop digest_size bytes in
    let behind_index = drop 4 behind_hash in
    let behind_addr = drop addr_size behind_index in
    record {
      file_hash = decode_digest (take digest_size bytes);
      chunk_index = of_bits (le_value (take 4 behind_hash));
      return_addr = take addr_size behind_index;
      return_addr_len = le_value (take 4 behind_addr);
      ttl = get_or (drop 4 behind_addr) 0 0;
    }

-- A request as C holds it.
pub record IsRequest (r : ChunkRequest) : Type 0 where
  pub hashed : IsDigest r.file_hash
  pub index : (pos_part r.chunk_index < 2 ^ 31) × (neg_part r.chunk_index ≤ 2 ^ 31)
  pub addressed : length r.return_addr ≡ addr_size
  pub counted : r.return_addr_len < 2 ^ 32

-- Reading the bytes of a request gives the request back, whatever follows them.
pub decode_request-encode_request :
    (r : ChunkRequest) (rest : List ℕ) → IsRequest r → decode_request (encode_request r ++ rest) ≡ r
unfolding encode_request decode_request
decode_request-encode_request r rest v =
    let hash = encode_digest r.file_hash in
    let index = le_bytes 4 (int_bits r.chunk_index) in
    let len = le_bytes 4 r.return_addr_len in
    let tail = r.ttl ∷ replicate 3 0 in
    let long = length-encode_digest r.file_hash in
    let four = length-le_bytes 4 (int_bits r.chunk_index) in
    let more = length-le_bytes 4 r.return_addr_len in
    rw
      (
        append_assoc hash (index ++ (r.return_addr ++ (len ++ tail))) rest,
        append_assoc index (r.return_addr ++ (len ++ tail)) rest,
        append_assoc r.return_addr (len ++ tail) rest,
        append_assoc len tail rest,
        take-append digest_size hash (index ++ (r.return_addr ++ (len ++ (tail ++ rest)))) long,
        drop-append digest_size hash (index ++ (r.return_addr ++ (len ++ (tail ++ rest)))) long,
        take-append 4 index (r.return_addr ++ (len ++ (tail ++ rest))) four,
        drop-append 4 index (r.return_addr ++ (len ++ (tail ++ rest))) four,
        take-append addr_size r.return_addr (len ++ (tail ++ rest)) v.addressed,
        drop-append addr_size r.return_addr (len ++ (tail ++ rest)) v.addressed,
        take-append 4 len (tail ++ rest) more,
        drop-append 4 len (tail ++ rest) more,
        decode_digest-encode_digest r.file_hash v.hashed,
        le_value-le_bytes 4 (int_bits r.chunk_index) (omega arith),
        le_value-le_bytes 4 r.return_addr_len (omega (arith, v.counted)),
        of_bits-int_bits r.chunk_index v.index.0 v.index.1,
      )
      refl

pub length-encode_request :
    (r : ChunkRequest) → length r.return_addr ≡ addr_size → length (encode_request r) ≡ request_size
unfolding encode_request
length-encode_request r addressed =
    let index = le_bytes 4 (int_bits r.chunk_index) in
    let len = le_bytes 4 r.return_addr_len in
    let tail = r.ttl ∷ replicate 3 0 in
    omega (
      arith,
      addressed,
      length-append (encode_digest r.file_hash) (index ++ (r.return_addr ++ (len ++ tail))),
      length-append index (r.return_addr ++ (len ++ tail)),
      length-append r.return_addr (len ++ tail),
      length-append len tail,
      length-encode_digest r.file_hash,
      length-le_bytes 4 (int_bits r.chunk_index),
      length-le_bytes 4 r.return_addr_len,
    )
