-- ===== src/Share/Wire.antt =====
-- `tfile_def_t` of src/file.h as bytes, the way that it is sent and that TFILE_DEF is read.
use mathlib.Core.List.{append_assoc}
use grintorrent.Base.{
  ℕ, zero, suc, ◌-◌, ◌*◌, ◌^◌, ◌≤◌, ◌<◌, ◌≡◌, refl, subst, List, [], ◌∷◌, ◌++◌, arith,
  if◌then◌else◌, ltb, length, length-append, take, drop, take-append, drop-append,
}
use grintorrent.Base.Bytes.{le_bytes, le_value, length-le_bytes, le_value-le_bytes}
use grintorrent.Base.Int.{ℤ, pos, negsuc, pos_part, neg_part, to_size_t}
use grintorrent.Tfile.{Digest, TfileDef, num_chunks, name_len}

abbrev pub digest_size : ℕ
digest_size = 16

-- `sizeof(tfile_def_t)`
abbrev pub def_size : ℕ
def_size = 184

abbrev pub encode_digest : Digest → List ℕ
encode_digest d = le_bytes 8 d.h1 ++ le_bytes 8 d.h2

abbrev pub decode_digest : List ℕ → Digest
decode_digest bytes = record { h1 = le_value (take 8 bytes); h2 = le_value (drop 8 bytes) }

pub encode_digests : List Digest → List ℕ
encode_digests [] = []
encode_digests (d ∷ ds) = encode_digest d ++ encode_digests ds

pub decode_digests : ℕ → List ℕ → List Digest
decode_digests zero bytes = []
decode_digests (suc n) bytes =
    decode_digest (take digest_size bytes) ∷ decode_digests n (drop digest_size bytes)

-- The conversion of 64 bits to `off_t`
abbrev pub to_off_t : ℕ → ℤ
to_off_t n = if ltb n (2 ^ 63) then pos n else negsuc (2 ^ 64 - n - 1)

pub encode_def : TfileDef → List ℕ
encode_def t =
    t.name
    ++ (encode_digest t.f_hash ++ (encode_digests t.c_hashes ++ le_bytes 8 (to_size_t t.size)))

-- `*(tfile_def_t *)data_read`
pub decode_def : List ℕ → TfileDef
decode_def bytes =
    let behind_name = drop name_len bytes in
    let behind_hash = drop digest_size behind_name in
    record {
      name = take name_len bytes;
      f_hash = decode_digest (take digest_size behind_name);
      c_hashes = decode_digests num_chunks behind_hash;
      size = to_off_t (le_value (take 8 (drop (num_chunks * digest_size) behind_hash)));
    }

-- A digest of two 64-bit words.
pub record IsDigest (d : Digest) : Type 0 where
  pub first : d.h1 < 2 ^ 64
  pub second : d.h2 < 2 ^ 64

abbrev pub AreDigests : List Digest → Type 0
AreDigests [] = Unit
AreDigests (d ∷ ds) = IsDigest d × AreDigests ds

-- A definition as C holds it.
pub record IsDef (t : TfileDef) : Type 0 where
  pub named : length t.name ≡ name_len
  pub whole : IsDigest t.f_hash
  pub eight : length t.c_hashes ≡ num_chunks
  pub chunks : AreDigests t.c_hashes
  pub small : (pos_part t.size < 2 ^ 63) × (neg_part t.size ≤ 2 ^ 63)

pub length-encode_digest : (d : Digest) → length (encode_digest d) ≡ digest_size
length-encode_digest d = omega (
  arith,
  length-append (le_bytes 8 d.h1) (le_bytes 8 d.h2),
  length-le_bytes 8 d.h1,
  length-le_bytes 8 d.h2,
)

length-encode_digests : (ds : List Digest) → length (encode_digests ds) ≡ length ds * digest_size
unfolding encode_digests
length-encode_digests [] = refl
length-encode_digests (d ∷ ds) = omega (
  arith,
  length-append (encode_digest d) (encode_digests ds),
  length-encode_digest d,
  length-encode_digests ds,
)

pub decode_digest-encode_digest : (d : Digest) → IsDigest d → decode_digest (encode_digest d) ≡ d
decode_digest-encode_digest d v =
    let first = length-le_bytes 8 d.h1 in
    rw
      (
        take-append 8 (le_bytes 8 d.h1) (le_bytes 8 d.h2) first,
        drop-append 8 (le_bytes 8 d.h1) (le_bytes 8 d.h2) first,
        le_value-le_bytes 8 d.h1 (omega (arith, v.first)),
        le_value-le_bytes 8 d.h2 (omega (arith, v.second)),
      )
      refl

decode_digests-encode_digests :
    (ds : List Digest) (rest : List ℕ)
    → AreDigests ds
    → decode_digests (length ds) (encode_digests ds ++ rest) ≡ ds
unfolding encode_digests decode_digests
decode_digests-encode_digests [] rest v = refl
decode_digests-encode_digests (d ∷ ds) rest (v, vs) =
    let long = length-encode_digest d in
    rw
      (
        append_assoc (encode_digest d) (encode_digests ds) rest,
        take-append digest_size (encode_digest d) (encode_digests ds ++ rest) long,
        drop-append digest_size (encode_digest d) (encode_digests ds ++ rest) long,
        decode_digest-encode_digest d v,
        decode_digests-encode_digests ds rest vs,
      )
      refl

to_off_t-to_size_t :
    (a : ℤ) → pos_part a < 2 ^ 63 → neg_part a ≤ 2 ^ 63 → to_off_t (to_size_t a) ≡ a
unfolding to_size_t
to_off_t-to_size_t (pos n) hi lo = ground arith
to_off_t-to_size_t (negsuc n) hi lo = ground arith

to_size_t-lt : (a : ℤ) → to_size_t a < 2 ^ 64
unfolding to_size_t
to_size_t-lt a = omega arith

pub length-encode_def : (t : TfileDef) → IsDef t → length (encode_def t) ≡ def_size
unfolding encode_def
length-encode_def t v =
    let size = le_bytes 8 (to_size_t t.size) in
    omega (
      arith,
      v.named,
      v.eight,
      length-append t.name (encode_digest t.f_hash ++ (encode_digests t.c_hashes ++ size)),
      length-append (encode_digest t.f_hash) (encode_digests t.c_hashes ++ size),
      length-append (encode_digests t.c_hashes) size,
      length-encode_digest t.f_hash,
      length-encode_digests t.c_hashes,
      length-le_bytes 8 (to_size_t t.size),
    )

-- Reading the bytes of a tfile_def_t gives the definition back, whatever follows them, when its
-- fields have the sizes of the C types.
pub decode_def-encode_def :
    (t : TfileDef) (rest : List ℕ) → IsDef t → decode_def (encode_def t ++ rest) ≡ t
unfolding encode_def decode_def
decode_def-encode_def t rest v =
    let hash = encode_digest t.f_hash in
    let hashes = encode_digests t.c_hashes in
    let size = le_bytes 8 (to_size_t t.size) in
    let long = length-encode_digest t.f_hash in
    let all : length hashes ≡ num_chunks * digest_size =
      omega (arith, length-encode_digests t.c_hashes, v.eight) in
    let eight : decode_digests num_chunks (hashes ++ (size ++ rest)) ≡ t.c_hashes =
      subst (λ (n : ℕ). decode_digests n (hashes ++ (size ++ rest)) ≡ t.c_hashes) v.eight
        (decode_digests-encode_digests t.c_hashes (size ++ rest) v.chunks) in
    let word : to_size_t t.size < 2 ^ 64 = to_size_t-lt t.size in
    rw
      (
        append_assoc t.name (hash ++ (hashes ++ size)) rest,
        append_assoc hash (hashes ++ size) rest,
        append_assoc hashes size rest,
        take-append name_len t.name (hash ++ (hashes ++ (size ++ rest))) v.named,
        drop-append name_len t.name (hash ++ (hashes ++ (size ++ rest))) v.named,
        take-append digest_size hash (hashes ++ (size ++ rest)) long,
        drop-append digest_size hash (hashes ++ (size ++ rest)) long,
        decode_digest-encode_digest t.f_hash v.whole,
        eight,
        drop-append (num_chunks * digest_size) hashes (size ++ rest) all,
        take-append 8 size rest (length-le_bytes 8 (to_size_t t.size)),
        le_value-le_bytes 8 (to_size_t t.size) (omega (arith, word)),
        to_off_t-to_size_t t.size v.small.0 v.small.1,
      )
      refl
