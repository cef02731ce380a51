-- ===== src/Tfile.antt =====
-- The data of src/file.h: torrent file definitions, the entries of the hash table, constants.
-- An MD5 digest is its two little-endian 64-bit words, as all the code reads it.
use grintorrent.Base.{
  ℕ, ◌≡◌, ◌≢◌, ◌⊎◌, inl, inr, Bool, true, false, ◌&&◌, Option, none, List, arith, ◌==◌, replicate,
  Bool-cases,
}
use grintorrent.Base.Int.{ℤ, pos}

abbrev pub num_chunks : ℕ
num_chunks = 8

abbrev pub name_len : ℕ
name_len = 32

abbrev pub verified_file : ℕ
verified_file = 0xFF

abbrev pub unverified_file : ℕ
unverified_file = 0x00

-- `unsigned char hash[MD5_DIGEST_LENGTH]`: bytes 0 to 7 and bytes 8 to 15.
pub record Digest : Type 0 where
  pub h1 : ℕ
  pub h2 : ℕ

abbrev pub zero_digest : Digest
zero_digest = record { h1 = 0; h2 = 0 }

-- `(!test_hash1) && (!test_hash2)`
abbrev pub is_zero : Digest → Bool
is_zero d = (d.h1 == 0) && (d.h2 == 0)

-- `hash1 == test_hash1 && hash2 == test_hash2`
abbrev pub same_digest : Digest → Digest → Bool
same_digest a b = (a.h1 == b.h1) && (a.h2 == b.h2)

-- `tfile_def_t`
pub record TfileDef : Type 0 where
  pub name : List ℕ
  pub f_hash : Digest
  pub c_hashes : List Digest
  pub size : ℤ

-- A `char *` of `tfile_t`: NULL, a string that `malloc` gave, or the entry's own `tdef.name`.
pub data Location : Type 0 where
  null : Location
  heap : List ℕ → Location
  own_name : Location

-- `tfile_t`. `m_location` is NULL or a mapping, given as the bytes that are mapped.
pub record Tfile : Type 0 where
  pub tdef : TfileDef
  pub f_location : Location
  pub m_location : Option (List ℕ)

-- `calloc`'ed memory
abbrev pub blank_def : TfileDef
blank_def = record {
  name = replicate name_len 0;
  f_hash = zero_digest;
  c_hashes = replicate num_chunks zero_digest;
  size = pos 0;
}

abbrev pub blank : Tfile
blank = record { tdef = blank_def; f_location = Location.null; m_location = none }

pub same_digest→eq : (a b : Digest) → same_digest a b ≡ true → a ≡ b
same_digest→eq a b h = ground arith

pub same_digest_refl : (a : Digest) → same_digest a a ≡ true
same_digest_refl a = ground arith

pub same_digest_ne : (a b : Digest) → a ≢ b → same_digest a b ≡ false
same_digest_ne a b h = elim (Bool-cases (same_digest a b)) [
  | inl e ↦ absurd (h (same_digest→eq a b e))
  | inr e ↦ e
]

pub is_zero→eq : (a : Digest) → is_zero a ≡ true → a ≡ zero_digest
is_zero→eq a h = ground arith

pub is_zero_ne : (a : Digest) → a ≢ zero_digest → is_zero a ≡ false
is_zero_ne a h = elim (Bool-cases (is_zero a)) [ inl e ↦ absurd (h (is_zero→eq a e)) | inr e ↦ e ]

pub Digest-cases : (a b : Digest) → (a ≡ b) ⊎ (a ≢ b)
Digest-cases a b = elim (Bool-cases (same_digest a b)) [
  | inl e ↦ inl (same_digest→eq a b e)
  | inr e ↦ inr (λ p. ground (arith, same_digest_refl b))
]
