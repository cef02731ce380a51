-- ===== src/System.antt =====
-- What the program takes from OpenSSL and from the operating system, as parameters.
use grintorrent.Base.{ℕ, ◌≡◌, Bool, Option, some, List, ◌++◌, take, drop}
use grintorrent.Base.Int.{ℤ}
use grintorrent.Tfile.{Digest}

-- OpenSSL's MD5: `MD5_Init`, `MD5_Update`, `MD5_Final`, and `MD5` of a whole buffer.
pub record Md5 : Type 1 where
  pub Ctx : Type 0
  pub init : Ctx
  pub update : Ctx → List ℕ → Ctx
  pub final : Ctx → Digest
  pub md5 : List ℕ → Digest

-- What OpenSSL documents: the pieces that `MD5_Update` is given are hashed as one message.
pub record Md5Laws (m : Md5) : Type 0 where
  pub update-append : (c : m.Ctx) (a b : List ℕ) → m.update (m.update c a) b ≡ m.update c (a ++ b)
  pub final-update : (a : List ℕ) → m.final (m.update m.init a) ≡ m.md5 a

-- An open file: the size that `fstat` reports, and what `read` returns at a position for a count,
-- `none` for -1.
pub record FileView : Type 0 where
  pub st_size : ℤ
  pub read : ℕ → ℕ → Option (List ℕ)

-- A `read` of a regular file returns what is there, up to the end.
abbrev pub Reads : (ℕ → ℕ → Option (List ℕ)) → List ℕ → Type 0
Reads read content = (p n : ℕ) → read p n ≡ some (take n (drop p content))

-- How the system answers the calls that one function makes.
pub record Os : Type 0 where
  -- `open(path, O_RDONLY)`
  pub open_read : List ℕ → Option FileView
  -- whether `open(path, O_CREAT | O_RDWR, …)` succeeds
  pub open_write : List ℕ → Bool
  -- `mmap` of the file at a path that `ftruncate` was given a size for: the bytes mapped
  pub mmap : List ℕ → ℤ → Option (List ℕ)
  -- whether `msync` and `munmap` succeed
  pub msync : Bool
  pub munmap : Bool
