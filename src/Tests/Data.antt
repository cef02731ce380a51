-- ===== src/Tests/Data.antt =====
-- A small table, a small file, and a stand-in for MD5 and for the system.
use mathlib.Core.List.{append_assoc}
use grintorrent.Base.{
  ℕ, zero, suc, ◌+◌, ◌*◌, ◌≡◌, ◌≢◌, refl, sym, ◌∙◌, ap, true, false, some, none, List, [], ◌∷◌,
  ◌++◌, arith, min, ltb, length, take, drop, replicate,
}
use grintorrent.Base.Int.{pos, pos_part}
use grintorrent.System.{Md5, Md5Laws, Reads, Os, FileView}
use grintorrent.Tfile.{num_chunks, Digest, TfileDef, Tfile, Location, blank, blank_def, zero_digest}
use grintorrent.Htable.{Htable, home}
use grintorrent.Htable.Probe.{key, Occupied}
use grintorrent.Htable.Invariant.{IsValid, Absent, occupied}
use grintorrent.Htable.Search.{blank-IsValid}
use grintorrent.Message.{Kernel}
use grintorrent.Peers.{Peers}
use grintorrent.Socket.{Net, SockaddrIn, af_inet}
use grintorrent.Peers.Add as Add
use grintorrent.Share.Wire.{IsDigest, AreDigests, IsDef}
use grintorrent.Message.Send.{Obeys, Progresses}

abbrev pub digest_of : ℕ → Digest
digest_of h1 = record { h1 = h1; h2 = 7 }

abbrev pub def_of : Digest → ℕ → TfileDef
def_of d size = record blank_def { f_hash = d; size = pos size }

-- No entry, room for four.
abbrev pub no_files : Htable
no_files = record { capacity = 4; size = 0; table = replicate 4 blank }

pub no_files-IsValid : IsValid no_files
no_files-IsValid = blank-IsValid 4 (omega arith) (omega arith)

pub no_files-Absent : (d : Digest) → Absent no_files d
no_files-Absent d zero occ = absurd (occ refl)
no_files-Absent d (suc zero) occ = absurd (occ refl)
no_files-Absent d (suc (suc zero)) occ = absurd (occ refl)
no_files-Absent d (suc (suc (suc zero))) occ = absurd (occ refl)
no_files-Absent d (suc (suc (suc (suc i)))) occ = absurd (occ refl)

-- A table of four with one file, whose home is entry 1.
abbrev pub one_file : Tfile → Htable
one_file tf = record { capacity = 4; size = 1; table = blank ∷ tf ∷ blank ∷ blank ∷ [] }

at_one : (tf : Tfile) (i : ℕ) → Occupied (one_file tf) i → i ≡ 1
at_one tf zero occ = absurd (occ refl)
at_one tf (suc zero) occ = refl
at_one tf (suc (suc zero)) occ = absurd (occ refl)
at_one tf (suc (suc (suc zero))) occ = absurd (occ refl)
at_one tf (suc (suc (suc (suc i)))) occ = absurd (occ refl)

pub one_file-IsValid :
    (tf : Tfile)
    → 1 ≡ occupied (one_file tf).table
    → home (one_file tf) tf.tdef.f_hash ≡ 1
    → IsValid (one_file tf)
one_file-IsValid tf counted at_home = record {
  width = refl;
  positive = omega arith;
  small = omega arith;
  counted = counted;
  from_home = λ i occ. omega (arith, at_one tf i occ, homes i occ);
  chained = λ i j occ lo hi. absurd (omega (arith, at_one tf i occ, homes i occ));
  unique = λ i j occ same. at_one tf i occ ∙ sym (at_one tf j (λ z. occ (same ∙ z)));
}
  where
    homes : (i : ℕ) → Occupied (one_file tf) i → home (one_file tf) (key (one_file tf) i) ≡ 1
    homes i occ =
        ap (λ (k : ℕ). home (one_file tf) (key (one_file tf) k)) (at_one tf i occ) ∙ at_home

pub one_file-Absent : (tf : Tfile) (d : Digest) → tf.tdef.f_hash ≢ d → Absent (one_file tf) d
one_file-Absent tf d other i occ same =
    other (ap (λ (k : ℕ). key (one_file tf) k) (sym (at_one tf i occ)) ∙ same)

-- A digest that is not zero, from its first word.
pub nonzero : (d : Digest) → ltb 0 d.h1 ≡ true → d ≢ zero_digest
nonzero d lt e = ground (arith, ap (λ (x : Digest). x.h1) e)

pub other_digest : (a b : Digest) → ltb a.h1 b.h1 ≡ true → a ≢ b
other_digest a b lt e = ground (arith, ap (λ (x : Digest). x.h1) e)

abbrev total : List ℕ → ℕ
total [] = 0
total (b ∷ bytes) = b + total bytes

-- The sum of the bytes and their number, in place of MD5.
abbrev sum_digest : List ℕ → Digest
sum_digest bytes = record { h1 = total bytes * 4 + 1; h2 = length bytes }

abbrev pub sum_md5 : Md5
sum_md5 = record { Ctx = List ℕ; init = []; update = ◌++◌; final = sum_digest; md5 = sum_digest }

pub sum_md5_laws : Md5Laws sum_md5
sum_md5_laws = record { update-append = append_assoc; final-update = λ a. refl }

abbrev pub content : List ℕ
content = replicate 256 3

abbrev pub path : List ℕ
path = 47 ∷ 97 ∷ []

abbrev pub regular : List ℕ → FileView
regular bytes = record { st_size = pos (length bytes); read = λ p n. some (take n (drop p bytes)) }

pub regular-Reads : (bytes : List ℕ) → Reads (regular bytes).read bytes
regular-Reads bytes p n = refl

-- A system on which every path is a file with some bytes.
abbrev pub system : List ℕ → Os
system bytes = record {
  open_read = λ p. some (regular bytes);
  open_write = λ p. true;
  mmap = λ p n. some bytes;
  msync = true;
  munmap = true;
}

-- The file's entry: mapped, at a path, or neither.
abbrev pub content_def : TfileDef
content_def = def_of (sum_md5.md5 content) 256

abbrev pub mapped_file : Tfile
mapped_file = record { tdef = content_def; f_location = Location.null; m_location = some content }

abbrev pub file_at_path : Tfile
file_at_path = record { tdef = content_def; f_location = Location.heap path; m_location = none }

-- At most 16 bytes a call.
abbrev pub sixteen : Kernel
sixteen k n = pos (min n 16)

pub sixteen-Obeys : Obeys sixteen
sixteen-Obeys k n rc e = let same : min n 16 ≡ rc = λ i. pos_part (e i) in omega arith

pub sixteen-Progresses : Progresses sixteen
sixteen-Progresses k n some_bytes = (min n 16, refl, omega arith, omega arith)

abbrev pub padding : List ℕ
padding = replicate 7 0

abbrev pub three_peers : Peers
three_peers = record {
  locked = false;
  capacity = 4;
  size = 3;
  arr = pos 5 ∷ pos 6 ∷ pos 7 ∷ pos 0 ∷ [];
}

pub three_peers-IsValid : Add.IsValid three_peers
three_peers-IsValid = record {
  free = refl;
  positive = omega arith;
  allocated = omega arith;
  used = omega arith;
}

pub content-IsDigest : IsDigest content_def.f_hash
content-IsDigest = record { first = omega arith; second = omega arith }

zero-IsDigest : IsDigest zero_digest
zero-IsDigest = record { first = omega arith; second = omega arith }

pub zeros-AreDigests : (n : ℕ) → AreDigests (replicate n zero_digest)
zeros-AreDigests zero = tt
zeros-AreDigests (suc n) = (zero-IsDigest, zeros-AreDigests n)

pub content_def-IsDef : IsDef content_def
content_def-IsDef = record {
  named = refl;
  whole = content-IsDigest;
  eight = refl;
  chunks = zeros-AreDigests num_chunks;
  small = (omega arith, omega arith);
}

-- A network on which every server is found and answers, at descriptor 4.
abbrev pub local_addr : SockaddrIn
local_addr = record { sin_family = af_inet; sin_port = 0x901F; s_addr = replicate 4 0 }

abbrev pub local_net : Net
local_net = record {
  gethostbyname = λ name. some (127 ∷ 0 ∷ 0 ∷ 1 ∷ []);
  socket = pos 4;
  connect = λ fd addr len. pos 0;
  bind = λ fd addr len. pos 0;
  getsockname = λ fd. (pos 0, local_addr);
  accept = λ fd len. (pos 8, local_addr, 16);
}
