-- ===== src/File/Open.antt =====
-- `open_tfile` and `save_tfile`: the mapping of a file.
pub mod Laws
pub mod Save
use grintorrent.Base.{
  ℕ, ◌-◌, Bool, true, false, Option, none, some, List, if◌then◌else◌, get_elem?, set, Run, ok,
  ◌>>=◌, in_bounds, ◌&&◌, ◌^◌, leb, ltb, fault, overflow,
}
use grintorrent.Base.Int.{ℤ, pos, negsuc, pos_part, neg_part, ◌-ℤ◌, ◌*ℤ◌, quot_ℤ, leb_ℤ, eqb_ℤ}
use grintorrent.System.{Os}
use grintorrent.Tfile.{Digest, Tfile, Location, num_chunks}
use grintorrent.Htable.{Htable, search_htable}
use grintorrent.File.Verify.{c_str}

-- `*location`: an offset into the mapping of the entry at an index of the table.
pub record Pointer : Type 0 where
  pub slot : ℕ
  pub offset : ℤ

-- `if (tf->f_location == NULL) tf->f_location = tf->tdef.name`
abbrev pub locate : Tfile → Tfile
locate tf = elim tf.f_location [
  | Location.null ↦ record tf { f_location = Location.own_name }
  | _ ↦ tf
]

unfoldable pub path_of : Tfile → Run (List ℕ)
path_of tf = elim tf.f_location [
  | Location.null ↦ c_str tf.tdef.name
  | Location.heap path ↦ ok path
  | Location.own_name ↦ c_str tf.tdef.name
]

-- The entry with a mapping, and whether there is one. A call that fails leaves the new path.
pub map_tfile : Os → Tfile → Run (Bool × Tfile)
map_tfile os tf = elim tf.m_location [
  | some bytes ↦ ok (true, tf)
  | none ↦ do
    path ← path_of (locate tf)
    if os.open_write path
        then elim (os.mmap path tf.tdef.size) [
          | none ↦ ok (false, locate tf)
          | some bytes ↦ ok (true, record (locate tf) { m_location = some bytes })
        ]
        else ok (false, locate tf)
]

-- A product of two `off_t`
abbrev pub in_off_t : ℤ → Run ℤ
in_off_t a = if leb (neg_part a) (2 ^ 63) && ltb (pos_part a) (2 ^ 63) then ok a else fault overflow

-- The size of a chunk; the last one has what remains.
pub chunk_size_of : ℤ → ℤ → ℤ
chunk_size_of size chunk =
    let chunk_size = quot_ℤ size num_chunks in
    if eqb_ℤ chunk (pos (num_chunks - 1)) then size -ℤ chunk *ℤ chunk_size else chunk_size

abbrev pub failed : ℤ
failed = negsuc 0

-- Behind the search that found entry `i`.
pub open_found : Os → Htable → ℤ → ℕ → Run (ℤ × Option Pointer × Htable)
open_found os ht chunk i = do
  tf ← in_bounds (get_elem? ht.table i)
  (done, tf') ← map_tfile os tf
  let ht' = record ht { table = set ht.table i tf' }
  if done
      then (do
        offset ← in_off_t (chunk *ℤ quot_ℤ tf.tdef.size num_chunks)
        ok (chunk_size_of tf.tdef.size chunk, some (record { slot = i; offset = offset }), ht'))
      else ok (failed, none, ht')

-- The size that it returns, what it writes to `*location` (`none` for nothing), and the table.
pub open_tfile : Os → Htable → Digest → ℤ → Run (ℤ × Option Pointer × Htable)
open_tfile os ht hash chunk = if leb_ℤ (pos num_chunks) chunk then ok (failed, none, ht) else do
  found ← search_htable ht hash
  elim found [ none ↦ ok (failed, none, ht) | some i ↦ open_found os ht chunk i ]

-- Behind the search that found entry `i`.
pub save_found : Os → Htable → ℕ → Run (ℤ × Htable)
save_found os ht i = do
  tf ← in_bounds (get_elem? ht.table i)
  elim tf.m_location [
    | none ↦ ok (pos 0, ht)
    | some bytes ↦
        if os.msync && os.munmap
        then ok (pos 0, record ht { table = set ht.table i (record tf { m_location = none }) })
        else ok (failed, ht)
  ]

pub save_tfile : Os → Htable → Digest → Run (ℤ × Htable)
save_tfile os ht hash = do
  found ← search_htable ht hash
  elim found [ none ↦ ok (failed, ht) | some i ↦ save_found os ht i ]
