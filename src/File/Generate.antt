-- ===== src/File/Generate.antt =====
-- `generate_tfile` and `add_tfile`: new entries of the table.
pub mod Laws
use grintorrent.Base.{
  ℕ, Bool, Option, none, some, List, if◌then◌else◌, get_elem?, set, take, length, leb, Run, ok,
  fault, out_of_bounds, ◌>>=◌, in_bounds, deref,
}
use grintorrent.Base.Int.{ℤ, pos, negsuc, ltb_ℤ}
use grintorrent.System.{Md5, Os, FileView}
use grintorrent.Tfile.{Digest, TfileDef, Location, name_len}
use grintorrent.Htable.{Htable, search_htable, add_htable}
use grintorrent.File.Hash.{md5_hash, hash_chunks}

abbrev pub min_size : ℤ
min_size = pos 256

-- Writes the two locations of an entry.
abbrev pub set_locations : Htable → ℕ → Location → Run Htable
set_locations ht i location = do
  tf ← in_bounds (get_elem? ht.table i)
  ok (record ht { table = set ht.table i (record tf { f_location = location; m_location = none }) })

-- `memcpy(tdef->name, name, NAME_LEN)`
abbrev pub copy_name : List ℕ → Run (List ℕ)
copy_name name = if leb name_len (length name) then ok (take name_len name) else fault out_of_bounds

module _ (calloc : ℕ → Bool) (fuel : ℕ) where
  pub add_tfile : Htable → TfileDef → Run (Option ℕ × Htable)
  add_tfile ht tdef = do
    (t, ht') ← add_htable calloc fuel ht tdef
    elim t [
      | none ↦ ok (none, ht')
      | some i ↦ do ht'' ← set_locations ht' i Location.null; ok (some i, ht'')
    ]

  -- The status, what stands in `*tdef` then, and the table.
  pub generate_tfile :
      Md5 → Os → Htable → TfileDef → (file_path name : List ℕ) → Run (ℤ × TfileDef × Htable)
  generate_tfile m os ht tdef file_path name = elim (os.open_read file_path) [
    | none ↦ ok (negsuc 0, tdef, ht)
    | some file ↦ if ltb_ℤ file.st_size min_size then ok (negsuc 0, tdef, ht) else do
      (_, f_hash, p) ← md5_hash m file.read 0 (pos 0) file.st_size tdef.f_hash
      let hashed = record tdef { f_hash = f_hash }
      found ← search_htable ht f_hash
      elim found [
        | some i ↦ ok (negsuc 0, hashed, ht)
        | none ↦ do
          c_hashes ← hash_chunks m file.read p file.st_size tdef.c_hashes
          copied ← copy_name name
          let new = record hashed { size = file.st_size; c_hashes = c_hashes; name = copied }
          (t, ht') ← add_htable calloc fuel ht new
          i ← deref t
          ht'' ← set_locations ht' i (Location.heap file_path)
          ok (pos 0, new, ht'')
      ]
  ]
