-- ===== src/File/Listing.antt =====
-- `list_tfiles`: the definitions of the table's entries.
pub mod Laws
use grintorrent.Base.{
  ℕ, zero, suc, ◌+◌, ◌&&◌, Option, List, [], ◌∷◌, ◌++◌, if◌then◌else◌, get_elem?, length, ltb, Run,
  ok, ◌>>=◌, in_bounds,
}
use grintorrent.Base.Int.{ℤ, pos, ltb_ℤ}
use grintorrent.Tfile.{TfileDef, Tfile}
use grintorrent.Htable.{Htable}

-- `for (int i = 0; i < ht->capacity && j < ht->size; i++)`, with the rounds left. The list is what
-- stands in `*tf_list[0..j)`.
pub list_loop : Htable → ℕ → ℕ → ℕ → List TfileDef → Run (List TfileDef)
list_loop ht zero i j listed = ok listed
list_loop ht (suc k) i j listed =
    let next = (do
      tf ← in_bounds (get_elem? ht.table i)
      let more = ltb_ℤ (pos 0) tf.tdef.size
      list_loop ht k (i + 1) (if more then j + 1 else j)
          (if more then listed ++ tf.tdef ∷ [] else listed)) in
    if ltb i ht.capacity && ltb j ht.size then next else ok listed

-- The count that it returns is the length of the list.
pub list_tfiles : Htable → Run (List TfileDef)
list_tfiles ht = list_loop ht ht.capacity 0 0 []
