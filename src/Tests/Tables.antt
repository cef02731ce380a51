-- ===== src/Tests/Tables.antt =====
-- The theorems on the table.
use grintorrent.Base.{
  ℕ, zero, suc, ◌*◌, ◌≤◌, ◌<◌, ◌≡◌, ◌≢◌, refl, Bool, true, some, none, [], ◌∷◌, arith, ok, fault,
  out_of_fuel, out_of_bounds,
}
use grintorrent.Base.Int.{pos}
use grintorrent.Tfile.{Digest, TfileDef, Tfile, blank}
use grintorrent.Htable.{Htable, home, write_def, search_htable, add_htable, resize_htable, prefix16}
use grintorrent.Htable.Probe.{key, Occupied}
use grintorrent.Htable.Invariant.{IsValid, Absent, vacancy, occupied}
use grintorrent.Htable.Insert.{add_htable_inserts, add_htable_overruns}
use grintorrent.Htable.Resize.{resize_htable_diverges, resize_htable_forgets}
use grintorrent.File.Listing.Laws.{Blanks}
use grintorrent.Tests.Data.{
  digest_of, def_of, no_files, no_files-IsValid, no_files-Absent, one_file, one_file-IsValid,
  nonzero, other_digest, mapped_file,
}

abbrev memory : ℕ → Bool
memory n = true

abbrev entry_of : ℕ → Tfile
entry_of h1 = record blank { tdef = def_of (digest_of h1) 256 }

abbrev new_def : TfileDef
new_def = def_of (digest_of 7) 256

-- The first empty entry from home 3 is entry 3.
free_at_3 : vacancy no_files.table (home no_files new_def.f_hash) ≡ some 3
unfolding vacancy home
free_at_3 = refl

add_htable_inserts_example :
    (add_htable memory 1 no_files new_def ≡ ok (some 3, write_def no_files 3 new_def))
    × IsValid (write_def no_files 3 new_def)
    × (search_htable (write_def no_files 3 new_def) new_def.f_hash ≡ ok (some 3))
    × ((j : ℕ)
        → Occupied no_files j
        → search_htable (write_def no_files 3 new_def) (key no_files j) ≡ ok (some j))
add_htable_inserts_example =
    add_htable_inserts memory 0 new_def 3 no_files-IsValid (omega arith)
      (nonzero new_def.f_hash refl) (no_files-Absent new_def.f_hash) free_at_3

-- A table with one file in its last entry.
abbrev last_used : Htable
last_used = write_def no_files 3 new_def

last_used-IsValid : IsValid last_used
last_used-IsValid =
    (add_htable_inserts memory 0 new_def 3 no_files-IsValid (omega arith)
      (nonzero new_def.f_hash refl) (no_files-Absent new_def.f_hash) free_at_3).1

abbrev next_def : TfileDef
next_def = def_of (digest_of 11) 256

last_used-Absent : Absent last_used next_def.f_hash
unfolding write_def
last_used-Absent zero occ = absurd (occ refl)
last_used-Absent (suc zero) occ = absurd (occ refl)
last_used-Absent (suc (suc zero)) occ = absurd (occ refl)
last_used-Absent (suc (suc (suc zero))) occ = other_digest new_def.f_hash next_def.f_hash refl
last_used-Absent (suc (suc (suc (suc i)))) occ = absurd (occ refl)

last_used-Occupied :
    (j : ℕ) → home last_used next_def.f_hash ≤ j → j < last_used.capacity → Occupied last_used j
unfolding write_def home
last_used-Occupied zero lo hi = absurd (omega (arith, lo))
last_used-Occupied (suc zero) lo hi = absurd (omega (arith, lo))
last_used-Occupied (suc (suc zero)) lo hi = absurd (omega (arith, lo))
last_used-Occupied (suc (suc (suc zero))) lo hi = nonzero new_def.f_hash refl
last_used-Occupied (suc (suc (suc (suc i)))) lo hi = absurd (omega (arith, hi))

last_used_room : last_used.size * 2 ≤ last_used.capacity
unfolding write_def
last_used_room = omega arith

add_htable_overruns_example : add_htable memory 1 last_used next_def ≡ fault out_of_bounds
add_htable_overruns_example =
    add_htable_overruns memory 0 next_def last_used-IsValid last_used_room last_used-Absent
      last_used-Occupied

-- Three of four entries are in use.
abbrev three_files : Htable
three_files = record {
  capacity = 4;
  size = 3;
  table = blank ∷ entry_of 1 ∷ entry_of 2 ∷ entry_of 3 ∷ [];
}

resize_htable_diverges_example :
    (add_htable memory 100 three_files new_def ≡ out_of_fuel)
    × (resize_htable memory 100 three_files ≡ out_of_fuel)
resize_htable_diverges_example =
    resize_htable_diverges memory three_files refl refl 0 (omega arith) refl (omega arith)
      (omega arith) 100 new_def

-- Both entries are in use.
abbrev two_files : Htable
two_files = record { capacity = 2; size = 2; table = entry_of 2 ∷ entry_of 1 ∷ [] }

two_files_prefix : (i : ℕ) → i < two_files.capacity → prefix16 (key two_files i) ≢ 0
two_files_prefix zero lt e = absurd (omega (arith, e))
two_files_prefix (suc zero) lt e = absurd (omega (arith, e))
two_files_prefix (suc (suc i)) lt e = absurd (omega (arith, lt))

resize_htable_forgets_example :
    (ht' : Htable) × (resize_htable memory 3 two_files ≡ ok (pos 1, ht'))
    × (ht'.size ≡ 2)
    × (ht'.capacity ≡ 2 * 2)
    × ((h : Digest) → search_htable ht' h ≡ ok none)
resize_htable_forgets_example =
    resize_htable_forgets memory two_files refl (omega arith) (omega arith) refl two_files_prefix 3
      (omega arith)

mapped-IsValid : IsValid (one_file mapped_file)
unfolding occupied home
mapped-IsValid = one_file-IsValid mapped_file refl refl

mapped-Blanks : Blanks (one_file mapped_file)
mapped-Blanks zero e = refl
mapped-Blanks (suc zero) e = absurd (nonzero mapped_file.tdef.f_hash refl e)
mapped-Blanks (suc (suc zero)) e = refl
mapped-Blanks (suc (suc (suc zero))) e = refl
mapped-Blanks (suc (suc (suc (suc i)))) e = refl
