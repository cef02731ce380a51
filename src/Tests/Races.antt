-- ===== src/Tests/Races.antt =====
-- The theorems on threads that add files to one table.
use grintorrent.Base.{ℕ, ◌+◌, ◌≡◌, ◌≢◌, refl, sym, some, [], ◌∷◌, ◌==◌, if◌then◌else◌, arith, ok}
use grintorrent.Tfile.{TfileDef}
use grintorrent.Htable.{home}
use grintorrent.Htable.Probe.{key}
use grintorrent.Htable.Invariant.{vacancy}
use grintorrent.Htable.Threads.{looks, returns, SharedTable, schedule}
use grintorrent.Htable.Threads.Laws.{add_htable-races}
use grintorrent.Tests.Transfers.{digest_nonzero}
use grintorrent.Tests.Data.{
  no_files, no_files-IsValid, no_files-Absent, content_def, def_of, digest_of, other_digest,
}

-- Another file with the same home
abbrev pub other_def : TfileDef
other_def = def_of (digest_of 5) 9

abbrev two_readers : SharedTable
two_readers = record {
  ht = no_files;
  phase = λ k. if k == 0 then looks content_def else looks other_def;
}

add_htable-races_example :
    (s' : SharedTable) × (schedule (0 ∷ 1 ∷ 0 ∷ 1 ∷ []) two_readers ≡ ok s')
    × (s'.phase 0 ≡ returns (some 1))
    × (s'.phase 1 ≡ returns (some 1))
    × ((j : ℕ) → key s'.ht j ≢ content_def.f_hash)
    × (s'.ht.size ≡ 0 + 2)
unfolding vacancy home
add_htable-races_example =
    add_htable-races two_readers 0 1 content_def other_def 1 no_files-IsValid
      (λ e. absurd (omega (arith, e))) digest_nonzero
      (λ e. other_digest (digest_of 5) content_def.f_hash refl (sym e))
      (no_files-Absent content_def.f_hash) (no_files-Absent other_def.f_hash) refl refl refl refl
      (omega arith)

-- A file with the home behind
abbrev next_def : TfileDef
next_def = def_of (digest_of 6) 9

abbrev two_homes : SharedTable
two_homes = record {
  ht = no_files;
  phase = λ k. if k == 0 then looks content_def else looks next_def;
}
