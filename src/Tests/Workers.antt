-- ===== src/Tests/Workers.antt =====
-- The theorems on the branches of `readWorker`.
use grintorrent.Base.{ℕ, ◌≡◌, refl, Bool, true, some, replicate}
use grintorrent.Base.Int.{pos}
use grintorrent.Htable.{home}
use grintorrent.Htable.Invariant.{IsValid, vacancy, occupied}
use grintorrent.Worker.Request.{ChunkRequest}
use grintorrent.Tests.Data.{no_files, one_file, one_file-IsValid, content_def, mapped_file}

abbrev memory : ℕ → Bool
memory n = true

free_at_1 : vacancy no_files.table (home no_files content_def.f_hash) ≡ some 1
unfolding vacancy home
free_at_1 = refl

abbrev request : ChunkRequest
request = record {
  file_hash = content_def.f_hash;
  chunk_index = pos 3;
  return_addr = replicate 16 1;
  return_addr_len = 16;
  ttl = 5;
}

mapped-IsValid : IsValid (one_file mapped_file)
unfolding occupied home
mapped-IsValid = one_file-IsValid mapped_file refl refl
