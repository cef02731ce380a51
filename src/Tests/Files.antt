-- ===== src/Tests/Files.antt =====
-- The theorems on files.
use grintorrent.Base.{
  ℕ, ◌/◌, ◌≡◌, ◌≢◌, refl, inl, Bool, true, some, none, List, arith, replicate, ok, fault,
  out_of_bounds,
}
use grintorrent.Base.Int.{pos, negsuc}
use grintorrent.Tfile.{
  Digest, TfileDef, Location, blank_def, num_chunks, name_len, zero_digest, verified_file,
}
use grintorrent.Htable.{Htable, home, write_def}
use grintorrent.Htable.Invariant.{IsValid, vacancy, occupied}
use grintorrent.Htable.Replace.{put}
use grintorrent.File.Chunks.{chunk, filled}
use grintorrent.File.Verify.{region, verify_tfile}
use grintorrent.File.Verify.Entry.{Verifies}
use grintorrent.File.Verify.Table.{verify_tfile-mapped, verify_tfile-file}
use grintorrent.File.Open.{Pointer, open_tfile}
use grintorrent.File.Open.Laws.{open_tfile_negative}
use grintorrent.File.Generate.{generate_tfile}
use grintorrent.File.Generate.Laws.{generate_tfile_lem, generate_tfile-verify_tfile}
use grintorrent.Tests.Data.{
  no_files, no_files-IsValid, no_files-Absent, one_file, one_file-IsValid, nonzero, sum_md5,
  sum_md5_laws, content, path, regular, regular-Reads, system, content_def, mapped_file,
  file_at_path,
}

abbrev memory : ℕ → Bool
memory n = true

abbrev digest : Digest
digest = sum_md5.md5 content

digest_nonzero : digest ≢ zero_digest
digest_nonzero = nonzero digest refl

abbrev empty_hashes : List Digest
empty_hashes = replicate num_chunks zero_digest

mapped-IsValid : IsValid (one_file mapped_file)
unfolding occupied home
mapped-IsValid = one_file-IsValid mapped_file refl refl

at_path-IsValid : IsValid (one_file file_at_path)
unfolding occupied home
at_path-IsValid = one_file-IsValid file_at_path refl refl

free_at_1 : vacancy no_files.table (home no_files digest) ≡ some 1
unfolding vacancy home
free_at_1 = refl

verify_tfile-mapped_example :
    Verifies sum_md5 content_def content 256
      (verify_tfile sum_md5 (system content) (one_file mapped_file) digest zero_digest empty_hashes)
verify_tfile-mapped_example =
    verify_tfile-mapped sum_md5 (system content) mapped-IsValid digest zero_digest empty_hashes 1
      digest_nonzero refl content refl refl (omega arith) refl

verify_tfile-file_example :
    Verifies sum_md5 content_def content 256 (
      verify_tfile sum_md5 (system content) (one_file file_at_path) digest zero_digest empty_hashes)
verify_tfile-file_example =
    verify_tfile-file sum_md5 (system content) at_path-IsValid digest zero_digest empty_hashes 1
      digest_nonzero refl sum_md5_laws path content (regular content) 256 refl (inl refl) refl
      (regular-Reads content) refl refl (omega arith) refl

open_tfile_negative_example :
    (p : Pointer) × (open_tfile (system content) (one_file mapped_file) digest (negsuc 0)
      ≡ ok (pos (256 / num_chunks), some p, one_file mapped_file))
    × (p.slot ≡ 1)
    × ((len : ℕ) → region content p.offset len ≡ fault out_of_bounds)
open_tfile_negative_example =
    open_tfile_negative (system content) mapped-IsValid digest 1 digest_nonzero refl 0 content refl
      refl (omega arith) (omega arith)

abbrev long_name : List ℕ
long_name = replicate name_len 97

abbrev new_def : TfileDef
new_def = record {
  name = long_name;
  f_hash = digest;
  c_hashes = filled (λ i. sum_md5.md5 (chunk content 256 i)) empty_hashes;
  size = pos 256;
}

abbrev with_new : Htable
with_new =
    put (write_def no_files 1 new_def) 1
      (record { tdef = new_def; f_location = Location.heap path; m_location = none })

generate_tfile_lem_example :
    generate_tfile memory 1 sum_md5 (system content) no_files blank_def path long_name
    ≡ ok (pos 0, new_def, with_new)
generate_tfile_lem_example =
    generate_tfile_lem memory 0 sum_md5 (system content) no_files blank_def path long_name
      sum_md5_laws (regular content) content refl (regular-Reads content) refl (omega arith) 1
      no_files-IsValid (omega arith) digest_nonzero (no_files-Absent digest) free_at_1 (omega arith)

generate_tfile-verify_tfile_example :
    (tdef' : TfileDef) × (ht' : Htable) × (generate_tfile memory 1 sum_md5
        (system content)
        no_files
        blank_def
        path
        long_name
      ≡ ok (pos 0, tdef', ht'))
    × IsValid ht'
    × (verify_tfile sum_md5
          (system content)
          ht'
          tdef'.f_hash
          zero_digest
          (replicate num_chunks zero_digest)
        ≡ ok verified_file)
generate_tfile-verify_tfile_example =
    generate_tfile-verify_tfile memory 0 sum_md5 (system content) no_files blank_def path long_name
      sum_md5_laws (regular content) content refl (regular-Reads content) refl (omega arith) 1
      no_files-IsValid (omega arith) digest_nonzero (no_files-Absent digest) free_at_1 (omega arith)
      zero_digest (replicate num_chunks zero_digest)
