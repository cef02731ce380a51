-- ===== src/Tests/Downloads.antt =====
-- The theorems on `download_file`, on requests that are passed on, and on new connections.
use mathlib.Core.List.{Memᴰ}
use grintorrent.Base.{
  inl, drop, ℕ, zero, suc, ◌<◌, ◌≤◌, ◌≡◌, ◌≢◌, refl, false, some, List, [], ◌∷◌, ◌++◌, arith,
  replicate, ok,
}
use grintorrent.Base.Int.{pos}
use grintorrent.Tfile.{Digest, zero_digest, num_chunks, verified_file, unverified_file}
use grintorrent.Htable.{Htable, home}
use grintorrent.Htable.Invariant.{IsValid, occupied, vacancy}
use grintorrent.File.Listing.Laws.{Blanks, listed}
use grintorrent.File.Verify.{is_chunk_verified, verify_tfile}
use grintorrent.File.Verify.Table.{verify_tfile-Absent, verify_tfile-whole}
use grintorrent.Message.{encode_info}
use grintorrent.Peers.{Peers}
use grintorrent.Peers.Add as Add
use grintorrent.Share.Files.{AreDefs, defs_to}
use grintorrent.Share.Laws.{others, to_each}
use grintorrent.Share.{Sent}
use grintorrent.Worker.{request_info}
use grintorrent.Worker.Connect.{connect_worker}
use grintorrent.Worker.Connect.Laws.{Accepted, IsListed, welcomes, connect_worker-joins}
use grintorrent.Worker.Download.{download_loop}
use grintorrent.Worker.Download.Laws.{rounds, download_loop-rounds}
use grintorrent.Worker.Read.{goes_on, read_worker}
use grintorrent.Worker.Read.Relays.{read_worker_relays}
use grintorrent.Worker.Request.{ChunkRequest, IsRequest, request_size, encode_request}
use grintorrent.Tests.Transfers.{round, round-IsUp, state}
use grintorrent.Tests.Data.{
  no_files, no_files-IsValid, no_files-Absent, one_file, one_file-IsValid, nonzero, sum_md5,
  sum_md5_laws, content, content_def, content_def-IsDef, regular, regular-Reads, system, path,
  mapped_file, file_at_path, sixteen, sixteen-Progresses, padding, content-IsDigest, three_peers,
  three_peers-IsValid,
}

abbrev digest : Digest
digest = content_def.f_hash

digest_nonzero : digest ≢ zero_digest
digest_nonzero = nonzero digest refl

abbrev empty_hashes : List Digest
empty_hashes = replicate num_chunks zero_digest

free_at_1 : vacancy no_files.table (home no_files digest) ≡ some 1
unfolding vacancy home
free_at_1 = refl

at_path-IsValid : IsValid (one_file file_at_path)
unfolding occupied home
at_path-IsValid = one_file-IsValid file_at_path refl refl

-- The file is there from the second round on.
abbrev arriving : ℕ → Htable
arriving zero = no_files
arriving (suc k) = one_file file_at_path

abbrev words : ℕ → ℕ
words zero = unverified_file
words (suc k) = verified_file

arriving-words :
    (k : ℕ)
    → verify_tfile sum_md5 (system content) (arriving k) digest zero_digest empty_hashes
      ≡ ok (words k)
arriving-words zero =
    verify_tfile-Absent sum_md5 (system content) no_files-IsValid digest zero_digest empty_hashes 1
      (no_files-Absent digest) free_at_1
arriving-words (suc k) =
    verify_tfile-whole sum_md5 (system content) at_path-IsValid digest zero_digest empty_hashes 1
      digest_nonzero refl sum_md5_laws path content (regular content) refl (inl refl) refl
      (regular-Reads content) refl refl

words_missing : (j : ℕ) → 0 ≤ j → j < 1 → words j ≢ verified_file
words_missing zero lo hi e = absurd (omega (arith, e))
words_missing (suc j) lo hi e = absurd (omega arith)

abbrev address : List ℕ
address = replicate 16 1

download_loop-rounds_example :
    download_loop sum_md5
      (system content)
      (λ k i j. sixteen)
      padding
      arriving
      (λ k. three_peers)
      digest
      address
      zero_digest
      empty_hashes
      2
      0
      []
    ≡ ok (1, rounds padding digest address (λ k. three_peers) words 1 0)
download_loop-rounds_example =
    download_loop-rounds padding digest address refl sum_md5 (system content) (λ k i j. sixteen)
      arriving (λ k. three_peers) zero_digest empty_hashes words (λ k. three_peers-IsValid)
      (λ k i j. sixteen-Progresses) (λ k i j. refl) 1 2 0 [] (omega arith)
      (λ j lo hi. arriving-words j) words_missing refl

none_verified : is_chunk_verified unverified_file (pos 3) ≡ false
unfolding is_chunk_verified
none_verified = refl

abbrev request : ChunkRequest
request = record {
  file_hash = digest;
  chunk_index = pos 3;
  return_addr = address;
  return_addr_len = 16;
  ttl = 5;
}

asks : IsRequest request
asks = record {
  hashed = content-IsDigest;
  index = (omega arith, omega arith);
  addressed = refl;
  counted = omega arith;
}

read_worker_relays_example :
    (sent : Sent) × (read_worker sum_md5
        (pos 6 ∷ pos 5 ∷ [])
        (round ∷ [])
        (record (state no_files) {
          stream = encode_info padding request_info ++ (encode_request request ++ (4 ∷ []));
        })
      ≡ ok (
          goes_on (record (state no_files) {
            data_read = encode_request request ++ drop request_size [];
            stream = 4 ∷ [];
            sent = sent;
          })))
    × (sent
        ≡ to_each (encode_info padding request_info ++ encode_request request) (pos 6 ∷ pos 7 ∷ []))
    × Memᴰ (pos 6, encode_info padding request_info ++ encode_request request) sent
unfolding others
read_worker_relays_example =
    read_worker_relays sum_md5 round round-IsUp (state no_files) padding request (4 ∷ [])
      unverified_file refl asks three_peers-IsValid (arriving-words 0) none_verified (pos 6) (pos 5)
      [] (Memᴰ.tail (Memᴰ.head refl)) (λ e. absurd (cc e))

mapped-IsValid : IsValid (one_file mapped_file)
unfolding occupied home
mapped-IsValid = one_file-IsValid mapped_file refl refl

mapped-Blanks : Blanks (one_file mapped_file)
mapped-Blanks zero e = refl
mapped-Blanks (suc zero) e = absurd (digest_nonzero e)
mapped-Blanks (suc (suc zero)) e = refl
mapped-Blanks (suc (suc (suc zero))) e = refl
mapped-Blanks (suc (suc (suc (suc i)))) e = refl

mapped-IsListed : IsListed (pos 0) padding (one_file mapped_file)
unfolding listed AreDefs
mapped-IsListed = record {
  valid = mapped-IsValid;
  blanks = mapped-Blanks;
  defs = (content_def-IsDef, tt);
}

both-Accepted : Accepted (pos 0) padding (pos 8 ∷ pos 9 ∷ [])
unfolding Accepted
both-Accepted = (refl, (refl, tt))

connect_worker-joins_example :
    (peers' : Peers) × (connect_worker
        (pos 0)
        padding
        (λ k i. sixteen)
        (λ k. one_file mapped_file)
        0
        three_peers
        (pos 8 ∷ pos 9 ∷ [])
      ≡ ok (
        peers',
        defs_to padding (pos 8) (content_def ∷ []) ++ defs_to padding (pos 9) (content_def ∷ []),
        pos 8 ∷ pos 9 ∷ [],
      ))
    × Add.IsValid peers'
    × (Add.fds peers' ≡ Add.fds three_peers ++ (pos 8 ∷ pos 9 ∷ []))
unfolding welcomes listed defs_to
connect_worker-joins_example =
    connect_worker-joins (pos 0) padding (λ k i. sixteen) (λ k. one_file mapped_file)
      (λ k i. sixteen-Progresses) (λ k i. refl) (λ k. mapped-IsListed) (pos 8 ∷ pos 9 ∷ []) 0
      three_peers both-Accepted three_peers-IsValid (omega arith)
