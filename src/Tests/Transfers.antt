-- ===== src/Tests/Transfers.antt =====
-- The theorems on `readWorker`, and a chunk from peer to peer.
use grintorrent.Base.{
  ℕ, ◌≡◌, ◌≢◌, refl, Bool, true, some, List, [], ◌∷◌, ◌++◌, arith, replicate, length-replicate,
  drop, ok, fault, out_of_bounds,
}
use grintorrent.Base.Int.{pos}
use grintorrent.Tfile.{Digest, Tfile, Location, zero_digest, num_chunks}
use grintorrent.Htable.{Htable, home, write_def}
use grintorrent.Htable.Invariant.{IsValid, occupied, vacancy}
use grintorrent.File.Verify.{is_chunk_verified, verify_tfile}
use grintorrent.Message.{MessageInfo, encode_info, success}
use grintorrent.Share.{tfile_info}
use grintorrent.Share.Laws.{others, to_each}
use grintorrent.Share.Wire.{def_size, encode_def}
use grintorrent.Transfer.{send_chunk_message}
use grintorrent.Worker.Read.{ClientServer, Round, State, goes_on, read_round}
use grintorrent.Worker.Read.Laws.{IsUp, read_round_defines, read_round_overruns}
use grintorrent.Worker.Read.Exchange.{exchange-verified}
use grintorrent.Tests.Data.{
  no_files, no_files-IsValid, no_files-Absent, one_file, one_file-IsValid, nonzero, sum_md5,
  content, content_def, system, mapped_file, sixteen, sixteen-Progresses, padding, content-IsDigest,
  content_def-IsDef, three_peers, three_peers-IsValid, local_net,
}

abbrev memory : ℕ → Bool
memory n = true

abbrev pub digest : Digest
digest = content_def.f_hash

pub digest_nonzero : digest ≢ zero_digest
digest_nonzero = nonzero digest refl

pub mapped-IsValid : IsValid (one_file mapped_file)
unfolding occupied home
mapped-IsValid = one_file-IsValid mapped_file refl refl

-- A file of which nothing is there yet, and whose chunks are known.
abbrev blank_bytes : List ℕ
blank_bytes = replicate 256 0

abbrev wanted : Tfile
wanted = record {
  tdef = record content_def { c_hashes = replicate num_chunks (sum_md5.md5 (replicate 32 3)) };
  f_location = Location.null;
  m_location = some blank_bytes;
}

wanted-IsValid : IsValid (one_file wanted)
unfolding occupied home
wanted-IsValid = one_file-IsValid wanted refl refl

abbrev pub connection : ClientServer
connection = record { server_fd = pos 6; client_fd = pos 6 }

abbrev pub round : Round
round = record {
  peek = sixteen;
  read = sixteen;
  discard_fuel = 1;
  add_fuel = 1;
  os = system content;
  net = local_net;
  calloc = memory;
  malloc = memory;
  connect = λ a n. some (pos 9);
  write = λ k. sixteen;
  padding = padding;
  addr_len = 0;
  hash = zero_digest;
  hashes = replicate num_chunks zero_digest;
}

pub round-IsUp : IsUp round
round-IsUp = record {
  peeks = refl;
  reads = sixteen-Progresses;
  header = refl;
  writes = λ k. sixteen-Progresses;
  headers = λ k. refl;
}

abbrev pub state : Htable → State
state ht = record { ht = ht; peers = three_peers; data_read = []; stream = []; sent = [] }

free_at_1 : vacancy no_files.table (home no_files content_def.f_hash) ≡ some 1
unfolding vacancy home
free_at_1 = refl

read_round_defines_example :
    read_round sum_md5 connection round (record (state no_files) {
      stream = encode_info padding tfile_info ++ (encode_def content_def ++ (9 ∷ []));
    })
    ≡ ok (
        goes_on (record {
          ht = write_def no_files 1 content_def;
          peers = three_peers;
          data_read = encode_def content_def ++ drop def_size [];
          stream = 9 ∷ [];
          sent =
              to_each
                (encode_info padding tfile_info ++ encode_def content_def)
                (pos 5 ∷ pos 7 ∷ []);
        }))
unfolding others
read_round_defines_example =
    read_round_defines sum_md5 connection round round-IsUp (state no_files) padding (9 ∷ []) 0
      content_def 1 refl content_def-IsDef refl no_files-IsValid (omega arith) digest_nonzero
      (no_files-Absent digest) free_at_1 three_peers-IsValid

abbrev long_info : MessageInfo
long_info = record { type = 7; size = 100001 }

read_round_overruns_example :
    read_round sum_md5 connection round
      (record (state no_files) { stream = encode_info padding long_info ++ replicate 100001 0 })
    ≡ fault out_of_bounds
read_round_overruns_example =
    read_round_overruns sum_md5 connection round round-IsUp (state no_files) padding
      (replicate 100001 0) long_info refl (omega arith)
      (omega (arith, length-replicate {A = ℕ} 100001 0)) (omega arith)

exchange-verified_example :
    (sent : List ℕ) × (s' : State) × (w : ℕ) × (send_chunk_message
        (system content)
        memory
        sixteen
        padding
        (one_file mapped_file)
        digest
        (pos 1)
      ≡ ok (success, sent, one_file mapped_file))
    × (read_round sum_md5 connection round
          (record (state (one_file wanted)) { stream = sent ++ (4 ∷ []) })
        ≡ ok (goes_on s'))
    × (s'.stream ≡ 4 ∷ [])
    × (verify_tfile sum_md5
          (system content)
          s'.ht
          digest
          zero_digest
          (replicate num_chunks zero_digest)
        ≡ ok w)
    × (is_chunk_verified w (pos 1) ≡ true)
exchange-verified_example =
    exchange-verified sum_md5 digest digest_nonzero content-IsDigest 1 (omega arith)
      (system content) memory sixteen padding (one_file mapped_file) 1 content connection round
      (state (one_file wanted)) 1 blank_bytes (4 ∷ [])
      (record { valid = mapped-IsValid; found = refl; mapped = refl; sized = refl }) (omega arith)
      (omega arith) refl sixteen-Progresses refl refl (omega arith) round-IsUp
      (record { valid = wanted-IsValid; found = refl; mapped = refl; sized = refl }) refl refl refl
      refl
