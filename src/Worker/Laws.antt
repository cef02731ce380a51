-- ===== src/Worker/Laws.antt =====
-- What the TFILE_DEF and the REQUEST_FILE_DATA branches do.
use grintorrent.Base.{
  ℕ, suc, ◌+◌, ◌*◌, ◌^◌, ◌≤◌, ◌<◌, ◌≡◌, ◌≢◌, refl, true, false, Option, some, List, [], ◌∷◌, ◌++◌,
  arith, Bool, length, get_or, ok,
}
use grintorrent.Base.Int.{ℤ, pos}
use grintorrent.System.{Md5, Os}
use grintorrent.Tfile.{Digest, TfileDef, blank, num_chunks, zero_digest}
use grintorrent.Htable.{Htable, home, write_def, add_htable}
use grintorrent.Htable.Probe.{key}
use grintorrent.Htable.Invariant.{IsValid, Absent, vacancy}
use grintorrent.Htable.Insert.{add_htable_inserts}
use grintorrent.File.Chunks.{chunk, chunk_len}
use grintorrent.File.Verify.Entry.{matches}
use grintorrent.File.Verify.Table.{verify_tfile-mapped}
use grintorrent.Message.{Kernel, info_size, encode_info}
use grintorrent.Message.Send.{Progresses}
use grintorrent.Peers.{Peers}
use grintorrent.Peers.Add.{fds}
use grintorrent.Peers.Add as Add
use grintorrent.Share.{tfile_info}
use grintorrent.Share.Laws.{others, to_each, share_tfile_to_peers-Progresses}
use grintorrent.Share.Wire.{encode_def, IsDef, decode_def-encode_def}
use grintorrent.Transfer.{data_info}
use grintorrent.Transfer.Laws.{send_chunk_message_lem}
use grintorrent.Transfer.Payload.{payload_size, encode_payload}
use grintorrent.Worker.{receive_tfile_def, receive_request}
use grintorrent.Worker.Request.{
  ChunkRequest, encode_request, IsRequest, decode_request-encode_request,
}

-- A TFILE_DEF message is sent to every peer but the one that it came from, whether `add_htable` took
-- the definition or not.
pub receive_tfile_def_forwards :
    (calloc : ℕ → Bool) (fuel : ℕ) (write : ℕ → Kernel) (padding : List ℕ) (ht ht' : Htable)
    (peers : Peers) (server_fd : ℤ) (t : TfileDef) (rest : List ℕ) (o : Option ℕ)
    → add_htable calloc fuel ht t ≡ ok (o, ht')
    → IsDef t
    → Add.IsValid peers
    → ((k : ℕ) → Progresses (write k))
    → ((k : ℕ) → write k 0 info_size ≡ pos info_size)
    → receive_tfile_def calloc fuel write padding ht peers server_fd (encode_def t ++ rest)
      ≡ ok (
        ht',
        record peers { locked = false },
        to_each (encode_info padding tfile_info ++ encode_def t) (others server_fd (fds peers)),
      )
unfolding receive_tfile_def
receive_tfile_def_forwards calloc fuel write padding ht ht' peers server_fd t rest o added def w up
      header =
    rw
      (
        decode_def-encode_def t rest def,
        added,
        share_tfile_to_peers-Progresses write padding peers t server_fd w def up header,
      )
      refl

-- When a TFILE_DEF message brings a definition whose fields have the sizes of the C types and whose
-- non-zero digest is not in the valid table with room and has an empty entry at or behind its home,
-- the branch of readWorker puts it into that entry and sends it to every peer but the one that it
-- came from, while the connections are up.
pub receive_tfile_def_lem :
    (calloc : ℕ → Bool) (f : ℕ) (write : ℕ → Kernel) (padding : List ℕ) {ht : Htable}
    (peers : Peers) (server_fd : ℤ) (t : TfileDef) (rest : List ℕ) (i : ℕ)
    → IsValid ht
    → ht.size * 2 ≤ ht.capacity
    → t.f_hash ≢ zero_digest
    → Absent ht t.f_hash
    → vacancy ht.table (home ht t.f_hash) ≡ some i
    → IsDef t
    → Add.IsValid peers
    → ((k : ℕ) → Progresses (write k))
    → ((k : ℕ) → write k 0 info_size ≡ pos info_size)
    → receive_tfile_def calloc (suc f) write padding ht peers server_fd (encode_def t ++ rest)
      ≡ ok (
        write_def ht i t,
        record peers { locked = false },
        to_each (encode_info padding tfile_info ++ encode_def t) (others server_fd (fds peers)),
      )
receive_tfile_def_lem calloc f write padding {ht} peers server_fd t rest i v room nz absent free def
      w up header =
    receive_tfile_def_forwards calloc (suc f) write padding ht (write_def ht i t) peers server_fd t
      rest (some i) (add_htable_inserts calloc f t i v room nz absent free).0 def w up header

-- When a valid table has a file that is mapped with its size, of at least eight and fewer than 2^32
-- bytes, of which a chunk or the whole matches its hash, and a REQUEST_FILE_DATA message asks for
-- that chunk, the branch of readWorker connects to the return address and sends the message with
-- exactly that chunk there, when it can connect, has memory and the connection stays up.
pub receive_request_lem :
    (m : Md5) (os : Os) (malloc : ℕ → Bool) (connect : List ℕ → ℕ → Option ℤ) (write : ℕ → Kernel)
    (padding : List ℕ) {ht : Htable} (peers : Peers) (client_fd out_fd : ℤ) (req : ChunkRequest)
    (rest : List ℕ) (hash : Digest) (hashes : List Digest) (i c : ℕ) (bytes : List ℕ)
    → IsValid ht
    → IsRequest req
    → req.file_hash ≢ zero_digest
    → key ht i ≡ req.file_hash
    → req.chunk_index ≡ pos c
    → c < num_chunks
    → (get_or ht.table i blank).m_location ≡ some bytes
    → (get_or ht.table i blank).tdef.size ≡ pos (length bytes)
    → num_chunks ≤ length bytes
    → length bytes < 2 ^ 32
    → length hashes ≡ num_chunks
    → matches m (get_or ht.table i blank).tdef bytes (length bytes) c ≡ true
    → connect req.return_addr req.return_addr_len ≡ some out_fd
    → malloc (payload_size + chunk_len (length bytes) c) ≡ true
    → Progresses (write 0)
    → write 0 0 info_size ≡ pos info_size
    → receive_request m os malloc connect write padding ht peers client_fd
        (encode_request req ++ rest)
        hash
        hashes
      ≡ ok (
        ht,
        peers,
        (
          out_fd,
          encode_info padding (data_info (chunk_len (length bytes) c))
              ++ encode_payload req.file_hash
                  (pos c)
                  (chunk_len (length bytes) c)
                  (chunk bytes (length bytes) c),
        )
            ∷ [],
      )
unfolding receive_request
receive_request_lem m os malloc connect write padding peers client_fd out_fd req rest hash hashes i
      c bytes v r nz e index small mapped size room fits eight hit connected memory up header =
    let (chunks, run, all) =
      verify_tfile-mapped m os v req.file_hash hash hashes i nz e bytes mapped size (omega arith)
        eight in
    rw
      (
        decode_request-encode_request req rest r,
        run,
        index,
        all c small,
        hit,
        connected,
        decode_request-encode_request req rest r,
        index,
        send_chunk_message_lem os v req.file_hash i nz e malloc (write 0) padding c bytes small
            mapped size room fits memory up header,
      )
      refl
