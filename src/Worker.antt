-- ===== src/Worker.antt =====
-- The TFILE_DEF and REQUEST_FILE_DATA branches of `readWorker` and the rounds of `download_file` in
-- src/client.c. A thread that a branch starts is run to its end.
pub mod Request
pub mod Laws
pub mod Download
pub mod Connect
pub mod Read
pub mod Relay
pub mod SelfAddress
use grintorrent.Base.{
  ℕ, zero, suc, ◌+◌, Bool, true, false, Option, none, some, List, [], ◌∷◌, ◌++◌, if◌then◌else◌,
  ◌==◌, get_elem?, Run, ok, out_of_fuel, ◌>>=◌, in_bounds,
}
use grintorrent.Base.Int.{ℤ, pos, eqb_ℤ}
use grintorrent.System.{Md5, Os}
use grintorrent.Tfile.{Digest, num_chunks, verified_file}
use grintorrent.Htable.{Htable, add_htable}
use grintorrent.File.Verify.{is_chunk_verified, verify_tfile}
use grintorrent.File.Open.{save_tfile}
use grintorrent.Message.{Kernel, MessageInfo, request_file_data, send_message}
use grintorrent.Peers.{Peers, lock, unlock}
use grintorrent.Share.{Sent, share_tfile_to_peers}
use grintorrent.Share.Wire.{decode_def}
use grintorrent.Transfer.{send_chunk_message}
use grintorrent.Worker.Request.{ChunkRequest, request_size, encode_request, decode_request}

-- The TFILE_DEF branch, over the buffer `data_read`, with the thread that shares the definition.
pub receive_tfile_def :
    (calloc : ℕ → Bool) (fuel : ℕ) (write : ℕ → Kernel) (padding : List ℕ)
    → Htable
    → Peers
    → (server_fd : ℤ) → (data_read : List ℕ) → Run (Htable × Peers × Sent)
receive_tfile_def calloc fuel write padding ht peers server_fd data_read =
    let new_tfile = decode_def data_read in
    do
      (t, ht') ← add_htable calloc fuel ht new_tfile
      (peers', sent) ← share_tfile_to_peers write padding peers new_tfile server_fd
      ok (ht', peers', sent)

abbrev pub request_info : MessageInfo
request_info = record { type = request_file_data; size = request_size }

-- The system's answers for the peer at an index.
module _ (write : ℕ → Kernel) (padding : List ℕ) where
  -- `for (int i = 0; i < peers.size; i++)` of the REQUEST_FILE_DATA branch, with the rounds left, over
  -- the `client_fd` of the thread's argument. No status is looked at.
  pub relay_loop : List ℤ → ℤ → List ℕ → ℕ → ℕ → Sent → Run Sent
  relay_loop arr client_fd bytes zero i sent = ok sent
  relay_loop arr client_fd bytes (suc k) i sent =
      let skip = relay_loop arr client_fd bytes k (i + 1) sent in
      do
        fd ← in_bounds (get_elem? arr i)
        if eqb_ℤ fd client_fd then skip else (do
          (status, out) ← send_message (write i) padding request_info (some bytes)
          relay_loop arr client_fd bytes k (i + 1) (sent ++ (fd, out) ∷ []))

  -- The loop over the peers of `download_file`
  pub ask_loop : List ℤ → List ℕ → ℕ → ℕ → Sent → Run Sent
  ask_loop arr bytes zero i sent = ok sent
  ask_loop arr bytes (suc k) i sent = do
    fd ← in_bounds (get_elem? arr i)
    (status, out) ← send_message (write i) padding request_info (some bytes)
    ask_loop arr bytes k (i + 1) (sent ++ (fd, out) ∷ [])

-- The REQUEST_FILE_DATA branch, over the `client_fd` of the thread's argument, which need not be the
-- socket that the request came from. `connect` is what `socket_connect_addr` returns, `none` for -1, and
-- `hash` and `hashes` are what the stack of `verify_tfile` holds.
pub receive_request :
    Md5
    → Os
    → (malloc : ℕ → Bool) (connect : List ℕ → ℕ → Option ℤ) (write : ℕ → Kernel) (padding : List ℕ)
    → Htable
    → Peers
    → (client_fd : ℤ) → (data_read : List ℕ) → (hash : Digest) (hashes : List Digest)
    → Run (Htable × Peers × Sent)
receive_request m os malloc connect write padding ht peers client_fd data_read hash hashes =
    let req = decode_request data_read in
    do
      chunks ← verify_tfile m os ht req.file_hash hash hashes
      if is_chunk_verified chunks req.chunk_index
          then elim (connect req.return_addr req.return_addr_len) [
            | none ↦ ok (ht, peers, [])
            | some out_fd ↦ do
              (status, out, ht') ←
                  send_chunk_message os malloc (write 0) padding ht req.file_hash req.chunk_index
              ok (ht', peers, (out_fd, out) ∷ [])
          ]
          else (do
            held ← lock peers
            sent ← relay_loop write padding held.arr client_fd (encode_request req) held.size 0 []
            ok (ht, unlock held, sent))

-- The answers for the chunk and the peer at two indices.
module _ (write : ℕ → ℕ → Kernel) (padding : List ℕ) where
  -- `for (int i = 0; i < NUM_CHUNKS; i++)` of `download_file`, with the rounds left
  pub request_loop :
      Peers → Digest → (return_addr : List ℕ) → (chunks : ℕ) → ℕ → ℕ → Sent → Run (Peers × Sent)
  request_loop peers file_hash return_addr chunks zero i sent = ok (peers, sent)
  request_loop peers file_hash return_addr chunks (suc k) i sent =
      let skip = request_loop peers file_hash return_addr chunks k (i + 1) sent in
      if is_chunk_verified chunks (pos i) then skip else (do
        held ← lock peers
        sent' ←
            ask_loop (write i) padding held.arr
              (encode_request (record {
                file_hash = file_hash;
                chunk_index = pos i;
                return_addr = return_addr;
                return_addr_len = 16;
                ttl = 5;
              }))
              held.size 0 sent
        request_loop (unlock held) file_hash return_addr chunks k (i + 1) sent')
