-- ===== src/Worker/Read/Exchange.antt =====
-- A chunk on its way from the mapping of one peer, by `send_chunk_message`, to the mapping of another,
-- by `readWorker`.
use mathlib.Core.List.{append_assoc}
use grintorrent.Base.{
  ℕ, ◌+◌, ◌^◌, ◌≤◌, ◌<◌, ◌≡◌, ◌≢◌, refl, sym, ◌∙◌, ap, subst, Bool, true, false, some, List, ◌++◌,
  arith, length, drop, get_or, ok,
}
use grintorrent.Base.Int.{pos}
use grintorrent.System.{Md5, Os}
use grintorrent.Tfile.{Digest, blank, num_chunks, zero_digest, same_digest}
use grintorrent.Htable.{Htable}
use grintorrent.Htable.Probe.{key}
use grintorrent.Htable.Invariant.{IsValid}
use grintorrent.File.Chunks.{chunk, chunk_len}
use grintorrent.File.Verify.{is_chunk_verified, verify_tfile}
use grintorrent.File.Verify.Entry.{matches}
use grintorrent.Message.{Kernel, info_size, encode_info, success}
use grintorrent.Message.Send.{Progresses}
use grintorrent.Message.Receive.{receive_message-Progresses}
use grintorrent.Message.Incoming.{incoming_message_info_lem}
use grintorrent.Share.Wire.{IsDigest}
use grintorrent.Transfer.{data_info, send_chunk_message}
use grintorrent.Transfer.Laws.{length-chunk, send_chunk_message_lem}
use grintorrent.Transfer.Receive.{receive_file_data-verified}
use grintorrent.Transfer.Payload.{payload_size, encode_payload, length-encode_payload}
use grintorrent.Worker.Read.{
  ClientServer, message_size, Round, State, goes_on, dispatch, read_round,
}
use grintorrent.Worker.Read.Laws.{IsUp}

-- The file at an entry, mapped as some bytes with its size.
pub record IsMapped (ht : Htable) (d : Digest) (i : ℕ) (bytes : List ℕ) : Type 0 where
  pub valid : IsValid ht
  pub found : key ht i ≡ d
  pub mapped : (get_or ht.table i blank).m_location ≡ some bytes
  pub sized : (get_or ht.table i blank).tdef.size ≡ pos (length bytes)

module _ (m : Md5) (d : Digest) (nz : d ≢ zero_digest) (two : IsDigest d) (c : ℕ)
    (small : c < num_chunks) where
  -- A FILE_DATA message of a chunk that has its hash.
  read_round-verified :
      (fd_data : ClientServer) (r : Round) (s : State) (i : ℕ)
      (bytes chunk_data padding rest : List ℕ)
      → IsUp r
      → IsMapped s.ht d i bytes
      → length bytes < 2 ^ 32
      → length chunk_data ≡ chunk_len (length bytes) c
      → payload_size + length chunk_data ≤ message_size
      → length padding ≡ 7
      → length r.hashes ≡ num_chunks
      → matches m (get_or s.ht.table i blank).tdef bytes (length bytes) c ≡ false
      → same_digest
          (m.md5 chunk_data)
          (get_or (get_or s.ht.table i blank).tdef.c_hashes c zero_digest)
        ≡ true
      → (s' : State) × (w : ℕ) × (read_round m fd_data r (record s {
        stream =
            encode_info padding (data_info (length chunk_data))
            ++ (encode_payload d (pos c) (length chunk_data) chunk_data ++ rest);
      })
          ≡ ok (goes_on s'))
        × (s'.stream ≡ rest)
        × (verify_tfile m r.os s'.ht d r.hash r.hashes ≡ ok w)
        × (is_chunk_verified w (pos c) ≡ true)
  unfolding read_round dispatch
  read_round-verified fd_data r s i bytes chunk_data padding rest up file fits long room seven eight
        missing right =
      let payload = encode_payload d (pos c) (length chunk_data) chunk_data in
      let whole = length-encode_payload d (pos c) (length chunk_data) chunk_data in
      let peeked =
        incoming_message_info_lem r.peek padding (payload ++ rest) (data_info (length chunk_data))
          up.peeks seven (omega arith) in
      let came =
        receive_message-Progresses r.read r.discard_fuel message_size
          (data_info (length chunk_data)).size padding payload rest (data_info (length chunk_data))
          up.reads up.header seven whole (omega arith) (omega arith) room in
      let (ht', w, received, run, hit) =
        receive_file_data-verified r.os file.valid d i nz file.found m c bytes chunk_data
          (drop (length payload) s.data_read) small file.mapped file.sized fits long r.hash r.hashes
          two eight missing right in
      (
        record s {
          ht = ht';
          data_read = payload ++ drop (length payload) s.data_read;
          stream = rest;
        },
        w,
        rw (read_round, peeked, came, received) refl,
        refl,
        run,
        hit,
      )

  -- Two peers and one chunk, from mapping to mapping: when one valid table has a non-zero digest
  -- mapped as a file of at least eight and fewer than 2^32 bytes, the other has it mapped as as
  -- many bytes, of which neither the whole nor the chunk matches, all connections are up with
  -- headers that go and come whole, there is memory for the payload and it fits the buffer of
  -- readWorker, and the chunk has the hash that the second table tells, then send_chunk_message
  -- returns SUCCESS, readWorker takes exactly its message from the connection and goes on, and
  -- verify_tfile reports the chunk as verified at the second peer.
  pub exchange-verified :
      (os : Os) (malloc : ℕ → Bool) (write : Kernel) (padding : List ℕ) (ht : Htable) (i : ℕ)
      (content : List ℕ) (fd_data : ClientServer) (r : Round) (s : State) (j : ℕ)
      (bytes rest : List ℕ)
      → IsMapped ht d i content
      → num_chunks ≤ length content
      → length content < 2 ^ 32
      → malloc (payload_size + chunk_len (length content) c) ≡ true
      → Progresses write
      → write 0 info_size ≡ pos info_size
      → length padding ≡ 7
      → payload_size + chunk_len (length content) c ≤ message_size
      → IsUp r
      → IsMapped s.ht d j bytes
      → length bytes ≡ length content
      → length r.hashes ≡ num_chunks
      → matches m (get_or s.ht.table j blank).tdef bytes (length bytes) c ≡ false
      → same_digest
          (m.md5 (chunk content (length content) c))
          (get_or (get_or s.ht.table j blank).tdef.c_hashes c zero_digest)
        ≡ true
      → (sent : List ℕ) × (s' : State) × (w : ℕ) × (send_chunk_message os malloc write padding ht d
            (pos c)
          ≡ ok (success, sent, ht))
        × (read_round m fd_data r (record s { stream = sent ++ rest }) ≡ ok (goes_on s'))
        × (s'.stream ≡ rest)
        × (verify_tfile m r.os s'.ht d r.hash r.hashes ≡ ok w)
        × (is_chunk_verified w (pos c) ≡ true)
  exchange-verified os malloc write padding ht i content fd_data r s j bytes rest file eight fits
        memory up header seven room ups there same hashes missing right =
      let chunk_data = chunk content (length content) c in
      let n = length-chunk content c small in
      let went =
        send_chunk_message_lem os file.valid d i nz file.found malloc write padding c content small
          file.mapped file.sized eight fits memory up header in
      let (s', w, run, left, verified, hit) =
        read_round-verified fd_data r s j bytes chunk_data padding rest ups there (omega arith)
          (n ∙ ap (λ (k : ℕ). chunk_len k c) (sym same)) (omega (arith, n)) seven hashes missing
          right in
      let out = encode_info padding (data_info (chunk_len (length content) c)) in
      let payload = encode_payload d (pos c) (chunk_len (length content) c) chunk_data in
      (
        out ++ payload,
        s',
        w,
        went,
        rw (append_assoc out payload rest) (
            subst
              (λ (k : ℕ).
                read_round m fd_data r (record s {
                  stream =
                      encode_info padding (data_info k)
                      ++ (encode_payload d (pos c) k chunk_data ++ rest);
                })
                ≡ ok (goes_on s'))
              n run),
        left,
        verified,
        hit,
      )
