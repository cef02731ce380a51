-- ===== src/Transfer/Laws.antt =====
-- What `send_chunk_message` sends, and how long a chunk is.
use grintorrent.Base.{
  ℕ, ◌+◌, ◌*◌, ◌/◌, ◌%◌, ◌^◌, ◌≤◌, ◌<◌, ◌≡◌, ◌≢◌, refl, sym, ◌∙◌, Bool, true, false, some, List,
  ◌++◌, arith, length, length-slice, take-length, get_or, ok,
}
use grintorrent.Base.Int.{pos, leb_ℤ}
use grintorrent.System.{Os}
use grintorrent.Tfile.{Digest, Tfile, blank, num_chunks, zero_digest}
use grintorrent.Htable.{Htable}
use grintorrent.Htable.Probe.{key, Occupied-lt}
use grintorrent.Htable.Invariant.{IsValid}
use grintorrent.Htable.Replace.{get_elem?-entry}
use grintorrent.File.Chunks.{chunk, chunk_len}
use grintorrent.File.Open.Laws.{open_tfile-chunk, within_file}
use grintorrent.Message.{Kernel, info_size, encode_info, success}
use grintorrent.Message.Send.{Progresses, send_message-Progresses}
use grintorrent.Transfer.{mapping, data_info, send_chunk_message}
use grintorrent.Transfer.Payload.{payload_size, encode_payload, length-encode_payload}

pub chunk_len-le : (n c : ℕ) → chunk_len n c ≤ n
chunk_len-le n c = ground arith

chunk_len-positive : (n c : ℕ) → num_chunks ≤ n → 0 < chunk_len n c
chunk_len-positive n c le = ground arith

pub length-chunk :
    (bytes : List ℕ) (c : ℕ)
    → c < num_chunks
    → length (chunk bytes (length bytes) c) ≡ chunk_len (length bytes) c
length-chunk bytes c small = omega (
  arith,
  length-slice (c * (length bytes / 8)) (chunk_len (length bytes) c) bytes,
  within_file (length bytes) c small,
)

module _ (os : Os) {ht : Htable} (v : IsValid ht) (d : Digest) (i : ℕ) (nz : d ≢ zero_digest)
    (e : key ht i ≡ d) where
  abbrev entry : Tfile
  entry = get_or ht.table i blank

  present : i < length ht.table
  present = Occupied-lt ht i (λ z. nz (sym e ∙ z))

  -- For a file of a valid table that is mapped with its size, of at least eight and fewer than 2^32
  -- bytes, with memory for the payload and while the connection is up, send_chunk_message sends the
  -- message's header, the hash, the index, the size and exactly the chunk, returns SUCCESS and
  -- leaves the table as it was.
  pub send_chunk_message_lem :
      (malloc : ℕ → Bool) (write : Kernel) (padding : List ℕ) (c : ℕ) (bytes : List ℕ)
      → c < num_chunks
      → entry.m_location ≡ some bytes
      → entry.tdef.size ≡ pos (length bytes)
      → num_chunks ≤ length bytes
      → length bytes < 2 ^ 32
      → malloc (payload_size + chunk_len (length bytes) c) ≡ true
      → Progresses write
      → write 0 info_size ≡ pos info_size
      → send_chunk_message os malloc write padding ht d (pos c)
        ≡ ok (
          success,
          encode_info padding (data_info (chunk_len (length bytes) c))
              ++ encode_payload d
                  (pos c)
                  (chunk_len (length bytes) c)
                  (chunk bytes (length bytes) c),
          ht,
        )
  unfolding send_chunk_message mapping
  send_chunk_message_lem malloc write padding c bytes small mapped size room fits memory up header =
      let n = chunk_len (length bytes) c in
      let (p, opened, slot, offset, at) =
        open_tfile-chunk os v d i nz e c bytes small mapped size (omega arith) in
      let payload = encode_payload d (pos c) n (chunk bytes (length bytes) c) in
      let part : chunk_len (length bytes) c ≤ length bytes = chunk_len-le (length bytes) c in
      let some_bytes : 0 < n = chunk_len-positive (length bytes) c room in
      let long : length payload ≡ payload_size + n = omega (
        arith,
        length-encode_payload d (pos c) n (chunk bytes (length bytes) c),
        length-chunk bytes c small,
      ) in
      let short : n % 2 ^ 32 ≡ n = omega arith in
      let positive : leb_ℤ (pos n) (pos 0) ≡ false = ground arith in
      let here = get_elem?-entry ht i present in
      let run =
        send_message-Progresses write padding payload (data_info n) up header
          (omega (arith, long)) in
      rw
        (
          opened,
          positive,
          memory,
          slot,
          here,
          mapped,
          at,
          short,
          run,
          take-length (payload_size + n) payload (omega (arith, long)),
        )
        refl
