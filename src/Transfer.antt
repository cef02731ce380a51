-- ===== src/Transfer.antt =====
-- Chunks on their way from peer to peer: `chunk_payload_t` of src/client.h, `send_chunk_message` and
-- the FILE_DATA branch of `readWorker` in src/client.c.
pub mod Payload
pub mod Laws
pub mod Receive
use grintorrent.Base.{
  ℕ, zero, suc, ◌+◌, ◌*◌, ◌%◌, ◌^◌, Bool, true, false, ◌||◌, Option, none, some, List, [], ◌∷◌,
  ◌++◌, if◌then◌else◌, leb, length, get_elem?, set, take, drop, Run, ok, fault, out_of_bounds,
  ◌>>=◌, deref, in_bounds,
}
use grintorrent.Base.Int.{ℤ, pos, negsuc, pos_part, leb_ℤ, to_size_t}
use grintorrent.System.{Md5, Os}
use grintorrent.Tfile.{Digest}
use grintorrent.Htable.{Htable}
use grintorrent.File.Verify.{region, is_chunk_verified, verify_tfile}
use grintorrent.File.Open.{Pointer, open_tfile}
use grintorrent.Message.{Kernel, MessageInfo, file_data, send_message, failed}
use grintorrent.Transfer.Payload.{payload_size, encode_payload, decode_payload}

-- The mapping into which a pointer of `open_tfile` points
pub mapping : Htable → Pointer → Run (List ℕ)
mapping ht p = do tf ← in_bounds (get_elem? ht.table p.slot); deref tf.m_location

abbrev pub is_null : Option Pointer → Bool
is_null none = true
is_null (some p) = false

abbrev pub data_info : ℕ → MessageInfo
data_info size = record { type = file_data; size = payload_size + size }

module _ (os : Os) (malloc : ℕ → Bool) (write : Kernel) (padding : List ℕ) where
  -- The status, what went out, and the table.
  pub send_chunk_message : Htable → Digest → ℤ → Run (ℤ × List ℕ × Htable)
  send_chunk_message ht file_hash chunk_index = do
    (chunk_size, chunk_ptr, ht') ← open_tfile os ht file_hash chunk_index
    if leb_ℤ chunk_size (pos 0) || is_null chunk_ptr
        then ok (failed, [], ht')
        else if malloc (payload_size + pos_part chunk_size)
        then (do
          p ← deref chunk_ptr
          bytes ← mapping ht' p
          chunk_data ← region bytes p.offset (pos_part chunk_size)
          (status, sent) ← send_message write padding (data_info (pos_part chunk_size)) (
              some (encode_payload file_hash chunk_index (pos_part chunk_size % 2 ^ 32) chunk_data))
          ok (status, sent, ht'))
        else ok (failed, [], ht')

-- `memcpy` of bytes into a mapping at an offset
pub patch : List ℕ → ℤ → List ℕ → Run (List ℕ)
patch bytes (negsuc a) new = fault out_of_bounds
patch bytes (pos a) new =
    if leb (a + length new) (length bytes)
    then ok (take a bytes ++ (new ++ drop (a + length new) bytes))
    else fault out_of_bounds

-- `memcpy(dest, chunk_data, chunk_size)`
pub write_chunk : Htable → Option Pointer → List ℕ → Run Htable
write_chunk ht dest chunk_data = do
  p ← deref dest
  tf ← in_bounds (get_elem? ht.table p.slot)
  bytes ← deref tf.m_location
  bytes' ← patch bytes p.offset chunk_data
  ok (record ht { table = set ht.table p.slot (record tf { m_location = some bytes' }) })

module _ (m : Md5) (os : Os) where
  -- The FILE_DATA branch, over the buffer `data_read`. A size that is not the chunk's is reported
  -- and nothing more. The last two arguments are what the stack of `verify_tfile` holds.
  pub receive_file_data : Htable → List ℕ → Digest → List Digest → Run Htable
  receive_file_data ht data_read hash hashes =
      let hdr = decode_payload data_read in
      do
        chunks ← verify_tfile m os ht hdr.file_hash hash hashes
        if is_chunk_verified chunks hdr.chunk_index then ok ht else (do
          (expected_size, dest, ht') ← open_tfile os ht hdr.file_hash hdr.chunk_index
          chunk_data ← region data_read (pos payload_size) hdr.chunk_size
          write_chunk ht' dest chunk_data)
