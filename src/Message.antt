-- ===== src/Message.antt =====
-- src/message.h and src/message.c: messages over a stream socket. The socket is what the kernel
-- answers: the k-th call, with a count, gets a return value.
pub mod Send
pub mod Receive
pub mod Incoming
use grintorrent.Base.{
  ℕ, zero, suc, ◌+◌, ◌-◌, ◌*◌, ◌^◌, ◌≤◌, ◌≡◌, Bool, Option, none, some, List, [], ◌∷◌, ◌++◌, ltb,
  leb, ◌==◌, if◌then◌else◌, length, take, drop, slice, min, Run, ok, fault, out_of_fuel,
  out_of_bounds, ◌>>=◌,
}
use grintorrent.Base.Bytes.{le_bytes, le_value}
use grintorrent.Base.Int.{ℤ, pos, negsuc, ◌+ℤ◌, ◌-ℤ◌, leb_ℤ, eqb_ℤ, to_size_t}

abbrev pub request_file_data : ℕ
request_file_data = 0xA

abbrev pub file_data : ℕ
file_data = 0xB

abbrev pub tfile_def : ℕ
tfile_def = 0xC

abbrev pub addr_self : ℕ
addr_self = 0xD

abbrev pub request_addr_self : ℕ
request_addr_self = 0xE

abbrev pub failed : ℤ
failed = negsuc 0

abbrev pub success : ℤ
success = pos 0

-- `message_info_t`
pub record MessageInfo : Type 0 where
  pub type : ℕ
  pub size : ℕ

-- `sizeof(message_info_t)`: the type, seven bytes of padding, the size
abbrev pub info_size : ℕ
info_size = 16

pub encode_info : List ℕ → MessageInfo → List ℕ
encode_info padding info = info.type ∷ (padding ++ le_bytes 8 info.size)

pub decode_info : List ℕ → MessageInfo
decode_info [] = record { type = 0; size = 0 }
decode_info (t ∷ bytes) = record { type = t; size = le_value (drop 7 bytes) }

-- What the kernel returns for call number `k` with a count.
abbrev pub Kernel : Type 0
Kernel = ℕ → ℕ → ℤ

-- The bytes that reach the socket of a header of which the kernel takes `rc`.
abbrev pub accepted : ℤ → List ℕ → List ℕ
accepted (pos rc) bytes = take rc bytes
accepted (negsuc e) bytes = []

module _ (write : Kernel) where
  -- `while (bytes_written < info->size)`; the list is what went out. A round writes a byte at least.
  pub send_loop : ℕ → List ℕ → ℕ → (k written : ℕ) → List ℕ → Run (ℤ × List ℕ)
  send_loop zero bytes size k written sent = out_of_fuel
  send_loop (suc f) bytes size k written sent =
      let next : Run (ℤ × List ℕ) = elim (write k (size - written)) [
        | negsuc e ↦ ok (failed, sent)
        | pos rc ↦
            let rest =
              send_loop f bytes size (k + 1) (written + rc) (sent ++ slice written rc bytes) in
            if rc == 0
            then ok (failed, sent)
            else if leb (written + rc) (length bytes)
            then rest
            else fault out_of_bounds
      ] in
      if ltb written size then next else ok (success, sent)

  -- `data` is NULL or a buffer. The status, and what went out.
  pub send_message : List ℕ → MessageInfo → Option (List ℕ) → Run (ℤ × List ℕ)
  send_message padding info data' =
      let header = encode_info padding info in
      let rc = write 0 info_size in
      let body : Run (ℤ × List ℕ) = elim data' [
        | none ↦ ok (success, header)
        | some bytes ↦ send_loop (suc info.size) bytes info.size 1 0 header
      ] in
      if eqb_ℤ rc (pos info_size) then body else ok (failed, accepted rc header)

-- What a call of `read` or `recv` takes from the stream.
abbrev pub taken : ℤ → ℕ
taken (pos rc) = rc
taken (negsuc e) = 0

-- The conversion of a `size_t` to `ssize_t`
pub to_ssize_t : ℕ → ℤ
to_ssize_t n = if ltb n (2 ^ 63) then pos n else negsuc (2 ^ 64 - n - 1)

-- `if (data == NULL) size = 0`
abbrev pub asked : Option ℕ → ℕ → ℕ
asked none size = 0
asked (some room) size = size

abbrev pub room_of : Option ℕ → ℕ
room_of none = 0
room_of (some room) = room

module _ (read : Kernel) where
  -- `while (bytes_read < size)`, into a buffer of `room` bytes; the lists are the buffer and what
  -- is left of the stream.
  pub receive_loop : ℕ → (room size k : ℕ) → List ℕ → List ℕ → Run (ℤ × ℕ × List ℕ × List ℕ)
  receive_loop zero room size k buffer stream = out_of_fuel
  receive_loop (suc f) room size k buffer stream =
      let next : Run (ℤ × ℕ × List ℕ × List ℕ) = elim (read k (size - length buffer)) [
        | negsuc e ↦ ok (failed, k + 1, buffer, stream)
        | pos rc ↦
            let rest =
              receive_loop f room size (k + 1) (buffer ++ take rc stream) (drop rc stream) in
            if rc == 0
            then ok (failed, k + 1, buffer, stream)
            else if leb (length buffer + rc) room
            then rest
            else fault out_of_bounds
      ] in
      if ltb (length buffer) size then next else ok (success, k, buffer, stream)

  -- `while (bytes_discarded <= extra_data)`
  pub discard_loop : ℕ → (extra discarded : ℤ) → ℕ → List ℕ → Run (List ℕ)
  discard_loop zero extra discarded k stream = out_of_fuel
  discard_loop (suc f) extra discarded k stream =
      let rc = read k (to_size_t (extra -ℤ discarded)) in
      let next = discard_loop f extra (discarded +ℤ rc) (k + 1) (drop (taken rc) stream) in
      if leb_ℤ discarded extra then next else ok stream

  -- Behind the header. `data` is NULL or a buffer of `room` bytes; `fuel` bounds the rounds of the
  -- loop that discards.
  pub receive_body : (fuel : ℕ) → Option ℕ → ℕ → MessageInfo → List ℕ → Run (ℤ × List ℕ × List ℕ)
  receive_body fuel data' size info stream =
      let wanted = min (asked data' size) info.size in
      do
        (status, k, buffer, left) ← receive_loop (suc wanted) (room_of data') wanted 1 [] stream
        let extra = to_ssize_t (info.size - length buffer)
        if eqb_ℤ status failed
            then ok (failed, buffer, left)
            else if eqb_ℤ extra (pos 0)
            then ok (success, buffer, left)
            else (do left' ← discard_loop fuel extra (pos 0) k left; ok (success, buffer, left'))

  -- The status, what stands in the buffer, and what is left of the stream.
  pub receive_message : (fuel : ℕ) → Option ℕ → ℕ → List ℕ → Run (ℤ × List ℕ × List ℕ)
  receive_message fuel data' size stream =
      let rc = read 0 info_size in
      let body =
        receive_body fuel data' size (decode_info (take info_size stream))
          (drop info_size stream) in
      if eqb_ℤ rc (pos info_size) then body else ok (failed, [], drop (taken rc) stream)

  -- `recv` with MSG_PEEK leaves the stream as it is; `none` is FAILED.
  pub incoming_message_info : List ℕ → Option MessageInfo
  incoming_message_info stream =
      if eqb_ℤ (read 0 info_size) (pos info_size)
      then some (decode_info (take info_size stream))
      else none
