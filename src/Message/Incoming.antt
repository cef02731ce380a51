-- ===== src/Message/Incoming.antt =====
-- `incoming_message_info`, and `receive_message` of a message that the buffer is too small for.
use grintorrent.Base.{
  ℕ, zero, suc, ◌+◌, ◌-◌, ◌^◌, ◌≤◌, ◌<◌, ◌≡◌, refl, ◌≢◌, none, some, List, [], ◌++◌, arith, length,
  length-append, take, drop, length-take, length-drop, take-append, drop-append, fault,
  out_of_bounds, dec_le, leb-eq-false, lt→ltb, le→leb, ==-eq-false, min,
}
use grintorrent.Base.Int.{pos, eqb_ℤ_ne}
use grintorrent.Message.{
  Kernel, MessageInfo, info_size, encode_info, receive_loop, receive_body, receive_message,
  incoming_message_info,
}
use grintorrent.Message.Send.{Progresses}
use grintorrent.Message.Receive.{length-encode_info, decode_info-encode_info}

-- A message that is longer than the room for it.
module _ (read : Kernel) where
  receive_loop_overruns :
      Progresses read
      → (f room size k : ℕ) (buffer stream : List ℕ) → length buffer ≤ room
      → room < size
      → size ≤ length buffer + length stream
      → size < f + length buffer
      → receive_loop read f room size k buffer stream ≡ fault out_of_bounds
  unfolding receive_loop
  receive_loop_overruns up zero room size k buffer stream le short enough fuel =
      absurd (omega arith)
  receive_loop_overruns up (suc f) room size k buffer stream le short enough fuel =
      let (rc, answer, some_byte, few) = up k (size - length buffer) (omega arith) in
      let more = lt→ltb (length buffer) size (omega arith) in
      elim (dec_le (length buffer + rc) room) [
        | no over ↦
            rw
              (
                more,
                receive_loop,
                answer,
                ==-eq-false rc 0 (omega arith),
                leb-eq-false (length buffer + rc) room (omega arith),
              )
              refl
        | yes fits ↦
            let got = length-append buffer (take rc stream) in
            let taken = length-take rc stream in
            let left = length-drop rc stream in
            rw
              (
                more,
                receive_loop,
                answer,
                ==-eq-false rc 0 (omega arith),
                le→leb (length buffer + rc) room fits,
              )
              (receive_loop_overruns up f room size (k + 1) (buffer ++ take rc stream)
                (drop rc stream) (omega (arith, got, taken)) short (omega (arith, got, taken, left))
                (omega (arith, got, taken)))
      ]

pub receive_message_overruns :
    (read : Kernel) (fuel room : ℕ) (padding bytes : List ℕ) (info : MessageInfo)
    → Progresses read
    → read 0 info_size ≡ pos info_size
    → length padding ≡ 7
    → info.size < 2 ^ 64
    → info.size ≤ length bytes
    → room < info.size
    → receive_message read fuel (some room) info.size (encode_info padding info ++ bytes)
      ≡ fault out_of_bounds
unfolding receive_message receive_body
receive_message_overruns read fuel room padding bytes info up header seven small whole short =
    let long = length-encode_info padding info seven in
    let n = info.size in
    let wanted : min n n ≡ n = omega arith in
    rw
      (
        header,
        take-append info_size (encode_info padding info) bytes long,
        drop-append info_size (encode_info padding info) bytes long,
        decode_info-encode_info padding info seven small,
        wanted,
        receive_loop_overruns read up (suc n) room n 1 [] bytes (omega arith) short (omega arith)
            (omega arith),
      )
      refl

-- What a peek at a header gives, once all of the header has come.
pub incoming_message_info_lem :
    (peek : Kernel) (padding bytes : List ℕ) (info : MessageInfo)
    → peek 0 info_size ≡ pos info_size
    → length padding ≡ 7
    → info.size < 2 ^ 64
    → incoming_message_info peek (encode_info padding info ++ bytes) ≡ some info
unfolding incoming_message_info
incoming_message_info_lem peek padding bytes info here seven small =
    rw
      (
        here,
        take-append info_size (encode_info padding info) bytes
            (length-encode_info padding info seven),
        decode_info-encode_info padding info seven small,
      )
      refl

pub incoming_message_info_closed :
    (peek : Kernel) (stream : List ℕ)
    → peek 0 info_size ≢ pos info_size
    → incoming_message_info peek stream ≡ none
unfolding incoming_message_info
incoming_message_info_closed peek stream closed =
    rw (eqb_ℤ_ne (peek 0 info_size) (pos info_size) closed) refl
