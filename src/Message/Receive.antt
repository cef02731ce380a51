-- ===== src/Message/Receive.antt =====
-- `receive_message` under any pattern of partial reads, and the loop that discards.
use mathlib.Core.List.{append_assoc, append-nil}
use grintorrent.Base.{
  ℕ, zero, suc, ◌+◌, ◌-◌, ◌^◌, ◌≤◌, ◌<◌, ◌≡◌, refl, ◌∙◌, ap, true, false, some, List, [], ◌∷◌, ◌++◌,
  arith, length, length-append, take, drop, take-append-drop, length-take, length-drop, take-append,
  drop-append, take-append_le, drop-append_le, Run, ok, out_of_fuel, ltb, lt→ltb, le→leb,
  ltb-eq-false, ==-eq-false, min,
}
use grintorrent.Base.Bytes.{le_bytes, le_value, length-le_bytes, le_value-le_bytes}
use grintorrent.Base.Int.{ℤ, pos, negsuc, pos_part, neg_part, eqb_ℤ, leb_ℤ, ◌+ℤ◌, ◌-ℤ◌, to_size_t}
use grintorrent.Message.{
  Kernel, MessageInfo, info_size, encode_info, decode_info, to_ssize_t, receive_loop, discard_loop,
  receive_body, receive_message, success,
}
use grintorrent.Message.Send.{Obeys, Progresses}

module _ (padding : List ℕ) (info : MessageInfo) (seven : length padding ≡ 7) where
  pub length-encode_info : length (encode_info padding info) ≡ info_size
  unfolding encode_info
  length-encode_info =
      omega (arith, length-append padding (le_bytes 8 info.size), length-le_bytes 8 info.size)

  pub decode_info-encode_info : info.size < 2 ^ 64 → decode_info (encode_info padding info) ≡ info
  unfolding encode_info decode_info
  decode_info-encode_info small =
      ap (λ (n : ℕ). let i : MessageInfo = record { type = info.type; size = n } in i)
        (ap le_value (drop-append 7 padding (le_bytes 8 info.size) seven)
          ∙ le_value-le_bytes 8 info.size (omega arith))

to_size_t-le : (a : ℤ) → neg_part a ≡ 0 → to_size_t a ≤ pos_part a
unfolding to_size_t
to_size_t-le a h = omega arith

neg_part-sub : (a b : ℤ) → leb_ℤ b a ≡ true → neg_part (a -ℤ b) ≡ 0
unfolding ◌-ℤ◌
neg_part-sub a b h = ground arith

leb-add : (d e : ℤ) (n : ℕ) → leb_ℤ d e ≡ true → n ≤ pos_part (e -ℤ d) → leb_ℤ (d +ℤ pos n) e ≡ true
unfolding ◌-ℤ◌ ◌+ℤ◌
leb-add d e n h le = ground arith

leb-add_negsuc : (d e : ℤ) (n : ℕ) → leb_ℤ d e ≡ true → leb_ℤ (d +ℤ negsuc n) e ≡ true
unfolding ◌+ℤ◌
leb-add_negsuc d e n h = ground arith

module _ (read : Kernel) where
  receive_loop-Progresses :
      Progresses read
      → (f room size k : ℕ) (buffer body rest : List ℕ) → length buffer + length body ≡ size
      → size ≤ room
      → length body < f
      → (k' : ℕ) × (receive_loop read f room size k buffer (body ++ rest)
          ≡ ok (success, k', buffer ++ body, rest))
  unfolding receive_loop
  receive_loop-Progresses up zero room size k buffer body rest e fits fuel = absurd (omega arith)
  receive_loop-Progresses up (suc f) room size k buffer [] rest e fits fuel =
      (k, rw (ltb-eq-false (length buffer) size (omega arith), append-nil))
  receive_loop-Progresses up (suc f) room size k buffer (b ∷ body) rest e fits fuel =
      let (rc, answer, some_byte, le) = up k (size - length buffer) (omega arith) in
      let more = b ∷ body in
      let left = length-drop rc more in
      let got = length-take rc more in
      let (k', run) =
        receive_loop-Progresses up f room size (k + 1) (buffer ++ take rc more) (drop rc more) rest
          (omega (arith, length-append buffer (take rc more), left, got)) fits
          (omega (arith, left)) in
      (
        k',
        rw
            (
              lt→ltb (length buffer) size (omega arith),
              receive_loop,
              answer,
              ==-eq-false rc 0 (omega arith),
              le→leb (length buffer + rc) room (omega arith),
              take-append_le rc more rest (omega arith),
              drop-append_le rc more rest (omega arith),
            )
            (run
              ∙ ap
                  (λ (out : List ℕ).
                    let r : Run (ℤ × ℕ × List ℕ × List ℕ) = ok (success, k', out, rest) in r)
                  (append_assoc buffer (take rc more) (drop rc more)
                    ∙ ap (◌++◌ buffer) (take-append-drop rc more))),
      )

  -- When the kernel never gives more than it is asked for, the loop that discards does not end
  -- once there is something to discard.
  discard_loop-out_of_fuel :
      Obeys read
      → (f : ℕ) (extra discarded : ℤ) (k : ℕ) (stream : List ℕ) → leb_ℤ discarded extra ≡ true
      → discard_loop read f extra discarded k stream ≡ out_of_fuel
  unfolding discard_loop
  discard_loop-out_of_fuel obeys zero extra discarded k stream le = refl
  discard_loop-out_of_fuel obeys (suc f) extra discarded k stream le =
      rw le (discard_loop-out_of_fuel obeys f extra (discarded +ℤ rc) (k + 1) _ (still rc refl))
    where
      rc : ℤ
      rc = read k (to_size_t (extra -ℤ discarded))

      still :
          (r : ℤ)
          → read k (to_size_t (extra -ℤ discarded)) ≡ r
          → leb_ℤ (discarded +ℤ r) extra ≡ true
      still (pos n) e =
          let few = obeys k (to_size_t (extra -ℤ discarded)) n e in
          let room = to_size_t-le (extra -ℤ discarded) (neg_part-sub extra discarded le) in
          leb-add discarded extra n le (omega arith)
      still (negsuc n) e = leb-add_negsuc discarded extra n le

pub receive_message-Progresses :
    (read : Kernel) (fuel room size : ℕ) (padding bytes rest : List ℕ) (info : MessageInfo)
    → Progresses read
    → read 0 info_size ≡ pos info_size
    → length padding ≡ 7
    → length bytes ≡ info.size
    → info.size < 2 ^ 64
    → info.size ≤ size
    → info.size ≤ room
    → receive_message read fuel (some room) size (encode_info padding info ++ (bytes ++ rest))
      ≡ ok (success, bytes, rest)
unfolding receive_message receive_body to_ssize_t
receive_message-Progresses read fuel room size padding bytes rest info up header seven whole small
      enough fits =
    let long = length-encode_info padding info seven in
    let n = info.size in
    let wanted : min size n ≡ n = omega arith in
    let (k, run) =
      receive_loop-Progresses read up (suc n) room n 1 [] bytes rest (omega (arith, whole)) fits
        (omega arith) in
    let nothing : n - length bytes ≡ 0 = omega arith in
    rw (
      header,
      take-append info_size (encode_info padding info) (bytes ++ rest) long,
      drop-append info_size (encode_info padding info) (bytes ++ rest) long,
      decode_info-encode_info padding info seven small,
      wanted,
      run,
      nothing,
    )

-- While the connection is up, the header comes in whole and the kernel never gives more than it is
-- asked for, receive_message of a message of fewer than 2^63 bytes that is longer than what the
-- caller asks for and has room for reads what it was asked for and then never returns.
pub receive_message-out_of_fuel :
    (read : Kernel) (fuel room size : ℕ) (padding bytes rest : List ℕ) (info : MessageInfo)
    → Progresses read
    → Obeys read
    → read 0 info_size ≡ pos info_size
    → length padding ≡ 7
    → length bytes ≡ size
    → size < info.size
    → info.size < 2 ^ 63
    → size ≤ room
    → receive_message read fuel (some room) size (encode_info padding info ++ (bytes ++ rest))
      ≡ out_of_fuel
unfolding receive_message receive_body to_ssize_t
receive_message-out_of_fuel read fuel room size padding bytes rest info up obeys header seven whole
      longer small fits =
    let long = length-encode_info padding info seven in
    let wanted : min size info.size ≡ size = omega arith in
    let (k, run) =
      receive_loop-Progresses read up (suc size) room size 1 [] bytes rest (omega (arith, whole))
        fits (omega arith) in
    let extra = info.size - length bytes in
    let some_extra : eqb_ℤ (pos extra) (pos 0) ≡ false = ground arith in
    let ssize : ltb extra (2 ^ 63) ≡ true = lt→ltb _ _ (omega arith) in
    rw (
      header,
      take-append info_size (encode_info padding info) (bytes ++ rest) long,
      drop-append info_size (encode_info padding info) (bytes ++ rest) long,
      decode_info-encode_info padding info seven (omega arith),
      wanted,
      run,
      ssize,
      some_extra,
      discard_loop-out_of_fuel read obeys fuel (pos extra) (pos 0) k rest (ground arith),
    )
