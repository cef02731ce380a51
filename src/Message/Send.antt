-- ===== src/Message/Send.antt =====
-- `send_message` under any pattern of partial writes.
use mathlib.Core.List.{append_assoc, append-nil}
use grintorrent.Base.{
  ℕ, zero, suc, ◌+◌, ◌-◌, ◌≤◌, ◌<◌, ◌≡◌, ◌≢◌, refl, sym, ◌∙◌, ap, subst, ◌⊎◌, inl, inr, Bool-cases,
  none, some, List, [], ◌++◌, arith, length, take, drop, slice, slice-add, take-append-drop, Run,
  ok, lt→ltb, le→leb, ltb-eq-false, ==-eq-false, dec_lt, ℕ_discrete,
}
use grintorrent.Base.Int.{ℤ, pos, negsuc, eqb_ℤ, eqb_ℤ_ne}
use grintorrent.Message.{
  Kernel, MessageInfo, info_size, encode_info, send_loop, send_message, success, failed, accepted,
}

-- The kernel never takes or gives more than it is asked for.
abbrev pub Obeys : Kernel → Type 0
Obeys call = (k n rc : ℕ) → call k n ≡ pos rc → rc ≤ n

-- The connection is up: a call for some bytes moves at least one.
abbrev pub Progresses : Kernel → Type 0
Progresses call = (k n : ℕ) → 0 < n → (rc : ℕ) × (call k n ≡ pos rc) × (0 < rc) × (rc ≤ n)

-- What went out is a beginning of the message, and is all of it if the status is SUCCESS.
abbrev pub Sends : List ℕ → Run (ℤ × List ℕ) → Type 0
Sends message r =
    (status : ℤ) × (sent rest : List ℕ) × (r ≡ ok (status, sent))
    × (sent ++ rest ≡ message)
    × (((status ≡ success) × (rest ≡ [])) ⊎ (status ≡ failed))

pub send_message_dead :
    (write : Kernel) (padding bytes : List ℕ) (info : MessageInfo)
    → write 0 info_size ≢ pos info_size
    → send_message write padding info (some bytes)
      ≡ ok (failed, accepted (write 0 info_size) (encode_info padding info))
unfolding send_message
send_message_dead write padding bytes info dead = rw (eqb_ℤ_ne _ _ dead) refl

module _ (write : Kernel) (bytes : List ℕ) (size : ℕ) (room : size ≤ length bytes) where
  joined :
      (w rc : ℕ) (sent : List ℕ)
      → w + rc ≤ size
      → (sent ++ slice w rc bytes) ++ slice (w + rc) (size - (w + rc)) bytes
        ≡ sent ++ slice w (size - w) bytes
  joined w rc sent le =
      append_assoc sent (slice w rc bytes) _
      ∙ ap (◌++◌ sent) (
          sym (slice-add w rc (size - (w + rc)) bytes)
          ∙ ap (λ (n : ℕ). slice w n bytes) (omega arith))

  -- A round that moves some bytes goes on with the rest.
  send_loop-step :
      (f k w rc : ℕ) (sent : List ℕ)
      → w < size
      → write k (size - w) ≡ pos rc
      → 0 < rc
      → rc ≤ size - w
      → send_loop write (suc f) bytes size k w sent
        ≡ send_loop write f bytes size (k + 1) (w + rc) (sent ++ slice w rc bytes)
  unfolding send_loop
  send_loop-step f k w rc sent more e some_byte le = rw (
    lt→ltb w size more,
    send_loop,
    e,
    ==-eq-false rc 0 (omega arith),
    le→leb (w + rc) (length bytes) (omega arith),
  )

  send_loop-Sends :
      Obeys write
      → (f k w : ℕ) (sent : List ℕ) → w ≤ size
      → size - w < f
      → Sends (sent ++ slice w (size - w) bytes) (send_loop write f bytes size k w sent)
  unfolding send_loop
  send_loop-Sends obeys zero k w sent le fuel = absurd (omega arith)
  send_loop-Sends obeys (suc f) k w sent le fuel = elim (dec_lt w size) [
    | no done ↦ (
      success,
      sent,
      [],
      rw (ltb-eq-false w size (omega arith)),
      ap (◌++◌ sent) (nothing w (omega arith)),
      inl (refl, refl),
    )
    | yes more ↦ go (send_loop-Sends obeys f) more (write k (size - w)) refl
  ]
    where
      nothing : (w : ℕ) → size ≤ w → [] ≡ slice w (size - w) bytes
      nothing w ge =
          let z : ◌≡◌ {A = ℕ} 0 (size - w) = omega arith in
          ap (λ (n : ℕ). slice w n bytes) {x = 0} z

      go :
          ((k' w' : ℕ) (sent' : List ℕ)
            → w' ≤ size
            → size - w' < f
            → Sends
                (sent' ++ slice w' (size - w') bytes)
                (send_loop write f bytes size k' w' sent'))
          → w < size
          → (rc : ℤ) → write k (size - w) ≡ rc
          → Sends (sent ++ slice w (size - w) bytes) (send_loop write (suc f) bytes size k w sent)
      go later more (negsuc c) e = (
        failed,
        sent,
        slice w (size - w) bytes,
        rw (lt→ltb w size more, send_loop, e),
        refl,
        inr refl,
      )
      go later more (pos rc) e = elim (ℕ_discrete rc 0) [
        | yes z ↦ (
          failed,
          sent,
          slice w (size - w) bytes,
          rw (lt→ltb w size more, send_loop, e, z),
          refl,
          inr refl,
        )
        | no nz ↦
            let le' = obeys k (size - w) rc e in
            let (status, out, rest, run, split, end) =
              later (k + 1) (w + rc) (sent ++ slice w rc bytes) (omega arith) (omega arith) in
            (
              status,
              out,
              rest,
              send_loop-step f k w rc sent more e (omega arith) le' ∙ run,
              split ∙ joined w rc sent (omega arith),
              end,
            )
      ]

  send_loop-Progresses :
      Progresses write
      → (f k w : ℕ) (sent : List ℕ) → w ≤ size
      → size - w < f
      → send_loop write f bytes size k w sent ≡ ok (success, sent ++ slice w (size - w) bytes)
  unfolding send_loop
  send_loop-Progresses up zero k w sent le fuel = absurd (omega arith)
  send_loop-Progresses up (suc f) k w sent le fuel = elim (dec_lt w size) [
    | no done ↦
        let z : ◌≡◌ {A = ℕ} 0 (size - w) = omega arith in
        rw (ltb-eq-false w size (omega arith)) (
          ap (λ (out : List ℕ). let r : Run (ℤ × List ℕ) = ok (success, out) in r)
            (sym (append-nil sent) ∙ ap (λ (n : ℕ). sent ++ slice w n bytes) {x = 0} z))
    | yes more ↦
        let (rc, e, some_byte, le') = up k (size - w) (omega arith) in
        send_loop-step f k w rc sent more e some_byte le'
        ∙ send_loop-Progresses up f (k + 1) (w + rc) (sent ++ slice w rc bytes) (omega arith)
            (omega arith)
        ∙ ap (λ (out : List ℕ). let r : Run (ℤ × List ℕ) = ok (success, out) in r)
            (joined w rc sent (omega arith))
  ]

accepted_rest :
    (rc : ℤ) (header more : List ℕ)
    → (rest : List ℕ) × (accepted rc header ++ rest ≡ header ++ more)
accepted_rest (pos rc) header more = (
  drop rc header ++ more,
  sym (append_assoc (take rc header) (drop rc header) more)
      ∙ ap (λ (xs : List ℕ). xs ++ more) (take-append-drop rc header),
)
accepted_rest (negsuc e) header more = (header ++ more, refl)

-- When the kernel takes no more than it is given and the data has the bytes that the header tells,
-- send_message returns, however the kernel splits the writes and whenever it fails; what went out
-- is a beginning of the header and the data, and all of it if the status is SUCCESS.
pub send_message-Sends :
    (write : Kernel) (padding bytes : List ℕ) (info : MessageInfo)
    → Obeys write
    → info.size ≤ length bytes
    → Sends
        (encode_info padding info ++ take info.size bytes)
        (send_message write padding info (some bytes))
unfolding send_message
send_message-Sends write padding bytes info obeys room =
    elim (Bool-cases (eqb_ℤ (write 0 info_size) (pos info_size))) [
      | inl whole ↦
          let all : info.size - 0 ≡ info.size = omega arith in
          rw whole (
            subst
              (λ (n : ℕ).
                Sends (encode_info padding info ++ take n bytes)
                  (send_loop write (suc info.size) bytes info.size 1 0 (encode_info padding info)))
              all
              (send_loop-Sends write bytes info.size room obeys (suc info.size) 1 0
                (encode_info padding info) (omega arith) (omega arith)))
      | inr part ↦
          let (rest, split) =
            accepted_rest (write 0 info_size) (encode_info padding info) (take info.size bytes) in
          (
            failed,
            accepted (write 0 info_size) (encode_info padding info),
            rest,
            rw part,
            split,
            inr refl,
          )
    ]

-- While the connection is up, the header goes out whole and the data has the bytes that the header
-- tells, send_message returns SUCCESS, and the header and all the data went out, however the kernel
-- splits the writes.
pub send_message-Progresses :
    (write : Kernel) (padding bytes : List ℕ) (info : MessageInfo)
    → Progresses write
    → write 0 info_size ≡ pos info_size
    → info.size ≤ length bytes
    → send_message write padding info (some bytes)
      ≡ ok (success, encode_info padding info ++ take info.size bytes)
unfolding send_message
send_message-Progresses write padding bytes info up header room =
    let all : info.size - 0 ≡ info.size = omega arith in
    rw header (
      send_loop-Progresses write bytes info.size room up (suc info.size) 1 0
        (encode_info padding info) (omega arith) (omega arith)
      ∙ ap
          (λ (n : ℕ).
            let r : Run (ℤ × List ℕ) = ok (success, encode_info padding info ++ take n bytes) in r)
          all)

-- Without data `send_message` returns, whatever the kernel answers.
pub send_message_null :
    (write : Kernel) (padding : List ℕ) (info : MessageInfo)
    → (status : ℤ) × (out : List ℕ) × (send_message write padding info none ≡ ok (status, out))
unfolding send_message
send_message_null write padding info =
    elim (Bool-cases (eqb_ℤ (write 0 info_size) (pos info_size))) [
      | inl whole ↦ (success, encode_info padding info, rw whole refl)
      | inr part ↦ (failed, accepted (write 0 info_size) (encode_info padding info), rw part refl)
    ]
