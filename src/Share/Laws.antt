-- ===== src/Share/Laws.antt =====
-- What `share_tfile_to_peers` sends, and what it does when a peer cannot be reached.
use mathlib.Core.List.{append_assoc, append-nil}
use grintorrent.Base.{
  ℕ, zero, suc, ◌+◌, ◌≤◌, ◌<◌, ◌≡◌, ◌≢◌, refl, ◌∙◌, ap, true, false, Bool-cases, inl, inr, List, [],
  ◌∷◌, ◌++◌, arith, length, take, drop, drop-cons, take-length, get_or, get_elem?-eq-get_or, dec_lt,
  if◌then◌else◌, Run, ok, fault, deadlock,
}
use grintorrent.Base.Int.{ℤ, pos, eqb_ℤ, eqb_ℤ_ne}
use grintorrent.Tfile.{TfileDef}
use grintorrent.Message.{Kernel, accepted, info_size, encode_info, success}
use grintorrent.Message.Send.{
  Obeys, Progresses, send_message_dead, send_message-Sends, send_message-Progresses,
}
use grintorrent.Peers.{Peers}
use grintorrent.Peers.Add.{fds, IsValid, no_fd}
use grintorrent.Peers.Remove.{remove_peers-nil, remove_peers-deadlock}
use grintorrent.Share.{Sent, tfile_info, share_loop, share_tfile_to_peers}
use grintorrent.Share.Wire.{def_size, encode_def, IsDef, length-encode_def}

-- The sockets without those that are the sender.
unfoldable pub others : ℤ → List ℤ → List ℤ
others sender [] = []
others sender (fd ∷ rest) = if eqb_ℤ fd sender then others sender rest else fd ∷ others sender rest

-- Every socket with the same bytes.
unfoldable pub to_each : List ℕ → List ℤ → Sent
to_each message [] = []
to_each message (fd ∷ rest) = (fd, message) ∷ to_each message rest

module _ (write : ℕ → Kernel) (padding : List ℕ) (arr : List ℤ) (sender : ℤ) (bytes : List ℕ)
    (whole : length bytes ≡ def_size) where
  abbrev message : List ℕ
  message = encode_info padding tfile_info ++ bytes

  share_loop-Progresses :
      ((i : ℕ) → Progresses (write i))
      → ((i : ℕ) → write i 0 info_size ≡ pos info_size)
      → (k i : ℕ) (sent : Sent) → i + k ≤ length arr
      → share_loop write padding arr sender bytes k i sent []
        ≡ ok (sent ++ to_each message (others sender (take k (drop i arr))), [])
  unfolding share_loop others to_each
  share_loop-Progresses up header zero i sent fits = rw (append-nil sent) refl
  share_loop-Progresses up header (suc k) i sent fits =
      let fd = get_or arr i no_fd in
      let here = get_elem?-eq-get_or arr i no_fd (omega arith) in
      let split = drop-cons arr i no_fd (omega arith) in
      let full : take def_size bytes ≡ bytes = take-length def_size bytes (omega arith) in
      let run =
        send_message-Progresses (write i) padding bytes tfile_info (up i) (header i)
          (omega arith) in
      elim (Bool-cases (eqb_ℤ fd sender)) [
        | inl own ↦
            rw (here, own, split, own)
              (share_loop-Progresses up header k (i + 1) sent (omega arith))
        | inr other ↦
            rw (here, other, run, full, split, other)
              (share_loop-Progresses up header k (i + 1) (sent ++ (fd, message) ∷ []) (omega arith)
                ∙ ap (λ (out : Sent). let r : Run (Sent × List ℤ) = ok (out, []) in r)
                    (append_assoc sent ((fd, message) ∷ [])
                      (to_each message (others sender (take k (drop (i + 1) arr))))))
      ]

  module _ (obeys : (i : ℕ) → Obeys (write i)) where
    share_loop-keeps :
        (k i : ℕ) (sent : Sent) (x : ℤ) (xs : List ℤ)
        → i + k ≤ length arr
        → (out : Sent) × (xs' : List ℤ) × (share_loop write padding arr sender bytes k i sent
              (x ∷ xs)
            ≡ ok (out, x ∷ xs'))
    unfolding share_loop
    share_loop-keeps zero i sent x xs fits = (sent, xs, refl)
    share_loop-keeps (suc k) i sent x xs fits =
        let fd = get_or arr i no_fd in
        let here = get_elem?-eq-get_or arr i no_fd (omega arith) in
        let (status, out, rest, run, all, end) =
          send_message-Sends (write i) padding bytes tfile_info (obeys i) (omega arith) in
        let next = share_loop-keeps k (i + 1) (sent ++ (fd, out) ∷ []) x in
        elim (Bool-cases (eqb_ℤ fd sender)) [
          | inl own ↦
              let (out', xs', run') = share_loop-keeps k (i + 1) sent x xs (omega arith) in
              (out', xs', rw (here, own) run')
          | inr other ↦ elim (Bool-cases (eqb_ℤ status success)) [
            | inl good ↦
                let (out', xs', run') = next xs (omega arith) in
                (out', xs', rw (here, other, run, good) run')
            | inr bad ↦
                let (out', xs', run') = next (xs ++ pos i ∷ []) (omega arith) in
                (out', xs', rw (here, other, run, bad) run')
          ]
        ]

    share_loop-fails :
        (j k i : ℕ) (sent : Sent)
        → i + k ≤ length arr
        → i ≤ j
        → j < i + k
        → get_or arr j no_fd ≢ sender
        → write j 0 info_size ≢ pos info_size
        → (out : Sent) × (x : ℤ) × (xs : List ℤ) × (share_loop write padding arr sender bytes k i
              sent []
            ≡ ok (out, x ∷ xs))
    unfolding share_loop
    share_loop-fails j zero i sent fits lo hi ne dead = absurd (omega arith)
    share_loop-fails j (suc k) i sent fits lo hi ne dead =
        let fd = get_or arr i no_fd in
        let here = get_elem?-eq-get_or arr i no_fd (omega arith) in
        let (status, out, rest, run, all, end) =
          send_message-Sends (write i) padding bytes tfile_info (obeys i) (omega arith) in
        let later = λ (lt : i < j). λ (sent' : Sent).
          share_loop-fails j k (i + 1) sent' (omega arith) (omega arith) (omega arith) ne dead in
        elim (dec_lt i j) [
          | yes lt ↦ elim (Bool-cases (eqb_ℤ fd sender)) [
            | inl own ↦
                let (out', x, xs', run') = later lt sent in (out', x, xs', rw (here, own) run')
            | inr other ↦ elim (Bool-cases (eqb_ℤ status success)) [
              | inl good ↦
                  let (out', x, xs', run') = later lt (sent ++ (fd, out) ∷ []) in
                  (out', x, xs', rw (here, other, run, good) run')
              | inr bad ↦
                  let (out', xs', run') =
                    share_loop-keeps k (i + 1) (sent ++ (fd, out) ∷ []) (pos i) [] (omega arith) in
                  (out', pos i, xs', rw (here, other, run, bad) run')
            ]
          ]
          | no ge ↦
              let at : i ≡ j = omega arith in
              let other = eqb_ℤ_ne fd sender (rw at ne) in
              let out = accepted (write i 0 info_size) (encode_info padding tfile_info) in
              let run = send_message_dead (write i) padding bytes tfile_info (rw at dead) in
              let (out', xs', run') =
                share_loop-keeps k (i + 1) (sent ++ (fd, out) ∷ []) (pos i) [] (omega arith) in
              (out', pos i, xs', rw (here, other, run) run')
        ]

-- When every connection is up and the headers go out whole, share_tfile_to_peers of a valid list
-- and a definition whose fields have the sizes of the C types sends the header and the definition
-- to every peer but the sender, in their order, leaves the peers as they were and frees the lock.
pub share_tfile_to_peers-Progresses :
    (write : ℕ → Kernel) (padding : List ℕ) (peers : Peers) (t : TfileDef) (sender : ℤ)
    → IsValid peers
    → IsDef t
    → ((i : ℕ) → Progresses (write i))
    → ((i : ℕ) → write i 0 info_size ≡ pos info_size)
    → share_tfile_to_peers write padding peers t sender
      ≡ ok (
        record peers { locked = false },
        to_each (encode_info padding tfile_info ++ encode_def t) (others sender (fds peers)),
      )
unfolding share_tfile_to_peers
share_tfile_to_peers-Progresses write padding peers t sender v def up header =
    rw
      (
        v.free,
        share_loop-Progresses write padding peers.arr sender (encode_def t)
            (length-encode_def t def) up header peers.size 0 [] (omega (arith, v.used)),
        remove_peers-nil (record peers { locked = true }),
      )
      refl

-- When the kernel takes no more than it is given, and the header does not go out whole to some peer
-- of a valid list other than the sender, share_tfile_to_peers of a definition whose fields have the
-- sizes of the C types does not return: it waits for the lock that it holds itself.
pub share_tfile_to_peers-deadlock :
    (write : ℕ → Kernel) (padding : List ℕ) (peers : Peers) (t : TfileDef) (sender : ℤ) (j : ℕ)
    → IsValid peers
    → IsDef t
    → ((i : ℕ) → Obeys (write i))
    → j < peers.size
    → get_or peers.arr j no_fd ≢ sender
    → write j 0 info_size ≢ pos info_size
    → share_tfile_to_peers write padding peers t sender ≡ fault deadlock
unfolding share_tfile_to_peers
share_tfile_to_peers-deadlock write padding peers t sender j v def obeys lt ne dead =
    let (out, x, xs, run) =
      share_loop-fails write padding peers.arr sender (encode_def t) (length-encode_def t def) obeys
        j peers.size 0 [] (omega (arith, v.used)) (omega arith) (omega arith) ne dead in
    rw (v.free, run, remove_peers-deadlock x (record peers { locked = true }) xs refl) refl
