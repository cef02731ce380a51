-- ===== src/Share/Files.antt =====
-- `share_tfiles_to_peer`: one peer is sent several definitions.
use mathlib.Core.List.{append_assoc, append-nil}
use grintorrent.Base.{
  ℕ, ◌+◌, ◌≡◌, refl, ◌∙◌, ap, true, false, List, [], ◌∷◌, ◌++◌, arith, take-length, Run, ok,
}
use grintorrent.Base.Int.{ℤ, pos}
use grintorrent.Tfile.{TfileDef}
use grintorrent.Message.{Kernel, info_size, encode_info}
use grintorrent.Message.Send.{Progresses, send_message-Progresses}
use grintorrent.Peers.{Peers}
use grintorrent.Share.{Sent, tfile_info, share_files, share_tfiles_to_peer}
use grintorrent.Share.Wire.{def_size, encode_def, IsDef, length-encode_def}

-- Definitions as C holds them.
unfoldable pub AreDefs : List TfileDef → Type 0
AreDefs [] = Unit
AreDefs (t ∷ ts) = IsDef t × AreDefs ts

module _ (padding : List ℕ) where
  -- The messages with definitions, to one socket.
  unfoldable pub defs_to : ℤ → List TfileDef → Sent
  defs_to fd [] = []
  defs_to fd (t ∷ ts) = (fd, encode_info padding tfile_info ++ encode_def t) ∷ defs_to fd ts

  share_files-Progresses :
      (write : ℕ → Kernel) (peers : Peers) (peer : ℤ)
      → ((i : ℕ) → Progresses (write i))
      → ((i : ℕ) → write i 0 info_size ≡ pos info_size)
      → (ts : List TfileDef) (i : ℕ) (sent : Sent) → AreDefs ts
      → share_files write padding peers peer i ts sent ≡ ok (peers, sent ++ defs_to peer ts)
  unfolding share_files AreDefs defs_to
  share_files-Progresses write peers peer up header [] i sent defs = rw (append-nil sent) refl
  share_files-Progresses write peers peer up header (t ∷ ts) i sent (def, defs) =
      let long = length-encode_def t def in
      let out = encode_info padding tfile_info ++ encode_def t in
      let run =
        send_message-Progresses (write i) padding (encode_def t) tfile_info (up i) (header i)
          (omega (arith, long)) in
      rw (run, take-length def_size (encode_def t) (omega (arith, long)))
        (share_files-Progresses write peers peer up header ts (i + 1) (sent ++ (peer, out) ∷ [])
            defs
          ∙ ap (λ (all : Sent). let r : Run (Peers × Sent) = ok (peers, all) in r)
              (append_assoc sent ((peer, out) ∷ []) (defs_to peer ts)))

  pub share_tfiles_to_peer-Progresses :
      (write : ℕ → Kernel) (peers : Peers) (peer : ℤ) (ts : List TfileDef)
      → peers.locked ≡ false
      → ((i : ℕ) → Progresses (write i))
      → ((i : ℕ) → write i 0 info_size ≡ pos info_size)
      → AreDefs ts
      → share_tfiles_to_peer write padding peers ts peer
        ≡ ok (record peers { locked = false }, defs_to peer ts)
  unfolding share_tfiles_to_peer
  share_tfiles_to_peer-Progresses write peers peer ts free up header defs =
      rw
        (
          free,
          share_files-Progresses write (record peers { locked = true }) peer up header ts 0 [] defs,
        )
        refl
