-- ===== src/Worker/Connect.antt =====
-- `connectWorker` of src/client.c. The thread that it starts to share the files is run to its end
-- before the next connection; the sockets for which it starts a `readWorker` are a result.
pub mod Laws
use grintorrent.Base.{ℕ, suc, ◌+◌, List, [], ◌∷◌, ◌++◌, if◌then◌else◌, Run, ok, ◌>>=◌}
use grintorrent.Base.Int.{ℤ, eqb_ℤ}
use grintorrent.Htable.{Htable}
use grintorrent.File.Listing.{list_tfiles}
use grintorrent.Message.{Kernel}
use grintorrent.Peers.{Peers, add_peer, remove_peer}
use grintorrent.Share.{Sent, share_tfiles_to_peer}
use grintorrent.Socket.{no_socket}

-- `fresh` is what `realloc` leaves in new memory.
module _ (fresh : ℤ) (padding : List ℕ) where
  -- A round of `while (true)`, for what `server_socket_accept` returned
  pub connect_round :
      (write : ℕ → Kernel) → Htable → Peers → (client_socket_fd : ℤ) → Run (Peers × Sent × List ℤ)
  connect_round write ht peers client_socket_fd =
      if eqb_ℤ client_socket_fd no_socket
      then (do left ← remove_peer peers client_socket_fd; ok (left, [], []))
      else (do
        joined ← add_peer fresh peers client_socket_fd
        tfile_arr ← list_tfiles ht
        (left, sent) ← share_tfiles_to_peer write padding joined tfile_arr client_socket_fd
        ok (left, sent, client_socket_fd ∷ []))

  -- The rounds for what `server_socket_accept` returns one after the other. The system's answers and
  -- the table are given for every round.
  pub connect_worker :
      (write : ℕ → ℕ → Kernel) (tables : ℕ → Htable)
      → ℕ
      → Peers
      → (accepts : List ℤ) → Run (Peers × Sent × List ℤ)
  connect_worker write tables k peers [] = ok (peers, [], [])
  connect_worker write tables k peers (fd ∷ fds) = do
    (peers', sent, watched) ← connect_round (write k) (tables k) peers fd
    (left, sent', watched') ← connect_worker write tables (k + 1) peers' fds
    ok (left, sent ++ sent', watched ++ watched')
