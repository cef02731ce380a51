-- ===== src/Worker/Connect/Laws.antt =====
-- New connections join the peers and are sent the listed files.
use mathlib.Core.List.{append_assoc, append-nil}
use grintorrent.Base.{
  ℕ, ◌+◌, ◌*◌, ◌≤◌, ◌<◌, ◌≡◌, ◌≢◌, refl, sym, ◌∙◌, ap, false, List, [], ◌∷◌, ◌++◌, arith, length,
  ok,
}
use grintorrent.Base.Int.{ℤ, pos, eqb_ℤ}
use grintorrent.Htable.{Htable}
use grintorrent.Htable.Invariant as Table
use grintorrent.File.Listing.Laws.{listed, Blanks, list_tfiles_lem}
use grintorrent.Message.{Kernel, info_size}
use grintorrent.Message.Send.{Progresses}
use grintorrent.Peers.{Peers}
use grintorrent.Peers.Add.{fds, IsValid, add_peer_lem}
use grintorrent.Peers.Remove.{fd_at, remove_peer_absent}
use grintorrent.Share.{Sent}
use grintorrent.Share.Files.{AreDefs, defs_to, share_tfiles_to_peer-Progresses}
use grintorrent.Socket.{no_socket}
use grintorrent.Worker.Connect.{connect_round, connect_worker}

module _ (fresh : ℤ) (padding : List ℕ) where
  -- What `connect_worker` sends for connections from round `k` on.
  unfoldable pub welcomes : (tables : ℕ → Htable) → ℕ → List ℤ → Sent
  welcomes tables k [] = []
  welcomes tables k (p ∷ ps) =
      defs_to padding p (listed (tables k).table) ++ welcomes tables (k + 1) ps

  -- None of the answers is -1.
  unfoldable pub Accepted : List ℤ → Type 0
  Accepted [] = Unit
  Accepted (p ∷ ps) = (eqb_ℤ p no_socket ≡ false) × Accepted ps

  -- A table of which the definitions can be listed and sent.
  pub record IsListed (ht : Htable) : Type 0 where
    pub valid : Table.IsValid ht
    pub blanks : Blanks ht
    pub defs : AreDefs (listed ht.table)

  connect_round_joins :
      (write : ℕ → Kernel) (ht : Htable) (peers : Peers) (p : ℤ)
      → ((i : ℕ) → Progresses (write i))
      → ((i : ℕ) → write i 0 info_size ≡ pos info_size)
      → IsListed ht
      → IsValid peers
      → peers.size < peers.capacity * 2
      → eqb_ℤ p no_socket ≡ false
      → (peers' : Peers) × (connect_round fresh padding write ht peers p
          ≡ ok (peers', defs_to padding p (listed ht.table), p ∷ []))
        × IsValid peers'
        × (fds peers' ≡ fds peers ++ p ∷ [])
        × (peers'.size ≡ peers.size + 1)
        × (peers'.capacity ≡ peers.capacity)
  unfolding connect_round
  connect_round_joins write ht peers p up header table v room good =
      let (joined, added, valid, same, count, width) = add_peer_lem fresh peers p v room in
      let shared =
        share_tfiles_to_peer-Progresses padding write joined p (listed ht.table) valid.free up
          header table.defs in
      (
        record joined { locked = false },
        rw (good, added, list_tfiles_lem ht table.valid table.blanks, shared) refl,
        record {
          free = refl;
          positive = valid.positive;
          allocated = valid.allocated;
          used = valid.used;
        },
        same,
        count,
        width,
      )

  -- While the connections are up, headers go out whole and in every round the definitions of the
  -- valid table can be listed and have fields of the C types' sizes, connectWorker puts all
  -- accepted sockets behind the peers of a valid list, as long as there are at most twice as many
  -- as the capacity, starts a readWorker for each, and sends to each every definition that its
  -- round's table lists, in order.
  pub connect_worker-joins :
      (write : ℕ → ℕ → Kernel) (tables : ℕ → Htable)
      → ((k i : ℕ) → Progresses (write k i))
      → ((k i : ℕ) → write k i 0 info_size ≡ pos info_size)
      → ((k : ℕ) → IsListed (tables k))
      → (ps : List ℤ) (k : ℕ) (peers : Peers) → Accepted ps
      → IsValid peers
      → peers.size + length ps ≤ peers.capacity * 2
      → (peers' : Peers) × (connect_worker fresh padding write tables k peers ps
          ≡ ok (peers', welcomes tables k ps, ps))
        × IsValid peers'
        × (fds peers' ≡ fds peers ++ ps)
  unfolding connect_worker welcomes Accepted
  connect_worker-joins write tables up header table [] k peers good v room =
      (peers, refl, v, sym (append-nil _))
  connect_worker-joins write tables up header table (p ∷ ps) k peers (one, good) v room =
      let (next, run, valid, same, count, width) =
        connect_round_joins (write k) (tables k) peers p (up k) (header k) (table k) v (omega arith)
          one in
      let (last, rest, valid', same') =
        connect_worker-joins write tables up header table ps (k + 1) next good valid
          (omega arith) in
      (
        last,
        rw (run, rest) refl,
        valid',
        same' ∙ ap (λ (xs : List ℤ). xs ++ ps) same ∙ append_assoc (fds peers) (p ∷ []) ps,
      )

  -- A connection that cannot be accepted changes nothing.
  pub connect_round_refused :
      (write : ℕ → Kernel) (ht : Htable) (peers : Peers)
      → IsValid peers
      → ((j : ℕ) → j < peers.size → fd_at peers j ≢ no_socket)
      → connect_round fresh padding write ht peers no_socket
        ≡ ok (record peers { locked = false }, [], [])
  unfolding connect_round
  connect_round_refused write ht peers v absent =
      rw (remove_peer_absent no_socket peers v absent) refl
