-- ===== src/Share.antt =====
-- `share_tfile_to_peers` and `share_tfiles_to_peer` of src/client.c: torrent file definitions go out
-- to the peers. What goes out is a list of sockets with bytes.
pub mod Wire
pub mod Laws
pub mod Files
use grintorrent.Base.{
  ℕ, zero, suc, ◌+◌, Bool, Option, some, List, [], ◌∷◌, ◌++◌, if◌then◌else◌, get_elem?, Run, ok,
  ◌>>=◌, in_bounds,
}
use grintorrent.Base.Int.{ℤ, pos, eqb_ℤ}
use grintorrent.Tfile.{TfileDef}
use grintorrent.Message.{Kernel, MessageInfo, tfile_def, send_message, success}
use grintorrent.Peers.{Peers, lock, unlock, remove_peer, remove_peers}
use grintorrent.Share.Wire.{def_size, encode_def}

abbrev pub Sent : Type 0
Sent = List (ℤ × List ℕ)

abbrev pub tfile_info : MessageInfo
tfile_info = record { type = tfile_def; size = def_size }

-- The system's answers to the calls for the peer, or the file, at an index, and the padding bytes
-- of the headers.
module _ (write : ℕ → Kernel) (padding : List ℕ) where
  -- `for (int i = 0; i < data.peers->size; i++)`, with the rounds left. The last list is
  -- `peers_to_remove`, into which the code puts indices.
  pub share_loop : List ℤ → ℤ → List ℕ → ℕ → ℕ → Sent → List ℤ → Run (Sent × List ℤ)
  share_loop arr sender bytes zero i sent failing = ok (sent, failing)
  share_loop arr sender bytes (suc k) i sent failing =
      let skip = share_loop arr sender bytes k (i + 1) sent failing in
      do
        fd ← in_bounds (get_elem? arr i)
        if eqb_ℤ fd sender then skip else (do
          (status, out) ← send_message (write i) padding tfile_info (some bytes)
          share_loop arr sender bytes k (i + 1) (sent ++ (fd, out) ∷ [])
              (if eqb_ℤ status success then failing else failing ++ pos i ∷ []))

  -- `data.peers` is the one list of peers, which `remove_peers` changes.
  pub share_tfile_to_peers : Peers → TfileDef → (sender : ℤ) → Run (Peers × Sent)
  share_tfile_to_peers peers tfile sender = do
    held ← lock peers
    (sent, failing) ← share_loop held.arr sender (encode_def tfile) held.size 0 [] []
    left ← remove_peers held failing
    ok (unlock left, sent)

  -- `for (int i = 0; i < data.count; i++)` over what is left of `tfile_arr`
  pub share_files : Peers → ℤ → ℕ → List TfileDef → Sent → Run (Peers × Sent)
  share_files peers peer i [] sent = ok (peers, sent)
  share_files peers peer i (t ∷ ts) sent = do
    (status, out) ← send_message (write i) padding tfile_info (some (encode_def t))
    peers' ← (if eqb_ℤ status success then ok peers else remove_peer peers peer)
    share_files peers' peer (i + 1) ts (sent ++ (peer, out) ∷ [])

  pub share_tfiles_to_peer : Peers → List TfileDef → (peer : ℤ) → Run (Peers × Sent)
  share_tfiles_to_peer peers tfile_arr peer = do
    held ← lock peers
    (left, sent) ← share_files held peer 0 tfile_arr []
    ok (unlock left, sent)
