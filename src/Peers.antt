-- ===== src/Peers.antt =====
-- `peers_t` of src/client.h with `add_peer`, `remove_peer` and `remove_peers` of src/client.c: the
-- sockets of the peers, behind a lock.
pub mod Add
pub mod Remove
pub mod Threads
use grintorrent.Base.{
  ℕ, zero, suc, ◌+◌, ◌-◌, ◌*◌, Bool, true, false, List, [], ◌∷◌, ◌++◌, leb, if◌then◌else◌, length,
  get_elem?, set, take, replicate, Run, ok, fault, out_of_bounds, deadlock, ltb, ◌>>=◌, in_bounds,
}
use grintorrent.Base.Int.{ℤ, pos, eqb_ℤ}

-- `peers_t`. `arr` is the whole allocation, of which the first `size` entries are in use.
pub record Peers : Type 0 where
  pub locked : Bool
  pub capacity : ℕ
  pub size : ℕ
  pub arr : List ℤ

-- `pthread_mutex_lock` of a default mutex that the same thread holds never returns.
abbrev pub lock : Peers → Run Peers
lock peers = if peers.locked then fault deadlock else ok (record peers { locked = true })

abbrev pub unlock : Peers → Peers
unlock peers = record peers { locked = false }

-- `realloc`; `fresh` stands in the memory that is new.
abbrev pub realloc : ℤ → ℕ → List ℤ → List ℤ
realloc fresh n arr = take n arr ++ replicate (n - length arr) fresh

-- `peers->arr[peers->size++] = peer`
abbrev pub append : Peers → ℤ → Run Peers
append peers peer =
    if ltb peers.size (length peers.arr)
    then ok (record peers { size = peers.size + 1; arr = set peers.arr peers.size peer })
    else fault out_of_bounds

unfoldable pub add_peer : ℤ → Peers → ℤ → Run Peers
add_peer fresh peers peer =
    if leb peers.capacity peers.size
    then (do
      held ← lock peers
      peers' ← append (record held { arr = realloc fresh (held.capacity * 2) held.arr }) peer
      ok (unlock peers'))
    else (do held ← lock peers; peers' ← append held peer; ok (unlock peers'))

-- `for (int i = 0; i < peers->size; i++)`, with the rounds left
pub remove_loop : ℕ → ℕ → Peers → ℤ → Run Peers
remove_loop zero i peers peer = ok peers
remove_loop (suc k) i peers peer =
    let next = remove_loop k (i + 1) peers peer in
    do
      fd ← in_bounds (get_elem? peers.arr i)
      if eqb_ℤ fd peer
          then (do
            last ← in_bounds (get_elem? peers.arr (peers.size - 1))
            ok (record peers { size = peers.size - 1; arr = set peers.arr i last }))
          else next

pub remove_peer : Peers → ℤ → Run Peers
remove_peer peers peer = do
  held ← lock peers
  peers' ← remove_loop held.size 0 held peer
  ok (unlock peers')

pub remove_peers : Peers → List ℤ → Run Peers
remove_peers peers [] = ok peers
remove_peers peers (p ∷ ps) = do peers' ← remove_peer peers p; remove_peers peers' ps
