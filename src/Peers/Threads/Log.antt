-- ===== src/Peers/Threads/Log.antt =====
-- What threads write one after the other.
use grintorrent.Base.{◌≤◌, ◌≡◌, List, ◌++◌, length}
use grintorrent.Base.Int.{ℤ}
use grintorrent.Peers.{Peers}
use grintorrent.Peers.Add.{fds}
use grintorrent.Peers.Threads.{Shared}

-- The sockets in use are those of the start and then the written ones.
pub record Logged (old : List ℤ) (s : Shared) : Type 0 where
  pub used : s.peers.size ≤ length s.peers.arr
  pub contents : fds s.peers ≡ old ++ s.log
