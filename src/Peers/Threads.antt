-- ===== src/Peers/Threads.antt =====
-- `add_peer` of src/client.c as threads run it, statement by statement: every one reads the size before
-- it has the lock.
pub mod Laws
pub mod Log
pub mod Races
use grintorrent.Base.{
  ℕ, ◌*◌, ◌≡◌, ◌==◌, Bool, true, false, List, [], ◌∷◌, ◌++◌, if◌then◌else◌, leb, Run, ok, fault,
  out_of_bounds,
}
use grintorrent.Base.Int.{ℤ}
use grintorrent.Peers.{Peers, realloc, append, unlock}

-- Where a thread is: before the test of the size, at the end, behind the test with its result, in front
-- of the write with the lock, or in front of the unlock.
pub data Pc : Type 0 where
  before finished : Pc
  tested : Bool → Pc
  holding : Bool → Pc
  written : Pc

-- The peers, where every thread is, and, which the code does not keep, the sockets that were written, in
-- their order.
pub record Shared : Type 0 where
  pub peers : Peers
  pub pc : ℕ → Pc
  pub log : List ℤ

unfoldable pub move : ℕ → Pc → (ℕ → Pc) → ℕ → Pc
move t p pc u = if u == t then p else pc u

-- The `realloc` of the branch in which the list was full
abbrev pub grown : ℤ → Bool → Peers → Peers
grown fresh true peers = record peers { arr = realloc fresh (peers.capacity * 2) peers.arr }
grown fresh false peers = peers

module _ (fresh : ℤ) (job : ℕ → ℤ) where
  -- A step of thread `t`, which adds the socket `job t`.
  pub data Step : Shared → Shared → Type 0 where
    test :
        {s : Shared} (t : ℕ)
        → s.pc t ≡ before
        → Step s (record s { pc = move t (tested (leb s.peers.capacity s.peers.size)) s.pc })
    acquire :
        {s : Shared} (t : ℕ) (full : Bool)
        → s.pc t ≡ tested full
        → s.peers.locked ≡ false
        → Step s
            (record s { peers = record s.peers { locked = true }; pc = move t (holding full) s.pc })
    write :
        {s : Shared} (t : ℕ) (full : Bool) (next : Peers)
        → s.pc t ≡ holding full
        → append (grown fresh full s.peers) (job t) ≡ ok next
        → Step s (record s { peers = next; pc = move t written s.pc; log = s.log ++ job t ∷ [] })
    release :
        {s : Shared} (t : ℕ)
        → s.pc t ≡ written
        → Step s (record s { peers = unlock s.peers; pc = move t finished s.pc })

  pub data Reach : Shared → Shared → Type 0 where
    here : {s : Shared} → Reach s s
    step : {s u v : Shared} → Reach s u → Step u v → Reach s v

  -- A thread is about to write outside of the array.
  abbrev pub Overruns : Shared → Type 0
  Overruns s =
      (t : ℕ) × (full : Bool) × (s.pc t ≡ holding full)
      × (append (grown fresh full s.peers) (job t) ≡ fault out_of_bounds)
