-- ===== src/Tests/Threads.antt =====
-- The theorems on threads that add peers.
use grintorrent.Base.{ℕ, refl, false, true, [], ◌∷◌, arith, ◌+◌}
use grintorrent.Base.Int.{ℤ, pos}
use grintorrent.Peers.{Peers}
use grintorrent.Peers.Threads.{
  before, tested, holding, written, Shared, move, test, acquire, write, Reach, here, step, Overruns,
}
use grintorrent.Peers.Threads.Laws.{IsGuarded, Reach-IsGuarded}
use grintorrent.Peers.Threads.Races.{add_peer-races}
use grintorrent.Tests.Data.{three_peers}

abbrev job : ℕ → ℤ
job t = pos (t + 20)

-- Every thread is about to call `add_peer`.
abbrev at_start : Shared
at_start = record { peers = three_peers; pc = λ t. before; log = [] }

nobody_inside : IsGuarded at_start
nobody_inside = record { taken = λ t now. absurd cc; alone = λ t u now then'. absurd cc }

abbrev four_peers : Peers
four_peers = record three_peers {
  size = 4;
  arr = pos 5 ∷ pos 6 ∷ pos 7 ∷ pos 21 ∷ [];
  locked = true;
}

-- Both threads have tested the size, and the first one has written.
abbrev one_written : Shared
one_written = record {
  peers = four_peers;
  pc =
      move 1 written
        (move 1 (holding false) (move 2 (tested false) (move 1 (tested false) (λ t. before))));
  log = pos 21 ∷ [];
}

written_by_one : Reach (pos 0) job at_start one_written
unfolding move
written_by_one =
    step (step (step (step here (test 1 refl)) (test 2 refl)) (acquire 1 false refl refl))
      (write 1 false four_peers refl refl)

Reach-IsGuarded_example : IsGuarded one_written
Reach-IsGuarded_example =
    Reach-IsGuarded (pos 0) job {s = at_start} {s' = one_written} written_by_one nobody_inside

add_peer-races_example : (s' : Shared) × Reach (pos 0) job at_start s' × Overruns (pos 0) job s'
add_peer-races_example =
    add_peer-races (pos 0) job {s = at_start} 1 2 (λ e. omega (arith, e)) refl refl refl refl refl
