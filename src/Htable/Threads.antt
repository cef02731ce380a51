-- ===== src/Htable/Threads.antt =====
-- `add_htable` of src/htable.c as the readWorker threads run it on the one table: no lock is taken
-- between the loop that looks for an entry and the write into it.
pub mod Laws
pub mod Apart
use grintorrent.Base.{ℕ, ◌==◌, Option, none, some, List, [], ◌∷◌, if◌then◌else◌, Run, ok, ◌>>=◌}
use grintorrent.Tfile.{TfileDef}
use grintorrent.Htable.{Htable, Found, home, probe, rounds, write_def}

-- Where a thread is: before the loop, in front of the write into the entry that it found, or back
-- with the pointer that is returned.
pub data Phase : Type 0 where
  looks : TfileDef → Phase
  writes : TfileDef → ℕ → Phase
  returns : Option ℕ → Phase

-- The table, and where every thread is.
pub record SharedTable : Type 0 where
  pub ht : Htable
  pub phase : ℕ → Phase

unfoldable pub set_phase : ℕ → Phase → (ℕ → Phase) → ℕ → Phase
set_phase k p phase j = if j == k then p else phase j

-- What a thread does next, in a table that need not grow.
unfoldable pub advance : Htable → Phase → Run (Phase × Htable)
advance ht (looks t) = do
  r ← probe ht t.f_hash (rounds ht) (home ht t.f_hash)
  elim r [ Found.vacant i ↦ ok (writes t i, ht) | Found.present i ↦ ok (returns none, ht) ]
advance ht (writes t i) = ok (returns (some i), write_def ht i t)
advance ht (returns o) = ok (returns o, ht)

-- The threads take steps in this order.
unfoldable pub schedule : List ℕ → SharedTable → Run SharedTable
schedule [] s = ok s
schedule (k ∷ ks) s = do
  (p, ht) ← advance s.ht (s.phase k)
  schedule ks (record { ht = ht; phase = set_phase k p s.phase })
