-- ===== src/Htable/Threads/Apart.antt =====
-- Two threads that add files whose first empty entries are different.
use grintorrent.Base.{ℕ, ◌≡◌, ◌≢◌, ◌⊎◌, some}
use grintorrent.Tfile.{TfileDef, Tfile, zero_digest}
use grintorrent.Htable.{Htable, home, write_def}
use grintorrent.Htable.Probe.{key}
use grintorrent.Htable.Invariant.{IsValid, Absent, vacancy}
use grintorrent.Htable.Insert.{key_cases}
use grintorrent.Htable.Threads.{looks, SharedTable}

module _ (s : SharedTable) (a b : ℕ) (t u : TfileDef) (i j : ℕ) (v : IsValid s.ht) (apart : a ≢ b)
    (nz : t.f_hash ≢ zero_digest) (nz' : u.f_hash ≢ zero_digest) (differ : t.f_hash ≢ u.f_hash)
    (absent : Absent s.ht t.f_hash) (absent' : Absent s.ht u.f_hash) (other : i ≢ j)
    (here : vacancy s.ht.table (home s.ht t.f_hash) ≡ some i)
    (here' : vacancy s.ht.table (home s.ht u.f_hash) ≡ some j) (first : s.phase a ≡ looks t)
    (second : s.phase b ≡ looks u) where
  abbrev one : Htable
  one = write_def s.ht i t

  abbrev keys : (k : ℕ) → ((k ≡ i) × (key one k ≡ t.f_hash)) ⊎ ((i ≢ k) × (key one k ≡ key s.ht k))
  keys = key_cases v t nz absent i here
