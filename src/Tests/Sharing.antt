-- ===== src/Tests/Sharing.antt =====
-- The theorems on the peers and on what is shared with them.
use mathlib.Core.List.{Perm}
use grintorrent.Base.{
  ℕ, suc, ◌<◌, ◌≡◌, ◌≢◌, refl, sym, ap, false, ◌⊎◌, [], ◌∷◌, ◌++◌, arith, replicate, ok, fault,
  out_of_bounds, deadlock,
}
use grintorrent.Base.Int.{pos, negsuc, neg_part}
use grintorrent.Message.{Kernel, encode_info}
use grintorrent.Peers.{Peers, remove_peer}
use grintorrent.Peers.Add.{fds, IsValid, no_fd, add_all, add_all_overruns}
use grintorrent.Peers.Remove.{fd_at, remove_peer_lem}
use grintorrent.Share.{tfile_info, share_tfile_to_peers}
use grintorrent.Share.Laws.{
  others, to_each, share_tfile_to_peers-Progresses, share_tfile_to_peers-deadlock,
}
use grintorrent.Share.Wire.{encode_def}
use grintorrent.Tests.Data.{
  content_def-IsDef, three_peers, three_peers-IsValid, content_def, sixteen, sixteen-Progresses,
  padding,
}

-- The list as `main` makes it.
abbrev no_peers : Peers
no_peers = record { locked = false; capacity = 100; size = 0; arr = replicate 100 (pos 0) }

no_peers-IsValid : IsValid no_peers
no_peers-IsValid = record {
  free = refl;
  positive = omega arith;
  allocated = omega arith;
  used = omega arith;
}

add_all_overruns_example : add_all (pos 0) no_peers (replicate 201 (pos 9)) ≡ fault out_of_bounds
add_all_overruns_example =
    add_all_overruns (pos 0) (replicate 201 (pos 9)) no_peers no_peers-IsValid (omega arith)
      (omega arith)

remove_peer_lem_example :
    (peers' : Peers) × (remove_peer three_peers (pos 5) ≡ ok peers')
    × IsValid peers'
    × (((fds peers' ≡ fds three_peers) × ¬ ((j : ℕ) × (j < 3) × (fd_at three_peers j ≡ pos 5)))
        ⊎ Perm (fds three_peers) (pos 5 ∷ fds peers'))
remove_peer_lem_example = remove_peer_lem (pos 5) three_peers three_peers-IsValid

share_tfile_to_peers-Progresses_example :
    share_tfile_to_peers (λ i. sixteen) padding three_peers content_def (pos 6)
    ≡ ok (
      three_peers,
      to_each (encode_info padding tfile_info ++ encode_def content_def) (pos 5 ∷ pos 7 ∷ []),
    )
unfolding others
share_tfile_to_peers-Progresses_example =
    share_tfile_to_peers-Progresses (λ i. sixteen) padding three_peers content_def (pos 6)
      three_peers-IsValid content_def-IsDef (λ i. sixteen-Progresses) (λ i. refl)

-- Every `write` fails.
abbrev down : Kernel
down k n = negsuc 0

share_tfile_to_peers-deadlock_example :
    share_tfile_to_peers (λ i. down) padding three_peers content_def no_fd ≡ fault deadlock
share_tfile_to_peers-deadlock_example =
    share_tfile_to_peers-deadlock (λ i. down) padding three_peers content_def no_fd 0
      three_peers-IsValid content_def-IsDef (λ i k n rc e. absurd (apart e)) (omega arith)
      (λ e. apart (sym e)) (λ e. apart e)
  where
    apart : {a b : ℕ} → negsuc a ≢ pos b
    apart {a} {b} e = let same : suc a ≡ 0 = ap neg_part e in absurd (omega (arith, same))
