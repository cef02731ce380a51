-- ===== src/Tests/Newcomers.antt =====
-- A node that joins and is sent two definitions, one of them twice.
use mathlib.Core.List.{Memᴰ}
use grintorrent.Base.{ℕ, ◌≡◌, ◌≢◌, refl, sym, some, [], ◌∷◌, ◌++◌, arith, ok}
use grintorrent.Base.Int.{pos}
use grintorrent.Tfile.{TfileDef, num_chunks, zero_digest, blank}
use grintorrent.Htable.{Htable, home, write_def, search_htable}
use grintorrent.Htable.Invariant.{vacancy}
use grintorrent.Share.{Sent, share_tfiles_to_peer}
use grintorrent.Share.Files.{AreDefs}
use grintorrent.Share.Wire.{IsDef}
use grintorrent.Worker.Read.{State, goes_on, read_rounds}
use grintorrent.Network.Members.{Has, Lacks, Has-Lacks, Has-write_def}
use grintorrent.Network.Joins.{
  joined, Takes, done, had, took, AllWork, share_tfiles_to_peer_arrives,
}
use grintorrent.Tests.Transfers.{round, connection, state, digest, digest_nonzero}
use grintorrent.Tests.Networks.{missing, round-Works}
use grintorrent.Tests.Races.{other_def}
use grintorrent.Tests.Data.{
  no_files, one_file-Absent, nonzero, other_digest, sum_md5, content_def, content_def-IsDef,
  zeros-AreDigests, sixteen, sixteen-Progresses, padding, three_peers, three_peers-IsValid,
  digest_of,
}

other_def-IsDef : IsDef other_def
other_def-IsDef = record {
  named = refl;
  whole = record { first = omega arith; second = omega arith };
  eight = refl;
  chunks = zeros-AreDigests num_chunks;
  small = (omega arith, omega arith);
}

other_nonzero : other_def.f_hash ≢ zero_digest
other_nonzero = nonzero other_def.f_hash refl

with_content : Has content_def (write_def no_files missing.slot content_def)
with_content = Has-Lacks content_def no_files missing digest_nonzero

other_missing : Lacks other_def (write_def no_files missing.slot content_def)
unfolding write_def vacancy home missing
other_missing = record {
  valid = with_content.valid;
  room = omega arith;
  absent =
      one_file-Absent (record blank { tdef = content_def }) other_def.f_hash
        (λ e. other_digest (digest_of 5) digest refl (sym e));
  slot = 2;
  free = refl;
}

definitions-AreDefs : AreDefs (content_def ∷ other_def ∷ content_def ∷ [])
unfolding AreDefs
definitions-AreDefs = (content_def-IsDef, (other_def-IsDef, (content_def-IsDef, tt)))

after_both : Htable
after_both = write_def (write_def no_files missing.slot content_def) other_missing.slot other_def

definitions-Takes : Takes (content_def ∷ other_def ∷ content_def ∷ []) no_files after_both
unfolding after_both
definitions-Takes = took digest_nonzero missing (
    took other_nonzero other_missing (
      had digest_nonzero
        (Has-write_def other_def content_def (write_def no_files missing.slot content_def)
          other_missing other_nonzero digest_nonzero with_content)
        done))

rounds-AllWork : AllWork (round ∷ round ∷ round ∷ [])
unfolding AllWork
rounds-AllWork = (round-Works, (round-Works, (round-Works, tt)))

share_tfiles_to_peer_arrives_example :
    (sent : Sent) × (share_tfiles_to_peer
        (λ k. sixteen)
        padding
        three_peers
        (content_def ∷ other_def ∷ content_def ∷ [])
        (pos 7)
      ≡ ok (three_peers, sent))
    × (s' : State) × (read_rounds sum_md5 connection
          (round ∷ round ∷ round ∷ [])
          (record (state no_files) { stream = joined sent ++ (9 ∷ []) })
        ≡ ok (goes_on s'))
    × (s'.stream ≡ 9 ∷ [])
    × ((t : TfileDef)
        → Memᴰ t (content_def ∷ other_def ∷ content_def ∷ [])
        → (i : ℕ) × (search_htable s'.ht t.f_hash ≡ ok (some i)))
share_tfiles_to_peer_arrives_example =
    share_tfiles_to_peer_arrives sum_md5 connection padding refl (λ k. sixteen) three_peers (pos 7)
      (content_def ∷ other_def ∷ content_def ∷ []) (round ∷ round ∷ round ∷ []) (state no_files)
      (9 ∷ []) after_both refl (λ k. sixteen-Progresses) (λ k. refl) definitions-AreDefs
      definitions-Takes rounds-AllWork refl three_peers-IsValid
