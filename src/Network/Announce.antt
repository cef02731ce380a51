-- ===== src/Network/Announce.antt =====
-- The thread that `main` of src/client.c starts for a file of the command line, in the network.
use grintorrent.Base.{
  ℕ, ◌+◌, ◌≡◌, ◌≢◌, refl, sym, ap, inr, List, [], ◌∷◌, ◌++◌, map, arith, length, Run, ok, ◌>>=◌,
  ==-eq-false, false, ℕ_discrete,
}
use grintorrent.Base.Int.{pos, eqb_ℤ}
use grintorrent.Tfile.{TfileDef}
use grintorrent.Message.{Kernel, info_size, encode_info}
use grintorrent.Message.Send.{Progresses}
use grintorrent.Share.{tfile_info, share_tfile_to_peers}
use grintorrent.Share.Laws.{others, to_each, share_tfile_to_peers-Progresses}
use grintorrent.Share.Wire.{encode_def, IsDef}
use grintorrent.Main.{no_sender_peer}
use grintorrent.Network.{Network, packets, update}
use grintorrent.Network.Members.{Has, IsReady}
use grintorrent.Network.Deliveries.{broadcast, update_self, update_ne, broadcast-source}
use grintorrent.Network.Spread.{IsSpreading, mem-broadcast_target}

pub announce : (ℕ → Kernel) → List ℕ → TfileDef → ℕ → Network → Run Network
announce write padding t o net =
    let at = net.members o in
    do
      (peers, sent) ← share_tfile_to_peers write padding at.peers t no_sender_peer
      ok (record {
        members = update o (record { ht = at.ht; peers = peers }) net.members;
        flight = net.flight ++ packets o sent;
      })

eqb_ℤ-no_sender : (k : ℕ) → eqb_ℤ (pos k) no_sender_peer ≡ false
eqb_ℤ-no_sender k = ==-eq-false (k + 1) 0 (omega arith)

packets-everyone :
    (n : ℕ) (bytes ks : List ℕ)
    → packets n (to_each bytes (others no_sender_peer (map pos ks))) ≡ broadcast n bytes ks
unfolding to_each others broadcast
packets-everyone n bytes [] = refl
packets-everyone n bytes (k ∷ ks) =
    rw (eqb_ℤ-no_sender k)
      (ap (◌∷◌ (record { source = n; target = k; bytes = bytes })) (packets-everyone n bytes ks))

module _ (t : TfileDef) (neighbours : ℕ → List ℕ) (o : ℕ) where
  -- Only one node has the definition, and nothing is under way.
  pub record IsQuiet (net : Network) : Type 0 where
    pub ready : (n : ℕ) → IsReady t (neighbours n) (net.members n)
    pub none : net.flight ≡ []
    pub origin : Has t (net.members o).ht
    pub alone : (n : ℕ) → n ≢ o → ¬ Has t (net.members n).ht

  -- The network in which it is under way to all neighbours of that node.
  abbrev pub announced : List ℕ → Network → Network
  announced padding net = record {
    members =
        update o
          (record {
            ht = (net.members o).ht;
            peers = record (net.members o).peers { locked = false };
          })
          net.members;
    flight = broadcast o (encode_info padding tfile_info ++ encode_def t) (neighbours o);
  }

  pub announce_lem :
      (write : ℕ → Kernel) (padding : List ℕ) (net : Network)
      → IsQuiet net
      → IsDef t
      → ((k : ℕ) → Progresses (write k))
      → ((k : ℕ) → write k 0 info_size ≡ pos info_size)
      → announce write padding t o net ≡ ok (announced padding net)
  unfolding announce
  announce_lem write padding net quiet def up headers =
      let here = quiet.ready o in
      rw
        (
          share_tfile_to_peers-Progresses write padding (net.members o).peers t no_sender_peer
              here.peers def up headers,
          here.joined,
          packets-everyone o (encode_info padding tfile_info ++ encode_def t) (neighbours o),
          quiet.none,
        )
        refl

  module _ (padding : List ℕ) (seven : length padding ≡ 7) (net : Network)
      (quiet : IsQuiet net) where
    pub Has-announced : Has t ((announced padding net).members o).ht
    Has-announced = rw (update_self o _ net.members) quiet.origin

    has_origin : (n : ℕ) → Has t ((announced padding net).members n).ht → n ≡ o
    has_origin n has = elim (ℕ_discrete n o) [
      | yes e ↦ e
      | no ne ↦ absurd (quiet.alone n ne (rw (update_ne o _ net.members n ne) at has))
    ]

    IsReady-after : (n : ℕ) → IsReady t (neighbours n) ((announced padding net).members n)
    IsReady-after n = elim (ℕ_discrete n o) [
      | yes e ↦
          let here = quiet.ready o in
          rw (e, update_self o _ net.members)
            (record {
              table = here.table;
              peers = record {
                free = refl;
                positive = here.peers.positive;
                allocated = here.peers.allocated;
                used = here.peers.used;
              };
              joined = here.joined;
            })
      | no ne ↦ rw (update_ne o _ net.members n ne) (quiet.ready n)
    ]

    pub announced-IsSpreading : IsSpreading t neighbours (announced padding net)
    announced-IsSpreading = record {
      flood = record {
        ready = IsReady-after;
        carried = λ p mem. record {
          padding = padding;
          seven = seven;
          sent = (broadcast-source o _ (neighbours o) p mem).1;
        };
      };
      sources = λ p mem. rw (broadcast-source o _ (neighbours o) p mem).0 Has-announced;
      covered = λ n k has mem. inr (record {
        packet = record {
          source = o;
          target = k;
          bytes = encode_info padding tfile_info ++ encode_def t;
        };
        among =
            mem-broadcast_target o k (encode_info padding tfile_info ++ encode_def t) (neighbours o)
              (rw (has_origin n has) at mem);
        from = sym (has_origin n has);
        to = refl;
      });
    }
