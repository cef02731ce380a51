-- ===== src/Main/Laws.antt =====
-- What a node starts with.
use grintorrent.Base.{
  ℕ, ◌*◌, ◌%◌, ◌^◌, ◌<◌, ◌≡◌, refl, ◌∙◌, ap, false, none, some, List, [], ◌∷◌, ◌++◌, arith, Run, ok,
}
use grintorrent.Base.Int.{ℤ, pos, eqb_ℤ}
use grintorrent.System.{Md5}
use grintorrent.Tfile.{TfileDef}
use grintorrent.Htable.{Htable, init_htable}
use grintorrent.Htable.Invariant as Table
use grintorrent.Htable.Search.{init_htable-IsValid}
use grintorrent.File.Generate.{generate_tfile}
use grintorrent.Message.{info_size, encode_info}
use grintorrent.Message.Send.{Progresses}
use grintorrent.Peers.Add.{fds, IsValid, add_peer_lem}
use grintorrent.Share.{tfile_info}
use grintorrent.Share.Laws.{others, to_each, share_tfile_to_peers-Progresses}
use grintorrent.Share.Wire.{encode_def, IsDef}
use grintorrent.Socket.{no_socket, nonzero, socket_connect, server_socket_open}
use grintorrent.CommandLine.{CmdArgs, goes_on, read_args}
use grintorrent.Main.{
  Machine, initial_peers, no_sender_peer, Node, Start, started, join_peer, share_file, start, serve,
  main,
}

initial_peers-IsValid : (fresh : ℤ) → IsValid (initial_peers fresh)
unfolding initial_peers
initial_peers-IsValid fresh = record {
  free = refl;
  positive = omega arith;
  allocated = omega arith;
  used = omega arith;
}

room : (fresh : ℤ) → (initial_peers fresh).size < (initial_peers fresh).capacity * 2
unfolding initial_peers
room fresh = omega arith

none_yet : (fresh : ℤ) → fds (initial_peers fresh) ≡ []
unfolding initial_peers
none_yet fresh = refl

one_peer :
    (peer : ℤ) (message : List ℕ)
    → eqb_ℤ peer no_sender_peer ≡ false
    → to_each message (others no_sender_peer (peer ∷ [])) ≡ (peer, message) ∷ []
unfolding to_each others
one_peer peer message good = rw good refl

-- The server's socket is open and listens, and the arguments are accepted.
pub record Listens (sys : Machine) (args : CmdArgs) (fd : ℤ) (port : ℕ) (opened : List ℤ)
    : Type 0 where
  pub serves : server_socket_open sys.net 0 [] ≡ (fd, port, opened)
  pub is_socket : eqb_ℤ fd no_socket ≡ false
  pub listens : nonzero (sys.listen fd) ≡ false
  pub accepts : read_args sys.strdup sys.getopt sys.extra ≡ goes_on args

module _ (sys : Machine) (m : Md5) (args : CmdArgs) (fd : ℤ) (port : ℕ) (opened : List ℤ)
    (listening : Listens sys args fd port opened) where
  main-start : main sys m ≡ start sys m args fd port opened
  unfolding main serve
  main-start =
      ap (serve sys m) listening.serves
      ∙ rw (listening.is_socket, listening.listens, listening.accepts) refl

  -- Without a peer and without a file a node starts with a valid table, no peers, and sends nothing.
  pub main_alone :
      args.peer_p ≡ none
      → args.file_p ≡ none
      → (node : Node) × (main sys m ≡ ok (started node))
        × Table.IsValid node.ht
        × IsValid node.peers
        × (fds node.peers ≡ [])
        × (node.sent ≡ [])
        × (node.network_port ≡ port)
  unfolding start join_peer share_file
  main_alone no_peer no_file =
      let joins_none : join_peer sys args (initial_peers sys.fresh) opened
          ≡ ok (some (initial_peers sys.fresh, [])) =
        rw no_peer refl in
      let shares_none : share_file sys m args init_htable (initial_peers sys.fresh)
          ≡ ok (init_htable, initial_peers sys.fresh, []) =
        rw no_file refl in
      (
        record {
          ht = init_htable;
          peers = initial_peers sys.fresh;
          sent = [];
          watched = [];
          server_fd = fd;
          network_port = port;
        },
        main-start ∙ rw (joins_none, shares_none) refl,
        init_htable-IsValid,
        initial_peers-IsValid sys.fresh,
        none_yet sys.fresh,
        refl,
        refl,
      )

  -- When the server's socket listens, the command line is accepted with a peer, a port and a file,
  -- and the peer can be connected, then main adds the peer, keeps the table that generate_tfile
  -- leaves, starts one readWorker for the peer, and sends it the header and whatever definition
  -- generate_tfile leaves in new_tfile, whichever status it returns, if its fields have the sizes
  -- of the C types, the connection is up and the header goes out whole.
  pub main_shares :
      (host port_text path : List ℕ) (peer : ℤ) (opened' : List ℤ) (status : ℤ) (t : TfileDef)
      (ht : Htable)
      → args.peer_p ≡ some host
      → args.port_p ≡ some port_text
      → args.file_p ≡ some path
      → socket_connect sys.net host (sys.atoi port_text % 2 ^ 16) opened ≡ ok (peer, opened')
      → eqb_ℤ peer no_socket ≡ false
      → generate_tfile sys.calloc sys.add_fuel m sys.os init_htable sys.stack_tfile path
          (path ++ 0 ∷ [])
        ≡ ok (status, t, ht)
      → IsDef t
      → ((i : ℕ) → Progresses (sys.write i))
      → ((i : ℕ) → sys.write i 0 info_size ≡ pos info_size)
      → (node : Node) × (main sys m ≡ ok (started node))
        × (node.ht ≡ ht)
        × (fds node.peers ≡ peer ∷ [])
        × (node.watched ≡ peer ∷ [])
        × (node.sent ≡ (peer, encode_info sys.padding tfile_info ++ encode_def t) ∷ [])
  unfolding main start join_peer share_file
  main_shares host port_text path peer opened' status t ht has_host has_port has_file up good made
        def writes headers =
      let v = initial_peers-IsValid sys.fresh in
      let (joined, added, valid, same, count, width) =
        add_peer_lem sys.fresh (initial_peers sys.fresh) peer v (room sys.fresh) in
      let only : fds joined ≡ peer ∷ [] =
        same ∙ ap (λ (xs : List ℤ). xs ++ peer ∷ []) (none_yet sys.fresh) in
      let message = encode_info sys.padding tfile_info ++ encode_def t in
      let shared =
        share_tfile_to_peers-Progresses sys.write sys.padding joined t no_sender_peer valid def
          writes headers in
      let joined_it : join_peer sys args (initial_peers sys.fresh) opened
          ≡ ok (some (joined, peer ∷ [])) =
        rw (has_host, has_port, up, good, added) refl in
      let shared_it : share_file sys m args init_htable joined
          ≡ ok (
            ht,
            record joined { locked = false },
            to_each message (others no_sender_peer (fds joined)),
          ) =
        rw (has_file, made, shared) refl in
      (
        record {
          ht = ht;
          peers = record joined { locked = false };
          sent = (peer, encode_info sys.padding tfile_info ++ encode_def t) ∷ [];
          watched = peer ∷ [];
          server_fd = fd;
          network_port = port;
        },
        main-start
            ∙ rw (joined_it, shared_it)
                (ap
                  (λ (xs : List (ℤ × List ℕ)).
                    let r : Run Start = ok (
                      started (record {
                        ht = ht;
                        peers = record joined { locked = false };
                        sent = xs;
                        watched = peer ∷ [];
                        server_fd = fd;
                        network_port = port;
                      })) in
                    r)
                  (ap (λ (fds : List ℤ). to_each message (others no_sender_peer fds)) only
                    ∙ one_peer peer message good)),
        refl,
        only,
        refl,
        refl,
      )
