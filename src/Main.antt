-- ===== src/Main.antt =====
-- `main` of src/client.c up to the point where it starts to accept connections and the screen. The
-- thread that shares a file is run to its end.
pub mod Laws
pub mod Display
use grintorrent.Base.{
  ℕ, ◌%◌, ◌^◌, Bool, Option, none, some, List, [], ◌∷◌, ◌++◌, if◌then◌else◌, replicate, Run, ok,
  ◌>>=◌, deref,
}
use grintorrent.Base.Int.{ℤ, negsuc, eqb_ℤ}
use grintorrent.System.{Md5, Os}
use grintorrent.Tfile.{TfileDef}
use grintorrent.Htable.{Htable, init_htable}
use grintorrent.File.Generate.{generate_tfile}
use grintorrent.Message.{Kernel}
use grintorrent.Peers.{Peers, add_peer}
use grintorrent.Share.{Sent, share_tfile_to_peers}
use grintorrent.Socket.{Net, no_socket, nonzero, socket_connect, server_socket_open}
use grintorrent.CommandLine.{CmdArgs, Parsed, goes_on, exits, exit_failure, read_args}

-- What the system answers, and what memory holds that is not set.
pub record Machine : Type 0 where
  pub net : Net
  pub listen : ℤ → ℤ
  pub getopt : List (ℕ × List ℕ)
  -- `optind < argc`
  pub extra : Bool
  pub strdup : List ℕ → Option (List ℕ)
  pub atoi : List ℕ → ℕ
  pub os : Os
  pub calloc : ℕ → Bool
  pub add_fuel : ℕ
  pub write : ℕ → Kernel
  pub padding : List ℕ
  -- what stands in the new array of peers, and in `new_tfile`
  pub fresh : ℤ
  pub stack_tfile : TfileDef

-- `NO_SENDER_PEER`
abbrev pub no_sender_peer : ℤ
no_sender_peer = negsuc 0

-- `peers`, with the array that `main` gives it
pub initial_peers : ℤ → Peers
initial_peers fresh = record {
  locked = Bool.false;
  capacity = 100;
  size = 0;
  arr = replicate 100 fresh;
}

-- The table, the peers, what went out, the sockets that a `readWorker` watches, and the socket and the
-- port of the server.
pub record Node : Type 0 where
  pub ht : Htable
  pub peers : Peers
  pub sent : Sent
  pub watched : List ℤ
  pub server_fd : ℤ
  pub network_port : ℕ

pub data Start : Type 0 where
  started : Node → Start
  quits : ℕ → Start

module _ (sys : Machine) where
  -- "Connect to peer if given in startup"; `none` for an exit
  pub join_peer : CmdArgs → Peers → List ℤ → Run (Option (Peers × List ℤ))
  join_peer args peers opened = elim args.peer_p [
    | none ↦ ok (some (peers, []))
    | some host ↦ do
      port ← deref args.port_p
      (host_peer, opened') ← socket_connect sys.net host (sys.atoi port % 2 ^ 16) opened
      if eqb_ℤ host_peer no_socket
          then ok none
          else (do peers' ← add_peer sys.fresh peers host_peer; ok (some (peers', host_peer ∷ [])))
  ]

  -- "file was specified and must be added to current list of files". The status of `generate_tfile` is
  -- not looked at.
  pub share_file : Md5 → CmdArgs → Htable → Peers → Run (Htable × Peers × Sent)
  share_file m args ht peers = elim args.file_p [
    | none ↦ ok (ht, peers, [])
    | some path ↦ do
      (status, new_tfile, ht') ←
          generate_tfile sys.calloc sys.add_fuel m sys.os ht sys.stack_tfile path (path ++ 0 ∷ [])
      (peers', sent) ← share_tfile_to_peers sys.write sys.padding peers new_tfile no_sender_peer
      ok (ht', peers', sent)
  ]

  -- Behind the checks of the arguments
  pub start : Md5 → CmdArgs → (server_fd : ℤ) → (network_port : ℕ) → List ℤ → Run Start
  start m args server_fd network_port opened = do
    joined ← join_peer args (initial_peers sys.fresh) opened
    elim joined [
      | none ↦ ok (quits exit_failure)
      | some found ↦ do
        (ht, peers', sent) ← share_file m args init_htable found.0
        ok (
            started (record {
              ht = ht;
              peers = peers';
              sent = sent;
              watched = found.1;
              server_fd = server_fd;
              network_port = network_port;
            }))
    ]

  -- Behind `server_socket_open`
  pub serve : Md5 → ℤ × ℕ × List ℤ → Run Start
  serve m (server_fd, network_port, opened) =
      if eqb_ℤ server_fd no_socket
      then ok (quits exit_failure)
      else if nonzero (sys.listen server_fd)
      then ok (quits exit_failure)
      else elim (read_args sys.strdup sys.getopt sys.extra) [
        | exits status ↦ ok (quits status)
        | goes_on args ↦ start m args server_fd network_port opened
      ]

  pub main : Md5 → Run Start
  main m = serve m (server_socket_open sys.net 0 [])
