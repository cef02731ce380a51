-- ===== src/Tests/Starts.antt =====
-- The theorem on what a node starts with.
use grintorrent.Base.{
  ℕ, ◌%◌, ◌^◌, ◌≡◌, refl, inr, true, false, some, Option, List, [], ◌∷◌, ◌++◌, ok,
}
use grintorrent.Base.Int.{pos, negsuc}
use grintorrent.Htable.{init_htable}
use grintorrent.File.Generate.Laws.{generate_tfile-refused}
use grintorrent.Message.{encode_info}
use grintorrent.Peers.Add.{fds}
use grintorrent.Share.{tfile_info}
use grintorrent.Share.Wire.{encode_def}
use grintorrent.Socket.{swap_bytes, socket_connect, server_socket_open}
use grintorrent.CommandLine.{
  CmdArgs, char_p, char_n, char_f, char_u, parse_args, check_args, read_args,
}
use grintorrent.Main.{Machine, Node, started, main}
use grintorrent.Main.Laws.{Listens, main_shares}
use grintorrent.Tests.Data.{
  sum_md5, system, regular, path, content_def, content_def-IsDef, sixteen, sixteen-Progresses,
  padding, local_net,
}

abbrev copies : List ℕ → Option (List ℕ)
copies s = some s

abbrev all_args : CmdArgs
all_args = record {
  peer_p = some (98 ∷ []);
  port_p = some (55 ∷ []);
  file_p = some path;
  username_p = some (97 ∷ []);
}

-- The file at the path is too short, so that `generate_tfile` refuses it and leaves `new_tfile` as it is.
abbrev machine : Machine
machine = record {
  net = local_net;
  listen = λ fd. pos 0;
  getopt = (char_u, 97 ∷ []) ∷ (char_p, 98 ∷ []) ∷ (char_n, 55 ∷ []) ∷ (char_f, path) ∷ [];
  extra = false;
  strdup = copies;
  atoi = λ s. 7;
  os = system (3 ∷ []);
  calloc = λ n. true;
  add_fuel = 1;
  write = λ k. sixteen;
  padding = padding;
  fresh = pos 0;
  stack_tfile = content_def;
}

machine-Listens : Listens machine all_args (pos 4) (swap_bytes 0x901F) (pos 4 ∷ [])
unfolding server_socket_open read_args parse_args check_args
machine-Listens = record { serves = refl; is_socket = refl; listens = refl; accepts = refl }

connects :
    socket_connect local_net (98 ∷ []) (7 % 2 ^ 16) (pos 4 ∷ []) ≡ ok (pos 4, pos 4 ∷ pos 4 ∷ [])
unfolding socket_connect
connects = refl

main_shares_example :
    (node : Node) × (main machine sum_md5 ≡ ok (started node))
    × (node.ht ≡ init_htable)
    × (fds node.peers ≡ pos 4 ∷ [])
    × (node.watched ≡ pos 4 ∷ [])
    × (node.sent ≡ (pos 4, encode_info padding tfile_info ++ encode_def content_def) ∷ [])
main_shares_example =
    main_shares machine sum_md5 all_args (pos 4) (swap_bytes 0x901F) (pos 4 ∷ []) machine-Listens
      (98 ∷ []) (55 ∷ []) path (pos 4) (pos 4 ∷ pos 4 ∷ []) (negsuc 0) content_def init_htable refl
      refl refl connects refl
      (generate_tfile-refused (λ n. true) 1 sum_md5 (system (3 ∷ [])) init_htable content_def path
        (path ++ 0 ∷ []) (inr (regular (3 ∷ []), refl, refl)))
      content_def-IsDef (λ k. sixteen-Progresses) (λ k. refl)
