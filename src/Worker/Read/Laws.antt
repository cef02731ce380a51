-- ===== src/Worker/Read/Laws.antt =====
-- What `readWorker` does with a message that defines a file, with a closed connection, and with a
-- message that is longer than its buffer.
use mathlib.Core.List.{Perm}
use grintorrent.Base.{
  ℕ, suc, ◌*◌, ◌^◌, ◌≤◌, ◌<◌, ◌≡◌, ◌≢◌, refl, false, ◌⊎◌, Option, some, List, ◌∷◌, ◌++◌, arith,
  length, drop, ok, fault, out_of_bounds,
}
use grintorrent.Base.Int.{pos}
use grintorrent.System.{Md5}
use grintorrent.Tfile.{TfileDef, zero_digest}
use grintorrent.Htable.{Htable, home, write_def, add_htable}
use grintorrent.Htable.Insert.{add_htable_inserts}
use grintorrent.Htable.Invariant as Table
use grintorrent.Message.{MessageInfo, info_size, encode_info}
use grintorrent.Message.Send.{Progresses}
use grintorrent.Message.Receive.{receive_message-Progresses}
use grintorrent.Message.Incoming.{
  receive_message_overruns, incoming_message_info_closed, incoming_message_info_lem,
}
use grintorrent.Peers.{Peers}
use grintorrent.Peers.Add.{fds, IsValid}
use grintorrent.Peers.Remove.{fd_at, remove_peer_lem}
use grintorrent.Share.{tfile_info}
use grintorrent.Share.Laws.{others, to_each}
use grintorrent.Share.Wire.{def_size, encode_def, IsDef, length-encode_def}
use grintorrent.Worker.Laws.{receive_tfile_def_forwards}
use grintorrent.Worker.Read.{
  ClientServer, message_size, Round, State, goes_on, ended, dispatch, read_round, read_rounds,
}

-- The connections are up in a round, and headers go and come whole.
pub record IsUp (r : Round) : Type 0 where
  pub peeks : r.peek 0 info_size ≡ pos info_size
  pub reads : Progresses r.read
  pub header : r.read 0 info_size ≡ pos info_size
  pub writes : (k : ℕ) → Progresses (r.write k)
  pub headers : (k : ℕ) → r.write k 0 info_size ≡ pos info_size

module _ (m : Md5) (fd_data : ClientServer) (r : Round) (up : IsUp r) where
  -- The round of a TFILE_DEF message, whatever `add_htable` returns
  pub read_round_forwards :
      (s : State) (padding rest : List ℕ) (t : TfileDef) (o : Option ℕ) (ht' : Htable)
      → length padding ≡ 7
      → IsDef t
      → add_htable r.calloc r.add_fuel s.ht t ≡ ok (o, ht')
      → IsValid s.peers
      → read_round m fd_data r
          (record s { stream = encode_info padding tfile_info ++ (encode_def t ++ rest) })
        ≡ ok (
            goes_on (record s {
              ht = ht';
              peers = record s.peers { locked = false };
              data_read = encode_def t ++ drop def_size s.data_read;
              stream = rest;
              sent =
                  s.sent
                  ++ to_each
                      (encode_info r.padding tfile_info ++ encode_def t)
                      (others fd_data.server_fd (fds s.peers));
            }))
  unfolding read_round dispatch
  read_round_forwards s padding rest t o ht' seven def added w =
      let long = length-encode_def t def in
      let peeked =
        incoming_message_info_lem r.peek padding (encode_def t ++ rest) tfile_info up.peeks seven
          (omega arith) in
      let got =
        receive_message-Progresses r.read r.discard_fuel message_size def_size padding
          (encode_def t) rest tfile_info up.reads up.header seven long (omega arith) (omega arith)
          (omega arith) in
      let handled =
        receive_tfile_def_forwards r.calloc r.add_fuel r.write r.padding s.ht ht' s.peers
          fd_data.server_fd t (drop def_size s.data_read) o added def w up.writes up.headers in
      rw (read_round, peeked, got, long, handled) refl

  -- While the connections are up and headers go and come whole, a round of readWorker that finds a
  -- TFILE_DEF message with a definition of which the fields have the sizes of the C types, and
  -- whose non-zero digest is not in the valid table with room and has an empty entry at or behind
  -- its home, puts the definition into that entry, sends it to every peer of the valid list but the
  -- one that it came from, and goes on behind the message.
  pub read_round_defines :
      (s : State) (padding rest : List ℕ) (f : ℕ) (t : TfileDef) (i : ℕ)
      → length padding ≡ 7
      → IsDef t
      → r.add_fuel ≡ suc f
      → Table.IsValid s.ht
      → s.ht.size * 2 ≤ s.ht.capacity
      → t.f_hash ≢ zero_digest
      → Table.Absent s.ht t.f_hash
      → Table.vacancy s.ht.table (home s.ht t.f_hash) ≡ some i
      → IsValid s.peers
      → read_round m fd_data r
          (record s { stream = encode_info padding tfile_info ++ (encode_def t ++ rest) })
        ≡ ok (
            goes_on (record s {
              ht = write_def s.ht i t;
              peers = record s.peers { locked = false };
              data_read = encode_def t ++ drop def_size s.data_read;
              stream = rest;
              sent =
                  s.sent
                  ++ to_each
                      (encode_info r.padding tfile_info ++ encode_def t)
                      (others fd_data.server_fd (fds s.peers));
            }))
  read_round_defines s padding rest f t i seven def fuel v room nz absent free w =
      read_round_forwards s padding rest t (some i) (write_def s.ht i t) seven def
        (rw fuel (add_htable_inserts r.calloc f t i v room nz absent free).0) w

  -- While the connection is up and the header comes in whole, a message of more than 100000 and
  -- fewer than 2^64 bytes, of any type, makes readWorker write outside of its buffer.
  pub read_round_overruns :
      (s : State) (padding bytes : List ℕ) (info : MessageInfo)
      → length padding ≡ 7
      → info.size < 2 ^ 64
      → info.size ≤ length bytes
      → message_size < info.size
      → read_round m fd_data r (record s { stream = encode_info padding info ++ bytes })
        ≡ fault out_of_bounds
  unfolding read_round
  read_round_overruns s padding bytes info seven small whole long =
      let peeked = incoming_message_info_lem r.peek padding bytes info up.peeks seven small in
      let over =
        receive_message_overruns r.read r.discard_fuel message_size padding bytes info up.reads
          up.header seven small whole long in
      rw (read_round, peeked, over) refl

module _ (m : Md5) (fd_data : ClientServer) where
  -- When no whole header can be peeked at, readWorker ends, with the table, the buffer and what was
  -- sent as they were, and the valid list of peers is valid and either has one socket less that is
  -- the thread's client, or there was none and its sockets are as they were.
  pub read_rounds-closed :
      (r : Round) (rs : List Round) (s : State)
      → r.peek 0 info_size ≢ pos info_size
      → IsValid s.peers
      → (left : Peers) × (read_rounds m fd_data (r ∷ rs) s ≡ ok (ended (record s { peers = left })))
        × IsValid left
        × (((fds left ≡ fds s.peers)
              × ¬ ((j : ℕ) × (j < s.peers.size) × (fd_at s.peers j ≡ fd_data.client_fd)))
            ⊎ Perm (fds s.peers) (fd_data.client_fd ∷ fds left))
  unfolding read_rounds read_round
  read_rounds-closed r rs s closed v =
      let (left, run, valid, out) = remove_peer_lem fd_data.client_fd s.peers v in
      (
        left,
        rw (read_round, incoming_message_info_closed r.peek s.stream closed, run) refl,
        valid,
        out,
      )
