-- ===== src/Worker/Read.antt =====
-- `readWorker` of src/client.c: the thread that reads the messages of one connection. The threads that
-- it starts are run to their ends.
pub mod Laws
pub mod Relays
pub mod Exchange
use grintorrent.Base.{
  ℕ, zero, suc, ◌+◌, Bool, true, false, not, Option, none, some, List, [], ◌∷◌, ◌++◌, if◌then◌else◌,
  ◌==◌, length, drop, get_elem?, replicate, Run, ok, ◌>>=◌, in_bounds,
}
use grintorrent.Base.Bytes.{le_bytes}
use grintorrent.Base.Int.{ℤ, pos, eqb_ℤ}
use grintorrent.System.{Md5, Os}
use grintorrent.Tfile.{Digest}
use grintorrent.Htable.{Htable}
use grintorrent.Message.{
  Kernel, MessageInfo, request_file_data, file_data, tfile_def, addr_self, request_addr_self,
  receive_message, incoming_message_info, send_message,
}
use grintorrent.Peers.{Peers, remove_peer}
use grintorrent.Share.{Sent}
use grintorrent.Socket.{SockaddrIn, Net, no_socket, nonzero, server_socket_accept_addr}
use grintorrent.Transfer.{receive_file_data}
use grintorrent.Worker.{receive_tfile_def, receive_request}

-- `client_server_t`
pub record ClientServer : Type 0 where
  pub server_fd : ℤ
  pub client_fd : ℤ

-- `*(client_server_t *)args`, over the `int`s from the pointer on. `main` and `connectWorker` pass the
-- address of a single `int`, the socket: then `client_fd` is whatever stands behind it.
pub thread_argument : List ℤ → Run ClientServer
thread_argument args = do
  server_fd ← in_bounds (get_elem? args 0)
  client_fd ← in_bounds (get_elem? args 1)
  ok (record { server_fd = server_fd; client_fd = client_fd })

-- `message_size`
abbrev pub message_size : ℕ
message_size = 100000

-- A `struct sockaddr_in` in memory
pub encode_addr : SockaddrIn → List ℕ
encode_addr addr =
    le_bytes 2 addr.sin_family ++ (le_bytes 2 addr.sin_port ++ (addr.s_addr ++ replicate 8 0))

-- What the system answers in a round, and what the stack holds then.
pub record Round : Type 0 where
  -- the `recv` of `incoming_message_info`, and the `read`s of `receive_message`
  pub peek : Kernel
  pub read : Kernel
  -- a bound of the rounds of the loop that discards, and of the calls of `add_htable`
  pub discard_fuel : ℕ
  pub add_fuel : ℕ
  pub os : Os
  pub net : Net
  pub calloc : ℕ → Bool
  pub malloc : ℕ → Bool
  -- what `socket_connect_addr` returns, `none` for -1
  pub connect : List ℕ → ℕ → Option ℤ
  pub write : ℕ → Kernel
  pub padding : List ℕ
  -- `server_addr_len`, which is not set
  pub addr_len : ℕ
  pub hash : Digest
  pub hashes : List Digest

-- What the thread works on: the table, the peers, the buffer `data_read`, what is still to come from
-- the connection, and what went out.
pub record State : Type 0 where
  pub ht : Htable
  pub peers : Peers
  pub data_read : List ℕ
  pub stream : List ℕ
  pub sent : Sent

-- A thread goes on with the next round, or ends.
pub data Outcome : Type 0 where
  goes_on : State → Outcome
  ended : State → Outcome

module _ (m : Md5) (fd_data : ClientServer) where
  -- `remove_peer(&peers, fd_data.client_fd); break;`
  abbrev pub leave : State → Run Outcome
  leave s = do left ← remove_peer s.peers fd_data.client_fd; ok (ended (record s { peers = left }))

  abbrev pub went_out : State → ℤ → List ℕ → State
  went_out s fd out = record s { sent = s.sent ++ (fd, out) ∷ [] }

  -- The REQUEST_ADDR_SELF branch. The descriptors that the process has open do not matter to it.
  pub receive_addr_request : Round → State → Run Outcome
  receive_addr_request r s =
      let (socket, server_addr, server_addr_len, opened) =
        server_socket_accept_addr r.net fd_data.server_fd r.addr_len [] in
      if eqb_ℤ socket no_socket then leave s else (do
        (status, out) ←
            send_message (r.write 0) r.padding (record { type = addr_self; size = server_addr_len })
              (some (encode_addr server_addr))
        ok (goes_on (went_out s socket out)))

  -- "Check type of message and handle"
  pub dispatch : Round → ℕ → State → Run Outcome
  dispatch r type s =
      let defined = (do
        (ht, peers, sent) ←
            receive_tfile_def r.calloc r.add_fuel r.write r.padding s.ht s.peers fd_data.server_fd
              s.data_read
        ok (goes_on (record s { ht = ht; peers = peers; sent = s.sent ++ sent }))) in
      let requested = (do
        (ht, peers, sent) ←
            receive_request m r.os r.malloc r.connect r.write r.padding s.ht s.peers
              fd_data.client_fd s.data_read r.hash r.hashes
        ok (goes_on (record s { ht = ht; peers = peers; sent = s.sent ++ sent }))) in
      let brought = (do
        ht ← receive_file_data m r.os s.ht s.data_read r.hash r.hashes
        ok (goes_on (record s { ht = ht }))) in
      if type == request_addr_self
      then receive_addr_request r s
      else if type == tfile_def
      then defined
      else if type == request_file_data
      then requested
      else if type == file_data
      then brought
      else ok (goes_on s)

  -- A round of `while (true)`
  pub read_round : Round → State → Run Outcome
  read_round r s = elim (incoming_message_info r.peek s.stream) [
    | none ↦ leave s
    | some info ↦ do
      (status, got, left) ←
          receive_message r.read r.discard_fuel (some message_size) info.size s.stream
      let s' : State = record s { data_read = got ++ drop (length got) s.data_read; stream = left }
      if nonzero status then leave s' else dispatch r info.type s'
  ]

  -- The rounds for which the system has answers. A thread that goes on then waits for more.
  unfoldable pub read_rounds : List Round → State → Run Outcome
  read_rounds [] s = ok (goes_on s)
  read_rounds (r ∷ rs) s = do
    outcome ← read_round r s
    elim outcome [ goes_on s' ↦ read_rounds rs s' | ended s' ↦ ok (ended s') ]

-- The thread, for what stands behind its argument. What `malloc` gives it is `data_read` of the state.
pub read_worker : Md5 → (args : List ℤ) → List Round → State → Run Outcome
read_worker m args rounds s = do fd_data ← thread_argument args; read_rounds m fd_data rounds s
