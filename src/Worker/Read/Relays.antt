-- ===== src/Worker/Read/Relays.antt =====
-- A request for a chunk that `readWorker` cannot serve, with the argument that the thread is given.
use mathlib.Core.List.{Memᴰ}
use mathlib.Core.List.Memᴰ
use grintorrent.Base.{
  ℕ, ◌≡◌, ◌≢◌, refl, ◌∙◌, ap, false, Bool-cases, inl, inr, List, [], ◌∷◌, ◌++◌, arith, length, drop,
  ok,
}
use grintorrent.Base.Int.{ℤ, eqb_ℤ, eqb_ℤ_ne}
use grintorrent.System.{Md5}
use grintorrent.File.Verify.{is_chunk_verified, verify_tfile}
use grintorrent.Message.{encode_info}
use grintorrent.Message.Receive.{receive_message-Progresses}
use grintorrent.Message.Incoming.{incoming_message_info_lem}
use grintorrent.Peers.Add.{fds, IsValid}
use grintorrent.Share.{Sent}
use grintorrent.Share.Laws.{others, to_each}
use grintorrent.Worker.{request_info}
use grintorrent.Worker.Request.{
  ChunkRequest, request_size, encode_request, IsRequest, length-encode_request,
}
use grintorrent.Worker.Relay.{receive_request_relays}
use grintorrent.Worker.Read.{
  ClientServer, message_size, Round, State, goes_on, dispatch, thread_argument, read_round,
  read_rounds, read_worker,
}
use grintorrent.Worker.Read.Laws.{IsUp}

mem-others : (fd behind : ℤ) (xs : List ℤ) → fd ≢ behind → Memᴰ fd xs → Memᴰ fd (others behind xs)
unfolding others
mem-others fd behind [] ne mem = absurd (Memᴰ.not-nil mem)
mem-others fd behind (x ∷ xs) ne mem = elim (Memᴰ.cases_cons mem) [
  | inl e ↦ rw (eqb_ℤ_ne x behind (λ s. ne (e ∙ s))) (Memᴰ.head e)
  | inr later ↦ elim (Bool-cases (eqb_ℤ x behind)) [
    | inl own ↦ rw own (mem-others fd behind xs ne later)
    | inr other ↦ rw other (Memᴰ.tail (mem-others fd behind xs ne later))
  ]
]

mem-to_each :
    (message : List ℕ) (fd : ℤ) (xs : List ℤ) → Memᴰ fd xs → Memᴰ (fd, message) (to_each message xs)
unfolding to_each
mem-to_each message fd [] mem = absurd (Memᴰ.not-nil mem)
mem-to_each message fd (x ∷ xs) mem = elim (Memᴰ.cases_cons mem) [
  | inl e ↦ Memᴰ.head (ap (λ (y : ℤ). (y, message)) e)
  | inr later ↦ Memᴰ.tail (mem-to_each message fd xs later)
]

module _ (m : Md5) (r : Round) (up : IsUp r) (s : State) (padding : List ℕ) (req : ChunkRequest)
    (rest : List ℕ) (chunks : ℕ) (seven : length padding ≡ 7) (asks : IsRequest req)
    (valid : IsValid s.peers)
    (run : verify_tfile m r.os s.ht req.file_hash r.hash r.hashes ≡ ok chunks)
    (missing : is_chunk_verified chunks req.chunk_index ≡ false) where
  -- What goes out to every peer, and the state then
  abbrev pub relayed : List ℕ
  relayed = encode_info r.padding request_info ++ encode_request req

  abbrev pub passed_on : Sent → State
  passed_on sent = record s {
    peers = record s.peers { locked = false };
    data_read = encode_request req ++ drop request_size s.data_read;
    stream = rest;
    sent = s.sent ++ sent;
  }

  read_round_relays :
      (fd_data : ClientServer)
      → read_round m fd_data r
          (record s { stream = encode_info padding request_info ++ (encode_request req ++ rest) })
        ≡ ok (goes_on (passed_on (to_each relayed (others fd_data.client_fd (fds s.peers)))))
  unfolding read_round dispatch
  read_round_relays fd_data =
      let long = length-encode_request req asks.addressed in
      let peeked =
        incoming_message_info_lem r.peek padding (encode_request req ++ rest) request_info up.peeks
          seven (omega arith) in
      let got =
        receive_message-Progresses r.read r.discard_fuel message_size request_size padding
          (encode_request req) rest request_info up.reads up.header seven long (omega arith)
          (omega arith) (omega arith) in
      let handled =
        receive_request_relays r.write r.padding up.writes up.headers m r.os r.malloc r.connect s.ht
          s.peers fd_data.client_fd req (drop request_size s.data_read) r.hash r.hashes chunks asks
          valid run missing in
      rw (read_round, peeked, got, long, handled) refl

  -- A readWorker whose argument is the single int that main and connectWorker pass, with anything
  -- in the memory behind it, reads a REQUEST_FILE_DATA message for a chunk that verify_tfile does
  -- not report as verified here: it sends the same request, with the same ttl, to every peer of the
  -- valid list but those whose socket is the int behind the argument, while the connections are up
  -- and headers go out whole. So the peer on the socket that the request was read from, when it is
  -- on the list and is not the int behind the argument, gets its own request back.
  pub read_worker_relays :
      (socket behind : ℤ) (memory : List ℤ)
      → Memᴰ socket (fds s.peers)
      → socket ≢ behind
      → (sent : Sent) × (read_worker m
            (socket ∷ behind ∷ memory)
            (r ∷ [])
            (record s { stream = encode_info padding request_info ++ (encode_request req ++ rest) })
          ≡ ok (goes_on (passed_on sent)))
        × (sent ≡ to_each relayed (others behind (fds s.peers)))
        × Memᴰ (socket, relayed) sent
  unfolding read_worker thread_argument read_rounds
  read_worker_relays socket behind memory peer ne = (
    to_each relayed (others behind (fds s.peers)),
    rw (read_round_relays (record { server_fd = socket; client_fd = behind })) refl,
    refl,
    mem-to_each relayed socket (others behind (fds s.peers)) (mem-others socket behind _ ne peer),
  )
