-- ===== src/Worker/Relay.antt =====
-- The REQUEST_FILE_DATA branch of `readWorker` for a chunk that this peer does not have.
use mathlib.Core.List.{append_assoc, append-nil}
use grintorrent.Base.{
  ℕ, zero, suc, ◌+◌, ◌≤◌, ◌≡◌, refl, ◌∙◌, ap, Bool, false, Bool-cases, inl, inr, Option, List, [],
  ◌∷◌, ◌++◌, arith, length, take, drop, drop-cons, take-length, get_or, get_elem?-eq-get_or, Run,
  ok,
}
use grintorrent.Base.Int.{ℤ, pos, eqb_ℤ}
use grintorrent.System.{Md5, Os}
use grintorrent.Tfile.{Digest}
use grintorrent.Htable.{Htable}
use grintorrent.File.Verify.{is_chunk_verified, verify_tfile}
use grintorrent.Message.{Kernel, info_size, encode_info}
use grintorrent.Message.Send.{Progresses, send_message-Progresses}
use grintorrent.Peers.{Peers}
use grintorrent.Peers.Add.{fds, IsValid, no_fd}
use grintorrent.Share.{Sent}
use grintorrent.Share.Laws.{others, to_each}
use grintorrent.Worker.{request_info, relay_loop, receive_request}
use grintorrent.Worker.Request.{
  ChunkRequest, request_size, encode_request, IsRequest, decode_request-encode_request,
  length-encode_request,
}

module _ (write : ℕ → Kernel) (padding : List ℕ) (up : (i : ℕ) → Progresses (write i))
    (header : (i : ℕ) → write i 0 info_size ≡ pos info_size) where
  relay_loop-Progresses :
      (arr : List ℤ) (client_fd : ℤ) (bytes : List ℕ)
      → length bytes ≡ request_size
      → (k i : ℕ) (sent : Sent) → i + k ≤ length arr
      → relay_loop write padding arr client_fd bytes k i sent
        ≡ ok (
            sent
            ++ to_each
                (encode_info padding request_info ++ bytes)
                (others client_fd (take k (drop i arr))))
  unfolding relay_loop others to_each
  relay_loop-Progresses arr client_fd bytes whole zero i sent fits = rw (append-nil sent) refl
  relay_loop-Progresses arr client_fd bytes whole (suc k) i sent fits =
      let fd = get_or arr i no_fd in
      let here = get_elem?-eq-get_or arr i no_fd (omega arith) in
      let split = drop-cons arr i no_fd (omega arith) in
      let full : take request_size bytes ≡ bytes = take-length request_size bytes (omega arith) in
      let message = encode_info padding request_info ++ bytes in
      let run =
        send_message-Progresses (write i) padding bytes request_info (up i) (header i)
          (omega arith) in
      elim (Bool-cases (eqb_ℤ fd client_fd)) [
        | inl own ↦
            rw (here, own, split, own)
              (relay_loop-Progresses arr client_fd bytes whole k (i + 1) sent (omega arith))
        | inr other ↦
            rw (here, other, run, full, split, other)
              (relay_loop-Progresses arr client_fd bytes whole k (i + 1)
                  (sent ++ (fd, message) ∷ []) (omega arith)
                ∙ ap (λ (out : Sent). let r : Run Sent = ok out in r)
                    (append_assoc sent ((fd, message) ∷ [])
                      (to_each message (others client_fd (take k (drop (i + 1) arr))))))
      ]

  -- When a REQUEST_FILE_DATA message brings a request for a chunk that verify_tfile does not report
  -- as verified here, the branch of readWorker sends the same request, with the same ttl, to every
  -- peer of the valid list whose socket is not the `client_fd` of the thread's argument, while the connections are up and headers
  -- go out whole.
  pub receive_request_relays :
      (m : Md5) (os : Os) (malloc : ℕ → Bool) (connect : List ℕ → ℕ → Option ℤ) (ht : Htable)
      (peers : Peers) (client_fd : ℤ) (req : ChunkRequest) (rest : List ℕ) (hash : Digest)
      (hashes : List Digest) (chunks : ℕ)
      → IsRequest req
      → IsValid peers
      → verify_tfile m os ht req.file_hash hash hashes ≡ ok chunks
      → is_chunk_verified chunks req.chunk_index ≡ false
      → receive_request m os malloc connect write padding ht peers client_fd
          (encode_request req ++ rest)
          hash
          hashes
        ≡ ok (
          ht,
          record peers { locked = false },
          to_each
              (encode_info padding request_info ++ encode_request req)
              (others client_fd (fds peers)),
        )
  unfolding receive_request
  receive_request_relays m os malloc connect ht peers client_fd req rest hash hashes chunks r v run
        missing =
      rw
        (
          decode_request-encode_request req rest r,
          run,
          missing,
          v.free,
          relay_loop-Progresses peers.arr client_fd (encode_request req)
              (length-encode_request req r.addressed) peers.size 0 [] (omega (arith, v.used)),
        )
        refl
