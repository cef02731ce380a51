-- ===== src/Worker/Download/Laws.antt =====
-- The requests of `download_file`, round by round.
use mathlib.Core.List.{append_assoc, append-nil}
use grintorrent.Base.{
  ℕ, zero, suc, ◌+◌, ◌≤◌, ◌<◌, ◌≡◌, ◌≢◌, refl, ◌∙◌, ap, subst, Bool, false, Bool-cases, inl, inr,
  List, [], ◌∷◌, ◌++◌, arith, ==-eq-false, if◌then◌else◌, length, take, drop, drop-cons,
  take-length, get_or, get_elem?-eq-get_or, Run, ok,
}
use grintorrent.Base.Int.{ℤ, pos}
use grintorrent.System.{Md5, Os}
use grintorrent.Tfile.{Digest, num_chunks, verified_file}
use grintorrent.Htable.{Htable}
use grintorrent.File.Verify.{is_chunk_verified, verify_tfile}
use grintorrent.Message.{Kernel, info_size, encode_info}
use grintorrent.Message.Send.{Progresses, send_message-Progresses}
use grintorrent.Peers.{Peers}
use grintorrent.Peers.Add.{fds, IsValid, no_fd}
use grintorrent.Share.{Sent}
use grintorrent.Share.Laws.{to_each}
use grintorrent.Worker.{request_info, ask_loop, request_loop}
use grintorrent.Worker.Download.{download_loop}
use grintorrent.Worker.Request.{ChunkRequest, request_size, encode_request, length-encode_request}

abbrev pub request_for : Digest → List ℕ → ℕ → ChunkRequest
request_for file_hash return_addr i = record {
  file_hash = file_hash;
  chunk_index = pos i;
  return_addr = return_addr;
  return_addr_len = 16;
  ttl = 5;
}

module _ (padding : List ℕ) (file_hash : Digest) (return_addr : List ℕ) where
  abbrev pub request_bytes : ℕ → List ℕ
  request_bytes i =
      encode_info padding request_info ++ encode_request (request_for file_hash return_addr i)

  -- What a round sends from chunk `i` on: for every chunk that is not verified the request for it, to
  -- every peer
  unfoldable pub requests : List ℤ → (chunks : ℕ) → ℕ → ℕ → Sent
  requests to chunks zero i = []
  requests to chunks (suc k) i =
      let rest = requests to chunks k (i + 1) in
      if is_chunk_verified chunks (pos i) then rest else to_each (request_bytes i) to ++ rest

  -- What the rounds from `k` on send, `n` of them.
  unfoldable pub rounds : (ℕ → Peers) → (ℕ → ℕ) → (n k : ℕ) → Sent
  rounds peers chunks zero k = []
  rounds peers chunks (suc n) k =
      requests (fds (peers k)) (chunks k) num_chunks 0 ++ rounds peers chunks n (k + 1)

  module _ (addressed : length return_addr ≡ 16) where
    ask_loop-Progresses :
        (write : ℕ → Kernel) (arr : List ℤ) (c : ℕ)
        → ((i : ℕ) → Progresses (write i))
        → ((i : ℕ) → write i 0 info_size ≡ pos info_size)
        → (k i : ℕ) (sent : Sent) → i + k ≤ length arr
        → ask_loop write padding arr (encode_request (request_for file_hash return_addr c)) k i sent
          ≡ ok (sent ++ to_each (request_bytes c) (take k (drop i arr)))
    unfolding ask_loop to_each
    ask_loop-Progresses write arr c up header zero i sent fits = rw (append-nil sent) refl
    ask_loop-Progresses write arr c up header (suc k) i sent fits =
        let bytes = encode_request (request_for file_hash return_addr c) in
        let fd = get_or arr i no_fd in
        let here = get_elem?-eq-get_or arr i no_fd (omega arith) in
        let split = drop-cons arr i no_fd (omega arith) in
        let long = length-encode_request (request_for file_hash return_addr c) addressed in
        let full : take request_size bytes ≡ bytes =
          take-length request_size bytes (omega (arith, long)) in
        let run =
          send_message-Progresses (write i) padding bytes request_info (up i) (header i)
            (omega (arith, long)) in
        rw (here, run, full, split)
          (ask_loop-Progresses write arr c up header k (i + 1) (sent ++ (fd, request_bytes c) ∷ [])
              (omega arith)
            ∙ ap (λ (out : Sent). let r : Run Sent = ok out in r)
                (append_assoc sent ((fd, request_bytes c) ∷ [])
                  (to_each (request_bytes c) (take k (drop (i + 1) arr)))))

    pub request_loop-Progresses :
        (write : ℕ → ℕ → Kernel) (peers : Peers) (chunks : ℕ)
        → peers.size ≤ length peers.arr
        → ((i j : ℕ) → Progresses (write i j))
        → ((i j : ℕ) → write i j 0 info_size ≡ pos info_size)
        → (k i : ℕ) (sent : Sent)
        → let free : Peers = record peers { locked = false } in
          request_loop write padding free file_hash return_addr chunks k i sent
          ≡ ok (free, sent ++ requests (fds peers) chunks k i)
    unfolding request_loop requests
    request_loop-Progresses write peers chunks fits up header zero i sent =
        rw (append-nil sent) refl
    request_loop-Progresses write peers chunks fits up header (suc k) i sent =
        elim (Bool-cases (is_chunk_verified chunks (pos i))) [
          | inl done ↦
              rw done (request_loop-Progresses write peers chunks fits up header k (i + 1) sent)
          | inr wanted ↦
              let asked = to_each (request_bytes i) (fds peers) in
              let run =
                ask_loop-Progresses (write i) peers.arr i (up i) (header i) peers.size 0 sent
                  (omega arith) in
              rw (wanted, run)
                (request_loop-Progresses write peers chunks fits up header k (i + 1) (sent ++ asked)
                  ∙ ap
                      (λ (out : Sent).
                        let r : Run (Peers × Sent) = ok (record peers { locked = false }, out) in r)
                      (append_assoc sent asked (requests (fds peers) chunks k (i + 1))))
        ]

    module _ (m : Md5) (os : Os) (write : ℕ → ℕ → ℕ → Kernel) (tables : ℕ → Htable)
        (peers : ℕ → Peers) (hash : Digest) (hashes : List Digest) (chunks : ℕ → ℕ)
        (valid : (k : ℕ) → IsValid (peers k)) (up : (k i j : ℕ) → Progresses (write k i j))
        (header : (k i j : ℕ) → write k i j 0 info_size ≡ pos info_size) where
      -- With a return address of 16 bytes, valid lists of peers, connections that are up with
      -- headers that go out whole, and more fuel than rounds, the loop of download_file ends in
      -- round k + n when verify_tfile returns a word in each of the rounds from k to k + n, which
      -- is VERIFIED_FILE in the last one only; what it sent are the requests of these rounds: for
      -- every chunk that the round's word does not have as verified a request to every peer of the
      -- round, in order.
      pub download_loop-rounds :
          (n f k : ℕ) (sent : Sent)
          → n < f
          → ((j : ℕ)
              → k ≤ j
              → j ≤ k + n
              → verify_tfile m os (tables j) file_hash hash hashes ≡ ok (chunks j))
          → ((j : ℕ) → k ≤ j → j < k + n → chunks j ≢ verified_file)
          → chunks (k + n) ≡ verified_file
          → download_loop m os write padding tables peers file_hash return_addr hash hashes f k sent
            ≡ ok (k + n, sent ++ rounds peers chunks n k)
      unfolding download_loop rounds
      download_loop-rounds n zero k sent fuel checks missing complete = absurd (omega arith)
      download_loop-rounds zero (suc f) k sent fuel checks missing complete =
          let at : k + 0 ≡ k = omega arith in
          let ends : chunks k ≡ verified_file =
            subst (λ (j : ℕ). chunks j ≡ verified_file) at complete in
          rw (checks k (omega arith) (omega arith), ends, at, append-nil sent) refl
      download_loop-rounds (suc n) (suc f) k sent fuel checks missing complete =
          let out = requests (fds (peers k)) (chunks k) num_chunks 0 in
          let more = ==-eq-false (chunks k) verified_file (missing k (omega arith) (omega arith)) in
          let after : k + 1 + n ≡ k + suc n = omega arith in
          let run =
            request_loop-Progresses (write k) (peers k) (chunks k) (valid k).used (up k) (header k)
              num_chunks 0 sent in
          rw (checks k (omega arith) (omega arith), more, unlocked k, run)
            (download_loop-rounds n f (k + 1) (sent ++ out) (omega arith)
                (λ j lo hi. checks j (omega arith) (omega arith))
                (λ j lo hi. missing j (omega arith) (omega arith)) (rw after complete)
              ∙ ap
                  (λ (at : ℕ).
                    let r : Run (ℕ × Sent) =
                      ok (at, (sent ++ out) ++ rounds peers chunks n (k + 1)) in
                    r)
                  after
              ∙ ap (λ (all : Sent). let r : Run (ℕ × Sent) = ok (k + suc n, all) in r)
                  (append_assoc sent out (rounds peers chunks n (k + 1))))
        where
          unlocked : (k : ℕ) → peers k ≡ record (peers k) { locked = false }
          unlocked k =
              ap (λ (b : Bool). let p : Peers = record (peers k) { locked = b } in p) (valid k).free
