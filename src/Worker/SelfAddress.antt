-- ===== src/Worker/SelfAddress.antt =====
-- `sockdata_t` of src/client.h with `get_address_self` and `isInitialized` of src/client.c, which nothing
-- calls.
use grintorrent.Base.{
  ℕ, zero, suc, ◌+◌, ◌≡◌, ◌≢◌, refl, Bool, not, none, some, List, ◌++◌, ◌==◌, if◌then◌else◌, length,
  drop, Run, ok, out_of_fuel, ◌>>=◌,
}
use grintorrent.Base.Int.{pos}
use grintorrent.Message.{
  Kernel, info_size, addr_self, request_addr_self, send_message, receive_message,
  incoming_message_info,
}
use grintorrent.Message.Send.{send_message_null}
use grintorrent.Message.Incoming.{incoming_message_info_closed}
use grintorrent.Worker.Request.{addr_size}

-- `sockdata_t`; the address is its bytes.
pub record SockData : Type 0 where
  pub server_addr_len : ℕ
  pub server_addr : List ℕ

pub is_initialized : SockData → Bool
is_initialized data' = not (data'.server_addr_len == 0)

-- The system's answers for the `recv` and the `read`s of a round.
module _ (peek read : ℕ → Kernel) (discard_fuel : ℕ) where
  -- `while (true)` from round `k` on, with the rounds that it may make; `data'` is what stands in
  -- `server_addr_len` and `server_addr`.
  pub address_loop : ℕ → ℕ → SockData → List ℕ → Run (SockData × List ℕ)
  address_loop zero k data' stream = out_of_fuel
  address_loop (suc f) k data' stream =
      let again = address_loop f (k + 1) data' stream in
      elim (incoming_message_info (peek k) stream) [
        | none ↦ again
        | some info ↦
            if info.type == addr_self
            then (do
              (status, got, left) ←
                  receive_message (read k) discard_fuel (some addr_size) info.size stream
              address_loop f (k + 1)
                  (record {
                    server_addr_len = info.size;
                    server_addr = got ++ drop (length got) data'.server_addr;
                  })
                  left)
            else ok (data', stream)
      ]

  -- What went out on the socket, the address, and what is left of the stream. `stack` is what the two
  -- variables hold at the start.
  pub get_address_self :
      (fuel : ℕ)
      → Kernel
      → (padding : List ℕ) → (stack : SockData) → List ℕ
      → Run (List ℕ × SockData × List ℕ)
  get_address_self fuel write padding stack stream = do
    (status, out) ← send_message write padding (record { type = request_addr_self; size = 0 }) none
    (data', left) ← address_loop fuel 0 stack stream
    ok (out, data', left)

  -- Once no header can be peeked at any more, the loop never ends.
  pub address_loop-out_of_fuel :
      ((k : ℕ) → peek k 0 info_size ≢ pos info_size)
      → (f k : ℕ) (data' : SockData) (stream : List ℕ) → address_loop f k data' stream ≡ out_of_fuel
  unfolding address_loop
  address_loop-out_of_fuel closed zero k data' stream = refl
  address_loop-out_of_fuel closed (suc f) k data' stream =
      rw (address_loop, incoming_message_info_closed (peek k) stream (closed k))
        (address_loop-out_of_fuel closed f (k + 1) data' stream)

  -- On a closed connection `get_address_self` does not return.
  pub get_address_self-out_of_fuel :
      (fuel : ℕ) (write : Kernel) (padding : List ℕ) (stack : SockData) (stream : List ℕ)
      → ((k : ℕ) → peek k 0 info_size ≢ pos info_size)
      → get_address_self fuel write padding stack stream ≡ out_of_fuel
  unfolding get_address_self
  get_address_self-out_of_fuel fuel write padding stack stream closed =
      let (status, out, sent) =
        send_message_null write padding (record { type = request_addr_self; size = 0 }) in
      rw (sent, address_loop-out_of_fuel closed fuel 0 stack stream) refl
