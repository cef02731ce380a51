-- ===== src/Socket.antt =====
-- src/socket.h: the wrappers of the socket calls. The system's answers are parameters, and the
-- descriptors that the process has open are a list.
pub mod Laws
use grintorrent.Base.{
  ℕ, ◌+◌, ◌*◌, ◌/◌, ◌%◌, Bool, not, Option, none, some, List, [], ◌∷◌, ◌++◌, if◌then◌else◌, leb,
  length, drop, replicate, Run, ok, fault, out_of_bounds, ◌>>=◌,
}
use grintorrent.Base.Int.{ℤ, pos, negsuc, eqb_ℤ}

-- `struct sockaddr_in`; the port is in network order and the address four bytes.
pub record SockaddrIn : Type 0 where
  pub sin_family : ℕ
  pub sin_port : ℕ
  pub s_addr : List ℕ

abbrev pub af_inet : ℕ
af_inet = 2

-- `INADDR_ANY` in memory
abbrev pub inaddr_any : List ℕ
inaddr_any = replicate 4 0

-- `sizeof(struct sockaddr_in)`
abbrev pub addr_len : ℕ
addr_len = 16

-- `htons` and `ntohs` of 16 bits on a little-endian machine
pub swap_bytes : ℕ → ℕ
swap_bytes n = n % 256 * 256 + n / 256 % 256

-- What the calls answer.
pub record Net : Type 0 where
  -- `h_addr` of what `gethostbyname` returns, `h_length` bytes
  pub gethostbyname : List ℕ → Option (List ℕ)
  -- `socket(AF_INET, SOCK_STREAM, 0)`
  pub socket : ℤ
  pub connect : ℤ → SockaddrIn → ℕ → ℤ
  pub bind : ℤ → SockaddrIn → ℕ → ℤ
  -- the status, and the address that it writes
  pub getsockname : ℤ → ℤ × SockaddrIn
  -- for the descriptor and the length that it is given: the new descriptor, the address, and the
  -- length that it writes
  pub accept : ℤ → ℕ → ℤ × SockaddrIn × ℕ

abbrev pub no_socket : ℤ
no_socket = negsuc 0

-- `close(fd)`: the descriptor is no longer open
unfoldable pub close : ℤ → List ℤ → List ℤ
close fd [] = []
close fd (x ∷ xs) = let rest = close fd xs in if eqb_ℤ x fd then xs else x ∷ rest

-- `memcpy` into `s_addr`
abbrev pub copy_address : SockaddrIn → List ℕ → Run SockaddrIn
copy_address addr bytes =
    if leb (length bytes) 4
    then ok (record addr { s_addr = bytes ++ drop (length bytes) addr.s_addr })
    else fault out_of_bounds

-- The condition of a C `if` on a status
abbrev pub nonzero : ℤ → Bool
nonzero rc = not (eqb_ℤ rc (pos 0))

module _ (net : Net) where
  -- The last list is the open descriptors, here and below.
  unfoldable pub socket_connect : List ℕ → ℕ → List ℤ → Run (ℤ × List ℤ)
  socket_connect server_name port opened =
      let fd = net.socket in
      let held = fd ∷ opened in
      let addr : SockaddrIn = record {
        sin_family = af_inet;
        sin_port = swap_bytes port;
        s_addr = inaddr_any;
      } in
      elim (net.gethostbyname server_name) [
        | none ↦ ok (no_socket, opened)
        | some h_addr ↦ if eqb_ℤ fd no_socket then ok (no_socket, opened) else (do
          to ← copy_address addr h_addr
          if nonzero (net.connect fd to addr_len)
              then ok (no_socket, close fd held)
              else ok (fd, held))
      ]

  pub socket_connect_addr : SockaddrIn → ℕ → List ℤ → ℤ × List ℤ
  socket_connect_addr server_addr server_addr_len opened =
      let fd = net.socket in
      let held = fd ∷ opened in
      if eqb_ℤ fd no_socket
      then (no_socket, opened)
      else if nonzero (net.connect fd server_addr server_addr_len)
      then (no_socket, close fd held)
      else (fd, held)

  -- The second result is `*port`.
  unfoldable pub server_socket_open : ℕ → List ℤ → ℤ × ℕ × List ℤ
  server_socket_open port opened =
      let fd = net.socket in
      let held = fd ∷ opened in
      let addr : SockaddrIn = record {
        sin_family = af_inet;
        sin_port = swap_bytes port;
        s_addr = inaddr_any;
      } in
      if eqb_ℤ fd no_socket
      then (no_socket, port, opened)
      else if nonzero (net.bind fd addr addr_len)
      then (no_socket, port, close fd held)
      else if nonzero (net.getsockname fd).0
      then (no_socket, port, close fd held)
      else (fd, swap_bytes (net.getsockname fd).1.sin_port, held)

  pub server_socket_accept : ℤ → List ℤ → ℤ × List ℤ
  server_socket_accept server_socket_fd opened =
      let client_socket_fd = (net.accept server_socket_fd addr_len).0 in
      if eqb_ℤ client_socket_fd no_socket
      then (no_socket, opened)
      else (client_socket_fd, client_socket_fd ∷ opened)

  -- `peer_addr_len` is what stands behind the pointer; the results behind the descriptor are what
  -- the call leaves behind its two pointers.
  pub server_socket_accept_addr : ℤ → ℕ → List ℤ → ℤ × SockaddrIn × ℕ × List ℤ
  server_socket_accept_addr server_socket_fd peer_addr_len opened =
      let (client_socket_fd, peer_addr, len) = net.accept server_socket_fd peer_addr_len in
      if eqb_ℤ client_socket_fd no_socket
      then (no_socket, peer_addr, len, opened)
      else (client_socket_fd, peer_addr, len, client_socket_fd ∷ opened)
