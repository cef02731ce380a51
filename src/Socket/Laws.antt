-- ===== src/Socket/Laws.antt =====
-- What the wrappers leave open.
use mathlib.Core.List.{append-nil}
use grintorrent.Base.{
  ℕ, ◌≡◌, ◌≢◌, refl, ap, true, false, Bool-cases, some, Option-cases, List, ◌∷◌, ◌⊎◌, inl, inr,
  arith, le→leb, length, ok,
}
use grintorrent.Base.Int.{ℤ, pos, eqb_ℤ}
use grintorrent.Socket.{
  SockaddrIn, Net, af_inet, inaddr_any, addr_len, swap_bytes, no_socket, close, nonzero,
  socket_connect, socket_connect_addr, server_socket_open,
}

eqb_ℤ_refl : (a : ℤ) → eqb_ℤ a a ≡ true
eqb_ℤ_refl a = ground arith

differs : (a b : ℤ) → eqb_ℤ a b ≡ false → a ≢ b
differs a b other same = ground (arith, other, eqb_ℤ_refl a, ap (λ (x : ℤ). eqb_ℤ a x) same)

close-last : (fd : ℤ) (opened : List ℤ) → close fd (fd ∷ opened) ≡ opened
unfolding close
close-last fd opened = rw (eqb_ℤ_refl fd) refl

-- A call failed and left nothing open, or returned the one descriptor that it opened.
abbrev pub Opens : List ℤ → ℤ → List ℤ → Type 0
Opens opened fd opened' =
    ((fd ≡ no_socket) × (opened' ≡ opened)) ⊎ ((fd ≢ no_socket) × (opened' ≡ fd ∷ opened))

-- Whether the status that the system answers is zero.
is_zero : (rc : ℤ) → nonzero rc ≡ false → rc ≡ pos 0
is_zero rc h = ground arith

-- The address of a server by the bytes of its host address.
abbrev pub server_at : List ℕ → ℕ → SockaddrIn
server_at h_addr port = record { sin_family = af_inet; sin_port = swap_bytes port; s_addr = h_addr }

module _ (net : Net) (opened : List ℤ) where
  -- `socket_connect_addr` leaves open what it returns and nothing else.
  pub socket_connect_addr-Opens :
      (server_addr : SockaddrIn) (server_addr_len : ℕ)
      → let (fd, opened') = socket_connect_addr net server_addr server_addr_len opened in
        Opens opened fd opened'
        × (fd ≢ no_socket → net.connect fd server_addr server_addr_len ≡ pos 0)
  unfolding socket_connect_addr
  socket_connect_addr-Opens server_addr server_addr_len =
      elim (Bool-cases (eqb_ℤ net.socket no_socket)) [
        | inl dead ↦ rw dead (inl (refl, refl), λ ne. absurd (ne refl))
        | inr good ↦
            elim (Bool-cases (nonzero (net.connect net.socket server_addr server_addr_len))) [
              | inl bad ↦
                  rw (good, bad) (inl (refl, close-last net.socket opened), λ ne. absurd (ne refl))
              | inr up ↦
                  rw (good, up)
                    (
                      inr (differs net.socket no_socket good, refl),
                      λ ne. is_zero (net.connect net.socket server_addr server_addr_len) up,
                    )
            ]
      ]

  -- server_socket_open either returns -1 and leaves no new descriptor open and the port as it was,
  -- or returns the one descriptor that it opened, which is bound to the asked port at any address,
  -- and sets the port to the one that getsockname tells.
  pub server_socket_open_lem :
      (port : ℕ)
      → let (fd, port', opened') = server_socket_open net port opened in
        Opens opened fd opened'
        × (fd ≡ no_socket → port' ≡ port)
        × (fd ≢ no_socket
            → (net.bind fd (server_at inaddr_any port) addr_len ≡ pos 0)
              × (port' ≡ swap_bytes (net.getsockname fd).1.sin_port))
  unfolding server_socket_open
  server_socket_open_lem port = elim (Bool-cases (eqb_ℤ net.socket no_socket)) [
    | inl dead ↦ rw dead (inl (refl, refl), λ e. refl, λ ne. absurd (ne refl))
    | inr good ↦
        let fd = net.socket in
        elim (Bool-cases (nonzero (net.bind fd (server_at inaddr_any port) addr_len))) [
          | inl bad ↦
              rw (good, bad) (inl (refl, close-last fd opened), λ e. refl, λ ne. absurd (ne refl))
          | inr bound ↦ elim (Bool-cases (nonzero (net.getsockname fd).0)) [
            | inl bad ↦
                rw (good, bound, bad)
                  (inl (refl, close-last fd opened), λ e. refl, λ ne. absurd (ne refl))
            | inr named ↦
                let ne = differs fd no_socket good in
                rw (good, bound, named)
                  (
                    inr (ne, refl),
                    λ e. absurd (ne e),
                    λ ne'. (is_zero (net.bind fd (server_at inaddr_any port) addr_len) bound, refl),
                  )
          ]
        ]
  ]

  -- `socket_connect` of a server with an address of four bytes leaves open what it returns and nothing
  -- else, and what it returns is connected to the port at that address.
  pub socket_connect_lem :
      (server_name : List ℕ) (port : ℕ)
      → ((h_addr : List ℕ) → net.gethostbyname server_name ≡ some h_addr → length h_addr ≡ 4)
      → (fd : ℤ) × (opened' : List ℤ) × (socket_connect net server_name port opened
          ≡ ok (fd, opened'))
        × Opens opened fd opened'
        × (fd ≢ no_socket
            → (h_addr : List ℕ) × (net.gethostbyname server_name ≡ some h_addr)
              × (net.connect fd (server_at h_addr port) addr_len ≡ pos 0))
  unfolding socket_connect
  socket_connect_lem server_name port four = elim (Option-cases (net.gethostbyname server_name)) [
    | inl unknown ↦ (
      no_socket,
      opened,
      rw (socket_connect, unknown) refl,
      inl (refl, refl),
      λ ne. absurd (ne refl),
    )
    | inr (h_addr, found) ↦
        let fd = net.socket in
        let long = four h_addr found in
        let fits = le→leb (length h_addr) 4 (omega (arith, long)) in
        let to = server_at h_addr port in
        elim (Bool-cases (eqb_ℤ fd no_socket)) [
          | inl dead ↦ (
            no_socket,
            opened,
            rw (socket_connect, found, dead) refl,
            inl (refl, refl),
            λ ne. absurd (ne refl),
          )
          | inr good ↦ elim (Bool-cases (nonzero (net.connect fd to addr_len))) [
            | inl bad ↦ (
              no_socket,
              close fd (fd ∷ opened),
              rw (socket_connect, found, good, fits, long, append-nil h_addr, bad) refl,
              inl (refl, close-last fd opened),
              λ ne. absurd (ne refl),
            )
            | inr up ↦ (
              fd,
              fd ∷ opened,
              rw (socket_connect, found, good, fits, long, append-nil h_addr, up) refl,
              inr (differs fd no_socket good, refl),
              λ ne. (h_addr, found, is_zero (net.connect fd to addr_len) up),
            )
          ]
        ]
  ]
