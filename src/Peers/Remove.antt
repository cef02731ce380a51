-- ===== src/Peers/Remove.antt =====
-- `remove_peer` takes one peer out; the others may change their order.
use mathlib.Core.List.{Perm, perm_append_singleton}
use mathlib.Core.List.Perm
use grintorrent.Base.{
  ℕ, zero, suc, ◌+◌, ◌-◌, ◌≤◌, ◌<◌, ◌≡◌, ◌≢◌, refl, ap, subst, true, false, Bool-cases, inl, inr,
  List, [], ◌∷◌, ◌++◌, arith, length, length-set, get_or, get_elem?-eq-get_or, set, take, dec_lt,
  ◌⊎◌, Run, ok, fault, deadlock,
}
use grintorrent.Base.Int.{ℤ, eqb_ℤ, eqb_ℤ→eq}
use grintorrent.Peers.{Peers, unlock, remove_loop, remove_peer, remove_peers}
use grintorrent.Peers.Add.{fds, IsValid, no_fd}

take-suc {ℓ} :
    {A : Type ℓ} (n : ℕ) (xs : List A) (d : A)
    → n < length xs
    → take (suc n) xs ≡ take n xs ++ get_or xs n d ∷ []
take-suc n [] d lt = absurd (omega arith)
take-suc zero (y ∷ ys) d lt = refl
take-suc (suc n) (y ∷ ys) d lt = ap (◌∷◌ y) (take-suc n ys d (omega arith))

-- Entry `i` is overwritten with the last of the first `n + 1`.
swap_remove-Perm {ℓ} :
    {A : Type ℓ} (n i : ℕ) (xs : List A) (d : A)
    → i ≤ n
    → n < length xs
    → Perm (take (suc n) xs) (get_or xs i d ∷ take n (set xs i (get_or xs n d)))
swap_remove-Perm n i [] d le lt = absurd (omega arith)
swap_remove-Perm zero zero (x ∷ xs) d le lt = Perm.refl (x ∷ [])
swap_remove-Perm (suc n) zero (x ∷ xs) d le lt =
    rw (take-suc n xs d (omega arith))
      (Perm.cons x (perm_append_singleton (get_or xs n d) (take n xs)))
swap_remove-Perm zero (suc i) (x ∷ xs) d le lt = absurd (omega arith)
swap_remove-Perm (suc n) (suc i) (x ∷ xs) d le lt =
    Perm.trans (Perm.cons x (swap_remove-Perm n i xs d (omega arith) (omega arith)))
      (Perm.swap (get_or xs i d) x (take n (set xs i (get_or xs n d))))

abbrev pub fd_at : Peers → ℕ → ℤ
fd_at peers i = get_or peers.arr i no_fd

-- The entry is overwritten with the last one.
abbrev pub without : Peers → ℕ → Peers
without peers i = record peers {
  size = peers.size - 1;
  arr = set peers.arr i (fd_at peers (peers.size - 1));
}

eqb_ℤ_refl : (a : ℤ) → eqb_ℤ a a ≡ true
eqb_ℤ_refl a = ground arith

module _ (peer : ℤ) where
  -- What the loop leaves: the peers as they were, or without one that is the peer.
  abbrev Removed : Peers → ℕ → Peers → Type 0
  Removed peers i peers' =
      ((peers' ≡ peers) × ((j : ℕ) → i ≤ j → j < peers.size → fd_at peers j ≢ peer))
      ⊎ ((j : ℕ) × (j < peers.size) × (fd_at peers j ≡ peer) × (peers' ≡ without peers j))

  remove_loop_lem :
      (k i : ℕ) (peers : Peers)
      → i + k ≡ peers.size
      → peers.size ≤ length peers.arr
      → (peers' : Peers) × (remove_loop k i peers peer ≡ ok peers') × Removed peers i peers'
  unfolding remove_loop
  remove_loop_lem zero i peers e fits = (peers, refl, inl (refl, λ j lo hi. absurd (omega arith)))
  remove_loop_lem (suc k) i peers e fits =
      let here = get_elem?-eq-get_or peers.arr i no_fd (omega arith) in
      let last = get_elem?-eq-get_or peers.arr (peers.size - 1) no_fd (omega arith) in
      elim (Bool-cases (eqb_ℤ (fd_at peers i) peer)) [
        | inl found ↦ (
          without peers i,
          rw (here, found, last) refl,
          inr (i, omega arith, eqb_ℤ→eq (fd_at peers i) peer found, refl),
        )
        | inr other ↦
            let (peers', run, result) = remove_loop_lem k (i + 1) peers (omega arith) fits in
            (peers', rw (here, other) run, widen i peers' (differs i other) result)
      ]
    where
      differs : (i : ℕ) → eqb_ℤ (fd_at peers i) peer ≡ false → fd_at peers i ≢ peer
      differs i other same =
          ground (arith, other, eqb_ℤ_refl peer, ap (λ (a : ℤ). eqb_ℤ a peer) same)

      widen :
          (i : ℕ) (peers' : Peers)
          → fd_at peers i ≢ peer
          → Removed peers (i + 1) peers'
          → Removed peers i peers'
      widen i peers' ne (inr found) = inr found
      widen i peers' ne (inl (same, others)) = inl (
        same,
        λ j lo hi. elim (dec_lt i j) [
          | yes lt ↦ others j (omega arith) hi
          | no ge ↦ let at : j ≡ i = omega arith in rw at ne
        ],
      )

  -- In a valid list, remove_peer returns with the list valid and unlocked: it has taken out one
  -- socket that is the peer, or there was none and the sockets are as they were.
  pub remove_peer_lem :
      (peers : Peers)
      → IsValid peers
      → (peers' : Peers) × (remove_peer peers peer ≡ ok peers')
        × IsValid peers'
        × (((fds peers' ≡ fds peers) × ¬ ((j : ℕ) × (j < peers.size) × (fd_at peers j ≡ peer)))
            ⊎ Perm (fds peers) (peer ∷ fds peers'))
  unfolding remove_peer
  remove_peer_lem peers v =
      let held : Peers = record peers { locked = true } in
      let (out, run, result) = remove_loop_lem peers.size 0 held (omega arith) v.used in
      let (valid, left) = ends out result in (unlock out, rw (v.free, run) refl, valid, left)
    where
      ends :
          (out : Peers)
          → Removed (record peers { locked = true }) 0 out
          → IsValid (unlock out)
            × (((fds out ≡ fds peers) × ¬ ((j : ℕ) × (j < peers.size) × (fd_at peers j ≡ peer)))
                ⊎ Perm (fds peers) (peer ∷ fds out))
      ends out (inl (same, others)) = rw same (
        record { free = refl; positive = v.positive; allocated = v.allocated; used = v.used },
        inl (refl, λ (j, lt, e). others j (omega arith) lt e),
      )
      ends out (inr (j, lt, e, gone)) =
          let total : suc (peers.size - 1) ≡ peers.size = omega arith in
          let long = length-set peers.arr j (fd_at peers (peers.size - 1)) in
          rw gone (
            record {
              free = refl;
              positive = v.positive;
              allocated = omega (arith, v.allocated, long);
              used = omega (arith, v.used, long);
            },
            inr (
                subst (λ (n : ℕ). Perm (take n peers.arr) (peer ∷ fds (without peers j))) total
                  (subst
                    (λ (a : ℤ).
                      Perm (take (suc (peers.size - 1)) peers.arr) (a ∷ fds (without peers j)))
                    e
                    (swap_remove-Perm (peers.size - 1) j peers.arr no_fd (omega arith)
                      (omega (arith, v.used))))),
          )

  -- Without the socket among the peers, `remove_peer` changes nothing.
  pub remove_peer_absent :
      (peers : Peers)
      → IsValid peers
      → ((j : ℕ) → j < peers.size → fd_at peers j ≢ peer)
      → remove_peer peers peer ≡ ok (record peers { locked = false })
  unfolding remove_peer
  remove_peer_absent peers v absent =
      let held : Peers = record peers { locked = true } in
      let (out, run, result) = remove_loop_lem peers.size 0 held (omega arith) v.used in
      rw (v.free, run) (same out result)
    where
      same :
          (out : Peers)
          → Removed (record peers { locked = true }) 0 out
          → ◌≡◌ {A = Run Peers} (ok (unlock out)) (ok (record peers { locked = false }))
      same out (inl (e, others)) = ap (λ (p : Peers). let r : Run Peers = ok (unlock p) in r) e
      same out (inr (j, lt, e, gone)) = absurd (absent j lt e)

  -- A thread that holds the lock already does not get behind it.
  pub remove_peer-deadlock :
      (peers : Peers) → peers.locked ≡ true → remove_peer peers peer ≡ fault deadlock
  unfolding remove_peer
  remove_peer-deadlock peers held = rw held refl

  pub remove_peers-deadlock :
      (peers : Peers) (ps : List ℤ)
      → peers.locked ≡ true
      → remove_peers peers (peer ∷ ps) ≡ fault deadlock
  unfolding remove_peers
  remove_peers-deadlock peers ps held = rw (remove_peer-deadlock peers held) refl

pub remove_peers-nil : (peers : Peers) → remove_peers peers [] ≡ ok peers
unfolding remove_peers
remove_peers-nil peers = refl
