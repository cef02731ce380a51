-- ===== src/Peers/Add.antt =====
-- The peers as a list, to which `add_peer` appends.
use mathlib.Core.List.{append_assoc, append-nil}
use grintorrent.Base.{
  ℕ, zero, suc, ◌+◌, ◌-◌, ◌*◌, ◌≤◌, ◌<◌, ◌≡◌, refl, sym, ◌∙◌, ap, false, Bool-cases, inl, inr, List,
  [], ◌∷◌, ◌++◌, arith, length, take-append_le, take-take, length-set, length-append, length-take,
  length-replicate, set, take, replicate, leb, lt→ltb, le→leb, ltb-eq-false, dec_lt, Run, ok, fault,
  out_of_bounds, ◌>>=◌,
}
use grintorrent.Base.Int.{ℤ, negsuc}
use grintorrent.Peers.{Peers, realloc, add_peer}

abbrev pub no_fd : ℤ
no_fd = negsuc 0

-- The sockets in use.
abbrev pub fds : Peers → List ℤ
fds peers = take peers.size peers.arr

pub record IsValid (peers : Peers) : Type 0 where
  pub free : peers.locked ≡ false
  pub positive : 0 < peers.capacity
  pub allocated : peers.capacity ≤ length peers.arr
  pub used : peers.size ≤ length peers.arr

pub take-set_end {ℓ} :
    {A : Type ℓ} (n : ℕ) (xs : List A) (x : A)
    → n < length xs
    → take (suc n) (set xs n x) ≡ take n xs ++ x ∷ []
take-set_end n [] x lt = absurd (omega arith)
take-set_end zero (y ∷ ys) x lt = refl
take-set_end (suc n) (y ∷ ys) x lt = ap (◌∷◌ y) (take-set_end n ys x (omega arith))

pub length-realloc : (fresh : ℤ) (n : ℕ) (arr : List ℤ) → length (realloc fresh n arr) ≡ n
length-realloc fresh n arr = omega (
  arith,
  length-append (take n arr) (replicate (n - length arr) fresh),
  length-take n arr,
  length-replicate (n - length arr) fresh,
)

pub take-realloc :
    (fresh : ℤ) (k n : ℕ) (arr : List ℤ)
    → k ≤ n
    → k ≤ length arr
    → take k (realloc fresh n arr) ≡ take k arr
take-realloc fresh k n arr le fits =
    take-append_le k (take n arr) (replicate (n - length arr) fresh)
      (omega (arith, length-take n arr))
    ∙ take-take k n arr le

module _ (fresh : ℤ) where
  -- What `add_peer` does behind the lock, with room for one more.
  appended :
      (peers : Peers) (arr : List ℤ) (peer : ℤ)
      → 0 < peers.capacity
      → peers.capacity ≤ length arr
      → peers.size < length arr
      → take peers.size arr ≡ fds peers
      → let peers' : Peers = record peers {
        locked = false;
        size = peers.size + 1;
        arr = set arr peers.size peer;
      } in
        IsValid peers' × (fds peers' ≡ fds peers ++ peer ∷ [])
  appended peers arr peer positive allocated room same = (
    record {
      free = refl;
      positive = positive;
      allocated = omega (arith, length-set arr peers.size peer);
      used = omega (arith, length-set arr peers.size peer);
    },
    ap (λ (n : ℕ). take n (set arr peers.size peer)) (add_one peers.size)
        ∙ take-set_end peers.size arr peer room
        ∙ ap (λ (xs : List ℤ). xs ++ peer ∷ []) same,
  )
    where
      add_one : (n : ℕ) → ◌≡◌ {A = ℕ} (n + 1) (suc n)
      add_one n = omega arith

  -- As long as there are fewer peers than twice the capacity, `add_peer` puts the socket behind the
  -- others, frees the lock and keeps the array as long as it must be.
  pub add_peer_lem :
      (peers : Peers) (peer : ℤ)
      → IsValid peers
      → peers.size < peers.capacity * 2
      → (peers' : Peers) × (add_peer fresh peers peer ≡ ok peers')
        × IsValid peers'
        × (fds peers' ≡ fds peers ++ peer ∷ [])
        × (peers'.size ≡ peers.size + 1)
        × (peers'.capacity ≡ peers.capacity)
  unfolding add_peer
  add_peer_lem peers peer v room = elim (Bool-cases (leb peers.capacity peers.size)) [
    | inl full ↦
        let arr = realloc fresh (peers.capacity * 2) peers.arr in
        let long = length-realloc fresh (peers.capacity * 2) peers.arr in
        let (valid, same) =
          appended peers arr peer v.positive (omega (arith, long)) (omega (arith, long))
            (take-realloc fresh peers.size (peers.capacity * 2) peers.arr (omega arith) v.used) in
        (
          _,
          rw (full, v.free, lt→ltb peers.size (length arr) (omega (arith, long))) refl,
          valid,
          same,
          refl,
          refl,
        )
    | inr free ↦
        let (valid, same) =
          appended peers peers.arr peer v.positive v.allocated (ground (arith, v.allocated)) refl in
        (
          _,
          rw (free, v.free, lt→ltb peers.size (length peers.arr) (ground (arith, v.allocated)))
              refl,
          valid,
          same,
          refl,
          refl,
        )
  ]

  -- Once there are twice as many peers as the capacity, `add_peer` writes behind the array.
  pub add_peer_overruns :
      (peers : Peers) (peer : ℤ)
      → IsValid peers
      → peers.capacity * 2 ≤ peers.size
      → add_peer fresh peers peer ≡ fault out_of_bounds
  unfolding add_peer
  add_peer_overruns peers peer v full =
      let arr = realloc fresh (peers.capacity * 2) peers.arr in
      let long = length-realloc fresh (peers.capacity * 2) peers.arr in
      rw
        (
          le→leb peers.capacity peers.size (omega arith),
          v.free,
          ltb-eq-false peers.size (length arr) (omega (arith, long)),
        )
        refl

  -- One `add_peer` after the other.
  pub add_all : Peers → List ℤ → Run Peers
  add_all peers [] = ok peers
  add_all peers (p ∷ ps) = do peers' ← add_peer fresh peers p; add_all peers' ps

  -- From any valid state, as many calls of add_peer as bring the count to twice the capacity at
  -- most leave a valid list with the new sockets behind the old ones, in their order.
  pub add_all-contents :
      (ps : List ℤ) (peers : Peers)
      → IsValid peers
      → peers.size + length ps ≤ peers.capacity * 2
      → (peers' : Peers) × (add_all peers ps ≡ ok peers')
        × IsValid peers'
        × (fds peers' ≡ fds peers ++ ps)
  unfolding add_all
  add_all-contents [] peers v few = (peers, refl, v, sym (append-nil _))
  add_all-contents (p ∷ ps) peers v few =
      let (next, added, valid, same, count, width) = add_peer_lem peers p v (omega arith) in
      let (last, rest, valid', same') = add_all-contents ps next valid (omega arith) in
      (
        last,
        rw added rest,
        valid',
        same' ∙ ap (λ (xs : List ℤ). xs ++ ps) same ∙ append_assoc (fds peers) (p ∷ []) ps,
      )

  -- From any valid state with at most twice as many peers as the capacity, calls of add_peer that
  -- bring the count above that end in a write behind the array.
  pub add_all_overruns :
      (ps : List ℤ) (peers : Peers)
      → IsValid peers
      → peers.capacity * 2 < peers.size + length ps
      → peers.size ≤ peers.capacity * 2
      → add_all peers ps ≡ fault out_of_bounds
  unfolding add_all
  add_all_overruns [] peers v many some_room = absurd (omega arith)
  add_all_overruns (p ∷ ps) peers v many some_room = elim (dec_lt peers.size (peers.capacity * 2)) [
    | yes room ↦
        let (next, added, valid, same, count, width) = add_peer_lem peers p v room in
        rw added (add_all_overruns ps next valid (omega arith) (omega arith))
    | no full ↦ rw (add_peer_overruns peers p v (omega arith)) refl
  ]
