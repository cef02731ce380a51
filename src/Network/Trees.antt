-- ===== src/Network/Trees.antt =====
-- Networks in which the packets of a definition end: there are no two ways from one node to another.
use grintorrent.Base.{
  ℕ, zero, suc, ◌+◌, ◌≤◌, ◌<◌, ◌≡◌, ◌≢◌, refl, ◌⊎◌, inl, inr, List, [], ◌∷◌, ◌++◌, arith, length,
}
use grintorrent.System.{Md5}
use grintorrent.Tfile.{TfileDef, zero_digest}
use grintorrent.Share.Wire.{IsDef}
use grintorrent.Worker.Read.{Round}
use grintorrent.Network.{Packet, Network, Works, Steps, none_yet, one_more}
use grintorrent.Network.Members.{Has}
use grintorrent.Network.Deliveries.{skip, broadcast, Effect, Step-Effect}
use grintorrent.Network.Spread.{Walk, IsSpreading, Steps-IsSpreading, Steps-Walk}
use grintorrent.Network.Floods.{flood_goes_on}

module _ (weight : ℕ → ℕ → ℕ) where
  -- The weights of the edges from a node.
  unfoldable pub weigh : ℕ → List ℕ → ℕ
  weigh n [] = 0
  weigh n (k ∷ ks) = weight n k + weigh n ks

  unfoldable pub total : List Packet → ℕ
  total [] = 0
  total (p ∷ ps) = weight p.source p.target + total ps

  total-append : (ps qs : List Packet) → total (ps ++ qs) ≡ total ps + total qs
  unfolding total
  total-append [] qs = omega arith
  total-append (p ∷ ps) qs = omega (arith, total-append ps qs)

  pub total-broadcast : (n : ℕ) (bytes ks : List ℕ) → total (broadcast n bytes ks) ≡ weigh n ks
  unfolding total broadcast weigh
  total-broadcast n bytes [] = refl
  total-broadcast n bytes (k ∷ ks) = omega (arith, total-broadcast n bytes ks)

  total_cons :
      (p : Packet) (ps : List Packet) → total (p ∷ ps) ≡ weight p.source p.target + total ps
  unfolding total
  total_cons p ps = refl

  module _ (t : TfileDef) (neighbours : ℕ → List ℕ) (m : Md5) (nz : t.f_hash ≢ zero_digest)
      (def : IsDef t) (lighter : (f n : ℕ) → weigh n (skip f (neighbours n)) < weight f n) where
    Effect-total :
        {net net' : Network} → Effect t neighbours net net' → total net'.flight < total net.flight
    Effect-total effect =
        let p = effect.packet in
        let on = skip p.source (neighbours p.target) in
        rw (effect.was, effect.now)
          (omega (
            arith,
            lighter p.source p.target,
            total-append effect.before (p ∷ effect.after),
            total_cons p effect.after,
            total-append effect.before effect.after,
            total-append (effect.before ++ effect.after) (broadcast p.target effect.bytes on),
            total-broadcast p.target effect.bytes on,
          ))

    Steps-total :
        {net : Network} {c : ℕ} {net' : Network}
        → Steps m net c net'
        → IsSpreading t neighbours net
        → c + total net'.flight ≤ total net.flight
    Steps-total none_yet s = omega arith
    Steps-total (one_more steps step) s = omega (
      arith,
      Steps-total steps s,
      Effect-total (
          Step-Effect t neighbours m nz def (Steps-IsSpreading t neighbours m nz def steps s).flood
            step),
    )

    empty-or-lighter :
        (flight : List Packet) → (flight ≡ []) ⊎ ((0 < length flight) × (0 < total flight))
    empty-or-lighter [] = inl refl
    empty-or-lighter (p ∷ rest) =
        inr (omega arith, omega (arith, total_cons p rest, lighter p.source p.target))

    -- From a network that is reached, the packets can be read to the end.
    finish :
        (r : Round) (fuel : ℕ) {start : Network} {c : ℕ} (net : Network)
        → Works r
        → IsSpreading t neighbours start
        → Steps m start c net
        → total net.flight ≤ fuel
        → (c' : ℕ) × (end : Network) × Steps m start c' end × (end.flight ≡ [])
    finish r zero {start} {c} net works s steps bound = elim (empty-or-lighter net.flight) [
      | inl none ↦ (c, net, steps, none)
      | inr (some_left, positive) ↦ absurd (omega arith)
    ]
    finish r (suc fuel) {start} {c} net works s steps bound = elim (empty-or-lighter net.flight) [
      | inl none ↦ (c, net, steps, none)
      | inr (some_left, positive) ↦
          let flood = (Steps-IsSpreading t neighbours m nz def steps s).flood in
          let (net', step) = flood_goes_on t neighbours m nz def r net works flood some_left in
          finish r fuel net' works s (one_more steps step)
            (omega (arith, Effect-total (Step-Effect t neighbours m nz def flood step)))
    ]

    -- A run of at most the total weight ends.
    pub flood_completes :
        (r : Round) (start : Network) (o : ℕ)
        → Works r
        → IsSpreading t neighbours start
        → Has t (start.members o).ht
        → ((c : ℕ) (net : Network) → Steps m start c net → c ≤ total start.flight)
          × (c : ℕ) × (end : Network) × Steps m start c end
          × (end.flight ≡ [])
          × ((k : ℕ) → Walk t neighbours o k → Has t (end.members k).ht)
    flood_completes r start o works s has =
        let (c, end, steps, none) =
          finish r (total start.flight) start works s none_yet (omega arith) in
        (
          λ c' net steps'. omega (arith, Steps-total steps' s),
          c,
          end,
          steps,
          none,
          λ k walk. Steps-Walk t neighbours m nz def o k s has walk steps none,
        )
