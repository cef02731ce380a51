-- ===== src/Network/Floods.antt =====
-- How long the packets of one definition go on: `readWorker` of src/client.c sends a TFILE_DEF on
-- although `add_htable` returned NULL.
use grintorrent.Base.{
  ℕ, zero, suc, ◌≤◌, ◌<◌, ◌≡◌, ◌≢◌, refl, List, [], ◌∷◌, ◌++◌, arith, length, length-append,
}
use grintorrent.System.{Md5}
use grintorrent.Tfile.{TfileDef, zero_digest}
use grintorrent.Share.Wire.{IsDef}
use grintorrent.Worker.Read.{Round}
use grintorrent.Network.{Packet, Network, Works, Step, reads, Steps, none_yet, one_more}
use grintorrent.Network.Deliveries.{skip, broadcast, IsFlood, Effect, deliver_lem, Step-Effect}

pub length-broadcast : (n : ℕ) (bytes ks : List ℕ) → length (broadcast n bytes ks) ≡ length ks
unfolding broadcast
length-broadcast n bytes [] = refl
length-broadcast n bytes (k ∷ ks) = omega (arith, length-broadcast n bytes ks)

module _ (t : TfileDef) (neighbours : ℕ → List ℕ) where
  module _ (m : Md5) (nz : t.f_hash ≢ zero_digest) (def : IsDef t) where
    -- Where a packet is under way, it can be read.
    pub flood_goes_on :
        (r : Round) (net : Network)
        → Works r
        → IsFlood t neighbours net
        → 0 < length net.flight
        → (net' : Network) × Step m net net'
    flood_goes_on r net works flood some_left = go net.flight refl
      where
        go : (flight : List Packet) → net.flight ≡ flight → (net' : Network) × Step m net net'
        go [] e = absurd (omega (arith, rw e at some_left))
        go (p ∷ rest) e =
            let (net', run, effect) =
              deliver_lem t neighbours m nz def r [] [] rest p net works flood e in
            (net', reads r [] [] rest p works e run)

    pub Steps-IsFlood :
        {net : Network} {c : ℕ} {net' : Network}
        → Steps m net c net'
        → IsFlood t neighbours net
        → IsFlood t neighbours net'
    Steps-IsFlood none_yet f = f
    Steps-IsFlood (one_more steps step) f =
        (Step-Effect t neighbours m nz def (Steps-IsFlood steps f) step).flood

    module _ (cyclic : (f n : ℕ) → 0 < length (skip f (neighbours n))) where
      Effect-length :
          {net net' : Network}
          → Effect t neighbours net net'
          → length net.flight ≤ length net'.flight
      Effect-length effect =
          rw (effect.was, effect.now)
            (omega (
              arith,
              cyclic effect.packet.source effect.packet.target,
              length-append effect.before (effect.packet ∷ effect.after),
              length-append effect.before effect.after,
              length-append (effect.before ++ effect.after) (
                  broadcast effect.packet.target effect.bytes
                    (skip effect.packet.source (neighbours effect.packet.target))),
              length-broadcast effect.packet.target effect.bytes
                  (skip effect.packet.source (neighbours effect.packet.target)),
            ))

      Steps-length :
          {net : Network} {c : ℕ} {net' : Network}
          → Steps m net c net'
          → IsFlood t neighbours net
          → length net.flight ≤ length net'.flight
      Steps-length none_yet f = omega arith
      Steps-length (one_more steps step) f = omega (
        arith,
        Steps-length steps f,
        Effect-length (Step-Effect t neighbours m nz def (Steps-IsFlood steps f) step),
      )

      -- As many packets as there are stay under way.
      pub flood_never_ends :
          (r : Round) (net : Network)
          → Works r
          → IsFlood t neighbours net
          → 0 < length net.flight
          → ((c : ℕ) → (net' : Network) × Steps m net c net')
            × ((c : ℕ) (net' : Network)
                → Steps m net c net'
                → length net.flight ≤ length net'.flight)
      flood_never_ends r net works flood some_left = (run, λ c net' steps. Steps-length steps flood)
        where
          run : (c : ℕ) → (net' : Network) × Steps m net c net'
          run zero = (net, none_yet)
          run (suc c) =
              let (net', steps) = run c in
              let (net'', step) =
                flood_goes_on r net' works (Steps-IsFlood steps flood)
                  (omega (arith, Steps-length steps flood)) in
              (net'', one_more steps step)
