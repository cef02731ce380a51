-- ===== src/Network/Outcomes.antt =====
-- What becomes of a definition that `main` of src/client.c announces, in networks of any shape.
use grintorrent.Base.{
  ℕ, ◌≤◌, ◌<◌, ◌≡◌, ◌≢◌, List, [], ◌∷◌, ◌++◌, arith, length, ok, Bool-cases, inl, inr, ◌==◌,
}
use grintorrent.Base.Int.{pos}
use grintorrent.System.{Md5}
use grintorrent.Tfile.{TfileDef, zero_digest}
use grintorrent.Message.{Kernel, info_size, encode_info}
use grintorrent.Message.Send.{Progresses}
use grintorrent.Share.{tfile_info}
use grintorrent.Share.Wire.{encode_def, IsDef}
use grintorrent.Worker.Read.{Round}
use grintorrent.Network.{Network, Works, Steps}
use grintorrent.Network.Members.{Has}
use grintorrent.Network.Deliveries.{skip}
use grintorrent.Network.Spread.{Walk, Steps-Walk}
use grintorrent.Network.Announce.{
  announce, IsQuiet, announced, announce_lem, announced-IsSpreading, Has-announced,
}
use grintorrent.Network.Floods.{flood_never_ends, length-broadcast}
use grintorrent.Network.Trees.{weigh, flood_completes, total-broadcast}

pub length-skip : (f : ℕ) (ks : List ℕ) → length (skip f ks) ≤ length ks
unfolding skip
length-skip f [] = omega arith
length-skip f (k ∷ ks) = elim (Bool-cases (k == f)) [
  | inl own ↦ rw own (omega (arith, length-skip f ks))
  | inr other ↦ rw other (omega (arith, length-skip f ks))
]

module _ (m : Md5) (t : TfileDef) (neighbours : ℕ → List ℕ) (nz : t.f_hash ≢ zero_digest)
    (def : IsDef t) (o : ℕ) (net : Network) (quiet : IsQuiet t neighbours o net)
    (write : ℕ → Kernel) (up : (k : ℕ) → Progresses (write k))
    (headers : (k : ℕ) → write k 0 info_size ≡ pos info_size) (padding : List ℕ)
    (seven : length padding ≡ 7) where
  -- In a network of any shape: when the tables and the lists of peers of all nodes are valid, the
  -- sockets of each list are its neighbours, the definition's fields have the sizes of the C types
  -- and its digest is not zero, one node has it and all others have room for it and do not, nothing
  -- is under way, connections are up and headers go out whole, then the thread of main that shares
  -- the file returns, and when the packets are read in any order, each by a readWorker as it does
  -- it, and none is under way any more, each node that can be reached from neighbour to neighbour
  -- has the definition in its table.
  pub announce_spreads :
      (start : Network) × (announce write padding t o net ≡ ok start)
      × ((c : ℕ) (end : Network)
          → Steps m start c end
          → end.flight ≡ []
          → (k : ℕ) → Walk t neighbours o k
          → Has t (end.members k).ht)
  announce_spreads = (
    announced t neighbours o padding net,
    announce_lem t neighbours o write padding net quiet def up headers,
    λ c end steps none k walk.
        Steps-Walk t neighbours m nz def o k
          (announced-IsSpreading t neighbours o padding seven net quiet)
          (Has-announced t neighbours o padding seven net quiet) walk steps none,
  )

  -- When the tables and the lists of peers of all nodes are valid, the sockets of each list are its
  -- neighbours, the definition's fields have the sizes of the C types and its digest is not zero,
  -- one node has it and all others have room for it and do not, nothing is under way, connections
  -- are up and headers go out whole, and each node has a neighbour besides whichever one a packet
  -- came from, then the thread of main that shares the file returns, any number of packets can be
  -- read after it, and however many were read, at least as many are under way as that thread sent:
  -- the same definition goes round for ever.
  pub announce_never_ends :
      (r : Round)
      → Works r
      → ((f n : ℕ) → 0 < length (skip f (neighbours n)))
      → (start : Network) × (announce write padding t o net ≡ ok start)
        × ((c : ℕ) → (end : Network) × Steps m start c end)
        × ((c : ℕ) (end : Network)
            → Steps m start c end
            → length (neighbours o) ≤ length end.flight)
  announce_never_ends r works cyclic =
      let spreading = announced-IsSpreading t neighbours o padding seven net quiet in
      let message = encode_info padding tfile_info ++ encode_def t in
      let wide = length-broadcast o message (neighbours o) in
      let ends =
        flood_never_ends t neighbours m nz def cyclic r (announced t neighbours o padding net) works
          spreading.flood (omega (arith, wide, cyclic o o, length-skip o (neighbours o))) in
      (
        announced t neighbours o padding net,
        announce_lem t neighbours o write padding net quiet def up headers,
        ends.0,
        λ c end steps. omega (arith, wide, ends.1 c end steps),
      )

  -- A definition in a tree of nodes: when the tables and the lists of peers of all nodes are valid,
  -- the sockets of each list are its neighbours, the definition's fields have the sizes of the C
  -- types and its digest is not zero, one node has it and all others have room for it and do not,
  -- nothing is under way, connections are up and headers go out whole, and weights of the pairs of
  -- nodes exist by which what a node passes on weighs less than what came to it, then the thread of
  -- main that shares the file returns; in whatever order the packets are read, each by a readWorker
  -- as it does it, no more are read than what that thread sends weighs, and there is a way to read
  -- all, after which each node that can be reached from neighbour to neighbour has the definition
  -- in its table.
  pub announce_completes :
      (weight : ℕ → ℕ → ℕ) (r : Round)
      → Works r
      → ((f n : ℕ) → weigh weight n (skip f (neighbours n)) < weight f n)
      → (start : Network) × (announce write padding t o net ≡ ok start)
        × ((c : ℕ) (end : Network) → Steps m start c end → c ≤ weigh weight o (neighbours o))
        × (c : ℕ) × (end : Network) × Steps m start c end
        × (end.flight ≡ [])
        × ((k : ℕ) → Walk t neighbours o k → Has t (end.members k).ht)
  announce_completes weight r works lighter =
      let message = encode_info padding tfile_info ++ encode_def t in
      let (bounded, c, end, steps, none, everywhere) =
        flood_completes weight t neighbours m nz def lighter r
          (announced t neighbours o padding net) o works
          (announced-IsSpreading t neighbours o padding seven net quiet)
          (Has-announced t neighbours o padding seven net quiet) in
      (
        announced t neighbours o padding net,
        announce_lem t neighbours o write padding net quiet def up headers,
        λ c' end' steps'.
            omega (arith, bounded c' end' steps', total-broadcast weight o message (neighbours o)),
        c,
        end,
        steps,
        none,
        everywhere,
      )
