-- ===== src/Network/Spread.antt =====
-- Where a definition gets to: the TFILE_DEF branch of `readWorker` of src/client.c at every node.
use mathlib.Core.List.{Memᴰ}
use mathlib.Core.List.Memᴰ
use grintorrent.Base.{
  ℕ, ◌≡◌, ◌≢◌, refl, sym, ◌∙◌, ap, Bool-cases, ◌⊎◌, inl, inr, List, [], ◌∷◌, ◌++◌, ◌==◌, ℕ_discrete,
  ==_iff,
}
use grintorrent.System.{Md5}
use grintorrent.Tfile.{TfileDef, zero_digest}
use grintorrent.Share.Wire.{IsDef}
use grintorrent.Network.{Packet, Network, Step, Steps, none_yet, one_more}
use grintorrent.Network.Members.{Has}
use grintorrent.Network.Deliveries.{
  skip, broadcast, IsFlood, Effect, mem-without, broadcast-source, Step-Effect,
}

mem-skip : (f k : ℕ) (ks : List ℕ) → k ≢ f → Memᴰ k ks → Memᴰ k (skip f ks)
unfolding skip
mem-skip f k [] ne mem = absurd (Memᴰ.not-nil mem)
mem-skip f k (x ∷ ks) ne mem = elim (Bool-cases (x == f)) [
  | inl own ↦ rw own (elim (Memᴰ.cases_cons mem) [
    | inl e ↦ absurd (ne (e ∙ (==_iff x f).0 own))
    | inr later ↦ mem-skip f k ks ne later
  ])
  | inr other ↦ rw other (elim (Memᴰ.cases_cons mem) [
    | inl e ↦ Memᴰ.head e
    | inr later ↦ Memᴰ.tail (mem-skip f k ks ne later)
  ])
]

pub mem-broadcast_target :
    (n k : ℕ) (bytes ks : List ℕ)
    → Memᴰ k ks
    → Memᴰ (record { source = n; target = k; bytes = bytes }) (broadcast n bytes ks)
unfolding broadcast
mem-broadcast_target n k bytes [] mem = absurd (Memᴰ.not-nil mem)
mem-broadcast_target n k bytes (x ∷ ks) (Memᴰ.head e) =
    Memᴰ.head
      (ap (λ (j : ℕ). let p : Packet = record { source = n; target = j; bytes = bytes } in p) e)
mem-broadcast_target n k bytes (x ∷ ks) (Memᴰ.tail mem) =
    Memᴰ.tail (mem-broadcast_target n k bytes ks mem)

-- A packet from one node to another is under way.
pub record IsUnderway (flight : List Packet) (n k : ℕ) : Type 0 where
  pub packet : Packet
  pub among : Memᴰ packet flight
  pub from : packet.source ≡ n
  pub to : packet.target ≡ k

module _ (t : TfileDef) (neighbours : ℕ → List ℕ) where
  -- From neighbour to neighbour
  pub data Walk (o : ℕ) : ℕ → Type 0 where
    stays : Walk o o
    goes : {n k : ℕ} → Walk o n → Memᴰ k (neighbours n) → Walk o k

  -- Whoever sent a packet has the definition, and whoever has it sent it to each neighbour: that one
  -- has it, or a packet is under way.
  pub record IsSpreading (net : Network) : Type 0 where
    pub flood : IsFlood t neighbours net
    pub sources : (p : Packet) → Memᴰ p net.flight → Has t (net.members p.source).ht
    pub covered :
        (n k : ℕ)
        → Has t (net.members n).ht
        → Memᴰ k (neighbours n)
        → Has t (net.members k).ht ⊎ IsUnderway net.flight n k

  module _ {net net' : Network} (effect : Effect t neighbours net net') where
    Has-Effect : (n : ℕ) → Has t (net.members n).ht → Has t (net'.members n).ht
    Has-Effect n has = elim (ℕ_discrete n effect.packet.target) [
      | yes e ↦ rw e effect.has
      | no ne ↦ rw (effect.kept n ne) has
    ]

    -- What was under way still is, or it has arrived.
    IsUnderway-Effect :
        (n k : ℕ)
        → IsUnderway net.flight n k
        → Has t (net'.members k).ht ⊎ IsUnderway net'.flight n k
    IsUnderway-Effect n k u =
        let stays_among = λ (mem : Memᴰ u.packet (effect.before ++ effect.after)).
          let it : IsUnderway net'.flight n k = record {
            packet = u.packet;
            among = rw effect.now (Memᴰ.append_left _ mem);
            from = u.from;
            to = u.to;
          } in
          it in
        elim (Memᴰ.append_cases effect.before (rw effect.was at u.among)) [
          | inl b ↦ inr (stays_among (Memᴰ.append_left effect.after b))
          | inr l ↦ elim (Memᴰ.cases_cons l) [
            | inl e ↦ inl (rw (sym u.to ∙ ap (λ (p : Packet). p.target) e) effect.has)
            | inr a ↦ inr (stays_among (Memᴰ.append_right effect.before a))
          ]
        ]

    -- The one that the packet came from has the definition.
    module _ (s : IsSpreading net) where
      source_has : Has t (net'.members effect.packet.source).ht
      source_has = Has-Effect effect.packet.source (
          s.sources effect.packet
            (rw effect.was (Memᴰ.append_right effect.before (Memᴰ.head refl))))

      sent_to :
          (k : ℕ)
          → Memᴰ k (neighbours effect.packet.target)
          → Has t (net'.members k).ht ⊎ IsUnderway net'.flight effect.packet.target k
      sent_to k mem = elim (ℕ_discrete k effect.packet.source) [
        | yes e ↦ inl (rw e source_has)
        | no ne ↦ inr (record {
          packet = record { source = effect.packet.target; target = k; bytes = effect.bytes };
          among = rw effect.now (
              Memᴰ.append_right (effect.before ++ effect.after) (
                mem-broadcast_target effect.packet.target k effect.bytes _
                  (mem-skip effect.packet.source k _ ne mem)));
          from = refl;
          to = refl;
        })
      ]

      sources_after : (q : Packet) → Memᴰ q net'.flight → Has t (net'.members q.source).ht
      sources_after q mem =
          elim (Memᴰ.append_cases (effect.before ++ effect.after) (rw effect.now at mem)) [
            | inl old ↦ Has-Effect q.source (
                s.sources q
                  (rw effect.was (mem-without effect.before effect.after effect.packet q old)))
            | inr new ↦ rw (broadcast-source effect.packet.target _ _ q new).0 effect.has
          ]

      covered_after :
          (n k : ℕ)
          → Has t (net'.members n).ht
          → Memᴰ k (neighbours n)
          → Has t (net'.members k).ht ⊎ IsUnderway net'.flight n k
      covered_after n k has mem = elim (ℕ_discrete n effect.packet.target) [
        | yes e ↦ rw e (sent_to k (rw e at mem))
        | no ne ↦ elim (s.covered n k (rw (effect.kept n ne) at has) mem) [
          | inl arrived ↦ inl (Has-Effect k arrived)
          | inr underway ↦ IsUnderway-Effect n k underway
        ]
      ]

      Effect-IsSpreading : IsSpreading net'
      Effect-IsSpreading = record {
        flood = effect.flood;
        sources = sources_after;
        covered = covered_after;
      }

  -- Where nothing is under way, the definition is everywhere that it can get to.
  pub spread_everywhere :
      (net : Network)
      → IsSpreading net
      → net.flight ≡ []
      → (o k : ℕ) → Walk o k
      → Has t (net.members o).ht
      → Has t (net.members k).ht
  spread_everywhere net s none o k stays has = has
  spread_everywhere net s none o k (goes {n} walk mem) has =
      elim (s.covered n k (spread_everywhere net s none o n walk has) mem) [
        | inl arrived ↦ arrived
        | inr u ↦ absurd (Memᴰ.not-nil (rw none at u.among))
      ]

  module _ (m : Md5) (nz : t.f_hash ≢ zero_digest) (def : IsDef t) where
    pub Step-IsSpreading :
        {net net' : Network} → IsSpreading net → Step m net net' → IsSpreading net'
    Step-IsSpreading s step = Effect-IsSpreading (Step-Effect t neighbours m nz def s.flood step) s

    pub Steps-IsSpreading :
        {net : Network} {c : ℕ} {net' : Network}
        → Steps m net c net'
        → IsSpreading net
        → IsSpreading net'
    Steps-IsSpreading none_yet s = s
    Steps-IsSpreading (one_more steps step) s = Step-IsSpreading (Steps-IsSpreading steps s) step

    pub Has-Steps :
        (n : ℕ) {net : Network} {c : ℕ} {net' : Network}
        → Steps m net c net'
        → IsSpreading net
        → Has t (net.members n).ht
        → Has t (net'.members n).ht
    Has-Steps n none_yet s has = has
    Has-Steps n (one_more steps step) s has =
        Has-Effect (Step-Effect t neighbours m nz def (Steps-IsSpreading steps s).flood step) n
          (Has-Steps n steps s has)

    -- What any run leaves
    pub Steps-Walk :
        {c : ℕ} {net net' : Network} (o k : ℕ)
        → IsSpreading net
        → Has t (net.members o).ht
        → Walk o k
        → Steps m net c net'
        → net'.flight ≡ []
        → Has t (net'.members k).ht
    Steps-Walk {net'} o k s has walk steps none =
        spread_everywhere net' (Steps-IsSpreading steps s) none o k walk (Has-Steps o steps s has)
