-- ===== src/Network/Deliveries.antt =====
-- What the delivery of a packet that carries one definition does to the network.
use mathlib.Core.List.{Memᴰ, append-nil}
use mathlib.Core.List.Memᴰ
use grintorrent.Base.{
  ℕ, ℕ_discrete, ==_iff, ==-eq-false, ◌≡◌, ◌≢◌, refl, sym, ◌∙◌, ap, ap₂, false, Bool-cases, inl,
  inr, List, [], ◌∷◌, ◌++◌, map, arith, length, subst, ok, Run, fault, out_of_fuel, ◌==◌,
  if◌then◌else◌,
}
use grintorrent.Base.Int.{pos, eqb_ℤ}
use grintorrent.System.{Md5}
use grintorrent.Tfile.{TfileDef, zero_digest}
use grintorrent.Htable.{Htable}
use grintorrent.Message.{encode_info}
use grintorrent.Share.{tfile_info}
use grintorrent.Share.Laws.{others, to_each}
use grintorrent.Share.Wire.{encode_def, IsDef}
use grintorrent.Worker.Read.{Round}
use grintorrent.Worker.Read.Laws.{read_round_forwards}
use grintorrent.Network.{Member, Packet, Network, packets, update, deliver, Works, Step, reads}
use grintorrent.Network.Members.{Has, IsReady, add_htable-Has}

-- The neighbours without the one that is the source.
unfoldable pub skip : ℕ → List ℕ → List ℕ
skip f [] = []
skip f (k ∷ ks) = if k == f then skip f ks else k ∷ skip f ks

-- The same bytes to each of them.
unfoldable pub broadcast : ℕ → List ℕ → List ℕ → List Packet
broadcast n bytes [] = []
broadcast n bytes (k ∷ ks) = record { source = n; target = k; bytes = bytes } ∷ broadcast n bytes ks

eqb_ℤ-pos : (k f : ℕ) → eqb_ℤ (pos k) (pos f) ≡ (k == f)
eqb_ℤ-pos k f = ap₂ (λ (a b : ℕ). a == b) (omega arith) (omega arith)

packets-broadcast :
    (n f : ℕ) (bytes ks : List ℕ)
    → packets n (to_each bytes (others (pos f) (map pos ks))) ≡ broadcast n bytes (skip f ks)
unfolding to_each others broadcast skip
packets-broadcast n f bytes [] = refl
packets-broadcast n f bytes (k ∷ ks) = elim (Bool-cases (k == f)) [
  | inl own ↦ rw (eqb_ℤ-pos k f, own) (packets-broadcast n f bytes ks)
  | inr other ↦
      rw (eqb_ℤ-pos k f, other)
        (ap (◌∷◌ (record { source = n; target = k; bytes = bytes }))
          (packets-broadcast n f bytes ks))
]

ok_injective : {a b : Network} → let r : Run Network = ok a in r ≡ ok b → a ≡ b
ok_injective {a} = ap (λ (r : Run Network). elim r [ ok n ↦ n | fault f ↦ a | out_of_fuel ↦ a ])

module _ (target : ℕ) (member : Member) (members : ℕ → Member) where
  pub update_self : update target member members target ≡ member
  unfolding update
  update_self = rw ((==_iff target target).1 refl) refl

  pub update_ne : (n : ℕ) → n ≢ target → update target member members n ≡ members n
  unfolding update
  update_ne n ne = rw (==-eq-false n target ne) refl

pub mem-without :
    (before after : List Packet) (p q : Packet)
    → Memᴰ q (before ++ after)
    → Memᴰ q (before ++ p ∷ after)
mem-without before after p q mem = elim (Memᴰ.append_cases before mem) [
  | inl b ↦ Memᴰ.append_left (p ∷ after) b
  | inr a ↦ Memᴰ.append_right before (Memᴰ.tail a)
]

pub broadcast-source :
    (n : ℕ) (bytes ks : List ℕ) (p : Packet)
    → Memᴰ p (broadcast n bytes ks)
    → (p.source ≡ n) × (p.bytes ≡ bytes)
unfolding broadcast
broadcast-source n bytes [] p mem = absurd (Memᴰ.not-nil mem)
broadcast-source n bytes (k ∷ ks) p (Memᴰ.head e) =
    (ap (λ (q : Packet). q.source) e, ap (λ (q : Packet). q.bytes) e)
broadcast-source n bytes (k ∷ ks) p (Memᴰ.tail mem) = broadcast-source n bytes ks p mem

module _ (t : TfileDef) where
  -- The packet is a TFILE_DEF message with the definition.
  pub record Carries (p : Packet) : Type 0 where
    pub padding : List ℕ
    pub seven : length padding ≡ 7
    pub sent : p.bytes ≡ encode_info padding tfile_info ++ encode_def t

  module _ (neighbours : ℕ → List ℕ) where
    -- Every node is ready, and every packet carries the definition.
    pub record IsFlood (net : Network) : Type 0 where
      pub ready : (n : ℕ) → IsReady t (neighbours n) (net.members n)
      pub carried : (p : Packet) → Memᴰ p net.flight → Carries p

    -- How the network is after a packet: its target has the definition and has sent it to the
    -- neighbours that the packet did not come from.
    pub record Effect (net net' : Network) : Type 0 where
      pub before : List Packet
      pub after : List Packet
      pub packet : Packet
      pub was : net.flight ≡ before ++ packet ∷ after
      pub bytes : List ℕ
      pub now :
          net'.flight
          ≡ (before ++ after)
            ++ broadcast packet.target bytes (skip packet.source (neighbours packet.target))
      pub has : Has t (net'.members packet.target).ht
      pub kept : (n : ℕ) → n ≢ packet.target → net'.members n ≡ net.members n
      pub flood : IsFlood net'

    -- The network after a packet
    abbrev delivered : List Packet → List Packet → Packet → Network → Htable → List ℕ → Network
    delivered before after p net ht padding = record {
      members =
          update p.target
            (record { ht = ht; peers = record (net.members p.target).peers { locked = false } })
            net.members;
      flight =
          (before ++ after)
          ++ broadcast p.target (encode_info padding tfile_info ++ encode_def t)
              (skip p.source (neighbours p.target));
    }

    IsFlood-after :
        (before after : List Packet) (p : Packet) (net : Network) (ht : Htable) (padding : List ℕ)
        → length padding ≡ 7
        → IsFlood net
        → net.flight ≡ before ++ p ∷ after
        → Has t ht
        → IsFlood (delivered before after p net ht padding)
    IsFlood-after before after p net ht padding seven flood was has =
        let here = flood.ready p.target in
        let member : Member = record {
          ht = ht;
          peers = record (net.members p.target).peers { locked = false };
        } in
        record {
          ready = λ n. elim (ℕ_discrete n p.target) [
            | yes e ↦
                rw (e, update_self p.target member net.members)
                  (record {
                    table = inl has;
                    peers = record {
                      free = refl;
                      positive = here.peers.positive;
                      allocated = here.peers.allocated;
                      used = here.peers.used;
                    };
                    joined = here.joined;
                  })
            | no ne ↦ rw (update_ne p.target member net.members n ne) (flood.ready n)
          ];
          carried = λ q mem. elim (Memᴰ.append_cases (before ++ after) mem) [
            | inl old ↦ flood.carried q (rw was (mem-without before after p q old))
            | inr new ↦ record {
              padding = padding;
              seven = seven;
              sent = (broadcast-source p.target _ (skip p.source (neighbours p.target)) q new).1;
            }
          ];
        }

    module _ (m : Md5) (nz : t.f_hash ≢ zero_digest) (def : IsDef t) where
      -- A packet that is read is taken in and passed on.
      pub deliver_lem :
          (r : Round) (buffer : List ℕ) (before after : List Packet) (p : Packet) (net : Network)
          → Works r
          → IsFlood net
          → net.flight ≡ before ++ p ∷ after
          → (net' : Network) × (deliver m r buffer (before ++ after) p net ≡ ok net')
            × Effect net net'
      unfolding deliver
      deliver_lem r buffer before after p net works flood was =
          let at = net.members p.target in
          let here = flood.ready p.target in
          let carries = flood.carried p (rw was (Memᴰ.append_right before (Memᴰ.head refl))) in
          let (o, ht', added, has) = add_htable-Has t r.calloc works.fuel at.ht nz here.table in
          let message = encode_info r.padding tfile_info ++ encode_def t in
          let member : Member = record { ht = ht'; peers = record at.peers { locked = false } } in
          let round =
            read_round_forwards m (record { server_fd = pos p.source; client_fd = pos p.source }) r
              works.up
              (record { ht = at.ht; peers = at.peers; data_read = buffer; stream = []; sent = [] })
              carries.padding [] t o ht' carries.seven def (rw works.runs added) here.peers in
          (
            delivered before after p net ht' r.padding,
            rw
                (
                  carries.sent
                      ∙ ap (λ (b : List ℕ). encode_info carries.padding tfile_info ++ b)
                          (sym (append-nil (encode_def t))),
                  round,
                  here.joined,
                  packets-broadcast p.target p.source message (neighbours p.target),
                )
                refl,
            record {
              before = before;
              after = after;
              packet = p;
              was = was;
              bytes = message;
              now = refl;
              has = rw (update_self p.target member net.members) has;
              kept = update_ne p.target member net.members;
              flood = IsFlood-after before after p net ht' r.padding works.seven flood was has;
            },
          )

      -- So does every step.
      pub Step-Effect : {net net' : Network} → IsFlood net → Step m net net' → Effect net net'
      Step-Effect {net} {net'} flood (reads r buffer before after p works was run) =
          let (net'', run', effect) = deliver_lem r buffer before after p net works flood was in
          subst (λ (n : Network). Effect net n) (ok_injective (sym run' ∙ run)) effect
