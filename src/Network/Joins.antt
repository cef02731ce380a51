-- ===== src/Network/Joins.antt =====
-- What a node has after it joined: the definitions that `share_tfiles_to_peer` of src/client.c sends,
-- read by `readWorker` at the other end.
use mathlib.Core.List.{Memᴰ, append_assoc}
use mathlib.Core.List.Memᴰ
use grintorrent.Base.{
  ℕ, inl, inr, ◌≡◌, ◌≢◌, refl, ◌∙◌, ap, false, Option, none, some, List, [], ◌∷◌, ◌++◌, length,
  arith, drop, ok,
}
use grintorrent.Base.Int.{ℤ, pos}
use grintorrent.System.{Md5}
use grintorrent.Tfile.{TfileDef, zero_digest}
use grintorrent.Htable.{Htable, write_def, search_htable, add_htable}
use grintorrent.Htable.Insert.{add_htable_inserts, add_htable-key}
use grintorrent.Htable.Search.{search_htable-key}
use grintorrent.Message.{encode_info, Kernel, info_size}
use grintorrent.Message.Send.{Progresses}
use grintorrent.Peers.{Peers}
use grintorrent.Peers.Add as Add
use grintorrent.Share.{Sent, tfile_info, share_tfiles_to_peer}
use grintorrent.Share.Laws.{others, to_each}
use grintorrent.Share.Wire.{encode_def, def_size, IsDef}
use grintorrent.Share.Files.{AreDefs, defs_to, share_tfiles_to_peer-Progresses}
use grintorrent.Worker.Read.{ClientServer, Round, State, goes_on, read_rounds}
use grintorrent.Worker.Read.Laws.{read_round_forwards}
use grintorrent.Network.{Works}
use grintorrent.Network.Members.{Has, Lacks, Has-Lacks, Has-write_def}

-- What goes over the connection, one message behind the other
unfoldable pub joined : Sent → List ℕ
joined [] = []
joined ((fd, bytes) ∷ sent) = bytes ++ joined sent

-- What a table becomes when definitions with digests that are not zero are added, each of which it
-- has already or takes in.
pub data Takes : List TfileDef → Htable → Htable → Type 0 where
  done : {ht : Htable} → Takes [] ht ht
  had :
      {t : TfileDef} {ts : List TfileDef} {ht ht' : Htable}
      → t.f_hash ≢ zero_digest
      → Has t ht
      → Takes ts ht ht'
      → Takes (t ∷ ts) ht ht'
  took :
      {t : TfileDef} {ts : List TfileDef} {ht ht' : Htable}
      → t.f_hash ≢ zero_digest
      → (l : Lacks t ht) → Takes ts (write_def ht l.slot t) ht'
      → Takes (t ∷ ts) ht ht'

Has-Takes :
    (u : TfileDef) {ts : List TfileDef} {ht ht' : Htable}
    → Takes ts ht ht'
    → u.f_hash ≢ zero_digest
    → Has u ht
    → Has u ht'
Has-Takes u done nz has = has
Has-Takes u (had nz' h more) nz has = Has-Takes u more nz has
Has-Takes u (took {t} {ts} {ht} nz' l more) nz has =
    Has-Takes u more nz (Has-write_def t u ht l nz' nz has)

found_there :
    (u t : TfileDef)
    → u ≡ t
    → (ht : Htable) → t.f_hash ≢ zero_digest
    → Has t ht
    → (i : ℕ) × (search_htable ht u.f_hash ≡ ok (some i))
found_there u t e ht nz has = (
  has.slot,
  ap (λ (d : TfileDef). search_htable ht d.f_hash) e
      ∙ search_htable-key has.valid t.f_hash has.slot nz has.found,
)

-- Each of them is found afterwards.
search-Takes :
    (u : TfileDef) {ts : List TfileDef} {ht ht' : Htable}
    → Takes ts ht ht'
    → Memᴰ u ts
    → (i : ℕ) × (search_htable ht' u.f_hash ≡ ok (some i))
search-Takes u done mem = absurd (Memᴰ.not-nil mem)
search-Takes u (had {t} {ts} {ht} {ht'} nz h more) mem = elim (Memᴰ.cases_cons mem) [
  | inl e ↦ found_there u t e ht' nz (Has-Takes t more nz h)
  | inr later ↦ search-Takes u more later
]
search-Takes u (took {t} {ts} {ht} {ht'} nz l more) mem = elim (Memᴰ.cases_cons mem) [
  | inl e ↦ found_there u t e ht' nz (Has-Takes t more nz (Has-Lacks t ht l nz))
  | inr later ↦ search-Takes u more later
]

module _ (padding : List ℕ) where
  -- The messages, and what comes behind them
  unfoldable pub wire : List TfileDef → List ℕ → List ℕ
  wire [] rest = rest
  wire (t ∷ ts) rest = encode_info padding tfile_info ++ (encode_def t ++ wire ts rest)

  joined-defs_to :
      (fd : ℤ) (ts : List TfileDef) (rest : List ℕ)
      → joined (defs_to padding fd ts) ++ rest ≡ wire ts rest
  unfolding joined defs_to wire
  joined-defs_to fd [] rest = refl
  joined-defs_to fd (t ∷ ts) rest =
      append_assoc (encode_info padding tfile_info ++ encode_def t) (joined (defs_to padding fd ts))
        rest
      ∙ append_assoc (encode_info padding tfile_info) (encode_def t)
          (joined (defs_to padding fd ts) ++ rest)
      ∙ ap (λ (bytes : List ℕ). encode_info padding tfile_info ++ (encode_def t ++ bytes))
          (joined-defs_to fd ts rest)

-- In all rounds the system does what it should.
unfoldable pub AllWork : List Round → Type 0
AllWork [] = Unit
AllWork (r ∷ rs) = Works r × AllWork rs

module _ (m : Md5) (fd_data : ClientServer) (padding : List ℕ) (seven : length padding ≡ 7) where
  -- The state behind one of them
  abbrev added : Round → State → TfileDef → Htable → State
  added r s t next = record s {
    ht = next;
    peers = record s.peers { locked = false };
    data_read = encode_def t ++ drop def_size s.data_read;
    sent =
        s.sent
        ++ to_each (encode_info r.padding tfile_info ++ encode_def t)
            (others fd_data.server_fd (Add.fds s.peers));
  }

  added-IsValid :
      (r : Round) (s : State) (t : TfileDef) (next : Htable)
      → Add.IsValid s.peers
      → Add.IsValid (added r s t next).peers
  added-IsValid r s t next v = record {
    free = refl;
    positive = v.positive;
    allocated = v.allocated;
    used = v.used;
  }

  read_rounds_cons :
      (r : Round) (rs : List Round) (t : TfileDef) (ts : List TfileDef) (s : State) (rest : List ℕ)
      (o : Option ℕ) (next : Htable)
      → Works r
      → IsDef t
      → add_htable r.calloc r.add_fuel s.ht t ≡ ok (o, next)
      → Add.IsValid s.peers
      → read_rounds m fd_data (r ∷ rs) (record s { stream = wire padding (t ∷ ts) rest })
        ≡ read_rounds m fd_data rs (record (added r s t next) { stream = wire padding ts rest })
  unfolding wire read_rounds
  read_rounds_cons r rs t ts s rest o next works def adds peers =
      rw
        (read_round_forwards m fd_data r works.up s padding (wire padding ts rest) t o next seven
          def adds peers)
        refl

  read_rounds-Takes :
      (rs : List Round) (ts : List TfileDef) (s : State) (rest : List ℕ) (ht' : Htable)
      → Takes ts s.ht ht'
      → AreDefs ts
      → AllWork rs
      → length rs ≡ length ts
      → Add.IsValid s.peers
      → (s' : State) × (read_rounds m fd_data rs (record s { stream = wire padding ts rest })
          ≡ ok (goes_on s'))
        × (s'.ht ≡ ht')
        × (s'.stream ≡ rest)
  unfolding wire AreDefs AllWork read_rounds
  read_rounds-Takes [] [] s rest ht' done defs works many peers =
      (record s { stream = rest }, refl, refl, refl)
  read_rounds-Takes [] (t ∷ ts) s rest ht' takes defs works many peers = absurd (omega arith)
  read_rounds-Takes (r ∷ rs) [] s rest ht' takes defs works many peers = absurd (omega arith)
  read_rounds-Takes (r ∷ rs) (t ∷ ts) s rest ht' (had nz h more) (def, defs) (works, all) many
        peers =
      let adds = add_htable-key r.calloc works.fuel t h.slot h.valid h.room nz h.found in
      let (s', run, table, left) =
        read_rounds-Takes rs ts (added r s t s.ht) rest ht' more defs all (omega arith)
          (added-IsValid r s t s.ht peers) in
      (
        s',
        read_rounds_cons r rs t ts s rest none s.ht works def (rw works.runs adds) peers ∙ run,
        table,
        left,
      )
  read_rounds-Takes (r ∷ rs) (t ∷ ts) s rest ht' (took nz l more) (def, defs) (works, all) many
        peers =
      let next = write_def s.ht l.slot t in
      let adds =
        (add_htable_inserts r.calloc works.fuel t l.slot l.valid (omega (arith, l.room)) nz l.absent
          l.free).0 in
      let (s', run, table, left) =
        read_rounds-Takes rs ts (added r s t next) rest ht' more defs all (omega arith)
          (added-IsValid r s t next peers) in
      (
        s',
        read_rounds_cons r rs t ts s rest (some l.slot) next works def (rw works.runs adds) peers
            ∙ run,
        table,
        left,
      )

  -- A node that joins: when connections are up, headers go out and come whole, the definitions have
  -- fields of the C types' sizes and digests that are not zero, and the joining node's table, as it
  -- grows, is valid and has room and an empty entry for each that it does not have yet, then
  -- share_tfiles_to_peer sends messages of which the joining node's readWorker, in as many rounds
  -- as there are definitions, reads all and no byte of what comes behind them, and search_htable
  -- finds every definition that was sent in the joining node's table.
  pub share_tfiles_to_peer_arrives :
      (write : ℕ → Kernel) (sharer : Peers) (peer : ℤ) (ts : List TfileDef) (rs : List Round)
      (s : State) (rest : List ℕ) (ht' : Htable)
      → sharer.locked ≡ false
      → ((k : ℕ) → Progresses (write k))
      → ((k : ℕ) → write k 0 info_size ≡ pos info_size)
      → AreDefs ts
      → Takes ts s.ht ht'
      → AllWork rs
      → length rs ≡ length ts
      → Add.IsValid s.peers
      → (sent : Sent) × (share_tfiles_to_peer write padding sharer ts peer
          ≡ ok (record sharer { locked = false }, sent))
        × (s' : State) × (read_rounds m fd_data rs (record s { stream = joined sent ++ rest })
            ≡ ok (goes_on s'))
        × (s'.stream ≡ rest)
        × ((t : TfileDef) → Memᴰ t ts → (i : ℕ) × (search_htable s'.ht t.f_hash ≡ ok (some i)))
  share_tfiles_to_peer_arrives write sharer peer ts rs s rest ht' free up headers defs takes works
        many peers =
      let (s', run, table, left) = read_rounds-Takes rs ts s rest ht' takes defs works many peers in
      (
        defs_to padding peer ts,
        share_tfiles_to_peer-Progresses padding write sharer peer ts free up headers defs,
        s',
        ap (λ (b : List ℕ). read_rounds m fd_data rs (record s { stream = b }))
              (joined-defs_to padding peer ts rest)
            ∙ run,
        left,
        λ t mem. rw table (search-Takes t takes mem),
      )
