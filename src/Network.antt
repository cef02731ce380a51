-- ===== src/Network.antt =====
-- Several nodes of the program: what one end of a connection sends, `readWorker` of src/client.c reads
-- at the other end. In place of a descriptor a connection has, at each end, the number of the node at
-- the other end.
pub mod Members
pub mod Deliveries
pub mod Spread
pub mod Announce
pub mod Outcomes
pub mod Joins
pub mod Floods
pub mod Trees
use grintorrent.Base.{
  ℕ, ◌+◌, ◌≡◌, List, [], ◌∷◌, ◌++◌, if◌then◌else◌, ◌==◌, length, Run, ok, ◌>>=◌, suc,
}
use grintorrent.Base.Int.{pos, pos_part}
use grintorrent.System.{Md5}
use grintorrent.Htable.{Htable}
use grintorrent.Peers.{Peers}
use grintorrent.Share.{Sent}
use grintorrent.Worker.Read.{ClientServer, Round, State, Outcome, goes_on, ended, read_round}
use grintorrent.Worker.Read.Laws.{IsUp}

-- What the threads of a node share.
pub record Member : Type 0 where
  pub ht : Htable
  pub peers : Peers

-- A message under way
pub record Packet : Type 0 where
  pub source : ℕ
  pub target : ℕ
  pub bytes : List ℕ

pub record Network : Type 0 where
  pub members : ℕ → Member
  pub flight : List Packet

abbrev pub packets : ℕ → Sent → List Packet
packets n [] = []
packets n ((fd, bytes) ∷ sent) =
    record { source = n; target = pos_part fd; bytes = bytes } ∷ packets n sent

unfoldable pub update : ℕ → Member → (ℕ → Member) → ℕ → Member
update n member members k = if k == n then member else members k

abbrev pub left_by : Outcome → State
left_by (goes_on s) = s
left_by (ended s) = s

-- The node at which a packet ends reads it, over whatever stands in the buffer; `rest` are the other
-- packets.
pub deliver :
    Md5 → Round → (buffer : List ℕ) → (rest : List Packet) → Packet → Network → Run Network
deliver m r buffer rest p net =
    let at = net.members p.target in
    do
      outcome ←
          read_round m (record { server_fd = pos p.source; client_fd = pos p.source }) r
            (record {
              ht = at.ht;
              peers = at.peers;
              data_read = buffer;
              stream = p.bytes;
              sent = [];
            })
      let s = left_by outcome
      ok (record {
        members = update p.target (record { ht = s.ht; peers = s.peers }) net.members;
        flight = rest ++ packets p.target s.sent;
      })

-- A round in which the system does what it should: seven bytes of padding, the connections up, and
-- `add_htable` may run.
pub record Works (r : Round) : Type 0 where
  pub up : IsUp r
  pub seven : length r.padding ≡ 7
  pub fuel : ℕ
  pub runs : r.add_fuel ≡ suc fuel

-- Any packet may be read next.
pub data Step (m : Md5) (net : Network) (net' : Network) : Type 0 where
  reads :
      (r : Round) (buffer : List ℕ) (before after : List Packet) (p : Packet)
      → Works r
      → net.flight ≡ before ++ (p ∷ after)
      → deliver m r buffer (before ++ after) p net ≡ ok net'
      → Step m net net'

-- So many packets are read, one after the other.
pub data Steps (m : Md5) (net : Network) : ℕ → Network → Type 0 where
  none_yet : Steps m net 0 net
  one_more :
      {n : ℕ} {net' net'' : Network}
      → Steps m net n net'
      → Step m net' net''
      → Steps m net (suc n) net''
