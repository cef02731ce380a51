-- ===== src/Network/Members.antt =====
-- Nodes that have a definition, and nodes that can take it.
use grintorrent.Base.{
  ℕ, suc, ◌+◌, ◌*◌, ◌≤◌, ◌≡◌, ◌≢◌, sym, ap, subst, ◌∙◌, ◌⊎◌, inl, inr, Bool, Option, none, some,
  List, map, arith, ok,
}
use grintorrent.Base.Int.{pos}
use grintorrent.Tfile.{TfileDef, zero_digest}
use grintorrent.Htable.{Htable, home, write_def, add_htable}
use grintorrent.Htable.Probe.{key}
use grintorrent.Htable.Invariant.{IsValid, Absent, vacancy, IsVacancy, vacancy_lem}
use grintorrent.Htable.Insert.{
  add_htable_inserts, add_htable-key, key-write_def_self, key-write_def_ne, vacancy-lt,
  write_def-IsValid,
}
use grintorrent.Peers.Add as Add
use grintorrent.Network.{Member}

module _ (t : TfileDef) where
  -- The definition is in the table.
  pub record Has (ht : Htable) : Type 0 where
    pub valid : IsValid ht
    pub room : ht.size * 2 ≤ ht.capacity
    pub slot : ℕ
    pub found : key ht slot ≡ t.f_hash

  -- The table has room for the definition, which is not there.
  pub record Lacks (ht : Htable) : Type 0 where
    pub valid : IsValid ht
    pub room : (ht.size + 1) * 2 ≤ ht.capacity
    pub absent : Absent ht t.f_hash
    pub slot : ℕ
    pub free : vacancy ht.table (home ht t.f_hash) ≡ some slot

  -- A node with a valid list of peers, which are its neighbours, that has the definition or can take it.
  pub record IsReady (neighbours : List ℕ) (member : Member) : Type 0 where
    pub table : Has member.ht ⊎ Lacks member.ht
    pub peers : Add.IsValid member.peers
    pub joined : Add.fds member.peers ≡ map pos neighbours

  room_after :
      (ht : Htable) (i : ℕ)
      → IsValid ht
      → (ht.size + 1) * 2 ≤ ht.capacity
      → (write_def ht i t).size * 2 ≤ (write_def ht i t).capacity
  unfolding write_def
  room_after ht i v room = omega (arith, v.small, room)

  pub Has-Lacks :
      (ht : Htable) (l : Lacks ht) → t.f_hash ≢ zero_digest → Has (write_def ht l.slot t)
  Has-Lacks ht l nz = record {
    valid = write_def-IsValid l.valid t nz l.absent l.slot l.free;
    room = room_after ht l.slot l.valid l.room;
    slot = l.slot;
    found = key-write_def_self ht l.slot t (vacancy-lt ht.table (home ht t.f_hash) l.slot l.free);
  }

  -- `add_htable` returns, and the definition is there then.
  pub add_htable-Has :
      (calloc : ℕ → Bool) (f : ℕ) (ht : Htable)
      → t.f_hash ≢ zero_digest
      → Has ht ⊎ Lacks ht
      → (o : Option ℕ) × (ht' : Htable) × (add_htable calloc (suc f) ht t ≡ ok (o, ht')) × Has ht'
  add_htable-Has calloc f ht nz (inl h) =
      (none, ht, add_htable-key calloc f t h.slot h.valid h.room nz h.found, h)
  add_htable-Has calloc f ht nz (inr l) = (
    some l.slot,
    write_def ht l.slot t,
    (add_htable_inserts calloc f t l.slot l.valid (omega (arith, l.room)) nz l.absent l.free).0,
    Has-Lacks ht l nz,
  )

-- Another definition that is taken in leaves it where it is.
pub Has-write_def :
    (t u : TfileDef) (ht : Htable) (l : Lacks t ht)
    → t.f_hash ≢ zero_digest
    → u.f_hash ≢ zero_digest
    → Has u ht
    → Has u (write_def ht l.slot t)
Has-write_def t u ht l nz nz' h =
    let taken = Has-Lacks t ht l nz in
    let (lo, hi, empty, all) =
      subst (IsVacancy ht.table (home ht t.f_hash)) l.free
        (vacancy_lem ht.table (home ht t.f_hash)) in
    record {
      valid = taken.valid;
      room = taken.room;
      slot = h.slot;
      found =
          key-write_def_ne ht l.slot t h.slot
            (λ e. nz' (sym h.found ∙ ap (λ (k : ℕ). key ht k) (sym e) ∙ empty))
          ∙ h.found;
    }
