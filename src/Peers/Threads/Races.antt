-- ===== src/Peers/Threads/Races.antt =====
-- One thread alone, and two threads of which both read the size before either writes.
use grintorrent.Base.{
  ℕ, ◌+◌, ◌≡◌, ◌≢◌, refl, sym, ◌∙◌, ap, subst, Bool, true, false, Bool-cases, inl, inr, [], ◌∷◌,
  ◌++◌, arith, length, length-set, set, leb, lt→ltb, leb-eq-false, ltb-eq-false, Run, ok, fault,
  out_of_fuel, ◌>>=◌,
}
use grintorrent.Base.Int.{ℤ}
use grintorrent.Peers.{Peers, append, add_peer, unlock}
use grintorrent.Peers.Threads.Laws.{move_self, move_other}
use grintorrent.Peers.Threads.{
  Pc, before, tested, finished, Shared, grown, test, acquire, write, release, Reach, here, step,
  Overruns,
}

unlocked_last :
    (r : Run Peers) (next : Peers)
    → (r >>= λ p. ok (unlock p)) ≡ ok next
    → (after : Peers) × (r ≡ ok after) × (unlock after ≡ next)
unlocked_last (ok after) next e = (after, refl, cc)
unlocked_last (fault f) next e = absurd cc
unlocked_last out_of_fuel next e = absurd cc

module _ (fresh : ℤ) (job : ℕ → ℤ) where
  -- The steps of a thread are those of add_peer: when the lock is free and add_peer returns a list,
  -- the thread alone reaches its end with that list, and its socket is the last one written.
  add_peer-Reach :
      {s : Shared} (t : ℕ) (next : Peers)
      → s.pc t ≡ before
      → s.peers.locked ≡ false
      → add_peer fresh s.peers (job t) ≡ ok next
      → (s' : Shared) × Reach fresh job s s'
        × (s'.peers ≡ next)
        × (s'.pc t ≡ finished)
        × (s'.log ≡ s.log ++ job t ∷ [])
  unfolding add_peer
  add_peer-Reach {s} t next at free run = elim (Bool-cases (leb s.peers.capacity s.peers.size)) [
    | inl full ↦ along true full (subst (λ (r : Run Peers). r ≡ ok next) (rw (full, free) refl) run)
    | inr room ↦
        along false room (subst (λ (r : Run Peers). r ≡ ok next) (rw (room, free) refl) run)
  ]
    where
      held : Peers
      held = record s.peers { locked = true }

      along :
          (full : Bool)
          → leb s.peers.capacity s.peers.size ≡ full
          → (append (grown fresh full held) (job t) >>= λ p. ok (unlock p)) ≡ ok next
          → (s' : Shared) × Reach fresh job s s'
            × (s'.peers ≡ next)
            × (s'.pc t ≡ finished)
            × (s'.log ≡ s.log ++ job t ∷ [])
      along full test_gives left =
          let (after, wrote, freed) =
            unlocked_last (append (grown fresh full held) (job t)) next left in
          let path =
            step
              (step
                (step (step here (test t at))
                  (acquire t full (move_self t _ s.pc ∙ ap tested test_gives) free))
                (write t full after (move_self t _ _) wrote))
              (release t (move_self t _ _)) in
          (_, path, freed, move_self t _ _, refl)

  -- With room for one more peer in an array of the capacity's length and the lock free, two threads
  -- that are about to call add_peer can reach a state in which one of them, with the lock, is about
  -- to write outside of the array: both read the size before either has the lock.
  pub add_peer-races :
      {s : Shared} (t u : ℕ)
      → t ≢ u
      → s.pc t ≡ before
      → s.pc u ≡ before
      → s.peers.locked ≡ false
      → s.peers.size + 1 ≡ s.peers.capacity
      → length s.peers.arr ≡ s.peers.capacity
      → (s' : Shared) × Reach fresh job s s' × Overruns fresh job s'
  add_peer-races {s} t u ne at_t at_u free last long =
      let size = s.peers.size in
      let room = lt→ltb size (length s.peers.arr) (omega arith) in
      let has_room = leb-eq-false s.peers.capacity size (omega arith) in
      let wrote : Peers = record s.peers {
        locked = true;
        size = size + 1;
        arr = set s.peers.arr size (job t);
      } in
      let stays = λ (p : Pc) (pc : ℕ → Pc). move_other t p pc u (λ e. ne (sym e)) in
      let stays' = λ (p : Pc) (pc : ℕ → Pc). move_other u p pc t ne in
      let path =
        step
          (step
            (step
              (step (step (step here (test t at_t)) (test u (stays _ _ ∙ at_u)))
                (acquire t false (stays' _ _ ∙ move_self t _ s.pc ∙ ap tested has_room) free))
              (write t false wrote (move_self t _ _) (rw room refl)))
            (release t (move_self t _ _)))
          (acquire u false
            (stays _ _ ∙ stays _ _ ∙ stays _ _ ∙ move_self u _ _ ∙ ap tested has_room) refl) in
      (
        _,
        path,
        (
          u,
          false,
          move_self u _ _,
          rw
              (ltb-eq-false (size + 1) (length (set s.peers.arr size (job t)))
                (omega (arith, length-set s.peers.arr size (job t))))
              refl,
        ),
      )
