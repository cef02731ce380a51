-- ===== src/Peers/Threads/Laws.antt =====
-- Moves of one thread, and what the lock of `add_peer` gives.
use grintorrent.Base.{
  ℕ, ◌+◌, ◌<◌, ◌≡◌, ◌≢◌, refl, sym, ◌∙◌, ap, subst, Bool, true, false, Bool-cases, inl, inr, arith,
  length, set, ltb, ltb→lt, ◌==◌, ==-eq-false, ℕ_discrete, Run, ok, fault, out_of_bounds,
}
use grintorrent.Base.Int.{ℤ}
use grintorrent.Peers.{Peers, append}
use grintorrent.Peers.Threads.{
  Pc, holding, written, finished, Shared, move, grown, Step, test, acquire, write, release, Reach,
  here, step,
}

-- Whether a thread has the lock.
abbrev pub inside : Pc → Bool
inside (holding full) = true
inside written = true
inside _ = false

move-cases {ℓ} :
    (P : Pc → Type ℓ) (t : ℕ) (p : Pc) (pc : ℕ → Pc) (u : ℕ)
    → (u ≡ t → P p)
    → (u ≢ t → P (pc u))
    → P (move t p pc u)
unfolding move
move-cases P t p pc u same other = elim (ℕ_discrete u t) [
  | yes e ↦ let hit : (u == t) ≡ true = ground (arith, e) in rw hit (same e)
  | no ne ↦ rw (==-eq-false u t ne) (other ne)
]

-- At most one thread has the lock, and the lock is taken then.
pub record IsGuarded (s : Shared) : Type 0 where
  pub taken : (t : ℕ) → inside (s.pc t) ≡ true → s.peers.locked ≡ true
  pub alone : (t u : ℕ) → inside (s.pc t) ≡ true → inside (s.pc u) ≡ true → t ≡ u

pub append_room :
    (peers next : Peers) (p : ℤ)
    → append peers p ≡ ok next
    → (peers.size < length peers.arr)
      × (next ≡ record peers { size = peers.size + 1; arr = set peers.arr peers.size p })
append_room peers next p run = elim (Bool-cases (ltb peers.size (length peers.arr))) [
  | inl room ↦
      let it : Run Peers =
        ok (record peers { size = peers.size + 1; arr = set peers.arr peers.size p }) in
      let same : it ≡ ok next = subst (λ (r : Run Peers). r ≡ ok next) (rw room refl) run in
      (ltb→lt _ _ room, cc)
  | inr full ↦
      let over : Run Peers = fault out_of_bounds in
      let same : over ≡ ok next = subst (λ (r : Run Peers). r ≡ ok next) (rw full refl) run in
      absurd cc
]

-- Behind a move of one thread to a place outside, who is inside was inside, and is another thread.
move_out :
    (t : ℕ) (p : Pc) (pc : ℕ → Pc) (u : ℕ)
    → inside p ≡ false
    → inside (move t p pc u) ≡ true
    → (u ≢ t) × (inside (pc u) ≡ true)
move_out t p pc u out =
    move-cases (λ (q : Pc). inside q ≡ true → (u ≢ t) × (inside (pc u) ≡ true)) t p pc u
      (λ same now. absurd (ground (arith, out, now))) (λ other now. (other, now))

-- When no other thread is inside, who is inside behind a move is the thread that moved.
move_alone :
    (t : ℕ) (p : Pc) (pc : ℕ → Pc) (u : ℕ)
    → ((v : ℕ) → inside (pc v) ≡ true → v ≡ t)
    → inside (move t p pc u) ≡ true
    → u ≡ t
move_alone t p pc u only =
    move-cases (λ (q : Pc). inside q ≡ true → u ≡ t) t p pc u (λ same now. same)
      (λ other now. only u now)

pub move_self : (t : ℕ) (p : Pc) (pc : ℕ → Pc) → move t p pc t ≡ p
move_self t p pc =
    move-cases (λ (q : Pc). q ≡ p) t p pc t (λ same. refl) (λ other. absurd (other refl))

pub move_other : (t : ℕ) (p : Pc) (pc : ℕ → Pc) (u : ℕ) → u ≢ t → move t p pc u ≡ pc u
move_other t p pc u ne =
    move-cases (λ (q : Pc). q ≡ pc u) t p pc u (λ same. absurd (ne same)) (λ other. refl)

kept-grown :
    (fresh : ℤ) (full : Bool) (peers : Peers) → (grown fresh full peers).locked ≡ peers.locked
kept-grown fresh true peers = refl
kept-grown fresh false peers = refl

module _ (fresh : ℤ) (job : ℕ → ℤ) where
  Step-IsGuarded : {s s' : Shared} → Step fresh job s s' → IsGuarded s → IsGuarded s'
  Step-IsGuarded {s} (test t at) g = record {
    taken = λ u now. g.taken u (move_out t _ s.pc u refl now).1;
    alone = λ u v now then'.
        g.alone u v (move_out t _ s.pc u refl now).1 (move_out t _ s.pc v refl then').1;
  }
  Step-IsGuarded {s} (acquire t full at free) g =
      let only = λ (v : ℕ) (now : inside (s.pc v) ≡ true).
        let held = g.taken v now in let e : v ≡ t = absurd cc in e in
      record {
        taken = λ u now. refl;
        alone = λ u v now then'.
            move_alone t _ s.pc u only now ∙ sym (move_alone t _ s.pc v only then');
      }
  Step-IsGuarded {s} (write t full next at run) g =
      let mine : inside (s.pc t) ≡ true = rw at refl in
      let only = λ (v : ℕ) (now : inside (s.pc v) ≡ true). g.alone v t now mine in
      let (room, same) = append_room (grown fresh full s.peers) next (job t) run in
      record {
        taken = λ u now.
            ap (λ (p : Peers). p.locked) same ∙ kept-grown fresh full s.peers ∙ g.taken t mine;
        alone = λ u v now then'.
            move_alone t _ s.pc u only now ∙ sym (move_alone t _ s.pc v only then');
      }
  Step-IsGuarded {s} (release t at) g =
      let mine : inside (s.pc t) ≡ true = rw at refl in
      let nobody = λ (u : ℕ) (now : inside (move t finished s.pc u) ≡ true).
        let (other, was) = move_out t finished s.pc u refl now in other (g.alone u t was mine) in
      record {
        taken = λ u now. absurd (nobody u now);
        alone = λ u v now then'. absurd (nobody u now);
      }

  -- However threads that run add_peer interleave, when at most one thread has the lock, and the
  -- lock is taken then, at the start, the same holds in every state that they reach.
  pub Reach-IsGuarded : {s s' : Shared} → Reach fresh job s s' → IsGuarded s → IsGuarded s'
  Reach-IsGuarded here g = g
  Reach-IsGuarded (step path last) g = Step-IsGuarded last (Reach-IsGuarded path g)
