-- ===== src/Htable/Threads/Laws.antt =====
-- What two threads do to one table.
use grintorrent.Base.{
  ℕ, suc, ◌+◌, ◌*◌, ◌≤◌, ◌<◌, ◌≡◌, ◌≢◌, refl, sym, ◌∙◌, ap, arith, Bool, Option, none, some, [],
  ◌∷◌, ==_iff, ==-eq-false, length, Run, ok, fault, out_of_fuel, ◌>>=◌, bind_assoc, ℕ_discrete,
}
use grintorrent.Tfile.{TfileDef, zero_digest}
use grintorrent.Htable.{Htable, Found, home, probe, rounds, write_def, place, add_htable}
use grintorrent.Htable.Probe.{key}
use grintorrent.Htable.Invariant.{IsValid, Absent, vacancy, probe-Absent}
use grintorrent.Htable.Insert.{
  add_htable-place, key-write_def_self, key-write_def_ne, vacancy-lt, length-write_def,
}
use grintorrent.Htable.Threads.{
  Phase, looks, writes, returns, SharedTable, set_phase, advance, schedule,
}

module _ (k : ℕ) (p : Phase) (phase : ℕ → Phase) where
  set_phase_self : set_phase k p phase k ≡ p
  unfolding set_phase
  set_phase_self = rw ((==_iff k k).1 refl) refl

  set_phase_ne : (j : ℕ) → j ≢ k → set_phase k p phase j ≡ phase j
  unfolding set_phase
  set_phase_ne j ne = rw (==-eq-false j k ne) refl

advance-writes :
    (ht : Htable) (t : TfileDef) (i : ℕ)
    → advance ht (writes t i) ≡ ok (returns (some i), write_def ht i t)
unfolding advance
advance-writes ht t i = refl

-- What a thread is left with
abbrev outcome : ℕ → SharedTable → Run (Phase × Htable)
outcome k s = ok (s.phase k, s.ht)

abbrev result : Option ℕ × Htable → Run (Phase × Htable)
result r = ok (returns r.0, r.1)

module _ (s : SharedTable) (k : ℕ) (t : TfileDef) where
  -- Behind the first step
  abbrev then_on : Phase × Htable → Run (Phase × Htable)
  then_on r = schedule (k ∷ []) (record { ht = r.1; phase = set_phase k r.0 s.phase }) >>= outcome k

  then_on_writes : (i : ℕ) → then_on (writes t i, s.ht) ≡ result (some i, write_def s.ht i t)
  unfolding schedule advance
  then_on_writes i =
      rw
        (
          set_phase_self k (writes t i) s.phase,
          set_phase_self k (returns (some i)) (set_phase k (writes t i) s.phase),
        )
        refl

  then_on_returns : then_on (returns none, s.ht) ≡ result (none, s.ht)
  unfolding schedule advance
  then_on_returns =
      rw
        (
          set_phase_self k (returns none) s.phase,
          set_phase_self k (returns none) (set_phase k (returns none) s.phase),
        )
        refl

  two_steps :
      s.phase k ≡ looks t
      → (schedule (k ∷ k ∷ []) s >>= outcome k) ≡ (advance s.ht (looks t) >>= then_on)
  unfolding schedule
  two_steps begins = rw begins (bind_assoc (advance s.ht (looks t)) _ (outcome k))

  one_after_the_other : (advance s.ht (looks t) >>= then_on) ≡ (place s.ht t >>= result)
  unfolding advance place
  one_after_the_other = go (probe s.ht t.f_hash (rounds s.ht) (home s.ht t.f_hash))
    where
      go :
          (r : Run Found)
          → ((r >>= λ x. elim x [
            | Found.vacant i ↦ let q : Run (Phase × Htable) = ok (writes t i, s.ht) in q
            | Found.present i ↦ ok (returns none, s.ht)
          ])
              >>= then_on)
            ≡ ((r >>= λ x. elim x [
              | Found.vacant i ↦
                  let q : Run (Option ℕ × Htable) = ok (some i, write_def s.ht i t) in q
              | Found.present i ↦ ok (none, s.ht)
            ])
                >>= result)
      go (ok (Found.vacant i)) = then_on_writes i
      go (ok (Found.present i)) = then_on_returns
      go (fault e) = refl
      go out_of_fuel = refl

  -- The steps of a thread are those of add_htable: in a table that need not grow, a thread that
  -- takes its two steps one after the other leaves the table and the result that add_htable does,
  -- and does not return where add_htable does not.
  schedule-add_htable :
      (calloc : ℕ → Bool) (f : ℕ)
      → s.phase k ≡ looks t
      → s.ht.size * 2 ≤ s.ht.capacity
      → (schedule (k ∷ k ∷ []) s >>= outcome k) ≡ (add_htable calloc (suc f) s.ht t >>= result)
  schedule-add_htable calloc f begins room =
      two_steps begins
      ∙ one_after_the_other
      ∙ ap (λ (r : Run (Option ℕ × Htable)). r >>= result)
          (sym (add_htable-place calloc f s.ht t room))

-- Two threads look, and then both write; the first empty entries may be the same one.
module _ (s : SharedTable) (a b : ℕ) (t u : TfileDef) (i j : ℕ) (v : IsValid s.ht) (apart : a ≢ b)
    (absent : Absent s.ht t.f_hash) (absent' : Absent s.ht u.f_hash)
    (here : vacancy s.ht.table (home s.ht t.f_hash) ≡ some i)
    (here' : vacancy s.ht.table (home s.ht u.f_hash) ≡ some j) (first : s.phase a ≡ looks t)
    (second : s.phase b ≡ looks u) where
  looks_lem :
      (w : TfileDef) (k : ℕ)
      → Absent s.ht w.f_hash
      → vacancy s.ht.table (home s.ht w.f_hash) ≡ some k
      → advance s.ht (looks w) ≡ ok (writes w k, s.ht)
  unfolding advance
  looks_lem w k gone free = rw (probe-Absent v w.f_hash gone, free) refl

  abbrev pub after : Htable
  after = write_def (write_def s.ht i t) j u

  abbrev pub phases : ℕ → Phase
  phases =
      set_phase b (returns (some j)) (
        set_phase a (returns (some i))
          (set_phase b (writes u j) (set_phase a (writes t i) s.phase)))

  pub look_then_write : schedule (a ∷ b ∷ a ∷ b ∷ []) s ≡ ok (record { ht = after; phase = phases })
  unfolding schedule
  look_then_write =
      rw
        (
          first,
          looks_lem t i absent here,
          set_phase_ne a (writes t i) s.phase b (λ e. apart (sym e)),
          second,
          looks_lem u j absent' here',
          set_phase_ne b (writes u j) (set_phase a (writes t i) s.phase) a apart,
          set_phase_self a (writes t i) s.phase,
          advance-writes s.ht t i,
          set_phase_ne a (returns (some i))
              (set_phase b (writes u j) (set_phase a (writes t i) s.phase)) b (λ e. apart (sym e)),
          set_phase_self b (writes u j) (set_phase a (writes t i) s.phase),
          advance-writes (write_def s.ht i t) u j,
        )
        refl

  pub returned : (phases a ≡ returns (some i)) × (phases b ≡ returns (some j))
  returned = (
    set_phase_ne b (returns (some j)) _ a apart ∙ set_phase_self a (returns (some i)) _,
    set_phase_self b (returns (some j)) _,
  )

module _ (s : SharedTable) (a b : ℕ) (t u : TfileDef) (i : ℕ) (v : IsValid s.ht) (apart : a ≢ b)
    (nz : t.f_hash ≢ zero_digest) (differ : t.f_hash ≢ u.f_hash) (absent : Absent s.ht t.f_hash)
    (absent' : Absent s.ht u.f_hash) (here : vacancy s.ht.table (home s.ht t.f_hash) ≡ some i)
    (here' : vacancy s.ht.table (home s.ht u.f_hash) ≡ some i) (first : s.phase a ≡ looks t)
    (second : s.phase b ≡ looks u) where
  abbrev overwritten : Htable
  overwritten = write_def (write_def s.ht i t) i u

  in_table : i < length s.ht.table
  in_table = vacancy-lt s.ht.table (home s.ht t.f_hash) i here

  lost : (j : ℕ) → key overwritten j ≢ t.f_hash
  lost j e = elim (ℕ_discrete i j) [
    | yes same ↦
        let lt : i < length (write_def s.ht i t).table =
          omega (arith, length-write_def s.ht i t, in_table) in
        differ (
          sym e
          ∙ ap (λ (k : ℕ). key overwritten k) (sym same)
          ∙ key-write_def_self (write_def s.ht i t) i u lt)
    | no ne ↦
        let old : key s.ht j ≡ t.f_hash =
          sym (key-write_def_ne s.ht i t j ne)
          ∙ sym (key-write_def_ne (write_def s.ht i t) i u j ne)
          ∙ e in
        absent j (λ z. nz (sym old ∙ z)) old
  ]

  size_overwritten : s.ht.size * 2 ≤ s.ht.capacity → overwritten.size ≡ s.ht.size + 2
  unfolding write_def
  size_overwritten room = omega (arith, v.small, room)

  -- In a valid table with room, two threads that call add_htable with different digests, which no
  -- entry holds and of which the first is not zero, and for which the same entry is the first empty
  -- one at or behind the home, can both return a pointer to that entry: after both have looked and
  -- then both have written, no entry holds the first digest, and the count is two more.
  pub add_htable-races :
      s.ht.size * 2 ≤ s.ht.capacity
      → (s' : SharedTable) × (schedule (a ∷ b ∷ a ∷ b ∷ []) s ≡ ok s')
        × (s'.phase a ≡ returns (some i))
        × (s'.phase b ≡ returns (some i))
        × ((j : ℕ) → key s'.ht j ≢ t.f_hash)
        × (s'.ht.size ≡ s.ht.size + 2)
  add_htable-races room =
      let (at_a, at_b) = returned s a b t u i i v apart absent absent' here here' first second in
      (
        _,
        look_then_write s a b t u i i v apart absent absent' here here' first second,
        at_a,
        at_b,
        lost,
        size_overwritten room,
      )
