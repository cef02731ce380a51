-- ===== src/Ui/Screen/Drain.antt =====
-- The loop of `ui_run` that shows the messages, and the queue with its clients as a plain list.
use mathlib.Core.List.{append_assoc, append-nil}
use grintorrent.Base.{
  ℕ, zero, suc, ◌+◌, ◌<◌, ◌≡◌, refl, ◌∙◌, ap, none, some, List, [], ◌∷◌, ◌++◌, arith, length,
  length-append, Run, ok, ◌>>=◌, Post, subst,
}
use grintorrent.Ui.Queue.{Address, Nodes, write, Queue, insert_m}
use grintorrent.Ui.Queue.Laws.{
  Message, Cells, messages, messages-append, Holds, Linked-write, insert_m-Holds, remove_m-Holds,
  remove_m-nil,
}
use grintorrent.Ui.Screen.{Codes, render, drain}

-- The messages one after the other, as the display form gets them
unfoldable pub rendered : Codes → List Message → List ℕ
rendered codes [] = []
rendered codes (m ∷ ms) = render codes m.name m.message ++ rendered codes ms

-- The addresses of the cells are not in use.
abbrev pub Freed : Nodes → Cells → Type 0
Freed nodes [] = Unit
Freed nodes ((a, m) ∷ cells) = (nodes a ≡ none) × Freed nodes cells

write-none : (nodes : Nodes) (a b : Address) → nodes b ≡ none → write nodes a none b ≡ none
unfolding write
write-none nodes a b e = ground arith

write_freed : (nodes : Nodes) (a : Address) → write nodes a none a ≡ none
unfolding write
write_freed nodes a = ground arith

module _ (codes : Codes) where
  -- With more fuel than messages wait, the loop of ui_run over remove_m ends: it shows all messages
  -- of the queue in their order, the queue is empty, the addresses of all its cells are given back,
  -- and no address comes into use.
  pub drain_lem :
      (f : ℕ) (q : Queue) (cells : Cells) (display : List ℕ)
      → Holds q cells
      → length cells < f
      → (q' : Queue) × (drain codes f q display
          ≡ ok (q', display ++ rendered codes (messages cells)))
        × Holds q' []
        × Freed q'.nodes cells
        × ((b : Address) → q.nodes b ≡ none → q'.nodes b ≡ none)
  unfolding drain rendered
  drain_lem zero q cells display h lt = absurd (omega arith)
  drain_lem (suc f) q [] display h lt =
      (q, rw (remove_m-nil q h, append-nil display) refl, h, tt, λ b e. e)
  drain_lem (suc f) q ((a, m) ∷ cells) display h lt =
      let (q', removed, h', same) = remove_m-Holds q a m cells h in
      let (at, out, l) = h.linked in
      let next : Queue = record q' { nodes = write q'.nodes a none } in
      let held : Holds next cells = record {
        starts = h'.starts;
        ends = h'.ends;
        linked = Linked-write q'.nodes a none cells out h'.linked;
      } in
      let shown = display ++ render codes m.name m.message in
      let (last, run, empty, freed, kept) = drain_lem f next cells shown held (omega arith) in
      (
        last,
        rw (removed, ap (λ (n : Nodes). n a) same ∙ at)
            (run
              ∙ ap (λ (d : List ℕ). let r : Run (Queue × List ℕ) = ok (last, d) in r)
                  (append_assoc display (render codes m.name m.message)
                    (rendered codes (messages cells)))),
        empty,
        (kept a (write_freed q'.nodes a), freed),
        λ b e. kept b (write-none q'.nodes a b (ap (λ (n : Nodes). n b) same ∙ e)),
      )

-- What the clients of the screen do: a thread shows a message, in a node at the address that `malloc`
-- gives, or the screen's loop comes round.
pub data Call : Type 0 where
  show : Address → Message → Call
  refresh : Call

module _ (codes : Codes) (fuel : ℕ) where
  -- The calls one after the other, on the list in memory
  unfoldable pub run_calls : List Call → Queue → List ℕ → Run (Queue × List ℕ)
  run_calls [] q display = ok (q, display)
  run_calls (Call.show a m ∷ calls) q display = do
    q' ← insert_m (some a) m.name m.message q
    run_calls calls q' display
  run_calls (Call.refresh ∷ calls) q display = do
    (q', display') ← drain codes fuel q display
    run_calls calls q' display'

  -- An address that `malloc` gives is not in use then.
  unfoldable pub Allocated : List Call → Queue → List ℕ → Type 0
  Allocated [] q display = Unit
  Allocated (Call.show a m ∷ calls) q display =
      (q.nodes a ≡ none)
      × Post (λ q'. Allocated calls q' display) (insert_m (some a) m.name m.message q)
  Allocated (Call.refresh ∷ calls) q display =
      Post (λ r. Allocated calls r.0 r.1) (drain codes fuel q display)

  -- The same on a plain list: the messages that wait, and the display
  unfoldable pub spec_calls : List Call → List Message → List ℕ → List Message × List ℕ
  spec_calls [] waiting display = (waiting, display)
  spec_calls (Call.show a m ∷ calls) waiting display = spec_calls calls (waiting ++ m ∷ []) display
  spec_calls (Call.refresh ∷ calls) waiting display =
      spec_calls calls [] (display ++ rendered codes waiting)

  -- For a queue in memory that holds a list of cells, and calls of which every ui_display gets an
  -- address from malloc that is not in use then, with more fuel than messages and calls, any
  -- sequence of messages that threads show and of refreshes of the screen ends as on a plain list
  -- of messages: the same display, and the queue holds exactly the messages that wait.
  pub run_calls-spec_calls :
      (calls : List Call) (q : Queue) (cells : Cells) (display : List ℕ)
      → Holds q cells
      → Allocated calls q display
      → length cells + length calls < fuel
      → (q' : Queue) × (cells' : Cells) × (run_calls calls q display
          ≡ ok (q', (spec_calls calls (messages cells) display).1))
        × Holds q' cells'
        × (messages cells' ≡ (spec_calls calls (messages cells) display).0)
  unfolding run_calls spec_calls Allocated
  run_calls-spec_calls [] q cells display h all lt = (q, cells, refl, h, refl)
  run_calls-spec_calls (Call.show a m ∷ calls) q cells display h (unused, all) lt =
      let (q', inserted, h') = insert_m-Holds q cells h a m unused in
      let later : Allocated calls q' display =
        subst (λ (r : Run Queue). Post (λ q'. Allocated calls q' display) r) inserted all in
      let (last, cells', run, held, same) =
        run_calls-spec_calls calls q' (cells ++ (a, m) ∷ []) display h' later
          (omega (arith, length-append cells ((a, m) ∷ []))) in
      let now = messages-append a m cells in
      (
        last,
        cells',
        rw inserted (
            run
            ∙ ap
                (λ (ms : List Message).
                  let r : Run (Queue × List ℕ) = ok (last, (spec_calls calls ms display).1) in r)
                now),
        held,
        same ∙ ap (λ (ms : List Message). (spec_calls calls ms display).0) now,
      )
  run_calls-spec_calls (Call.refresh ∷ calls) q cells display h all lt =
      let (q', drained, empty, freed, kept) =
        drain_lem codes fuel q cells display h (omega arith) in
      let shown = display ++ rendered codes (messages cells) in
      let later : Allocated calls q' shown =
        subst (λ (r : Run (Queue × List ℕ)). Post (λ r. Allocated calls r.0 r.1) r) drained all in
      let (last, cells', run, held, same) =
        run_calls-spec_calls calls q' [] shown empty later (omega arith) in
      (last, cells', rw drained run, held, same)
