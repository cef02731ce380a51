-- ===== src/Ui/Queue/Laws.antt =====
-- The list in memory as a queue of messages.
use grintorrent.Base.{
  ℕ, ◌≡◌, ◌≢◌, refl, sym, ◌∙◌, ap, Option, none, some, List, [], ◌∷◌, ◌++◌, arith, ==-eq-false, ok,
}
use grintorrent.Ui.Queue.{Address, UiMessage, Nodes, write, Queue, insert_m, remove_m}

-- What a client sees of a message, and the node that holds it
pub record Message : Type 0 where
  pub name : List ℕ
  pub message : List ℕ

abbrev pub node : Message → Option Address → UiMessage
node m next = record { name = m.name; message = m.message; next = next }

abbrev pub Cells : Type 0
Cells = List (Address × Message)

abbrev pub messages : Cells → List Message
messages [] = []
messages ((a, m) ∷ cells) = m ∷ messages cells

abbrev pub first : Cells → Option Address
first [] = none
first ((a, m) ∷ cells) = some a

abbrev pub last : Cells → Option Address
last [] = none
last ((a, m) ∷ []) = some a
last ((a, m) ∷ c ∷ cells) = last (c ∷ cells)

-- No cell of the list stands at the address.
abbrev pub Apart : Address → Cells → Type 0
Apart a [] = Unit
Apart a ((b, m) ∷ cells) = (b ≢ a) × Apart a cells

-- The cells stand in memory at distinct addresses, each with a pointer to the next one.
abbrev pub Linked : Nodes → Cells → Type 0
Linked nodes [] = Unit
Linked nodes ((a, m) ∷ cells) =
    (nodes a ≡ some (node m (first cells))) × Apart a cells × Linked nodes cells

-- The list in memory holds these cells.
pub record Holds (q : Queue) (cells : Cells) : Type 0 where
  pub starts : q.head ≡ first cells
  pub ends : q.tail ≡ last cells
  pub linked : Linked q.nodes cells

write_self : (nodes : Nodes) (a : Address) (n : Option UiMessage) → write nodes a n a ≡ n
unfolding write
write_self nodes a n = ground arith

write-ne :
    (nodes : Nodes) (a b : Address) (n : Option UiMessage) → b ≢ a → write nodes a n b ≡ nodes b
unfolding write
write-ne nodes a b n ne = rw (==-eq-false b a ne)

Option-inj : {a b : Address} → some a ≡ some b → a ≡ b
Option-inj e = cc

-- A write elsewhere changes nothing.
pub Linked-write :
    (nodes : Nodes) (a : Address) (n : Option UiMessage) (cells : Cells)
    → Apart a cells
    → Linked nodes cells
    → Linked (write nodes a n) cells
Linked-write nodes a n [] apart l = tt
Linked-write nodes a n ((b, m) ∷ cells) (ne, apart) (at, out, l) =
    (write-ne nodes a b n ne ∙ at, out, Linked-write nodes a n cells apart l)

Apart-of_none :
    (nodes : Nodes) (a : Address) (cells : Cells)
    → nodes a ≡ none
    → Linked nodes cells
    → Apart a cells
Apart-of_none nodes a [] unused l = tt
Apart-of_none nodes a ((b, m) ∷ cells) unused (at, out, l) =
    (λ e. cc (ap nodes e, at, unused), Apart-of_none nodes a cells unused l)

Apart-append :
    (a b : Address) (m : Message) (cells : Cells)
    → Apart a cells
    → b ≢ a
    → Apart a (cells ++ (b, m) ∷ [])
Apart-append a b m [] apart ne = (ne, tt)
Apart-append a b m ((c, k) ∷ cells) (ne', apart) ne = (ne', Apart-append a b m cells apart ne)

Apart-last :
    (a t : Address) (c : Address × Message) (cells : Cells)
    → Apart a (c ∷ cells)
    → last (c ∷ cells) ≡ some t
    → t ≢ a
Apart-last a t (b, m) [] (ne, apart) e = λ same. ne (Option-inj e ∙ same)
Apart-last a t (b, m) (c ∷ cells) (ne, apart) e = Apart-last a t c cells apart e

last-append : (b : Address) (m : Message) (cells : Cells) → last (cells ++ (b, m) ∷ []) ≡ some b
last-append b m [] = refl
last-append b m (c ∷ []) = refl
last-append b m (c ∷ d ∷ cells) = last-append b m (d ∷ cells)

pub messages-append :
    (b : Address) (m : Message) (cells : Cells)
    → messages (cells ++ (b, m) ∷ []) ≡ messages cells ++ m ∷ []
messages-append b m [] = refl
messages-append b m ((a, k) ∷ cells) = ap (◌∷◌ k) (messages-append b m cells)

-- The last cell's message, with no pointer behind it
last-node :
    (nodes : Nodes) (t : Address) (cells : Cells)
    → Linked nodes cells
    → last cells ≡ some t
    → (k : Message) × (nodes t ≡ some (node k none))
last-node nodes t [] l e = cc
last-node nodes t ((a, m) ∷ []) (at, out, l) e = (m, rw (sym (Option-inj e)) at)
last-node nodes t ((a, m) ∷ c ∷ cells) (at, out, l) e = last-node nodes t (c ∷ cells) l e

same_message :
    {k j : Message} {p : Option Address}
    → ◌≡◌ {A = Option UiMessage} (some (node k p)) (some (node j p))
    → k ≡ j
same_message e = ground (arith, e)

-- What `insert_m` leaves in memory: the new node, and the last one with a pointer to it.
Linked-append :
    (nodes : Nodes) (t b : Address) (m k : Message) (c : Address × Message) (cells : Cells)
    → Linked nodes (c ∷ cells)
    → last (c ∷ cells) ≡ some t
    → nodes t ≡ some (node k none)
    → Apart b (c ∷ cells)
    → b ≢ t
    → Linked
        (write (write nodes b (some (node m none))) t (some (node k (some b))))
        ((c ∷ cells) ++ (b, m) ∷ [])
Linked-append nodes t b m k (a, j) [] (at', out, l) e at apart ne =
    let same = Option-inj e in
    let kept : k ≡ j = same_message (sym at ∙ ap nodes (sym same) ∙ at') in
    (
      rw (same, write_self, kept) refl,
      (λ e'. ne (e' ∙ same), tt),
      (write-ne _ t b _ ne ∙ write_self nodes b _, tt, tt),
    )
Linked-append nodes t b m k (a, j) (d ∷ cells) (at', out, l) e at (ne', apart) ne =
    let behind = Apart-last a t d cells out e in
    (
      write-ne _ t a _ (λ e'. behind (sym e')) ∙ write-ne nodes b a _ ne' ∙ at',
      Apart-append a b m (d ∷ cells) out (λ e'. ne' (sym e')),
      Linked-append nodes t b m k d cells l e at apart ne,
    )

last-some : (c : Address × Message) (cells : Cells) → (t : Address) × (last (c ∷ cells) ≡ some t)
last-some (a, m) [] = (a, refl)
last-some c (d ∷ cells) = last-some d cells

-- `insert_m` puts the message behind the others, at an address that was not in use.
pub insert_m-Holds :
    (q : Queue) (cells : Cells)
    → Holds q cells
    → (a : Address) (m : Message) → q.nodes a ≡ none
    → (q' : Queue) × (insert_m (some a) m.name m.message q ≡ ok q')
      × Holds q' (cells ++ (a, m) ∷ [])
unfolding insert_m
insert_m-Holds q [] h a m unused =
    let nodes = write q.nodes a (some (node m none)) in
    let q' : Queue = record { head = some a; tail = some a; nodes = nodes } in
    (
      q',
      rw h.ends refl,
      record { starts = refl; ends = refl; linked = (write_self q.nodes a _, tt, tt) },
    )
insert_m-Holds q (c ∷ cells) h a m unused =
    let apart = Apart-of_none q.nodes a (c ∷ cells) unused h.linked in
    let (t, end) = last-some c cells in
    let (k, at) = last-node q.nodes t (c ∷ cells) h.linked end in
    let ne = Apart-last a t c cells apart end in
    let nodes = write (write q.nodes a (some (node m none))) t (some (node k (some a))) in
    let q' : Queue = record { head = q.head; tail = some a; nodes = nodes } in
    (
      q',
      rw (h.ends, end, write-ne q.nodes a t (some (node m none)) ne, at) refl,
      record {
        starts = h.starts;
        ends = sym (last-append a m (c ∷ cells));
        linked = Linked-append q.nodes t a m k c cells h.linked end at apart (λ e. ne (sym e));
      },
    )

-- `remove_m` gives the address of the first message, and leaves the others.
pub remove_m-Holds :
    (q : Queue) (a : Address) (m : Message) (cells : Cells)
    → Holds q ((a, m) ∷ cells)
    → (q' : Queue) × (remove_m q ≡ ok (some a, q')) × Holds q' cells × (q'.nodes ≡ q.nodes)
unfolding remove_m
remove_m-Holds q a m [] h =
    let q' : Queue = record { head = none; tail = none; nodes = q.nodes } in
    let (at, out, l) = h.linked in
    (q', rw (h.starts, at) refl, record { starts = refl; ends = refl; linked = tt }, refl)
remove_m-Holds q a m (c ∷ cells) h =
    let q' : Queue = record { head = some c.0; tail = q.tail; nodes = q.nodes } in
    let (at, out, l) = h.linked in
    (q', rw (h.starts, at) refl, record { starts = refl; ends = h.ends; linked = l }, refl)

pub remove_m-nil : (q : Queue) → Holds q [] → remove_m q ≡ ok (none, q)
unfolding remove_m
remove_m-nil q h = rw h.starts refl
