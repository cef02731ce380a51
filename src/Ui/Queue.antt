-- ===== src/Ui/Queue.antt =====
-- The list of messages for the screen in src/ui.c: `insert_m` and `remove_m` over nodes in memory.
-- The lock is recursive and every path frees it, so it stands for the order of the calls.
pub mod Laws
use grintorrent.Base.{ℕ, Bool, Option, none, some, List, ◌==◌, if◌then◌else◌, Run, ok, ◌>>=◌, deref}

abbrev pub Address : Type 0
Address = ℕ

-- `struct ui_message`
pub record UiMessage : Type 0 where
  pub name : List ℕ
  pub message : List ℕ
  pub next : Option Address

abbrev pub Nodes : Type 0
Nodes = Address → Option UiMessage

-- `none` gives an address back.
unfoldable pub write : Nodes → Address → Option UiMessage → Nodes
write nodes a n b = if b == a then n else nodes b

-- `head` and `tail`, and the nodes that stand in memory
pub record Queue : Type 0 where
  pub head : Option Address
  pub tail : Option Address
  pub nodes : Nodes

-- `malloc` answers with an address, or with `none` for NULL.
unfoldable pub insert_m : (malloc : Option Address) → (name message : List ℕ) → Queue → Run Queue
insert_m none name message q = ok q
insert_m (some new_node) name message q =
    let nodes =
      write q.nodes new_node (some (record { name = name; message = message; next = none })) in
    elim q.tail [
      | none ↦ ok (record { head = some new_node; tail = some new_node; nodes = nodes })
      | some tail ↦ do
        last ← deref (nodes tail)
        ok (record {
          head = q.head;
          tail = some new_node;
          nodes = write nodes tail (some (record last { next = some new_node }));
        })
    ]

-- The node that was the head, or NULL
unfoldable pub remove_m : Queue → Run (Option Address × Queue)
remove_m q = elim q.head [
  | none ↦ ok (none, q)
  | some top ↦ do
    n ← deref (q.nodes top)
    elim n.next [
      | none ↦ ok (some top, record q { head = none; tail = none })
      | some next ↦ ok (some top, record q { head = some next })
    ]
]
