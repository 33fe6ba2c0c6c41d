-- ===== src/Memory.antt =====
-- The heap nodes of the two message queues (`iothubmsg_node` of src/mqtt.c, `struct eb_ws_msg` of
-- src/wsclient.c), and the global head and tail pointers of a queue. `none` is a fault: a read or
-- a write through a pointer to no node.
pub mod Linked
pub mod Leaks
pub mod Pointers
pub mod Room
use edgebox.Prelude.{ℕ, Bool, Option, none, some, ◌==◌, if◌then◌else◌}

abbrev pub Ptr : Type 0
Ptr = ℕ

abbrev pub null : Ptr
null = 0

-- A node holds its own copy of the message, and the next node's address.
pub record Node (A : Type 0) : Type 0 where
  pub payload : A
  pub next : Ptr

abbrev pub Heap : Type 0 → Type 0
Heap A = Ptr → Option (Node A)

pub record Queue (A : Type 0) : Type 0 where
  pub head : Ptr
  pub tail : Ptr
  pub heap : Heap A

module _ {A : Type 0} where
  unfoldable pub write : Heap A → Ptr → Option (Node A) → Heap A
  write h p c a = if a == p then c else h a

  -- `p->next = q`
  unfoldable pub set_next : Heap A → Ptr → Ptr → Option (Heap A)
  set_next h p q = elim (h p) [
    | none ↦ none
    | some n ↦ some (write h p (some (record n { next = q })))
  ]

  -- `free(p)`
  unfoldable pub release : Queue A → Ptr → Queue A
  unfolding write
  release q p = record q { heap = write q.heap p none }

  -- The critical section that puts the node at `p` behind the tail. The text is the same in
  -- `iothubMsgEnQ` and in the branch of `eb_ws_msgEnQ` without priority.
  unfoldable pub link_tail : Ptr → Queue A → Option (Queue A)
  link_tail p q =
      let head' = if q.head == null then p else q.head in
      if q.tail == null
      then some (record q { head = head'; tail = p })
      else elim (set_next q.heap q.tail p) [
        | none ↦ none
        | some h ↦ some (record { head = head'; tail = p; heap = h })
      ]

  -- The critical section that takes the head off, the same in both queues. `*node_ptr` keeps its
  -- value if the queue is empty.
  unfoldable pub take_head : Ptr → Queue A → Option (Ptr × Queue A)
  take_head node_ptr q =
      if q.head == null
      then some (node_ptr, q)
      else if q.head == q.tail
      then some (q.head, record q { head = null; tail = null })
      else elim (q.heap q.head) [ none ↦ none | some n ↦ some (q.head, record q { head = n.next }) ]
