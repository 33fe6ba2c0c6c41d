-- ===== src/HubQueue.antt =====
-- src/mqtt.c: the queue of messages from the IoT hub, the callback that fills it and the thread that
-- empties it. Each step below is a stretch of code that runs under the mutex or touches no shared
-- pointer but a read of the head; the threads interleave at these steps.
pub mod Pending
pub mod Order
pub mod Drain
pub mod Growth
pub mod Fairness
pub mod Logged
pub mod Examples
use edgebox.Prelude.{
  ℕ, ◌+◌, ◌≡◌, ◌≢◌, Bool, true, false, Option, none, some, List, [], ◌∷◌, ◌++◌, ◌==◌, take, length,
  if◌then◌else◌,
}
use edgebox.Prelude.Text.{Text}
use edgebox.Memory.{Ptr, null, Node, Queue, write, link_tail, take_head, release}

-- `iothubMsgEnQ`: what the two calls of `malloc` give comes first. The payload keeps the bytes
-- behind a NUL, as the copy does.
unfoldable pub iothub_msg_en_q : Option Ptr → Bool → Text → ℕ → Queue Text → Option (Queue Text)
unfolding write release
iothub_msg_en_q none buffer msg msg_len q = some q
iothub_msg_en_q (some p) false msg msg_len q = some (release q p)
iothub_msg_en_q (some p) true msg msg_len q =
    let node : Node Text = record { payload = take msg_len msg; next = null } in
    link_tail p (record q { heap = write q.heap p (some node) })

-- The last line of `iothubMsgEnQ`, behind the mutex, logs the text of the new node: `none` if there is
-- no node there any more.
unfoldable pub logged : Ptr → Queue Text → Option Text
logged msg_node_ptr q = elim (q.heap msg_node_ptr) [ none ↦ none | some n ↦ some n.payload ]

-- `iothubMsgDeQ`
unfoldable pub iothub_msg_de_q : Ptr → Queue Text → Option (Ptr × Queue Text)
iothub_msg_de_q node_ptr q = take_head node_ptr q

-- Where `iot_msg_handler_thread` stands in its loop: before the test of the head, behind it, with a
-- node in hand, or behind the processing of its message.
pub data Place : Type 0 where
  testing taking holding freeing : Place

-- The queue, and the thread's place and its variable `node_ptr`.
pub record Hub : Type 0 where
  pub queue : Queue Text
  pub place : Place
  pub node_ptr : Ptr

handler_at : Place → Hub → Option (Option Text × Hub)
unfolding iothub_msg_de_q
handler_at testing s = some (none, if s.queue.head == null then s else record s { place = taking })
handler_at taking s = elim (iothub_msg_de_q s.node_ptr s.queue) [
  | none ↦ none
  | some (p, q) ↦ some (none, record { queue = q; place = holding; node_ptr = p })
]
handler_at holding s = elim (s.queue.heap s.node_ptr) [
  | none ↦ none
  | some n ↦ some (some n.payload, record s { place = freeing })
]
handler_at freeing s = elim (s.queue.heap s.node_ptr) [
  | none ↦ none
  | some n ↦ some (none, record s { queue = release s.queue s.node_ptr; place = testing })
]

-- One step of the thread, and the message that it hands to `process_single_iot_hub_msg`, if any.
unfoldable pub iot_msg_handler_step : Hub → Option (Option Text × Hub)
unfolding handler_at
iot_msg_handler_step s = handler_at s.place s

-- `handleMsgFromIoThub` queues the payload of the message that the client received.
unfoldable pub handle_msg_from_iot_hub : Option Ptr → Bool → Text → Hub → Option Hub
handle_msg_from_iot_hub node buffer payload s =
    elim (iothub_msg_en_q node buffer payload (length payload) s.queue) [
      | none ↦ none
      | some q ↦ some (record s { queue = q })
    ]

-- The gateway starts with both pointers NULL.
abbrev pub start : Hub
start = record {
  queue = record { head = null; tail = null; heap = λ _. none };
  place = testing;
  node_ptr = null;
}
