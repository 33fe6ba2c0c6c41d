-- ===== src/WsQueue.antt =====
-- src/wsclient.c: the queue of messages to the LoRaWAN server, and what the websocket's callback
-- does. `libwebsockets` is not part of the program: its calls are the actions that a callback lists.
pub mod Pushes
pub mod Refinement
pub mod Lanes
pub mod Bursts
pub mod Starvation
pub mod Wakeup
pub mod View
pub mod Examples
use edgebox.Prelude.{
  ℕ, ◌+◌, ◌≡◌, Bool, true, false, Option, none, some, List, [], ◌∷◌, ◌==◌, leb, take, if◌then◌else◌,
}
use edgebox.Prelude.Text.{Text}
use edgebox.Memory.{Ptr, null, Node, Queue, write, release, link_tail, take_head}

-- The fields of `struct eb_ws_msg` but for the link.
pub record EbWsMsg : Type 0 where
  pub msg : Text
  pub len : ℕ

-- The branch `from_head` of the critical section: the new node leads to the old head.
unfoldable pub link_head : Ptr → EbWsMsg → Queue EbWsMsg → Queue EbWsMsg
unfolding write
link_head p m q =
    let node : Node EbWsMsg = record { payload = m; next = q.head } in
    record {
      head = p;
      tail = if q.head == null then p else q.tail;
      heap = write q.heap p (some node);
    }

-- The other branch: the node leads nowhere and goes behind the tail.
unfoldable pub link_back : Ptr → EbWsMsg → Queue EbWsMsg → Option (Queue EbWsMsg)
unfolding write
link_back p m q =
    let node : Node EbWsMsg = record { payload = m; next = null } in
    link_tail p (record q { heap = write q.heap p (some node) })

-- `eb_ws_msgEnQ`: what the two calls of `malloc` give comes first.
unfoldable pub eb_ws_msg_en_q :
    Option Ptr → Bool → Text → ℕ → Bool → Queue EbWsMsg → Option (Queue EbWsMsg)
unfolding release
eb_ws_msg_en_q none buffer msg msg_len from_head q = some q
eb_ws_msg_en_q (some p) false msg msg_len from_head q = some (release q p)
eb_ws_msg_en_q (some p) true msg msg_len from_head q =
    let copy : EbWsMsg = record { msg = take msg_len msg; len = msg_len } in
    if from_head then some (link_head p copy q) else link_back p copy q

-- `eb_ws_msgDeQ`
unfoldable pub eb_ws_msg_de_q : Ptr → Queue EbWsMsg → Option (Ptr × Queue EbWsMsg)
eb_ws_msg_de_q node_ptr q = take_head node_ptr q

-- The reasons of a callback that the switch names; the received bytes come with theirs.
pub data Reason : Type 0 where
  client_established : Reason
  client_receive : Text → Reason
  client_writeable : Reason
  closed client_connection_error other_reason : Reason

-- What a callback does outside the queue: asks for a writeable callback, hands a text to
-- `ws_receive_msg`, writes a text frame, waits.
pub data Action : Type 0 where
  callback_on_writable : Action
  ws_receive_msg : Text → Action
  lws_write : Text → Action
  poll_wait : ℕ → Action

abbrev pub ws_tx_buffer_len : ℕ
ws_tx_buffer_len = 4096

-- Behind the dequeue: the copy to the buffer on the stack, a fault if it does not fit, the write,
-- and the two calls of `free`. `lws_pre` is the library's `LWS_PRE`.
unfoldable pub send_node : ℕ → Ptr → Queue EbWsMsg → Option (List Action × Queue EbWsMsg)
send_node lws_pre p q = elim (q.heap p) [
  | none ↦ none
  | some n ↦
      if leb (lws_pre + n.payload.len) ws_tx_buffer_len
      then some (
        lws_write (take n.payload.len n.payload.msg) ∷ poll_wait 3500 ∷ callback_on_writable ∷ [],
        release q p,
      )
      else none
]

unfoldable pub writeable : ℕ → Queue EbWsMsg → Option (List Action × Queue EbWsMsg)
unfolding send_node
writeable lws_pre q =
    if q.head == null
    then some ([], q)
    else elim (eb_ws_msg_de_q null q) [ none ↦ none | some (p, r) ↦ send_node lws_pre p r ]

-- `ws_callback`, which returns 0 on every path.
unfoldable pub ws_callback : ℕ → Reason → Queue EbWsMsg → Option (List Action × Queue EbWsMsg)
ws_callback lws_pre client_established q = some (callback_on_writable ∷ [], q)
ws_callback lws_pre (client_receive text) q = some (ws_receive_msg text ∷ [], q)
ws_callback lws_pre client_writeable q = writeable lws_pre q
ws_callback lws_pre closed q = some ([], q)
ws_callback lws_pre client_connection_error q = some ([], q)
ws_callback lws_pre other_reason q = some ([], q)

-- `eb_ws_write`: the message is queued, then a writeable callback is asked for.
unfoldable pub eb_ws_write :
    Option Ptr → Bool → Text → ℕ → Bool → Queue EbWsMsg → Option (List Action × Queue EbWsMsg)
eb_ws_write node buffer buf len priority q = elim (eb_ws_msg_en_q node buffer buf len priority q) [
  | none ↦ none
  | some r ↦ some (callback_on_writable ∷ [], r)
]
