-- ===== src/WsQueue/Wakeup.antt =====
-- src/wsclient.c: the writeable callback in steps, with writes of other threads between them, and the
-- requests for further callbacks. `libwebsockets` calls back once for a request, and takes one on a
-- connection that is established.
pub mod Asks
pub mod Told
pub mod Keeps
pub mod Safe
pub mod Seen
pub mod Pace
pub mod Reply
pub mod Whole
pub mod Examples
use edgebox.Prelude.{
  ℕ, suc, ◌+◌, ◌≤◌, ◌≡◌, refl, ◌≢◌, ◌⊎◌, inl, inr, Bool, true, false, ◌||◌, Option, none, some,
  List, [], ◌∷◌, ◌==◌, if◌then◌else◌, Bool-cases, Option-cases, arith, ap, leb, take,
}
use edgebox.Prelude.Text.{Text}
use edgebox.Memory.{Ptr, null, Heap, Queue}
use edgebox.WsQueue.{
  EbWsMsg, Action, callback_on_writable, ws_receive_msg, lws_write, poll_wait, eb_ws_msg_en_q,
  eb_ws_msg_de_q, send_node, writeable, ws_callback, client_receive, ws_tx_buffer_len,
}

-- Where the callback stands: before its test of the head, behind it, or with a node in hand.
pub data WsPlace : Type 0 where
  idle taking sending : WsPlace

-- The queue, and the place of the callback with its variable `msg_node`.
pub record WsThread : Type 0 where
  pub queue : Queue EbWsMsg
  pub place : WsPlace
  pub msg_node : Ptr

abbrev pub writeable_at : ℕ → WsPlace → WsThread → Option (List Action × WsThread)
writeable_at lws_pre idle s =
    some ([], if s.queue.head == null then s else record s { place = taking })
writeable_at lws_pre taking s = elim (eb_ws_msg_de_q s.msg_node s.queue) [
  | none ↦ none
  | some (p, q) ↦ some ([], record { queue = q; place = sending; msg_node = p })
]
writeable_at lws_pre sending s = elim (send_node lws_pre s.msg_node s.queue) [
  | none ↦ none
  | some (acts, q) ↦ some (acts, record s { queue = q; place = idle })
]

-- One step of the branch of `ws_callback` for `LWS_CALLBACK_CLIENT_WRITEABLE`.
unfoldable pub writeable_step : ℕ → WsThread → Option (List Action × WsThread)
writeable_step lws_pre s = writeable_at lws_pre s.place s

-- Does the code ask for a callback?
abbrev pub asks : List Action → Bool
asks [] = false
asks (callback_on_writable ∷ acts) = true
asks (ws_receive_msg text ∷ acts) = asks acts
asks (lws_write text ∷ acts) = asks acts
asks (poll_wait ms ∷ acts) = asks acts

-- The connection is there or not; a callback is due or not; and so many threads have queued a message
-- and not asked for a callback yet.
pub record Socket : Type 0 where
  pub thread : WsThread
  pub established : Bool
  pub requested : Bool
  pub asking : ℕ

-- What `malloc` gives is not in use.
abbrev pub IsFresh : Option Ptr → Heap EbWsMsg → Type 0
IsFresh none h = Unit {0}
IsFresh (some p) h = (p ≢ null) × (h p ≡ none)

-- The first half of `eb_ws_write`, and its second; the connection comes up, with the request of
-- `LWS_CALLBACK_CLIENT_ESTABLISHED`, or goes down; a text is received; the callback that is due starts,
-- and goes on.
pub data Step (lws_pre : ℕ) (w : Socket) : Socket → Type 0 where
  queued :
      (node : Option Ptr) (buffer : Bool) (buf : Text) (len : ℕ) (priority : Bool)
      (q : Queue EbWsMsg)
      → IsFresh node w.thread.queue.heap
      → lws_pre + len ≤ ws_tx_buffer_len
      → eb_ws_msg_en_q node buffer buf len priority w.thread.queue ≡ some q
      → Step lws_pre w (record w { thread = record w.thread { queue = q }; asking = w.asking + 1 })
  asked :
      (n : ℕ)
      → w.asking ≡ suc n
      → Step lws_pre w (record w { requested = w.requested || w.established; asking = n })
  established :
      w.thread.place ≡ idle → Step lws_pre w (record w { established = true; requested = true })
  closed :
      w.thread.place ≡ idle → Step lws_pre w (record w { established = false; requested = false })
  received :
      (text : Text) (q : Queue EbWsMsg)
      → w.thread.place ≡ idle
      → ws_callback lws_pre (client_receive text) w.thread.queue
        ≡ some (ws_receive_msg text ∷ [], q)
      → Step lws_pre w (record w { thread = record w.thread { queue = q } })
  called :
      (acts : List Action) (s : WsThread)
      → w.thread.place ≡ idle
      → w.requested ≡ true
      → writeable_step lws_pre w.thread ≡ some (acts, s)
      → Step lws_pre w (record w { thread = s; requested = asks acts })
  goes_on :
      (acts : List Action) (s : WsThread)
      → w.thread.place ≢ idle
      → writeable_step lws_pre w.thread ≡ some (acts, s)
      → Step lws_pre w (record w { thread = s; requested = w.requested || asks acts })

-- The program starts without a connection and with an empty queue.
abbrev pub begin : Socket
begin = record {
  thread = record {
    queue = record { head = null; tail = null; heap = λ _. none };
    place = idle;
    msg_node = null;
  };
  established = false;
  requested = false;
  asking = 0;
}

pub data Reach (lws_pre : ℕ) : Socket → Type 0 where
  here : Reach lws_pre begin
  next : {w v : Socket} → Reach lws_pre w → Step lws_pre w v → Reach lws_pre v
