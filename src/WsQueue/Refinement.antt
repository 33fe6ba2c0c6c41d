-- ===== src/WsQueue/Refinement.antt =====
-- src/wsclient.c: histories of writes and writeable callbacks, against a list with a front and a back.
use edgebox.Prelude.{
  ℕ, ◌+◌, ◌≤◌, ◌≡◌, refl, sym, ap, ◌∙◌, ◌≢◌, arith, Bool, true, false, none, some, List, [], ◌∷◌,
  ◌++◌, length, append-nil,
}
use edgebox.Prelude.Text.{Text}
use edgebox.Memory
use edgebox.Memory.{Ptr, null, Heap, Queue, release}
use mathlib.Core.Path.{fun_ext}
use edgebox.WsQueue.{
  EbWsMsg, Action, callback_on_writable, ws_receive_msg, lws_write, poll_wait, ws_tx_buffer_len,
  eb_ws_msg_en_q, eb_ws_write, ws_callback, client_writeable,
}
use edgebox.WsQueue.Pushes.{Holds, enqueue, eb_ws_write-Holds, writeable-nil, writeable-cons}

-- What happened at the queue: a text was written, with priority or without, or a callback came.
pub data Op : Type 0 where
  wrote : Bool → Text → Op
  called_back : Op

-- The texts that wait and the texts that were sent, from the first to the last.
pub record Sent : Type 0 where
  pub pending : List Text
  pub sent : List Text

unfoldable pub send_first : List Text → List Text → Sent
send_first [] sent = record { pending = []; sent = sent }
send_first (m ∷ pending) sent = record { pending = pending; sent = sent ++ m ∷ [] }

-- The queue as a user sees it, after the operations of a log that has the latest one first.
unfoldable pub after_log : List Op → Sent
unfolding send_first
after_log [] = record { pending = []; sent = [] }
after_log (wrote priority m ∷ log) =
    let s = after_log log in record s { pending = enqueue priority m s.pending }
after_log (called_back ∷ log) = send_first (after_log log).pending (after_log log).sent

abbrev pub frames : List Action → List Text
frames [] = []
frames (lws_write m ∷ as') = m ∷ frames as'
frames (callback_on_writable ∷ as') = frames as'
frames (ws_receive_msg m ∷ as') = frames as'
frames (poll_wait n ∷ as') = frames as'

pub record Session : Type 0 where
  pub queue : Queue EbWsMsg
  pub log : List Op
  pub sent : List Text

abbrev pub begin : Session
begin = record {
  queue = record { head = null; tail = null; heap = λ _. none };
  log = [];
  sent = [];
}

-- A text is written, with memory at hand, or without memory for the node or for the copy. The text
-- fits the buffer of the callback behind the library's space.
pub data Write (lws_pre : ℕ) (m : Text) (priority : Bool) (s : Session) : Session → Type 0 where
  write :
      (p : Ptr) (acts : List Action) (q : Queue EbWsMsg)
      → p ≢ null
      → s.queue.heap p ≡ none
      → lws_pre + length m ≤ ws_tx_buffer_len
      → eb_ws_write (some p) true m (length m) priority s.queue ≡ some (acts, q)
      → Write lws_pre m priority s (record s { queue = q; log = wrote priority m ∷ s.log })
  no_node :
      (buffer : Bool) (acts : List Action) (q : Queue EbWsMsg)
      → eb_ws_write none buffer m (length m) priority s.queue ≡ some (acts, q)
      → Write lws_pre m priority s (record s { queue = q })
  no_buffer :
      (p : Ptr) (acts : List Action) (q : Queue EbWsMsg)
      → s.queue.heap p ≡ none
      → eb_ws_write (some p) false m (length m) priority s.queue ≡ some (acts, q)
      → Write lws_pre m priority s (record s { queue = q })

-- A writeable callback comes.
pub data Callback (lws_pre : ℕ) (s : Session) : Session → Type 0 where
  callback :
      (acts : List Action) (q : Queue EbWsMsg)
      → ws_callback lws_pre client_writeable s.queue ≡ some (acts, q)
      → Callback lws_pre s
          (record { queue = q; log = called_back ∷ s.log; sent = s.sent ++ frames acts })

pub data Step (lws_pre : ℕ) (s : Session) : Session → Type 0 where
  writes :
      {t : Session} (m : Text) (priority : Bool) → Write lws_pre m priority s t → Step lws_pre s t
  called : {t : Session} → Callback lws_pre s t → Step lws_pre s t

pub data Reach (lws_pre : ℕ) : Session → Type 0 where
  here : Reach lws_pre begin
  next : {s t : Session} → Reach lws_pre s → Step lws_pre s t → Reach lws_pre t

write_free : (h : Heap EbWsMsg) (p x : Ptr) → h p ≡ none → Memory.write h p none x ≡ h x
unfolding Memory.write
write_free h p x free = ground arith

no_node_unchanged :
    (s : Session) (m : Text) (buffer priority : Bool) (acts : List Action) (q : Queue EbWsMsg)
    → eb_ws_write none buffer m (length m) priority s.queue ≡ some (acts, q)
    → s.queue ≡ q
unfolding eb_ws_write eb_ws_msg_en_q
no_node_unchanged s m buffer priority acts q e = cc

no_buffer_unchanged :
    (s : Session) (m : Text) (p : Ptr) (priority : Bool) (acts : List Action) (q : Queue EbWsMsg)
    → s.queue.heap p ≡ none
    → eb_ws_write (some p) false m (length m) priority s.queue ≡ some (acts, q)
    → s.queue ≡ q
unfolding eb_ws_write eb_ws_msg_en_q release
no_buffer_unchanged s m p priority acts q free e =
    sym (
      ap (λ (h : Heap EbWsMsg). record s.queue { heap = h })
        (fun_ext (λ x. write_free s.queue.heap p x free)))
    ∙ cc

module _ (lws_pre : ℕ) where
  abbrev pub AllFit : List Text → Type 0
  AllFit [] = Unit {0}
  AllFit (m ∷ ms) = (lws_pre + length m ≤ ws_tx_buffer_len) × AllFit ms

  pub AllFit-enqueue :
      (priority : Bool) (m : Text) (ms : List Text)
      → lws_pre + length m ≤ ws_tx_buffer_len
      → AllFit ms
      → AllFit (enqueue priority m ms)
  AllFit-enqueue true m ms h hs = (h, hs)
  AllFit-enqueue false m [] h hs = (h, tt)
  AllFit-enqueue false m (x ∷ ms) h hs = (hs.0, AllFit-enqueue false m ms h hs.1)

  pub record Refines (s : Session) : Type 0 where
    pub holds : Holds s.queue (after_log s.log).pending
    pub fit : AllFit (after_log s.log).pending
    sent : s.sent ≡ (after_log s.log).sent

  pub callback-first :
      (q : Queue EbWsMsg) (pending sent : List Text)
      → Holds q pending
      → AllFit pending
      → (acts : List Action) × (r : Queue EbWsMsg) × (ws_callback lws_pre client_writeable q
          ≡ some (acts, r))
        × Holds r (send_first pending sent).pending
        × AllFit (send_first pending sent).pending
        × (sent ++ frames acts ≡ (send_first pending sent).sent)
  unfolding ws_callback send_first
  callback-first q [] sent h f = ([], q, writeable-nil lws_pre q h, h, tt, append-nil sent)
  callback-first q (m ∷ rest) sent h f =
      let (r, e, h') = writeable-cons lws_pre q m rest h f.0 in (_, r, e, h', f.1, refl)

  Write-Refines :
      {m : Text} {priority : Bool} {s t : Session}
      → Write lws_pre m priority s t
      → Refines s
      → Refines t
  unfolding after_log
  Write-Refines {m} {priority} {s} (write p acts q ne free fits e) v =
      let (q', e', h) = eb_ws_write-Holds s.queue _ p m priority v.holds ne free in
      let same : q' ≡ q = cc (e, e') in
      record { holds = rw (← same) h; fit = AllFit-enqueue priority m _ fits v.fit; sent = v.sent }
  Write-Refines {m} {priority} {s} (no_node buffer acts q e) v = record {
    holds = rw (← no_node_unchanged s m buffer priority acts q e) v.holds;
    fit = v.fit;
    sent = v.sent;
  }
  Write-Refines {m} {priority} {s} (no_buffer p acts q free e) v = record {
    holds = rw (← no_buffer_unchanged s m p priority acts q free e) v.holds;
    fit = v.fit;
    sent = v.sent;
  }

  Callback-Refines : {s t : Session} → Callback lws_pre s t → Refines s → Refines t
  unfolding after_log
  Callback-Refines {s} (callback acts q e) v =
      let (acts', q', e', h, f, eq) =
        callback-first s.queue (after_log s.log).pending (after_log s.log).sent v.holds v.fit in
      let same : q' ≡ q = cc (e, e') in
      let same_acts : acts' ≡ acts = cc (e, e') in
      record { holds = rw (← same) h; fit = f; sent = rw (v.sent, ← same_acts) eq }

  Step-Refines : {s t : Session} → Step lws_pre s t → Refines s → Refines t
  Step-Refines (writes m priority w) v = Write-Refines w v
  Step-Refines (called c) v = Callback-Refines c v

  begin-Refines : Refines begin
  unfolding after_log
  begin-Refines = record {
    holds = ([], record { head = refl; tail = refl; chain = tt }, (λ x o. refl), refl);
    fit = tt;
    sent = refl;
  }

  pub Reach-Refines : {s : Session} → Reach lws_pre s → Refines s
  Reach-Refines here = begin-Refines
  Reach-Refines (next r st) = Step-Refines st (Reach-Refines r)

  -- In every history of writes and writeable callbacks what was sent is what the list sends whose
  -- front takes the texts with priority and whose back takes the others; the pointers hold what
  -- that list holds, and memory has no other node; and the next callback is no fault.
  pub ws_refines :
      {s : Session}
      → Reach lws_pre s
      → (s.sent ≡ (after_log s.log).sent)
        × Holds s.queue (after_log s.log).pending
        × ((acts : List Action) × (q : Queue EbWsMsg) × (ws_callback lws_pre client_writeable
                s.queue
              ≡ some (acts, q)))
  ws_refines {s} r =
      let v = Reach-Refines r in
      let (acts, q, e, _, _, _) =
        callback-first s.queue (after_log s.log).pending (after_log s.log).sent v.holds v.fit in
      (v.sent, v.holds, (acts, q, e))
