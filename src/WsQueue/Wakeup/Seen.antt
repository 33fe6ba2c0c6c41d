-- ===== src/WsQueue/Wakeup/Seen.antt =====
-- src/wsclient.c: what the callback in steps sends, and who sees what waits.
use edgebox.Prelude.{ℕ, ◌≡◌, ◌≢◌, true, none, some, List, [], ◌∷◌, ◌++◌, ap, sym, ◌∙◌}
use edgebox.Prelude.Text.{Text}
use edgebox.Memory.{Ptr, null}
use edgebox.Memory.Linked.{IsQueue}
use edgebox.WsQueue.{EbWsMsg, Action}
use edgebox.WsQueue.Refinement.{after_log}
use edgebox.WsQueue.Wakeup.{WsPlace, idle, taking, sending, WsThread, writeable_step, Socket, Reach}
use edgebox.WsQueue.Wakeup.Asks.{WillSee, Reach-IsAwake}
use edgebox.WsQueue.Wakeup.Told.{shown, shown_all, log_of, sent_of}
use edgebox.WsQueue.Wakeup.Safe.{InHand, writeable_step-GoesOn, Reach-IsSound}

-- The text of the node that the callback has taken off and not written yet.
abbrev pub text_of : WsPlace → WsThread → List Text
text_of idle s = []
text_of taking s = []
text_of sending s = elim (s.queue.heap s.msg_node) [ none ↦ [] | some n ↦ shown n.payload ∷ [] ]

text_of-InHand :
    (lws_pre : ℕ) (s : WsThread) (cs : List (Ptr × EbWsMsg)) (hand : List Text) (w : WsPlace)
    → InHand lws_pre w s cs hand
    → hand ≡ text_of w s
text_of-InHand lws_pre s cs hand idle h = h
text_of-InHand lws_pre s cs hand taking (ne, h) = h
text_of-InHand lws_pre s cs hand sending (h, e) = rw (h.there, text_of) e

-- However writes of other threads, breaks of the connection and received texts come between the steps of
-- the writeable callback: the frames that were written, and the one in hand, are what the list sends
-- whose front takes the texts with priority and whose back takes the others, each callback being one
-- operation where it takes off the head; the pointers hold what that list holds; and the next step of
-- the callback is no fault.
pub steps_refine :
    {lws_pre : ℕ} {w : Socket} (r : Reach lws_pre w)
    → (sent_of r ++ text_of w.thread.place w.thread ≡ (after_log (log_of r)).sent)
      × ((cs : List (Ptr × EbWsMsg)) × IsQueue w.thread.queue cs
          × (shown_all cs ≡ (after_log (log_of r)).pending))
      × ((acts : List Action) × (s : WsThread) × (writeable_step lws_pre w.thread ≡ some (acts, s)))
steps_refine {lws_pre} {w} r =
    let sound = Reach-IsSound r in
    let (cs, hand, v, f, h, eq) = sound in
    let (acts, s, e, _) =
      writeable_step-GoesOn lws_pre w.thread (after_log (log_of r)) (sent_of r) sound in
    (
      ap (λ xs. sent_of r ++ xs) (sym (text_of-InHand lws_pre w.thread cs hand w.thread.place h))
          ∙ sym (ap (λ x. x.sent) eq),
      (cs, v, sym (ap (λ x. x.pending) eq)),
      (acts, s, e),
    )

-- However writes of other threads, breaks of the connection and received texts come between the steps of
-- the writeable callback: while the connection is up, no message waits unseen. A further callback is due,
-- or one is under way, or a writer has still to ask for one.
pub waiting_is_seen :
    {lws_pre : ℕ} {w : Socket}
    → Reach lws_pre w
    → w.established ≡ true
    → w.thread.queue.head ≢ null
    → WillSee w
waiting_is_seen r up ne = Reach-IsAwake r up ne
