-- ===== src/WsQueue/Wakeup/Safe.antt =====
-- src/wsclient.c: the callback in steps never faults, whatever is written between them, and sends what
-- the list of a log sends.
use edgebox.Prelude.{
  ℕ, ◌+◌, ◌≤◌, ◌≡◌, refl, ◌≢◌, false, Option, none, some, List, [], ◌∷◌, ◌++◌, ◌∙◌, sym, ==_ne,
  le→leb, ap, take, append-nil,
}
use edgebox.Prelude.Text.{Text}
use edgebox.Memory.{Ptr, null, Heap, Queue, release}
use edgebox.WsQueue.{
  EbWsMsg, Action, callback_on_writable, lws_write, poll_wait, eb_ws_msg_de_q, send_node,
  ws_tx_buffer_len,
}
use edgebox.WsQueue.Wakeup.{
  WsPlace, idle, taking, sending, WsThread, writeable_at, writeable_step, Socket, Step, queued,
  asked, established, closed, received, called, goes_on, Reach, here, next,
}
use edgebox.Memory.Linked.{has, first, IsQueue, release-IsQueue}
use edgebox.Memory.Pointers.{take_head-cons}
use edgebox.WsQueue.Wakeup.Asks.{receive-same}
use edgebox.WsQueue.Refinement.{Op, called_back, Sent, send_first, after_log, frames}
use edgebox.WsQueue.Wakeup.Told.{
  shown, shown_all, written, taken_at, op_of, sends_of, log_of, sent_of, told, after-add,
}
use edgebox.WsQueue.Wakeup.Keeps.{AllFit, Keeps, en_q-Keeps}

-- The node in hand is there, is none of the queue, and fits.
pub record IsHeld (lws_pre : ℕ) (q : Queue EbWsMsg) (cs : List (Ptr × EbWsMsg)) (p : Ptr)
    : Type 0 where
  pub message : EbWsMsg
  pub link : Ptr
  pub there : q.heap p ≡ some (record { payload = message; next = link })
  apart : has p cs ≡ false
  fits : lws_pre + message.len ≤ ws_tx_buffer_len

-- What the callback holds, besides the queue `cs`: the text of a node that it took off.
abbrev pub InHand : ℕ → WsPlace → WsThread → List (Ptr × EbWsMsg) → List Text → Type 0
InHand lws_pre idle s cs hand = hand ≡ []
InHand lws_pre taking s cs hand = (cs ≢ []) × (hand ≡ [])
InHand lws_pre sending s cs hand =
    (h : IsHeld lws_pre s.queue cs s.msg_node) × (hand ≡ shown h.message ∷ [])

-- The thread has the state `now` of the list, where `done` is written already.
abbrev pub IsSound : ℕ → WsThread → Sent → List Text → Type 0
IsSound lws_pre s now done =
    (cs : List (Ptr × EbWsMsg)) × (hand : List Text) × IsQueue s.queue cs
    × AllFit lws_pre cs
    × InHand lws_pre s.place s cs hand
    × (now ≡ record { pending = shown_all cs; sent = done ++ hand })

queued-InHand :
    (lws_pre : ℕ) (s : WsThread) (r : Queue EbWsMsg) (cs ds : List (Ptr × EbWsMsg)) (w : WsPlace)
    (hand : List Text)
    → Keeps lws_pre s.queue r cs ds
    → InHand lws_pre w s cs hand
    → InHand lws_pre w (record s { queue = r }) ds hand
queued-InHand lws_pre s r cs ds idle hand k h = h
queued-InHand lws_pre s r cs ds taking hand k (ne, h) = (k.filled ne, h)
queued-InHand lws_pre s r cs ds sending hand k (h, e) =
    let (there, apart) = k.held s.msg_node _ h.there h.apart in
    (record { message = h.message; link = h.link; there = there; apart = apart; fits = h.fits }, e)

-- A step that is no fault and leads to the state of the list that `o` leads to.
abbrev pub GoesOn : ℕ → Option Op → Sent → List Text → Option (List Action × WsThread) → Type 0
GoesOn lws_pre o now done r =
    (acts : List Action) × (s : WsThread) × (r ≡ some (acts, s))
    × IsSound lws_pre s (told o now) (done ++ frames acts)

module _ (lws_pre : ℕ) (s : WsThread) (now : Sent) (done : List Text) where
  nothing_sent :
      (cs : List (Ptr × EbWsMsg)) (hand : List Text)
      → hand ≡ []
      → now ≡ record { pending = shown_all cs; sent = done ++ hand }
      → now ≡ record { pending = shown_all cs; sent = (done ++ []) ++ [] }
  nothing_sent cs hand none_left eq =
      eq
      ∙ ap (λ xs. record { pending = shown_all cs; sent = xs })
          (ap (λ xs. done ++ xs) none_left ∙ sym (append-nil (done ++ [])))

  idle-GoesOn :
      (cs : List (Ptr × EbWsMsg)) (hand : List Text)
      → s.place ≡ idle
      → IsQueue s.queue cs
      → AllFit lws_pre cs
      → hand ≡ []
      → now ≡ record { pending = shown_all cs; sent = done ++ hand }
      → GoesOn lws_pre none now done (writeable_at lws_pre idle s)
  idle-GoesOn [] hand at v f h eq =
      ([], s, rw v.head, ([], [], v, f, rw at refl, nothing_sent [] hand h eq))
  idle-GoesOn ((p, m) ∷ cs) hand at v f h eq = (
    [],
    record s { place = taking },
    rw (==_ne s.queue.head null (λ z. v.chain.0 (sym v.head ∙ z))),
    ((p, m) ∷ cs, [], v, f, ((λ z. cc), refl), nothing_sent ((p, m) ∷ cs) hand h eq),
  )

  taking-GoesOn :
      (cs : List (Ptr × EbWsMsg)) (hand : List Text)
      → IsQueue s.queue cs
      → AllFit lws_pre cs
      → cs ≢ []
      → hand ≡ []
      → now ≡ record { pending = shown_all cs; sent = done ++ hand }
      → GoesOn lws_pre (some called_back) now done (writeable_at lws_pre taking s)
  unfolding eb_ws_msg_de_q send_first
  taking-GoesOn [] hand v f ne h eq = absurd (ne refl)
  taking-GoesOn ((p, m) ∷ cs) hand v f ne h eq =
      let (r, e, w, same) = take_head-cons s.queue s.msg_node p m cs v in
      let held : IsHeld lws_pre r cs p = record {
        message = m;
        link = first cs;
        there = ap (λ (g : Heap EbWsMsg). g p) same ∙ v.chain.1;
        apart = v.chain.2;
        fits = f.0;
      } in
      (
        [],
        record { queue = r; place = sending; msg_node = p },
        rw (e, writeable_at) refl,
        (
          cs,
          shown m ∷ [],
          w,
          f.1,
          (held, refl),
          ap (λ x. told (some called_back) x) eq
              ∙ ap (λ xs. record { pending = shown_all cs; sent = (done ++ xs) ++ shown m ∷ [] }) h,
        ),
      )

  sending-GoesOn :
      (cs : List (Ptr × EbWsMsg)) (hand : List Text)
      → IsQueue s.queue cs
      → AllFit lws_pre cs
      → (h : IsHeld lws_pre s.queue cs s.msg_node) → hand ≡ shown h.message ∷ []
      → now ≡ record { pending = shown_all cs; sent = done ++ hand }
      → GoesOn lws_pre none now done (writeable_at lws_pre sending s)
  unfolding send_node
  sending-GoesOn cs hand v f h e eq = (
    lws_write (take h.message.len h.message.msg) ∷ poll_wait 3500 ∷ callback_on_writable ∷ [],
    record s { queue = release s.queue s.msg_node; place = idle },
    rw (h.there, writeable_at, send_node, le→leb _ _ h.fits) refl,
    (
      cs,
      [],
      release-IsQueue s.queue s.msg_node cs v h.apart,
      f,
      refl,
      eq
          ∙ ap (λ xs. record { pending = shown_all cs; sent = xs })
              (ap (λ xs. done ++ xs) e ∙ sym (append-nil (done ++ shown h.message ∷ []))),
    ),
  )

  pub writeable_step-GoesOn :
      IsSound lws_pre s now done
      → GoesOn lws_pre (taken_at s.place) now done (writeable_step lws_pre s)
  unfolding writeable_step
  writeable_step-GoesOn (cs, hand, v, f, h, eq) = at s.place refl h
    where
      at :
          (w : WsPlace)
          → s.place ≡ w
          → InHand lws_pre w s cs hand
          → GoesOn lws_pre (taken_at w) now done (writeable_at lws_pre w s)
      at idle e h' = idle-GoesOn cs hand e v f h' eq
      at taking e (ne, h') = taking-GoesOn cs hand v f ne h' eq
      at sending e (h', e') = sending-GoesOn cs hand v f h' e' eq

  callback-IsSound :
      (t : WsThread) (acts : List Action)
      → IsSound lws_pre s now done
      → writeable_step lws_pre s ≡ some (acts, t)
      → IsSound lws_pre t (told (taken_at s.place) now) (done ++ frames acts)
  callback-IsSound t acts h e =
      let (acts', t', e', h') = writeable_step-GoesOn h in
      let same : t' ≡ t = cc (e, e') in
      let same_acts : acts' ≡ acts = cc (e, e') in rw (← same, ← same_acts) h'

more :
    (lws_pre : ℕ) (s : WsThread) (now : Sent) (done : List Text)
    → IsSound lws_pre s now done
    → IsSound lws_pre s now (done ++ [])
more lws_pre s now done h = rw (append-nil done) h

Step-IsSound :
    {lws_pre : ℕ} {w v : Socket} (now : Sent) (done : List Text) (st : Step lws_pre w v)
    → IsSound lws_pre w.thread now done
    → IsSound lws_pre v.thread (told (op_of st) now) (done ++ sends_of st)
Step-IsSound {lws_pre} {w} now done (queued block buffer buf len priority q fresh fits e)
      (cs, hand, v, f, h, eq) =
    let (ds, k, moved) =
      en_q-Keeps lws_pre w.thread.queue q cs block buffer buf len priority v f fresh fits e in
    more lws_pre (record w.thread { queue = q }) (told (written block buffer buf len priority) now)
      done
      (
        ds,
        hand,
        k.queue,
        k.fits,
        queued-InHand lws_pre w.thread q cs ds w.thread.place hand k h,
        ap (λ x. told (written block buffer buf len priority) x) eq ∙ moved (done ++ hand),
      )
Step-IsSound {lws_pre} {w} now done (asked n e) h = more lws_pre w.thread now done h
Step-IsSound {lws_pre} {w} now done (established at) h = more lws_pre w.thread now done h
Step-IsSound {lws_pre} {w} now done (closed at) h = more lws_pre w.thread now done h
Step-IsSound {lws_pre} {w} now done (received text q at e) h =
    more lws_pre (record w.thread { queue = q }) now done
      (rw (← receive-same lws_pre text w.thread.queue q e) h)
Step-IsSound {lws_pre} {w} now done (called acts s at due e) h =
    callback-IsSound lws_pre w.thread now done s acts h e
Step-IsSound {lws_pre} {w} now done (goes_on acts s at e) h =
    callback-IsSound lws_pre w.thread now done s acts h e

pub Reach-IsSound :
    {lws_pre : ℕ} {w : Socket} (r : Reach lws_pre w)
    → IsSound lws_pre w.thread (after_log (log_of r)) (sent_of r)
unfolding after_log
Reach-IsSound here = ([], [], record { head = refl; tail = refl; chain = tt }, tt, refl, refl)
Reach-IsSound (next r st) =
    rw (after-add (op_of st) (log_of r))
      (Step-IsSound (after_log (log_of r)) (sent_of r) st (Reach-IsSound r))
