-- ===== src/WsQueue/Wakeup/Asks.antt =====
-- src/wsclient.c: who will see a message that waits.
use edgebox.Prelude.{
  ℕ, ◌+◌, ◌≤◌, ◌≡◌, refl, ◌≢◌, ◌⊎◌, inl, inr, true, some, List, [], ◌∷◌, ◌==◌, Bool-cases,
  Option-cases, arith, ap, leb, take,
}
use edgebox.Prelude.Text.{Text}
use edgebox.Memory.{Ptr, null, Queue}
use edgebox.WsQueue.{
  EbWsMsg, Action, callback_on_writable, ws_receive_msg, lws_write, poll_wait, eb_ws_msg_de_q,
  send_node, ws_callback, client_receive, ws_tx_buffer_len,
}
use edgebox.WsQueue.Wakeup.{
  WsPlace, idle, taking, sending, WsThread, writeable_at, writeable_step, asks, Socket, Step,
  queued, asked, established, closed, received, called, goes_on, Reach, here, next,
}

-- Somebody will see the head: a callback is due, or under way, or a writer is about to ask for one.
abbrev pub WillSee : Socket → Type 0
WillSee w = (w.requested ≡ true) ⊎ ((1 ≤ w.asking) ⊎ (w.thread.place ≢ idle))

abbrev pub IsAwake : Socket → Type 0
IsAwake w = w.established ≡ true → w.thread.queue.head ≢ null → WillSee w

idle-asks :
    (lws_pre : ℕ) (s t : WsThread) (acts : List Action)
    → writeable_at lws_pre idle s ≡ some (acts, t)
    → t.queue.head ≢ null
    → t.place ≢ idle
idle-asks lws_pre s t acts e ne = elim (Bool-cases (s.queue.head == null)) [
  | inl empty ↦
      let same : s ≡ t = cc (rw empty at e) in
      absurd (ne (ground (arith, empty, ap (λ (x : WsThread). x.queue.head) same)))
  | inr some_left ↦
      let same : record s { place = taking } ≡ t = cc (rw some_left at e) in rw (← same) (λ z. cc)
]

taking-asks :
    (lws_pre : ℕ) (s t : WsThread) (acts : List Action)
    → writeable_at lws_pre taking s ≡ some (acts, t)
    → t.place ≢ idle
taking-asks lws_pre s t acts e z = elim (Option-cases (eb_ws_msg_de_q s.msg_node s.queue)) [
  | inl bad ↦ cc (rw (bad, writeable_at) at e)
  | inr ((p, q), good) ↦
      let same : record { queue = q; place = sending; msg_node = p } ≡ t =
        cc (rw (good, writeable_at) at e) in
      cc (ap (λ (x : WsThread). x.place) same)
]

send_node-asks :
    (lws_pre : ℕ) (p : Ptr) (q r : Queue EbWsMsg) (acts : List Action)
    → send_node lws_pre p q ≡ some (acts, r)
    → asks acts ≡ true
unfolding send_node
send_node-asks lws_pre p q r acts e = elim (Option-cases (q.heap p)) [
  | inl bad ↦ cc (rw (bad, send_node) at e)
  | inr (n, good) ↦ elim (Bool-cases (leb (lws_pre + n.payload.len) ws_tx_buffer_len)) [
    | inl fits ↦
        let same : lws_write (take n.payload.len n.payload.msg)
              ∷ poll_wait 3500
              ∷ callback_on_writable
              ∷ []
            ≡ acts =
          cc (rw (good, send_node, fits) at e) in
        rw (← same) refl
    | inr too_long ↦ cc (rw (good, send_node, too_long) at e)
  ]
]

sending-asks :
    (lws_pre : ℕ) (s t : WsThread) (acts : List Action)
    → writeable_at lws_pre sending s ≡ some (acts, t)
    → asks acts ≡ true
sending-asks lws_pre s t acts e = elim (Option-cases (send_node lws_pre s.msg_node s.queue)) [
  | inl bad ↦ cc (rw (bad, writeable_at) at e)
  | inr ((as', q), good) ↦
      let same : as' ≡ acts = cc (rw (good, writeable_at) at e) in
      rw (← same) (send_node-asks lws_pre s.msg_node s.queue q as' good)
]

-- A step of the callback either leaves it under way, or asks for the next one, or has found no message.
step-asks :
    (lws_pre : ℕ) (s t : WsThread) (acts : List Action)
    → writeable_step lws_pre s ≡ some (acts, t)
    → t.queue.head ≢ null
    → (asks acts ≡ true) ⊎ (t.place ≢ idle)
unfolding writeable_step
step-asks lws_pre s t acts e ne = at s.place e
  where
    at :
        (w : WsPlace)
        → writeable_at lws_pre w s ≡ some (acts, t)
        → (asks acts ≡ true) ⊎ (t.place ≢ idle)
    at idle h = inr (idle-asks lws_pre s t acts h ne)
    at taking h = inr (taking-asks lws_pre s t acts h)
    at sending h = inl (sending-asks lws_pre s t acts h)

pub receive-same :
    (lws_pre : ℕ) (text : Text) (q r : Queue EbWsMsg)
    → ws_callback lws_pre (client_receive text) q ≡ some (ws_receive_msg text ∷ [], r)
    → q ≡ r
unfolding ws_callback
receive-same lws_pre text q r e = cc

Step-IsAwake : {lws_pre : ℕ} {w v : Socket} → Step lws_pre w v → IsAwake w → IsAwake v
Step-IsAwake (queued block buffer buf len priority q fresh fits e) before up ne =
    inr (inl (omega arith))
Step-IsAwake {lws_pre} {w} (asked n e) before up ne = inl (ground (arith, up))
Step-IsAwake (established e) before up ne = inl refl
Step-IsAwake (closed e) before up ne = cc
Step-IsAwake {lws_pre} {w} (received text q at e) before up ne =
    let same : w.thread.queue ≡ q = receive-same lws_pre text w.thread.queue q e in
    before up (rw same ne)
Step-IsAwake {lws_pre} {w} (called acts s at due e) before up ne =
    elim (step-asks lws_pre w.thread s acts e ne) [ inl more ↦ inl more | inr on ↦ inr (inr on) ]
Step-IsAwake {lws_pre} {w} (goes_on acts s at e) before up ne =
    elim (step-asks lws_pre w.thread s acts e ne) [
      | inl more ↦ inl (ground (arith, more))
      | inr on ↦ inr (inr on)
    ]

pub Reach-IsAwake : {lws_pre : ℕ} {w : Socket} → Reach lws_pre w → IsAwake w
Reach-IsAwake here up ne = absurd (ne refl)
Reach-IsAwake (next r st) up ne = Step-IsAwake st (Reach-IsAwake r) up ne
