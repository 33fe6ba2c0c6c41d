-- ===== src/WsQueue/Wakeup/Reply.antt =====
-- src/wsclient.c: from where a message waits, a frame is written within four steps.
use edgebox.Prelude.{
  ℕ, zero, suc, ◌+◌, ◌≤◌, ◌≡◌, refl, sym, ap, ◌∙◌, ◌≢◌, inl, inr, true, false, some, List, [], ◌∷◌,
  ◌++◌, ◌||◌, leb, take, length, length-append, Bool-cases, Option-cases, ◌==◌, ==_ne, arith,
}
use edgebox.Prelude.Text.{Text}
use edgebox.Memory.{Ptr, null, Queue}
use edgebox.WsQueue.{
  EbWsMsg, Action, callback_on_writable, lws_write, poll_wait, eb_ws_msg_de_q, send_node,
  ws_tx_buffer_len,
}
use edgebox.WsQueue.Refinement.{after_log, frames}
use edgebox.WsQueue.Wakeup.{
  WsPlace, idle, taking, sending, WsThread, writeable_at, writeable_step, Socket, Step, asks, asked,
  called, goes_on, Reach, next,
}
use edgebox.WsQueue.Wakeup.Asks.{Reach-IsAwake}
use edgebox.WsQueue.Wakeup.Told.{log_of, sent_of, sends_of}
use edgebox.WsQueue.Wakeup.Safe.{writeable_step-GoesOn, Reach-IsSound}

send_node-frame :
    (lws_pre : ℕ) (p : Ptr) (q r : Queue EbWsMsg) (acts : List Action)
    → send_node lws_pre p q ≡ some (acts, r)
    → length (frames acts) ≡ 1
unfolding send_node
send_node-frame lws_pre p q r acts e = elim (Option-cases (q.heap p)) [
  | inl bad ↦ cc (rw (bad, send_node) at e)
  | inr (n, good) ↦ elim (Bool-cases (leb (lws_pre + n.payload.len) ws_tx_buffer_len)) [
    | inl fits ↦
        let same : lws_write (take n.payload.len n.payload.msg)
              ∷ poll_wait 3500
              ∷ callback_on_writable
              ∷ []
            ≡ acts =
          cc (rw (good, send_node, fits) at e) in
        rw (← same) refl
    | inr too_long ↦ cc (rw (good, send_node, too_long) at e)
  ]
]

sending-frame :
    (lws_pre : ℕ) (s t : WsThread) (acts : List Action)
    → writeable_at lws_pre sending s ≡ some (acts, t)
    → length (frames acts) ≡ 1
sending-frame lws_pre s t acts e = elim (Option-cases (send_node lws_pre s.msg_node s.queue)) [
  | inl bad ↦ cc (rw (bad, writeable_at) at e)
  | inr ((as', q), good) ↦
      let same : as' ≡ acts = cc (rw (good, writeable_at) at e) in
      rw (← same) (send_node-frame lws_pre s.msg_node s.queue q as' good)
]

taking-moves :
    (lws_pre : ℕ) (s t : WsThread) (acts : List Action)
    → writeable_at lws_pre taking s ≡ some (acts, t)
    → ([] ≡ acts) × (t.place ≡ sending)
taking-moves lws_pre s t acts e = elim (Option-cases (eb_ws_msg_de_q s.msg_node s.queue)) [
  | inl bad ↦ cc (rw (bad, writeable_at) at e)
  | inr ((p, q), good) ↦
      let same : record { queue = q; place = sending; msg_node = p } ≡ t =
        cc (rw (good, writeable_at) at e) in
      (cc (rw (good, writeable_at) at e), rw (← same) refl)
]

idle-moves :
    (lws_pre : ℕ) (s t : WsThread) (acts : List Action)
    → s.queue.head ≢ null
    → writeable_at lws_pre idle s ≡ some (acts, t)
    → ([] ≡ acts) × (t.place ≡ taking)
idle-moves lws_pre s t acts ne e =
    let filled : (s.queue.head == null) ≡ false = ==_ne s.queue.head null ne in
    let same : record s { place = taking } ≡ t = cc (rw filled at e) in (cc, rw (← same) refl)

-- `n` steps, and the frames that are written in them.
pub data Goes (lws_pre : ℕ) : Socket → ℕ → Socket → List Text → Type 0 where
  stay : {w : Socket} → Goes lws_pre w 0 w []
  on :
      {n : ℕ} {w v u : Socket} {ts : List Text} (st : Step lws_pre w v)
      → Goes lws_pre v n u ts
      → Goes lws_pre w (suc n) u (sends_of st ++ ts)

-- In `n` steps one frame is written.
abbrev Finishes : ℕ → Socket → ℕ → Type 0
Finishes lws_pre w n = (v : Socket) × (ts : List Text) × Goes lws_pre w n v ts × (length ts ≡ 1)

next_step :
    {lws_pre : ℕ} {w : Socket}
    → Reach lws_pre w
    → (acts : List Action) × (s : WsThread) × (writeable_step lws_pre w.thread ≡ some (acts, s))
next_step {lws_pre} {w} r =
    let (acts, s, e, _) =
      writeable_step-GoesOn lws_pre w.thread (after_log (log_of r)) (sent_of r) (Reach-IsSound r) in
    (acts, s, e)

-- A silent step in front.
silent-Finishes :
    {lws_pre : ℕ} {w v : Socket} (n : ℕ) (st : Step lws_pre w v)
    → [] ≡ sends_of st
    → Finishes lws_pre v n
    → Finishes lws_pre w (suc n)
silent-Finishes n st quiet (u, ts, g, one) = (u, sends_of st ++ ts, on st g, rw (← quiet) one)

sending-Finishes :
    {lws_pre : ℕ} {w : Socket} → Reach lws_pre w → w.thread.place ≡ sending → Finishes lws_pre w 1
unfolding writeable_step
sending-Finishes {lws_pre} {w} r at =
    let (acts, s, e) = next_step r in
    let st : Step lws_pre w (record w { thread = s; requested = w.requested || asks acts }) =
      goes_on acts s (λ z. cc (at, z)) e in
    (
      _,
      frames acts ++ [],
      on st stay,
      omega (
        arith,
        length-append (frames acts) [],
        sending-frame lws_pre w.thread s acts
            (ap (λ p. writeable_at lws_pre p w.thread) (sym at) ∙ e),
      ),
    )

taking-Finishes :
    {lws_pre : ℕ} {w : Socket} → Reach lws_pre w → w.thread.place ≡ taking → Finishes lws_pre w 2
unfolding writeable_step
taking-Finishes {lws_pre} {w} r at =
    let (acts, s, e) = next_step r in
    let st : Step lws_pre w (record w { thread = s; requested = w.requested || asks acts }) =
      goes_on acts s (λ z. cc (at, z)) e in
    let (quiet, moved) =
      taking-moves lws_pre w.thread s acts
        (ap (λ p. writeable_at lws_pre p w.thread) (sym at) ∙ e) in
    silent-Finishes 1 st (ap frames quiet) (sending-Finishes (next r st) moved)

idle-Finishes :
    {lws_pre : ℕ} {w : Socket}
    → Reach lws_pre w
    → w.thread.place ≡ idle
    → w.requested ≡ true
    → w.thread.queue.head ≢ null
    → Finishes lws_pre w 3
unfolding writeable_step
idle-Finishes {lws_pre} {w} r at due ne =
    let (acts, s, e) = next_step r in
    let st : Step lws_pre w (record w { thread = s; requested = asks acts }) =
      called acts s at due e in
    let (quiet, moved) =
      idle-moves lws_pre w.thread s acts ne
        (ap (λ p. writeable_at lws_pre p w.thread) (sym at) ∙ e) in
    silent-Finishes 2 st (ap frames quiet) (taking-Finishes (next r st) moved)

-- A writer asks for the callback first.
asked-Finishes :
    {lws_pre : ℕ} {w : Socket} (n : ℕ)
    → Reach lws_pre w
    → w.thread.place ≡ idle
    → w.established ≡ true
    → w.thread.queue.head ≢ null
    → w.asking ≡ suc n
    → Finishes lws_pre w 4
asked-Finishes {lws_pre} {w} n r at up ne more =
    let st : Step lws_pre w (record w { requested = w.requested || w.established; asking = n }) =
      asked n more in
    silent-Finishes 3 st refl (idle-Finishes (next r st) at (ground (arith, up)) ne)

-- At most four steps lead to one more frame.
abbrev pub Answered : ℕ → Socket → Type 0
Answered lws_pre w =
    (n : ℕ) × (v : Socket) × (ts : List Text) × (n ≤ 4) × Goes lws_pre w n v ts × (length ts ≡ 1)

-- Whatever came before: while the connection is up and a message waits, at most four steps, of the
-- callback and of a writer that has queued its message already, lead to one more frame.
pub next_frame_comes :
    {lws_pre : ℕ} {w : Socket}
    → Reach lws_pre w
    → w.established ≡ true
    → w.thread.queue.head ≢ null
    → Answered lws_pre w
next_frame_comes {lws_pre} {w} r up ne = by_place w.thread.place refl
  where
    within : (n : ℕ) → n ≤ 4 → Finishes lws_pre w n → Answered lws_pre w
    within n le (v, ts, g, one) = (n, v, ts, le, g, one)

    by_writers : (k : ℕ) → w.asking ≡ k → w.thread.place ≡ idle → 1 ≤ w.asking → Answered lws_pre w
    by_writers zero e at some_left = absurd (omega (arith, e, some_left))
    by_writers (suc k) e at some_left = within 4 (omega arith) (asked-Finishes k r at up ne e)

    by_place : (p : WsPlace) → w.thread.place ≡ p → Answered lws_pre w
    by_place sending at = within 1 (omega arith) (sending-Finishes r at)
    by_place taking at = within 2 (omega arith) (taking-Finishes r at)
    by_place idle at = elim (Reach-IsAwake r up ne) [
      | inl due ↦ within 3 (omega arith) (idle-Finishes r at due ne)
      | inr (inl writers) ↦ by_writers w.asking refl at writers
      | inr (inr away) ↦ absurd (away at)
    ]
