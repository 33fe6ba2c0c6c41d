-- ===== src/WsQueue/Wakeup/Pace.antt =====
-- src/wsclient.c: the time that the websocket's thread leaves to the air interface behind each frame.
use edgebox.Prelude.{
  ℕ, ◌+◌, ◌*◌, ◌≡◌, refl, ap, ◌∙◌, Bool, true, false, some, List, [], ◌∷◌, ◌++◌, leb, take, length,
  length-append, Bool-cases, Option-cases, inl, inr, arith,
}
use edgebox.Prelude.Text.{Text}
use edgebox.Memory.{Ptr, Queue}
use edgebox.WsQueue.{
  EbWsMsg, Action, callback_on_writable, ws_receive_msg, lws_write, poll_wait, eb_ws_msg_de_q,
  send_node, ws_tx_buffer_len,
}
use edgebox.WsQueue.Refinement.{frames}
use edgebox.WsQueue.Wakeup.{
  WsPlace, idle, taking, sending, WsThread, writeable_at, writeable_step, Socket, Step, queued,
  asked, established, closed, received, called, goes_on, Reach, here, next,
}
use edgebox.WsQueue.Wakeup.Told.{sends_of, sent_of}

-- Does the thread wait 3.5 seconds next?
abbrev pub waits_next : List Action → Bool
waits_next [] = false
waits_next (poll_wait ms ∷ acts) = leb 3500 ms
waits_next (callback_on_writable ∷ acts) = false
waits_next (ws_receive_msg text ∷ acts) = false
waits_next (lws_write text ∷ acts) = false

-- Directly behind each frame the thread waits.
abbrev pub IsPaced : List Action → Type 0
IsPaced [] = Unit {0}
IsPaced (lws_write text ∷ acts) = (waits_next acts ≡ true) × IsPaced acts
IsPaced (poll_wait ms ∷ acts) = IsPaced acts
IsPaced (callback_on_writable ∷ acts) = IsPaced acts
IsPaced (ws_receive_msg text ∷ acts) = IsPaced acts

-- The milliseconds of all waits.
abbrev pub waited : List Action → ℕ
waited [] = 0
waited (poll_wait ms ∷ acts) = ms + waited acts
waited (lws_write text ∷ acts) = waited acts
waited (callback_on_writable ∷ acts) = waited acts
waited (ws_receive_msg text ∷ acts) = waited acts

waits_next-append : (xs ys : List Action) → waits_next xs ≡ true → waits_next (xs ++ ys) ≡ true
waits_next-append [] ys e = cc
waits_next-append (poll_wait ms ∷ xs) ys e = e
waits_next-append (callback_on_writable ∷ xs) ys e = e
waits_next-append (ws_receive_msg text ∷ xs) ys e = e
waits_next-append (lws_write text ∷ xs) ys e = e

append-IsPaced : (xs ys : List Action) → IsPaced xs → IsPaced ys → IsPaced (xs ++ ys)
append-IsPaced [] ys v w = w
append-IsPaced (lws_write text ∷ xs) ys (e, v) w =
    (waits_next-append xs ys e, append-IsPaced xs ys v w)
append-IsPaced (poll_wait ms ∷ xs) ys v w = append-IsPaced xs ys v w
append-IsPaced (callback_on_writable ∷ xs) ys v w = append-IsPaced xs ys v w
append-IsPaced (ws_receive_msg text ∷ xs) ys v w = append-IsPaced xs ys v w

waited-append : (xs ys : List Action) → waited (xs ++ ys) ≡ waited xs + waited ys
waited-append [] ys = omega arith
waited-append (poll_wait ms ∷ xs) ys = omega (arith, waited-append xs ys)
waited-append (lws_write text ∷ xs) ys = waited-append xs ys
waited-append (callback_on_writable ∷ xs) ys = waited-append xs ys
waited-append (ws_receive_msg text ∷ xs) ys = waited-append xs ys

frames-append : (xs ys : List Action) → frames (xs ++ ys) ≡ frames xs ++ frames ys
frames-append [] ys = refl
frames-append (lws_write text ∷ xs) ys = ap (λ ts. text ∷ ts) (frames-append xs ys)
frames-append (poll_wait ms ∷ xs) ys = frames-append xs ys
frames-append (callback_on_writable ∷ xs) ys = frames-append xs ys
frames-append (ws_receive_msg text ∷ xs) ys = frames-append xs ys

-- What the thread of the websocket does in a history.
abbrev pub actions_in : {lws_pre : ℕ} {w v : Socket} → Step lws_pre w v → List Action
actions_in (called acts s at due e) = acts
actions_in (goes_on acts s at e) = acts
actions_in (queued block buffer buf len priority q fresh fits e) = []
actions_in (asked n e) = []
actions_in (established at) = callback_on_writable ∷ []
actions_in (closed at) = []
actions_in (received text q at e) = ws_receive_msg text ∷ []

abbrev pub actions_of : {lws_pre : ℕ} {w : Socket} → Reach lws_pre w → List Action
actions_of here = []
actions_of (next r st) = actions_of r ++ actions_in st

record IsTimed (acts : List Action) : Type 0 where
  paced : IsPaced acts
  time : waited acts ≡ 3500 * length (frames acts)

append-IsTimed : (xs ys : List Action) → IsTimed xs → IsTimed ys → IsTimed (xs ++ ys)
append-IsTimed xs ys v w = record {
  paced = append-IsPaced xs ys v.paced w.paced;
  time = omega (
    arith,
    waited-append xs ys,
    ap (λ (ts : List Text). length ts) (frames-append xs ys),
    length-append (frames xs) (frames ys),
    v.time,
    w.time,
  );
}

nothing-IsTimed : IsTimed []
nothing-IsTimed = record { paced = tt; time = refl }

send_node-IsTimed :
    (lws_pre : ℕ) (p : Ptr) (q r : Queue EbWsMsg) (acts : List Action)
    → send_node lws_pre p q ≡ some (acts, r)
    → IsTimed acts
unfolding send_node
send_node-IsTimed lws_pre p q r acts e = elim (Option-cases (q.heap p)) [
  | inl bad ↦ cc (rw (bad, send_node) at e)
  | inr (n, good) ↦ elim (Bool-cases (leb (lws_pre + n.payload.len) ws_tx_buffer_len)) [
    | inl fits ↦
        let same : lws_write (take n.payload.len n.payload.msg)
              ∷ poll_wait 3500
              ∷ callback_on_writable
              ∷ []
            ≡ acts =
          cc (rw (good, send_node, fits) at e) in
        rw (← same) (record { paced = (refl, tt); time = refl })
    | inr too_long ↦ cc (rw (good, send_node, too_long) at e)
  ]
]

step-IsTimed :
    (lws_pre : ℕ) (s t : WsThread) (acts : List Action)
    → writeable_step lws_pre s ≡ some (acts, t)
    → IsTimed acts
unfolding writeable_step
step-IsTimed lws_pre s t acts e = at s.place e
  where
    silent : [] ≡ acts → IsTimed acts
    silent same = rw (← same) nothing-IsTimed

    at : (w : WsPlace) → writeable_at lws_pre w s ≡ some (acts, t) → IsTimed acts
    at idle h = silent cc
    at taking h = elim (Option-cases (eb_ws_msg_de_q s.msg_node s.queue)) [
      | inl bad ↦ cc (rw (bad, writeable_at) at h)
      | inr ((p, q), good) ↦ silent (cc (rw (good, writeable_at) at h))
    ]
    at sending h = elim (Option-cases (send_node lws_pre s.msg_node s.queue)) [
      | inl bad ↦ cc (rw (bad, writeable_at) at h)
      | inr ((as', q), good) ↦
          let same : as' ≡ acts = cc (rw (good, writeable_at) at h) in
          rw (← same) (send_node-IsTimed lws_pre s.msg_node s.queue q as' good)
    ]

Step-IsTimed : {lws_pre : ℕ} {w v : Socket} (st : Step lws_pre w v) → IsTimed (actions_in st)
Step-IsTimed (queued block buffer buf len priority q fresh fits e) = nothing-IsTimed
Step-IsTimed (asked n e) = nothing-IsTimed
Step-IsTimed (established at) = record { paced = tt; time = refl }
Step-IsTimed (closed at) = nothing-IsTimed
Step-IsTimed (received text q at e) = record { paced = tt; time = refl }
Step-IsTimed {lws_pre} {w} (called acts s at due e) = step-IsTimed lws_pre w.thread s acts e
Step-IsTimed {lws_pre} {w} (goes_on acts s at e) = step-IsTimed lws_pre w.thread s acts e

Reach-IsTimed : {lws_pre : ℕ} {w : Socket} (r : Reach lws_pre w) → IsTimed (actions_of r)
Reach-IsTimed here = nothing-IsTimed
Reach-IsTimed (next r st) =
    append-IsTimed (actions_of r) (actions_in st) (Reach-IsTimed r) (Step-IsTimed st)

sends-frames :
    {lws_pre : ℕ} {w v : Socket} (st : Step lws_pre w v) → frames (actions_in st) ≡ sends_of st
sends-frames (queued block buffer buf len priority q fresh fits e) = refl
sends-frames (asked n e) = refl
sends-frames (established at) = refl
sends-frames (closed at) = refl
sends-frames (received text q at e) = refl
sends-frames (called acts s at due e) = refl
sends-frames (goes_on acts s at e) = refl

sent-frames : {lws_pre : ℕ} {w : Socket} (r : Reach lws_pre w) → frames (actions_of r) ≡ sent_of r
sent-frames here = refl
sent-frames (next r st) =
    frames-append (actions_of r) (actions_in st) ∙ rw (sent-frames r, sends-frames st) refl

-- In every history the thread of the websocket calls `poll` for at least 3.5 seconds directly behind each
-- frame, so that no two frames are written without that wait between them; and all its waits together
-- are 3.5 seconds for each frame that was written, and no more.
pub frames_apart :
    {lws_pre : ℕ} {w : Socket} (r : Reach lws_pre w)
    → IsPaced (actions_of r)
      × (frames (actions_of r) ≡ sent_of r)
      × (waited (actions_of r) ≡ 3500 * length (sent_of r))
frames_apart r =
    let timed = Reach-IsTimed r in
    (timed.paced, sent-frames r, timed.time ∙ ap (λ ts. 3500 * length ts) (sent-frames r))
