-- ===== src/WsQueue/Wakeup/Told.antt =====
-- src/wsclient.c: the histories of the callback in steps, as logs of writes and callbacks. A callback
-- counts from where it takes the head off.
use edgebox.Prelude.{
  zero, suc, ℕ, ◌≡◌, refl, Bool, true, false, Option, none, some, List, [], ◌∷◌, ◌++◌, ap, take,
}
use edgebox.Prelude.Text.{Text}
use edgebox.Memory.{Ptr}
use edgebox.WsQueue.{EbWsMsg}
use edgebox.WsQueue.Wakeup.{
  WsPlace, idle, taking, sending, Socket, Step, queued, asked, established, closed, received,
  called, goes_on, Reach, here, next,
}
use edgebox.WsQueue.Pushes.{enqueue}
use edgebox.WsQueue.Refinement.{Op, wrote, called_back, Sent, send_first, after_log, frames}

-- What a message sends.
abbrev pub shown : EbWsMsg → Text
shown m = take m.len m.msg

abbrev pub shown_all : List (Ptr × EbWsMsg) → List Text
shown_all [] = []
shown_all ((p, m) ∷ cs) = shown m ∷ shown_all cs

pub shown_all-snoc :
    (cs : List (Ptr × EbWsMsg)) (p : Ptr) (m : EbWsMsg)
    → shown_all (cs ++ (p, m) ∷ []) ≡ shown_all cs ++ shown m ∷ []
shown_all-snoc [] p m = refl
shown_all-snoc ((x, b) ∷ cs) p m = ap (λ ys. shown b ∷ ys) (shown_all-snoc cs p m)

pub take-take : (n : ℕ) (t : Text) → take n (take n t) ≡ take n t
take-take zero t = refl
take-take (suc n) [] = refl
take-take (suc n) (c ∷ t) = ap (λ ys. c ∷ ys) (take-take n t)

-- What a call of `eb_ws_msgEnQ` adds to the log, and what a step of the callback adds.
abbrev pub written : Option Ptr → Bool → Text → ℕ → Bool → Option Op
written none buffer buf len priority = none
written (some p) false buf len priority = none
written (some p) true buf len priority = some (wrote priority (take len buf))

abbrev pub taken_at : WsPlace → Option Op
taken_at idle = none
taken_at taking = some called_back
taken_at sending = none

abbrev pub op_of : {lws_pre : ℕ} {w v : Socket} → Step lws_pre w v → Option Op
op_of (queued block buffer buf len priority q fresh fits e) = written block buffer buf len priority
op_of {lws_pre} {w} (called acts s at due e) = taken_at w.thread.place
op_of {lws_pre} {w} (goes_on acts s at e) = taken_at w.thread.place
op_of (asked n e) = none
op_of (established at) = none
op_of (closed at) = none
op_of (received text q at e) = none

abbrev pub sends_of : {lws_pre : ℕ} {w v : Socket} → Step lws_pre w v → List Text
sends_of (called acts s at due e) = frames acts
sends_of (goes_on acts s at e) = frames acts
sends_of (queued block buffer buf len priority q fresh fits e) = []
sends_of (asked n e) = []
sends_of (established at) = []
sends_of (closed at) = []
sends_of (received text q at e) = []

abbrev pub add : Option Op → List Op → List Op
add none log = log
add (some op) log = op ∷ log

-- The log of a history, the latest operation first, and the frames that were written in it.
abbrev pub log_of : {lws_pre : ℕ} {w : Socket} → Reach lws_pre w → List Op
log_of here = []
log_of (next r st) = add (op_of st) (log_of r)

abbrev pub sent_of : {lws_pre : ℕ} {w : Socket} → Reach lws_pre w → List Text
sent_of here = []
sent_of (next r st) = sent_of r ++ sends_of st

-- What one operation does to the list of a log.
abbrev pub told : Option Op → Sent → Sent
told none s = s
told (some (wrote priority m)) s = record s { pending = enqueue priority m s.pending }
told (some called_back) s = send_first s.pending s.sent

pub after-add : (o : Option Op) (log : List Op) → after_log (add o log) ≡ told o (after_log log)
unfolding after_log
after-add none log = refl
after-add (some (wrote priority m)) log = refl
after-add (some called_back) log = refl
