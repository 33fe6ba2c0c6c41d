-- ===== src/WsQueue/Examples.antt =====
-- The theorems on the websocket's queue at concrete histories.
use edgebox.Prelude.{
  ◌≡◌, refl, true, false, Option, none, some, List, [], ◌∷◌, ◌++◌, reverse, arith,
}
use edgebox.Prelude.Text.{Text, codes}
use edgebox.Memory.{Queue, link_tail, take_head, release}
use mathlib.Core.List.{Perm}
use edgebox.WsQueue.Lanes.{Lanes, lanes, written, ws_lanes}
use edgebox.WsQueue.Starvation.{waiting_are_sent}
use edgebox.WsQueue.Bursts.{later_sent_first, interrupted_burst}
use edgebox.WsQueue.{
  link_head, link_back, EbWsMsg, Action, eb_ws_msg_en_q, eb_ws_msg_de_q, eb_ws_write, writeable,
  ws_callback, client_writeable,
}
use edgebox.WsQueue.Pushes.{Holds}
use edgebox.WsQueue.Refinement.{
  Session, begin, Reach, here, next, writes, called, write, callback, wrote, called_back, after_log,
  ws_refines,
}

abbrev queue_of : Option (List Action × Queue EbWsMsg) → Queue EbWsMsg
queue_of none = begin.queue
queue_of (some (_, q)) = q

abbrev acts_of : Option (List Action × Queue EbWsMsg) → List Action
acts_of none = []
acts_of (some (acts, _)) = acts

-- A query is written, then a command with priority; one callback comes.
query_queued : Queue EbWsMsg
unfolding eb_ws_write eb_ws_msg_en_q link_back link_tail
query_queued = queue_of (eb_ws_write (some 5) true (codes "query") 5 false begin.queue)

command_queued : Queue EbWsMsg
unfolding query_queued link_head
command_queued = queue_of (eb_ws_write (some 6) true (codes "command") 7 true query_queued)

command_sent : Queue EbWsMsg
unfolding command_queued ws_callback writeable eb_ws_msg_de_q take_head
command_sent = queue_of (ws_callback 16 client_writeable command_queued)

abbrev session : Session
session = record {
  queue = command_sent;
  log = called_back ∷ wrote true (codes "command") ∷ wrote false (codes "query") ∷ [];
  sent = codes "command" ∷ [];
}

session-Reach : Reach 16 session
unfolding command_sent
session-Reach =
    next
      (next
        (next here (
          writes (codes "query") false
            (write 5 _ query_queued (λ e. omega arith) refl (omega arith) refl)))
        (writes (codes "command") true
          (write 6 _ command_queued (λ e. omega arith) refl (omega arith) refl)))
      (called
        (callback (acts_of (ws_callback 16 client_writeable command_queued)) command_sent refl))

ws_refines_example :
    (session.sent ≡ (after_log session.log).sent)
    × Holds session.queue (after_log session.log).pending
    × ((acts : List Action) × (q : Queue EbWsMsg) × (ws_callback 16 client_writeable session.queue
          ≡ some (acts, q)))
ws_refines_example = ws_refines 16 session-Reach

ws_lanes_example :
    (l : Lanes) × (l ≡ lanes session.log)
    × Holds session.queue (l.commands ++ l.queries)
    × (l.sent_queries ++ l.queries ≡ written false session.log)
    × Perm (l.sent_commands ++ l.commands) (written true session.log)
    × Perm session.sent (l.sent_commands ++ l.sent_queries)
ws_lanes_example = ws_lanes 16 session-Reach

-- Two commands are written with priority, "on" and then "off", and two callbacks come.
on_queued : Queue EbWsMsg
unfolding eb_ws_write eb_ws_msg_en_q link_head
on_queued = queue_of (eb_ws_write (some 5) true (codes "on") 2 true begin.queue)

off_queued : Queue EbWsMsg
unfolding on_queued
off_queued = queue_of (eb_ws_write (some 6) true (codes "off") 3 true on_queued)

off_sent : Queue EbWsMsg
unfolding off_queued ws_callback writeable eb_ws_msg_de_q take_head
off_sent = queue_of (ws_callback 16 client_writeable off_queued)

on_sent : Queue EbWsMsg
unfolding off_sent release
on_sent = queue_of (ws_callback 16 client_writeable off_sent)

abbrev overtaken : Session
overtaken = record {
  queue = on_sent;
  log = called_back ∷ called_back ∷ wrote true (codes "off") ∷ wrote true (codes "on") ∷ [];
  sent = codes "off" ∷ codes "on" ∷ [];
}

overtaken-Reach : Reach 16 overtaken
unfolding on_sent
overtaken-Reach =
    next
      (next
        (next
          (next here (
            writes (codes "on") true
              (write 5 _ on_queued (λ e. omega arith) refl (omega arith) refl)))
          (writes (codes "off") true
            (write 6 _ off_queued (λ e. omega arith) refl (omega arith) refl)))
        (called (callback (acts_of (ws_callback 16 client_writeable off_queued)) off_sent refl)))
      (called (callback (acts_of (ws_callback 16 client_writeable off_sent)) on_sent refl))

later_sent_first_example :
    overtaken.sent
    ≡ (after_log []).sent ++ (reverse (codes "off" ∷ []) ++ reverse (codes "on" ∷ []))
later_sent_first_example =
    later_sent_first 16 overtaken-Reach (codes "on" ∷ []) (codes "off" ∷ []) [] refl

-- A callback comes between the writing of "on" and that of "off", and one behind.
first_sent : Queue EbWsMsg
unfolding on_queued ws_callback writeable eb_ws_msg_de_q take_head
first_sent = queue_of (ws_callback 16 client_writeable on_queued)

second_queued : Queue EbWsMsg
unfolding first_sent release
second_queued = queue_of (eb_ws_write (some 6) true (codes "off") 3 true first_sent)

second_sent : Queue EbWsMsg
unfolding second_queued
second_sent = queue_of (ws_callback 16 client_writeable second_queued)

abbrev interrupted : Session
interrupted = record {
  queue = second_sent;
  log = called_back ∷ wrote true (codes "off") ∷ called_back ∷ wrote true (codes "on") ∷ [];
  sent = codes "on" ∷ codes "off" ∷ [];
}

interrupted-Reach : Reach 16 interrupted
unfolding second_sent
interrupted-Reach =
    next
      (next
        (next
          (next here (
            writes (codes "on") true
              (write 5 _ on_queued (λ e. omega arith) refl (omega arith) refl)))
          (called (callback (acts_of (ws_callback 16 client_writeable on_queued)) first_sent refl)))
        (writes (codes "off") true
          (write 6 _ second_queued (λ e. omega arith) refl (omega arith) refl)))
      (called (callback (acts_of (ws_callback 16 client_writeable second_queued)) second_sent refl))

interrupted_burst_example :
    interrupted.sent
    ≡ (after_log []).sent ++ codes "on" ∷ (reverse (codes "off" ∷ []) ++ reverse [])
interrupted_burst_example =
    interrupted_burst 16 interrupted-Reach [] (codes "off" ∷ []) (codes "on") [] refl

-- The query waits, a command goes in front of it, and two callbacks send both.
abbrev query_session : Session
query_session = record { queue = query_queued; log = wrote false (codes "query") ∷ []; sent = [] }

query_session-Reach : Reach 16 query_session
unfolding query_queued
query_session-Reach = next here (
    writes (codes "query") false
      (write 5 _ query_queued (λ e. omega arith) refl (omega arith) refl))

both_sent : Queue EbWsMsg
unfolding command_sent
both_sent = queue_of (ws_callback 16 client_writeable command_sent)

abbrev both_session : Session
both_session = record {
  queue = both_sent;
  log = called_back ∷ session.log;
  sent = codes "command" ∷ codes "query" ∷ [];
}

both_session-Reach : Reach 16 both_session
unfolding both_sent
both_session-Reach =
    next session-Reach
      (called (callback (acts_of (ws_callback 16 client_writeable command_sent)) both_sent refl))

waiting_are_sent_example :
    Holds query_session.queue (codes "query" ∷ [])
    × ((rest : List Text) × Perm
          (codes "command" ∷ codes "query" ∷ [])
          ([] ++ ((codes "query" ∷ []) ++ rest)))
unfolding after_log
waiting_are_sent_example =
    waiting_are_sent 16 (called_back ∷ called_back ∷ wrote true (codes "command") ∷ [])
      query_session-Reach both_session-Reach refl (omega arith)
