-- ===== src/WsQueue/Wakeup/Examples.antt =====
-- A command is queued while the callback has a query in hand: who will see it.
use edgebox.Prelude.{
  ◌≡◌, refl, true, false, Option, none, some, List, [], arith, ◌∷◌, ◌++◌, ◌*◌, length,
}
use edgebox.Prelude.Text.{codes}
use edgebox.Memory.{release, Ptr, Queue, write, link_tail, take_head}
use edgebox.WsQueue.{
  lws_write, poll_wait, callback_on_writable, send_node, EbWsMsg, Action, eb_ws_msg_en_q,
  eb_ws_msg_de_q, link_head, link_back,
}
use edgebox.WsQueue.Wakeup.{
  WsThread, Socket, begin, writeable_step, queued, asked, established, called, goes_on, Reach, here,
  next,
}
use edgebox.WsQueue.Wakeup.Asks.{WillSee}
use edgebox.WsQueue.Wakeup.Reply.{Answered, next_frame_comes}
use edgebox.WsQueue.Wakeup.Seen.{text_of, steps_refine, waiting_is_seen}
use edgebox.WsQueue.Wakeup.Told.{shown_all, log_of, sent_of}
use edgebox.WsQueue.Refinement.{after_log, frames}
use edgebox.WsQueue.Wakeup.Pace.{IsPaced, waited, actions_of, frames_apart}
use edgebox.Memory.Linked.{IsQueue}

abbrev queue_of : Option (Queue EbWsMsg) → Queue EbWsMsg
queue_of none = begin.thread.queue
queue_of (some q) = q

abbrev thread_of : Option (List Action × WsThread) → WsThread
thread_of none = begin.thread
thread_of (some (_, s)) = s

-- The connection is up, and a query is queued at address 7.
abbrev query_queued : Queue EbWsMsg
query_queued = queue_of (eb_ws_msg_en_q (some 7) true (codes "ask") 3 false begin.thread.queue)

abbrev with_query : WsThread
with_query = record begin.thread { queue = query_queued }

abbrev looked : WsThread
looked = thread_of (writeable_step 16 with_query)

abbrev in_hand : WsThread
in_hand = thread_of (writeable_step 16 looked)

-- The command comes to address 9.
abbrev command_queued : Queue EbWsMsg
command_queued = queue_of (eb_ws_msg_en_q (some 9) true (codes "on") 2 true in_hand.queue)

abbrev with_command : Socket
with_command = record {
  thread = record in_hand { queue = command_queued };
  established = true;
  requested = true;
  asking = 1;
}

before_command :
    Reach 16 (record { thread = in_hand; established = true; requested = true; asking = 0 })
unfolding eb_ws_msg_en_q eb_ws_msg_de_q link_back link_tail write take_head writeable_step
before_command =
    next
      (next
        (next
          (next (next here (established refl)) (
            queued (some 7) true (codes "ask") 3 false query_queued ((λ e. omega arith), refl)
              (omega arith) refl))
          (called [] looked refl refl refl))
        (goes_on [] in_hand (λ e. cc) refl))
      (asked 0 refl)

command_queued-Reach : Reach 16 with_command
unfolding eb_ws_msg_en_q eb_ws_msg_de_q link_back link_tail write take_head writeable_step link_head
command_queued-Reach = next before_command (
    queued (some 9) true (codes "on") 2 true command_queued ((λ e. omega arith), refl) (omega arith)
      refl)

command_seen : WillSee with_command
unfolding eb_ws_msg_en_q eb_ws_msg_de_q link_back link_tail write take_head writeable_step link_head
command_seen = waiting_is_seen command_queued-Reach refl (λ e. omega arith)

next_frame_comes_example : Answered 16 with_command
unfolding eb_ws_msg_en_q eb_ws_msg_de_q link_back link_tail write take_head writeable_step link_head
next_frame_comes_example = next_frame_comes command_queued-Reach refl (λ e. omega arith)

-- The query is in hand, the command waits, and nothing is written yet.
query_in_hand : text_of with_command.thread.place with_command.thread ≡ codes "ask" ∷ []
unfolding eb_ws_msg_en_q eb_ws_msg_de_q link_back link_tail write take_head writeable_step link_head
query_in_hand = refl

steps_refine_example :
    (sent_of command_queued-Reach ++ text_of with_command.thread.place with_command.thread
      ≡ (after_log (log_of command_queued-Reach)).sent)
    × ((cs : List (Ptr × EbWsMsg)) × IsQueue with_command.thread.queue cs
        × (shown_all cs ≡ (after_log (log_of command_queued-Reach)).pending))
    × ((acts : List Action) × (s : WsThread) × (writeable_step 16 with_command.thread
          ≡ some (acts, s)))
steps_refine_example = steps_refine command_queued-Reach

-- The callback writes the query, and waits.
query_written : WsThread
unfolding writeable_step eb_ws_msg_en_q eb_ws_msg_de_q link_back link_tail write take_head link_head
    send_node release
query_written = thread_of (writeable_step 16 with_command.thread)

query_written-Reach : Reach 16 (record with_command { thread = query_written })
unfolding query_written
query_written-Reach = next command_queued-Reach (
    goes_on (lws_write (codes "ask") ∷ poll_wait 3500 ∷ callback_on_writable ∷ []) query_written
      (λ e. cc) refl)

frames_apart_example :
    IsPaced (actions_of query_written-Reach)
    × (frames (actions_of query_written-Reach) ≡ sent_of query_written-Reach)
    × (waited (actions_of query_written-Reach) ≡ 3500 * length (sent_of query_written-Reach))
frames_apart_example = frames_apart query_written-Reach
