-- ===== src/HubQueue/Examples.antt =====
-- The theorems on the hub's queue at concrete histories.
use edgebox.Prelude.{
  ◌≡◌, ◌+◌, ◌*◌, length, refl, ◌++◌, true, Option, none, some, List, [], ◌∷◌, arith,
}
use edgebox.Prelude.Text.{Text, codes}
use edgebox.Memory.{link_tail, set_next, take_head, release}
use edgebox.HubQueue.Logged.{logged_when_freed}
use edgebox.HubQueue.{
  Hub, logged, start, iothub_msg_en_q, iot_msg_handler_step, handle_msg_from_iot_hub,
}
use edgebox.HubQueue.Fairness.{Later, stay, handled, handler_comes_on}
use edgebox.HubQueue.Drain.{History, Reach, here, next, called, arrive, handle, run_handler}

-- A message arrives at address 7, another at address 9; the thread has made one step between them.
abbrev hub_or_start : Option Hub → Hub
hub_or_start none = start
hub_or_start (some s) = s

one_arrived : Hub
unfolding handle_msg_from_iot_hub iothub_msg_en_q link_tail
one_arrived = hub_or_start (handle_msg_from_iot_hub (some 7) true (codes "a") start)

abbrev stepped : Option (Option Text × Hub) → Hub
stepped none = start
stepped (some (_, s)) = s

looked : Hub
unfolding one_arrived iot_msg_handler_step
looked = stepped (iot_msg_handler_step one_arrived)

two_arrived : Hub
unfolding looked set_next
two_arrived = hub_or_start (handle_msg_from_iot_hub (some 9) true (codes "bc") looked)

abbrev two_messages : History
two_messages = record { hub = two_arrived; arrived = codes "a" ∷ codes "bc" ∷ []; handled = [] }

two_messages-Reach : Reach two_messages
unfolding two_arrived
two_messages-Reach =
    next
      (next (next here (called (arrive 7 (codes "a") one_arrived (λ e. omega arith) refl refl)))
        (handle none looked refl))
      (called (arrive 9 (codes "bc") two_arrived (λ e. omega arith) refl refl))

-- Eight steps hand over both.
both_handled : (t : Hub) × (run_handler 8 two_arrived ≡ some (codes "a" ∷ codes "bc" ∷ [], t))
unfolding two_arrived run_handler take_head
both_handled = (_, refl)

-- The thread makes four steps, and the second message comes behind the first one of them.
taken : Hub
unfolding two_arrived take_head
taken = stepped (iot_msg_handler_step two_arrived)

processed : Hub
unfolding taken
processed = stepped (iot_msg_handler_step taken)

freed : Hub
unfolding processed release
freed = stepped (iot_msg_handler_step processed)

abbrev one_message : History
one_message = record { hub = one_arrived; arrived = codes "a" ∷ []; handled = [] }

one_message-Reach : Reach one_message
unfolding one_arrived
one_message-Reach =
    next here (called (arrive 7 (codes "a") one_arrived (λ e. omega arith) refl refl))

abbrev one_handled : History
one_handled = record {
  hub = freed;
  arrived = codes "a" ∷ codes "bc" ∷ [];
  handled = codes "a" ∷ [];
}

one_handled-Later : Later one_message 4 one_handled
unfolding freed
one_handled-Later =
    handled none freed
      (handled (some (codes "a")) processed
        (handled none taken
          (Later.called (handled none looked stay refl)
            (arrive 9 (codes "bc") two_arrived (λ e. omega arith) refl refl))
          refl)
        refl)
      refl

handler_comes_on_example :
    (rest : List Text) × (one_handled.handled ≡ ([] ++ codes "a" ∷ []) ++ rest)
handler_comes_on_example =
    handler_comes_on (codes "a" ∷ []) [] one_message-Reach refl one_handled-Later (omega arith)

-- The message at address 7 is handled and freed before the callback logs it.
logged_when_freed_example :
    (logged 7 one_arrived.queue ≡ some (codes "a"))
    × ((pending : List Text) × (t : Hub) × ([] ++ codes "a" ∷ [] ≡ [] ++ pending)
        × (run_handler (4 * length pending + 1) one_arrived ≡ some (pending, t))
        × (logged 7 t.queue ≡ none))
unfolding one_arrived
logged_when_freed_example =
    logged_when_freed 7 (codes "a") one_arrived here (λ e. omega arith) refl refl
