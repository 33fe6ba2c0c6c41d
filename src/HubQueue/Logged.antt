-- ===== src/HubQueue/Logged.antt =====
-- src/mqtt.c: what the callback logs when it has queued a message.
use edgebox.Prelude.{◌≡◌, ◌≢◌, refl, true, none, some, List, [], ◌∷◌, ◌++◌, length, ◌+◌, ◌*◌}
use edgebox.Prelude.Text.{Text}
use edgebox.Memory.{Ptr, null, Heap}
use edgebox.Memory.Linked.{Linked}
use edgebox.HubQueue.{Hub, logged, handle_msg_from_iot_hub}
use edgebox.HubQueue.Pending.{Holds, iothub_msg_en_q-snoc}
use edgebox.HubQueue.Drain.{
  History, Reach, next, called, arrive, run_handler, Reach-IsOrdered, hub_drains,
}

last-Linked :
    (h : Heap Text) (cs : List (Ptr × Text)) (p : Ptr) (msg : Text)
    → Linked h (cs ++ (p, msg) ∷ [])
    → h p ≡ some (record { payload = msg; next = null })
last-Linked h [] p msg l = l.1
last-Linked h (c ∷ cs) p msg l = last-Linked h cs p msg l.3

logged-arrive :
    (s s' : Hub) (pending : List Text) (p : Ptr) (msg : Text)
    → Holds s pending
    → p ≢ null
    → s.queue.heap p ≡ none
    → handle_msg_from_iot_hub (some p) true msg s ≡ some s'
    → logged p s'.queue ≡ some msg
unfolding logged handle_msg_from_iot_hub
logged-arrive s s' pending p msg (cs, v, h) ne free e =
    let (q, queued, w, _) = iothub_msg_en_q-snoc s.queue cs p msg v ne free in
    let same : record s { queue = q } ≡ s' = cc (rw (queued, handle_msg_from_iot_hub) at e) in
    rw (← same) (rw (last-Linked q.heap cs p msg w.chain, logged) refl)

-- A message arrives in any history. If the callback logs it before the thread goes on, it logs the text
-- that arrived. But the mutex is not held there: once the thread has handled what is pending, the new
-- message last, its node is freed, and the callback that logs it then reads freed memory.
pub logged_when_freed :
    {w : History} (p : Ptr) (msg : Text) (s : Hub)
    → Reach w
    → p ≢ null
    → w.hub.queue.heap p ≡ none
    → handle_msg_from_iot_hub (some p) true msg w.hub ≡ some s
    → (logged p s.queue ≡ some msg)
      × ((pending : List Text) × (t : Hub) × (w.arrived ++ msg ∷ [] ≡ w.handled ++ pending)
          × (run_handler (4 * length pending + 1) s ≡ some (pending, t))
          × (logged p t.queue ≡ none))
unfolding logged
logged_when_freed {w} p msg s r ne free e =
    let (before, h, _) = Reach-IsOrdered r in
    let (pending, split, (t, run, _, empty)) =
      hub_drains (next r (called (arrive p msg s ne free e))) in
    (
      logged-arrive w.hub s before p msg h ne free e,
      (pending, t, split, run, rw (empty p, logged) refl),
    )
