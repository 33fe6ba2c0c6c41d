-- ===== src/HubQueue/Drain.antt =====
-- src/mqtt.c: histories of the callback and the handler thread together.
use edgebox.Prelude.{
  ℕ, zero, suc, ◌+◌, ◌*◌, ◌≤◌, ◌≡◌, refl, sym, ap, ◌∙◌, ◌≢◌, ◌⊎◌, inl, inr, Bool, true, false,
  Option, none, some, List, [], ◌∷◌, ◌++◌, append_assoc, length, arith,
}
use edgebox.Prelude.Text.{Text}
use edgebox.Memory.{Ptr, null}
use edgebox.HubQueue.{
  Place, testing, taking, holding, freeing, Hub, iot_msg_handler_step, handle_msg_from_iot_hub,
  start,
}
use edgebox.HubQueue.Pending.{
  Holds-empty, Holds, start-Holds, handle_msg_from_iot_hub-Holds, handle_msg_from_iot_hub_no_node,
  handle_msg_from_iot_hub_no_buffer,
}
use edgebox.HubQueue.Order.{cost, emitted, iot_msg_handler_step-Holds}

-- The hub, with all messages that arrived with memory at hand and all that were handled.
pub record History : Type 0 where
  pub hub : Hub
  pub arrived : List Text
  pub handled : List Text

abbrev pub begin : History
begin = record { hub = start; arrived = []; handled = [] }

-- The callback runs, with memory at hand or without.
pub data Callback (w : History) : History → Type 0 where
  arrive :
      (p : Ptr) (msg : Text) (s : Hub)
      → p ≢ null
      → w.hub.queue.heap p ≡ none
      → handle_msg_from_iot_hub (some p) true msg w.hub ≡ some s
      → Callback w (record w { hub = s; arrived = w.arrived ++ msg ∷ [] })
  no_node :
      (buffer : Bool) (msg : Text) (s : Hub)
      → handle_msg_from_iot_hub none buffer msg w.hub ≡ some s
      → Callback w (record w { hub = s })
  no_buffer :
      (p : Ptr) (msg : Text) (s : Hub)
      → w.hub.queue.heap p ≡ none
      → handle_msg_from_iot_hub (some p) false msg w.hub ≡ some s
      → Callback w (record w { hub = s })

-- The callback runs, or the thread makes a step.
pub data Step (w : History) : History → Type 0 where
  called : {v : History} → Callback w v → Step w v
  handle :
      (out : Option Text) (s : Hub)
      → iot_msg_handler_step w.hub ≡ some (out, s)
      → Step w (record w { hub = s; handled = w.handled ++ emitted out })

pub data Reach : History → Type 0 where
  here : Reach begin
  next : {w v : History} → Reach w → Step w v → Reach v

-- What arrived is what was handled and what the hub holds.
abbrev pub IsOrdered : History → Type 0
IsOrdered w = (pending : List Text) × Holds w.hub pending × (w.arrived ≡ w.handled ++ pending)

some_injective : {A : Type 0} {x y : A} → some x ≡ some y → x ≡ y
some_injective e = cc

Callback-IsOrdered : {w v : History} → Callback w v → IsOrdered w → IsOrdered v
Callback-IsOrdered {w} (arrive p msg s ne free e) (pending, h, eq) =
    let (s', e', h') = handle_msg_from_iot_hub-Holds w.hub pending p msg h ne free in
    let same : s' ≡ s = cc (e, e') in
    (
      pending ++ msg ∷ [],
      rw (← same) h',
      ap (λ xs. xs ++ msg ∷ []) eq ∙ append_assoc w.handled pending (msg ∷ []),
    )
Callback-IsOrdered {w} (no_node buffer msg s e) (pending, h, eq) =
    let same : w.hub ≡ s = cc (e, handle_msg_from_iot_hub_no_node w.hub buffer msg) in
    (pending, rw (← same) h, eq)
Callback-IsOrdered {w} (no_buffer p msg s free e) (pending, h, eq) =
    let same : w.hub ≡ s = cc (e, handle_msg_from_iot_hub_no_buffer w.hub p msg free) in
    (pending, rw (← same) h, eq)

Step-IsOrdered : {w v : History} → Step w v → IsOrdered w → IsOrdered v
Step-IsOrdered (called c) h = Callback-IsOrdered c h
Step-IsOrdered {w} (handle out s e) (pending, h, eq) =
    let (out', s', rest, e', split, h', _) = iot_msg_handler_step-Holds w.hub pending h in
    let same : s' ≡ s = cc (e, e') in
    let same_out : out' ≡ out = cc (e, e') in
    (
      rest,
      rw (← same) h',
      eq
          ∙ ap (λ xs. w.handled ++ xs) (rw (← same_out) split)
          ∙ sym (append_assoc w.handled (emitted out) rest),
    )

pub Reach-IsOrdered : {w : History} → Reach w → IsOrdered w
Reach-IsOrdered here = ([], start-Holds, refl)
Reach-IsOrdered (next r st) = Step-IsOrdered st (Reach-IsOrdered r)

-- In every history of arrivals, of calls that find no memory and of steps of the handler thread,
-- interleaved in any way, the messages handled are the first of those that arrived, each once and
-- in order; and the thread's next step is no fault.
pub hub_order :
    {w : History}
    → Reach w
    → ((pending : List Text) × (w.arrived ≡ w.handled ++ pending))
      × ((out : Option Text) × (s : Hub) × (iot_msg_handler_step w.hub ≡ some (out, s)))
hub_order {w} r =
    let (pending, h, eq) = Reach-IsOrdered r in
    let (out, s, _, e, _, _, _) = iot_msg_handler_step-Holds w.hub pending h in
    ((pending, eq), (out, s, e))

-- `n` steps of the thread with no arrival between them, and what it hands over.
unfoldable pub run_handler : ℕ → Hub → Option (List Text × Hub)
run_handler zero s = some ([], s)
run_handler (suc n) s = elim (iot_msg_handler_step s) [
  | none ↦ none
  | some (out, s') ↦ elim (run_handler n s') [
    | none ↦ none
    | some (rest, t) ↦ some (emitted out ++ rest, t)
  ]
]

pub nil_of_cost : (w : Place) (pending : List Text) → cost w pending ≤ 0 → pending ≡ []
nil_of_cost w [] h = refl
nil_of_cost testing (x ∷ xs) h = absurd (omega arith)
nil_of_cost taking (x ∷ xs) h = absurd (omega arith)
nil_of_cost holding (x ∷ xs) h = absurd (omega arith)
nil_of_cost freeing (x ∷ xs) h = absurd (omega arith)

pub freed_of_cost : (w : Place) (pending : List Text) → cost w pending ≤ 0 → w ≢ freeing
freed_of_cost testing pending h e = cc
freed_of_cost taking pending h e = cc
freed_of_cost holding pending h e = cc
freed_of_cost freeing pending h e = absurd (omega arith)

pub cost-falls :
    (n : ℕ) (w v : Place) (pending rest : List Text)
    → cost w pending ≤ suc n
    → (cost v rest ≡ 0) ⊎ (suc (cost v rest) ≡ cost w pending)
    → cost v rest ≤ n
cost-falls n w v pending rest le (inl zero_left) = omega arith
cost-falls n w v pending rest le (inr falls) = omega arith

run_handler-Holds :
    (n : ℕ) (s : Hub) (pending : List Text)
    → Holds s pending
    → cost s.place pending ≤ n
    → (t : Hub) × (run_handler n s ≡ some (pending, t)) × Holds t [] × (t.place ≢ freeing)
unfolding run_handler
run_handler-Holds zero s pending h le =
    let empty : pending ≡ [] = nil_of_cost s.place pending le in
    (s, rw empty, rw empty at h, freed_of_cost s.place pending le)
run_handler-Holds (suc n) s pending h le =
    let (out, s', rest, e, split, h', falls) = iot_msg_handler_step-Holds s pending h in
    let (t, e', h'', freed) =
      run_handler-Holds n s' rest h' (cost-falls n s.place s'.place pending rest le falls) in
    (t, rw (e, run_handler, e', run_handler, split), h'', freed)

pub cost-le : (w : Place) (pending : List Text) → cost w pending ≤ 4 * length pending + 1
cost-le testing pending = omega arith
cost-le taking pending = omega arith
cost-le holding pending = omega arith
cost-le freeing pending = omega arith

-- From every state that a history reaches, four steps of the thread for each pending message and one
-- more, with no arrival between them, hand over all that has arrived, in order, and leave nothing
-- pending and no node in memory.
pub hub_drains :
    {w : History}
    → Reach w
    → (pending : List Text) × (w.arrived ≡ w.handled ++ pending)
      × ((t : Hub) × (run_handler (4 * length pending + 1) w.hub ≡ some (pending, t))
          × Holds t []
          × ((p : Ptr) → t.queue.heap p ≡ none))
hub_drains {w} r =
    let (pending, h, eq) = Reach-IsOrdered r in
    let (t, e, h', freed) =
      run_handler-Holds (4 * length pending + 1) w.hub pending h (cost-le w.hub.place pending) in
    (pending, eq, (t, e, h', Holds-empty t h' freed))
