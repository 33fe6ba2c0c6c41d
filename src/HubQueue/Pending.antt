-- ===== src/HubQueue/Pending.antt =====
-- src/mqtt.c: the messages that wait in the queue or are in hand, and what an arrival does to them.
use edgebox.Prelude.{
  ◌≡◌, refl, sym, ap, ◌∙◌, ◌≢◌, Bool, true, false, none, some, List, [], ◌∷◌, ◌++◌, take-length,
  length, arith,
}
use mathlib.Core.Path.{fun_ext}
use edgebox.Prelude.Text.{Text}
use edgebox.Memory.{Ptr, null, Heap, Queue, write, link_tail, release}
use edgebox.Memory.Linked.{
  has, SameOutside, IsQueue, has-snoc, contents, contents-snoc, has_of_none, Linked-write,
}
use edgebox.Memory.Leaks.{NoLeak, snoc-NoLeak}
use edgebox.Memory.Pointers.{link_tail-snoc}
use edgebox.HubQueue.{
  iothub_msg_en_q, Place, testing, taking, holding, freeing, Hub, handle_msg_from_iot_hub, start,
}

-- With memory, the queue gains exactly the new message, at its end.
pub iothub_msg_en_q-snoc :
    (q : Queue Text) (cs : List (Ptr × Text)) (p : Ptr) (msg : Text)
    → IsQueue q cs
    → p ≢ null
    → q.heap p ≡ none
    → (q' : Queue Text) × (iothub_msg_en_q (some p) true msg (length msg) q ≡ some q')
      × IsQueue q' (cs ++ (p, msg) ∷ [])
      × SameOutside ((p, msg) ∷ cs) q.heap q'.heap
unfolding iothub_msg_en_q write
iothub_msg_en_q-snoc q cs p msg v ne free =
    let (q', e, w, same) = snoc in
    (q', rw (take-length msg) e, w, λ x o. same x (ground arith) ∙ ground arith)
  where
    r : Queue Text
    r = record q { heap = write q.heap p (some (record { payload = msg; next = null })) }

    out : has p cs ≡ false
    out = has_of_none q.heap p cs v.chain free

    snoc :
        (q' : Queue Text) × (link_tail p r ≡ some q')
        × IsQueue q' (cs ++ (p, msg) ∷ [])
        × SameOutside cs r.heap q'.heap
    snoc =
        link_tail-snoc r p msg cs
          (record { head = v.head; tail = v.tail; chain = Linked-write q.heap p _ cs v.chain out })
          ne (ground arith) out

-- What the thread holds, in front of what is queued; memory has no other node.
abbrev pub InHand : Place → Hub → List (Ptr × Text) → List Text → Type 0
InHand testing s cs pending = NoLeak s.queue.heap cs × (pending ≡ contents cs)
InHand taking s cs pending = (cs ≢ []) × NoLeak s.queue.heap cs × (pending ≡ contents cs)
InHand holding s cs pending =
    (m : Text) × (next : Ptr) × (s.queue.heap s.node_ptr
      ≡ some (record { payload = m; next = next }))
    × (has s.node_ptr cs ≡ false)
    × NoLeak s.queue.heap ((s.node_ptr, m) ∷ cs)
    × (pending ≡ m ∷ contents cs)
InHand freeing s cs pending =
    (m : Text) × (next : Ptr) × (s.queue.heap s.node_ptr
      ≡ some (record { payload = m; next = next }))
    × (has s.node_ptr cs ≡ false)
    × NoLeak s.queue.heap ((s.node_ptr, m) ∷ cs)
    × (pending ≡ contents cs)

-- The pointers are those of a queue, `pending` is what has arrived and is not handled yet, and
-- memory has a node for each pending message, for one that is processed, and no other.
abbrev pub Holds : Hub → List Text → Type 0
Holds s pending = (cs : List (Ptr × Text)) × IsQueue s.queue cs × InHand s.place s cs pending

pub start-Holds : Holds start []
start-Holds = ([], record { head = refl; tail = refl; chain = tt }, ((λ x o. refl), refl))

-- With nothing pending and none processed, memory has no node.
pub Holds-empty : (s : Hub) → Holds s [] → s.place ≢ freeing → (p : Ptr) → s.queue.heap p ≡ none
Holds-empty s (cs, v, h) ne p = at s.place ne h
  where
    none_left :
        (ds : List (Ptr × Text)) → NoLeak s.queue.heap ds → [] ≡ contents ds → s.queue.heap p ≡ none
    none_left [] f e = f p refl
    none_left (d ∷ ds) f e = cc

    at : (w : Place) → w ≢ freeing → InHand w s cs [] → s.queue.heap p ≡ none
    at testing away (f, e) = none_left cs f e
    at taking away (ne, f, e) = none_left cs f e
    at holding away (m, next, hold, out, f, e) = cc
    at freeing away h = absurd (away refl)

snoc-ne-nil : (cs : List (Ptr × Text)) (c : Ptr × Text) → cs ++ c ∷ [] ≢ []
snoc-ne-nil [] c e = cc
snoc-ne-nil (x ∷ cs) c e = cc

-- The node in hand stays as it is.
node-arrive :
    (s : Hub) (q : Queue Text) (cs : List (Ptr × Text)) (p : Ptr) (msg m : Text) (next : Ptr)
    → s.queue.heap s.node_ptr ≡ some (record { payload = m; next = next })
    → has s.node_ptr cs ≡ false
    → NoLeak s.queue.heap ((s.node_ptr, m) ∷ cs)
    → s.queue.heap p ≡ none
    → SameOutside ((p, msg) ∷ cs) s.queue.heap q.heap
    → (q.heap s.node_ptr ≡ some (record { payload = m; next = next }))
      × (has s.node_ptr (cs ++ (p, msg) ∷ []) ≡ false)
      × NoLeak q.heap ((s.node_ptr, m) ∷ (cs ++ (p, msg) ∷ []))
node-arrive s q cs p msg m next hold out f free same = (
  same s.node_ptr (ground (arith, apart)) ∙ hold,
  has-snoc s.node_ptr p msg cs out apart,
  snoc-NoLeak s.queue.heap q.heap p msg ((s.node_ptr, m) ∷ cs) (λ x o. same x (ground arith)) f,
)
  where
    apart : s.node_ptr ≢ p
    apart e = cc (sym hold ∙ ap s.queue.heap e ∙ free)

InHand-arrive :
    (s : Hub) (q : Queue Text) (w : Place) (cs : List (Ptr × Text)) (pending : List Text) (p : Ptr)
    (msg : Text)
    → InHand w s cs pending
    → s.queue.heap p ≡ none
    → SameOutside ((p, msg) ∷ cs) s.queue.heap q.heap
    → InHand w (record s { queue = q }) (cs ++ (p, msg) ∷ []) (pending ++ msg ∷ [])
InHand-arrive s q testing cs pending p msg (f, h) free same =
    (snoc-NoLeak s.queue.heap q.heap p msg cs same f, rw h (sym (contents-snoc cs p msg)))
InHand-arrive s q taking cs pending p msg (ne, f, h) free same = (
  snoc-ne-nil cs (p, msg),
  snoc-NoLeak s.queue.heap q.heap p msg cs same f,
  rw h (sym (contents-snoc cs p msg)),
)
InHand-arrive s q holding cs pending p msg (m, next, hold, out, f, h) free same =
    let (hold', out', f') = node-arrive s q cs p msg m next hold out f free same in
    (m, next, hold', out', f', rw h (ap (λ ys. m ∷ ys) (sym (contents-snoc cs p msg))))
InHand-arrive s q freeing cs pending p msg (m, next, hold, out, f, h) free same =
    let (hold', out', f') = node-arrive s q cs p msg m next hold out f free same in
    (m, next, hold', out', f', rw h (sym (contents-snoc cs p msg)))

-- A message that arrives with memory at hand goes behind all that is pending.
pub handle_msg_from_iot_hub-Holds :
    (s : Hub) (pending : List Text) (p : Ptr) (msg : Text)
    → Holds s pending
    → p ≢ null
    → s.queue.heap p ≡ none
    → (s' : Hub) × (handle_msg_from_iot_hub (some p) true msg s ≡ some s')
      × Holds s' (pending ++ msg ∷ [])
unfolding handle_msg_from_iot_hub
handle_msg_from_iot_hub-Holds s pending p msg (cs, v, h) ne free =
    let (q, e, w, same) = iothub_msg_en_q-snoc s.queue cs p msg v ne free in
    (
      record s { queue = q },
      rw (e, handle_msg_from_iot_hub),
      (cs ++ (p, msg) ∷ [], w, InHand-arrive s q s.place cs pending p msg h free same),
    )

-- Without memory for the node, or for the copy of the text, nothing changes.
pub handle_msg_from_iot_hub_no_node :
    (s : Hub) (buffer : Bool) (msg : Text) → handle_msg_from_iot_hub none buffer msg s ≡ some s
unfolding handle_msg_from_iot_hub iothub_msg_en_q
handle_msg_from_iot_hub_no_node s buffer msg = refl

pub handle_msg_from_iot_hub_no_buffer :
    (s : Hub) (p : Ptr) (msg : Text)
    → s.queue.heap p ≡ none
    → handle_msg_from_iot_hub (some p) false msg s ≡ some s
unfolding handle_msg_from_iot_hub iothub_msg_en_q release write
handle_msg_from_iot_hub_no_buffer s p msg free =
    ap (λ (h : Heap Text). some (record s { queue = record s.queue { heap = h } }))
      (fun_ext (λ x. ground arith))
