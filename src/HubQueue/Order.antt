-- ===== src/HubQueue/Order.antt =====
-- src/mqtt.c: what a step of the handler thread does to the messages that wait.
use edgebox.Prelude.{
  ℕ, suc, ◌+◌, ◌-◌, ◌*◌, ◌⊎◌, inl, inr, ◌≡◌, refl, sym, ap, ◌∙◌, ◌≢◌, Option, none, some, List, [],
  ◌∷◌, ◌++◌, length, arith, ==_ne,
}
use edgebox.Prelude.Text.{Text}
use edgebox.Memory.{Ptr, null, Heap, release}
use edgebox.Memory.Linked.{first, IsQueue, contents, release-IsQueue}
use edgebox.Memory.Leaks.{NoLeak, release-NoLeak}
use edgebox.Memory.Pointers.{take_head-cons}
use edgebox.HubQueue.{
  iothub_msg_de_q, Place, testing, taking, holding, freeing, Hub, handler_at, iot_msg_handler_step,
}
use edgebox.HubQueue.Pending.{InHand, Holds}

abbrev pub emitted : Option Text → List Text
emitted none = []
emitted (some m) = m ∷ []

-- The steps that the thread takes until all that is pending is handed over and freed.
abbrev pub cost : Place → List Text → ℕ
cost testing pending = 4 * length pending
cost taking pending = 4 * length pending - 1
cost holding pending = 4 * length pending - 2
cost freeing pending = 4 * length pending + 1

-- A step of the thread on a hub that holds `pending`: it is no fault, and hands over the first
-- message or none.
abbrev Steps : Place → Option (Option Text × Hub) → List Text → Type 0
Steps w r pending =
    (out : Option Text) × (s' : Hub) × (rest : List Text) × (r ≡ some (out, s'))
    × (pending ≡ emitted out ++ rest)
    × Holds s' rest
    × ((cost s'.place rest ≡ 0) ⊎ (suc (cost s'.place rest) ≡ cost w pending))

testing-Steps :
    (s : Hub) (cs : List (Ptr × Text)) (pending : List Text)
    → s.place ≡ testing
    → IsQueue s.queue cs
    → NoLeak s.queue.heap cs
    → pending ≡ contents cs
    → Steps testing (handler_at testing s) pending
unfolding handler_at
testing-Steps s [] pending e v f h =
    (none, s, pending, rw v.head, refl, ([], v, rw e (f, h)), inl (rw (e, h)))
testing-Steps s ((p, a) ∷ cs) pending e v f h = (
  none,
  record s { place = taking },
  pending,
  rw (==_ne s.queue.head null (λ z. v.chain.0 (sym v.head ∙ z))),
  refl,
  ((p, a) ∷ cs, v, ((λ z. cc), f, h)),
  inr (rw h (omega arith)),
)

taking-Steps :
    (s : Hub) (cs : List (Ptr × Text)) (pending : List Text)
    → IsQueue s.queue cs
    → cs ≢ []
    → NoLeak s.queue.heap cs
    → pending ≡ contents cs
    → Steps taking (handler_at taking s) pending
unfolding handler_at iothub_msg_de_q
taking-Steps s [] pending v ne f h = absurd (ne refl)
taking-Steps s ((p, a) ∷ cs) pending v ne f h =
    let (q, e, w, same) = take_head-cons s.queue s.node_ptr p a cs v in
    (
      none,
      record { queue = q; place = holding; node_ptr = p },
      pending,
      rw (e, handler_at),
      refl,
      (
        cs,
        w,
        (
          a,
          first cs,
          ap (λ (g : Heap Text). g p) same ∙ v.chain.1,
          v.chain.2,
          λ x o. ap (λ (g : Heap Text). g x) same ∙ f x o,
          h,
        ),
      ),
      inr (rw h (omega arith)),
    )

holding-Steps :
    (s : Hub) (cs : List (Ptr × Text)) (pending : List Text)
    → IsQueue s.queue cs
    → InHand holding s cs pending
    → Steps holding (handler_at holding s) pending
unfolding handler_at
holding-Steps s cs pending v (m, next, hold, out, f, h) = (
  some m,
  record s { place = freeing },
  contents cs,
  rw (hold, handler_at),
  h,
  (cs, v, (m, next, hold, out, f, refl)),
  inr (rw h (omega arith)),
)

freeing-Steps :
    (s : Hub) (cs : List (Ptr × Text)) (pending : List Text)
    → IsQueue s.queue cs
    → InHand freeing s cs pending
    → Steps freeing (handler_at freeing s) pending
unfolding handler_at
freeing-Steps s cs pending v (m, next, hold, out, f, h) = (
  none,
  record s { queue = release s.queue s.node_ptr; place = testing },
  pending,
  rw (hold, handler_at),
  refl,
  (cs, release-IsQueue s.queue s.node_ptr cs v out, (release-NoLeak s.queue s.node_ptr m cs f, h)),
  inr (omega arith),
)

at-Steps :
    (w : Place) (s : Hub) (cs : List (Ptr × Text)) (pending : List Text)
    → s.place ≡ w
    → IsQueue s.queue cs
    → InHand w s cs pending
    → Steps w (handler_at w s) pending
at-Steps testing s cs pending e v (f, h) = testing-Steps s cs pending e v f h
at-Steps taking s cs pending e v (ne, f, h) = taking-Steps s cs pending v ne f h
at-Steps holding s cs pending e v h = holding-Steps s cs pending v h
at-Steps freeing s cs pending e v h = freeing-Steps s cs pending v h

-- The thread never faults; it hands over the messages from the first on, each in four steps.
pub iot_msg_handler_step-Holds :
    (s : Hub) (pending : List Text)
    → Holds s pending
    → (out : Option Text) × (s' : Hub) × (rest : List Text) × (iot_msg_handler_step s
        ≡ some (out, s'))
      × (pending ≡ emitted out ++ rest)
      × Holds s' rest
      × ((cost s'.place rest ≡ 0) ⊎ (suc (cost s'.place rest) ≡ cost s.place pending))
unfolding iot_msg_handler_step
iot_msg_handler_step-Holds s pending (cs, v, h) = at-Steps s.place s cs pending refl v h
