-- ===== src/HubQueue/Growth.antt =====
-- src/mqtt.c: what an arrival adds to the work of the handler thread.
use edgebox.Prelude.{
  ◌+◌, ◌*◌, ◌≤◌, ◌≡◌, refl, sym, ap, inl, inr, Bool, some, Option, List, [], ◌∷◌, ◌++◌, append-nil,
  length, length-append, Option-cases, arith,
}
use edgebox.Prelude.Text.{Text}
use edgebox.Memory.{Ptr}
use edgebox.HubQueue.{
  Place, testing, taking, holding, freeing, Hub, iothub_msg_en_q, handle_msg_from_iot_hub,
}
use edgebox.HubQueue.Pending.{
  Holds, handle_msg_from_iot_hub-Holds, handle_msg_from_iot_hub_no_node,
  handle_msg_from_iot_hub_no_buffer,
}
use edgebox.HubQueue.Order.{cost}
use edgebox.HubQueue.Drain.{History, Callback, arrive, no_node, no_buffer}

place-same :
    (node : Option Ptr) (buffer : Bool) (msg : Text) (s t : Hub)
    → handle_msg_from_iot_hub node buffer msg s ≡ some t
    → s.place ≡ t.place
unfolding handle_msg_from_iot_hub
place-same node buffer msg s t e =
    elim (Option-cases (iothub_msg_en_q node buffer msg (length msg) s.queue)) [
      | inl bad ↦ cc
      | inr (q, good) ↦ let same : record s { queue = q } ≡ t = cc in ap (λ x. x.place) same
    ]

-- What a call of the callback does to a hub that holds `pending`.
pub record Grows (w v : History) (pending : List Text) : Type 0 where
  pub new : List Text
  pub holds : Holds v.hub (pending ++ new)
  pub arrived : v.arrived ≡ w.arrived ++ new
  pub same : v.handled ≡ w.handled
  pub place : w.hub.place ≡ v.hub.place

pub Callback-Grows :
    {w v : History} (pending : List Text) → Callback w v → Holds w.hub pending → Grows w v pending
Callback-Grows {w} pending (arrive p msg s ne free e) h =
    let (s', e', h') = handle_msg_from_iot_hub-Holds w.hub pending p msg h ne free in
    let same : s' ≡ s = cc (e, e') in
    record {
      new = msg ∷ [];
      holds = rw (← same) h';
      arrived = refl;
      same = refl;
      place = place-same (some p) _ msg w.hub s e;
    }
Callback-Grows {w} pending (no_node buffer msg s e) h =
    let same : w.hub ≡ s = cc (e, handle_msg_from_iot_hub_no_node w.hub buffer msg) in
    record {
      new = [];
      holds = rw (append-nil pending, ← same) h;
      arrived = sym (append-nil w.arrived);
      same = refl;
      place = ap (λ x. x.place) same;
    }
Callback-Grows {w} pending (no_buffer p msg s free e) h =
    let same : w.hub ≡ s = cc (e, handle_msg_from_iot_hub_no_buffer w.hub p msg free) in
    record {
      new = [];
      holds = rw (append-nil pending, ← same) h;
      arrived = sym (append-nil w.arrived);
      same = refl;
      place = ap (λ x. x.place) same;
    }

-- The cost grows by four at most for each new message.
pub cost-append : (w : Place) (xs ys : List Text) → cost w (xs ++ ys) ≤ cost w xs + 4 * length ys
cost-append testing xs ys = omega (arith, length-append xs ys)
cost-append taking xs ys = omega (arith, length-append xs ys)
cost-append holding xs ys = omega (arith, length-append xs ys)
cost-append freeing xs ys = omega (arith, length-append xs ys)

pub cost-ge : (w : Place) (pending : List Text) → 4 * length pending ≤ cost w pending + 2
cost-ge testing pending = omega arith
cost-ge taking pending = omega arith
cost-ge holding pending = omega arith
cost-ge freeing pending = omega arith

pub prefix_of_length :
    (xs ys as' bs : List Text)
    → xs ++ ys ≡ as' ++ bs
    → length as' ≤ length xs
    → (rest : List Text) × (xs ≡ as' ++ rest)
prefix_of_length xs ys [] bs e le = (xs, refl)
prefix_of_length [] ys (a ∷ as') bs e le = absurd (omega arith)
prefix_of_length (x ∷ xs) ys (a ∷ as') bs e le =
    let same : x ≡ a = cc in
    let (rest, eq) = prefix_of_length xs ys as' bs (cc) (omega arith) in (rest, cc (same, eq))
