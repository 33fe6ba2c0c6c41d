-- ===== src/Gateway/Order.antt =====
-- src/mqtt.c, src/wsclient.c: commands from their arrival at the hub to the websocket.
use mathlib.Core.List.{Perm}
use edgebox.Prelude.{
  ℕ, ◌≡◌, refl, sym, ap, ◌∙◌, Bool, true, false, Option, none, some, List, [], ◌∷◌, ◌++◌, map,
  append_assoc, append-nil,
}
use edgebox.Prelude.Text.{Text}
use edgebox.Prelude.Run.{ok}
use edgebox.Json.{CJson}
use edgebox.Memory.{Queue}
use edgebox.Switches.{Switches}
use edgebox.WsQueue.{EbWsMsg, client_receive, ws_callback, ws_receive_msg}
use edgebox.Uplink.{Config}
use edgebox.HubQueue.Order.{emitted}
use edgebox.HubQueue.Drain.{called, hub_order}
use edgebox.HubQueue.Drain
use edgebox.WsQueue.Refinement.{Session, Write, Op, wrote, called_back, writes}
use edgebox.WsQueue.Refinement
use edgebox.WsQueue.Pushes.{Holds}
use edgebox.WsQueue.Lanes.{Lanes, written, ws_lanes}
use edgebox.Downlink.{Send, Surroundings}
use edgebox.Gateway.Priority.{AllPriority, query-priority, handling-AllPriority}
use edgebox.Gateway.Stored.{
  stored_texts, stored_texts-snoc, written-command, written-query, written-called,
}
use edgebox.Gateway.{
  Attempt, Gateway, begin, is_stored, handling, Step, connects, received, handle, commanded,
  queried, writeable, reported, Reach, here, next,
}

Callback-handled : {h g : Drain.History} → Drain.Callback h g → g.handled ≡ h.handled
Callback-handled (Drain.arrive p msg s ne free e) = refl
Callback-handled (Drain.no_node buffer msg s e) = refl
Callback-handled (Drain.no_buffer p msg s free e) = refl

module _ (J : CJson) (switches : Switches) (config : Config) (lws_pre : ℕ) where
  -- The calls of `eb_ws_write` that the messages came to, message by message, each handled with some
  -- outcome of its allocations.
  pub data Produced : List Text → List Send → Type 0 where
    nothing : Produced [] []
    message :
        {ms : List Text} {commands : List Send} (found : ℕ → Bool) (env : Surroundings) (msg : Text)
        (sends : List Send)
        → Produced ms commands
        → handling J switches config lws_pre found env (some msg) ≡ ok sends
        → Produced (ms ++ msg ∷ []) (commands ++ sends)

  Produced-handling :
      {ms : List Text} {commands : List Send} (found : ℕ → Bool) (env : Surroundings)
      (out : Option Text) (sends : List Send)
      → Produced ms commands
      → handling J switches config lws_pre found env out ≡ ok sends
      → Produced (ms ++ emitted out) (commands ++ sends)
  unfolding handling
  Produced-handling {ms} {commands} found env none sends p e =
      let none_left : sends ≡ [] = cc in rw (none_left, append-nil ms, append-nil commands) p
  Produced-handling found env (some msg) sends p e = message found env msg sends p e

  pub record IsOrdered (w : Gateway) : Type 0 where
    pub hub : Drain.Reach w.hub
    pub session : Refinement.Reach lws_pre w.session
    produced : Produced w.hub.handled w.commands
    pub made : w.commands ≡ map (λ a. a.send) w.done ++ w.todo
    in_front : AllPriority w.todo
    kept : written true w.session.log ≡ stored_texts w.done

  map-snoc :
      (as' : List Attempt) (a : Attempt)
      → map (λ b. b.send) (as' ++ a ∷ []) ≡ map (λ b. b.send) as' ++ a.send ∷ []
  map-snoc [] a = refl
  map-snoc (b ∷ bs) a = ap (λ ss. b.send ∷ ss) (map-snoc bs a)

  unchanged :
      (q r : Queue EbWsMsg) (text : Text)
      → ws_callback lws_pre (client_receive text) q ≡ some (ws_receive_msg text ∷ [], r)
      → q ≡ r
  unfolding ws_callback
  unchanged q r text e = cc

  Step-IsOrdered :
      {topic : Text} {w v : Gateway}
      → Step J switches config lws_pre topic w v
      → IsOrdered w
      → IsOrdered v
  unfolding written
  Step-IsOrdered connects o = record {
    hub = o.hub;
    session = o.session;
    produced = o.produced;
    made = o.made;
    in_front = o.in_front;
    kept = o.kept;
  }
  Step-IsOrdered {w = w} (received c) o = record {
    hub = Drain.next o.hub (called c);
    session = o.session;
    produced = rw (Callback-handled c) o.produced;
    made = o.made;
    in_front = o.in_front;
    kept = o.kept;
  }
  Step-IsOrdered {w = w} (handle found env out s sends idle e h) o = record {
    hub = Drain.next o.hub (Drain.handle out s e);
    session = o.session;
    produced = Produced-handling found env out sends o.produced h;
    made = ap (λ ss. ss ++ sends) (o.made ∙ rw (idle, append-nil (map (λ a. a.send) w.done)));
    in_front = handling-AllPriority J switches config lws_pre found env out sends h;
    kept = o.kept;
  }
  Step-IsOrdered {w = w} (commanded {t} send rest e made) o =
      let front : (send.priority ≡ true) × AllPriority rest = rw e at o.in_front in
      let a : Attempt = record { send = send; stored = is_stored made } in
      record {
        hub = o.hub;
        session = Refinement.next o.session (writes send.text send.priority made);
        produced = o.produced;
        made =
            o.made
            ∙ rw (e, map-snoc w.done a, append_assoc (map (λ b. b.send) w.done) (send ∷ []) rest);
        in_front = front.1;
        kept =
            written-command made front.0
            ∙ ap (λ ts. ts ++ stored_texts (a ∷ [])) o.kept
            ∙ sym (stored_texts-snoc w.done a);
      }
  Step-IsOrdered {w = w} (queried env send e made) o = record {
    hub = o.hub;
    session = Refinement.next o.session (writes send.text send.priority made);
    produced = o.produced;
    made = o.made;
    in_front = o.in_front;
    kept = written-query made (query-priority J env _ _ send e) ∙ o.kept;
  }
  Step-IsOrdered {w = w} (writeable c) o = record {
    hub = o.hub;
    session = Refinement.next o.session (Refinement.called c);
    produced = o.produced;
    made = o.made;
    in_front = o.in_front;
    kept = written-called c ∙ o.kept;
  }
  Step-IsOrdered {w = w} (reported env room text q r e _) o =
      let same : w.session.queue ≡ q = unchanged w.session.queue q text e in
      record {
        hub = o.hub;
        session = rw (← same) o.session;
        produced = o.produced;
        made = o.made;
        in_front = o.in_front;
        kept = o.kept;
      }

  begin-IsOrdered : IsOrdered begin
  unfolding written
  begin-IsOrdered = record {
    hub = Drain.here;
    session = Refinement.here;
    produced = nothing;
    made = refl;
    in_front = tt;
    kept = refl;
  }

  pub Reach-IsOrdered :
      {topic : Text} {w : Gateway} → Reach J switches config lws_pre topic w → IsOrdered w
  Reach-IsOrdered here = begin-IsOrdered
  Reach-IsOrdered (next r st) = Step-IsOrdered st (Reach-IsOrdered r)

  -- In every interleaving of the callbacks, the handler of the messages and the thread of the
  -- queries: the messages handled are the first of those that arrived, in order; the commands made are
  -- those that these messages come to, message by message; of them the first were written, in order, and
  -- the others are still to be written; each command for which memory was found was sent once or waits,
  -- and all others that were sent are queries, which go in the order in which they were written.
  pub commands_reach_websocket :
      {topic : Text} {w : Gateway}
      → Reach J switches config lws_pre topic w
      → (pending : List Text) × (l : Lanes) × (w.hub.arrived ≡ w.hub.handled ++ pending)
        × Produced w.hub.handled w.commands
        × (w.commands ≡ map (λ a. a.send) w.done ++ w.todo)
        × Holds w.session.queue (l.commands ++ l.queries)
        × Perm (l.sent_commands ++ l.commands) (stored_texts w.done)
        × Perm w.session.sent (l.sent_commands ++ l.sent_queries)
        × (l.sent_queries ++ l.queries ≡ written false w.session.log)
  commands_reach_websocket {w} r =
      let o = Reach-IsOrdered r in
      let ((pending, arrived), _) = hub_order o.hub in
      let (l, _, holds, queries, all, sent) = ws_lanes lws_pre o.session in
      (pending, l, arrived, o.produced, o.made, holds, rw (← o.kept) all, sent, queries)
