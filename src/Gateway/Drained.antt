-- ===== src/Gateway/Drained.antt =====
-- src/mqtt.c, src/wsclient.c: from everywhere the running gateway can handle and send all that it has.
use mathlib.Core.List.Perm
use mathlib.Core.List.{Perm, map-append}
use edgebox.Prelude.{
  none, ℕ, ◌+◌, ◌*◌, ◌≡◌, ◌≢◌, refl, sym, ap, ◌∙◌, false, List, [], ◌∷◌, ◌++◌, map, append_assoc,
  append-nil, length,
}
use edgebox.Prelude.Text.{Text}
use edgebox.Json.{CJson}
use edgebox.Switches.{Switches}
use edgebox.Uplink.{Config}
use edgebox.HubQueue.Pending
use edgebox.HubQueue.{freeing}
use edgebox.HubQueue.Drain
use edgebox.HubQueue.Drain.{cost-le}
use edgebox.Memory.{Ptr, Queue}
use edgebox.WsQueue.{EbWsMsg}
use edgebox.WsQueue.Pushes
use edgebox.WsQueue.Pushes.{Holds}
use edgebox.WsQueue.Refinement.{callback, after_log, send_first, Reach-Refines, callback-first}
use edgebox.WsQueue.Lanes.{written}
use edgebox.Downlink.{Send}
use edgebox.Gateway.{Gateway, writeable, Reach, next}
use edgebox.Gateway.Stored.{stored_texts}
use edgebox.Gateway.Order.{Produced, Reach-IsOrdered, commands_reach_websocket}
use edgebox.Gateway.Progress.{
  kept, Later, stay, after, Later-trans, Later-Reach, AllFit, AllHandled, write_all, handle_all,
}

append-cancel : (xs ys zs : List Text) → xs ++ ys ≡ xs ++ zs → ys ≡ zs
append-cancel [] ys zs e = e
append-cancel (x ∷ xs) ys zs e = append-cancel xs ys zs cc

-- A queue that holds nothing holds nothing else.
Holds-nil : (q : Queue EbWsMsg) (ms : List Text) → Holds q [] → Holds q ms → ms ≡ []
Holds-nil q [] h k = refl
Holds-nil q (m ∷ ms) ([], v, f, e) ([], w, g, e') = cc
Holds-nil q (m ∷ ms) ([], v, f, e) (c ∷ cs, w, g, e') = absurd (w.chain.0 (sym w.head ∙ v.head))
Holds-nil q (m ∷ ms) (c ∷ cs, v, f, e) k = cc

append-nil_left : (xs ys : List Text) → xs ++ ys ≡ [] → (xs ≡ []) × (ys ≡ [])
append-nil_left [] ys e = (refl, e)
append-nil_left (x ∷ xs) ys e = cc

send_first-pending :
    (m : Text) (ms pending sent : List Text)
    → pending ≡ m ∷ ms
    → (send_first pending sent).pending ≡ ms
unfolding send_first
send_first-pending m ms pending sent e = rw e

module _ (J : CJson) (switches : Switches) (config : Config) (lws_pre : ℕ) where
  -- From `w` to `v` nothing happens but sends.
  record IsSent (topic : Text) (w v : Gateway) : Type 0 where
    later : Later J switches config lws_pre topic w v
    hub : v.hub ≡ w.hub
    todo : v.todo ≡ w.todo
    done : v.done ≡ w.done
    empty : Holds v.session.queue []

  send_all :
      {topic : Text} (pending : List Text) {w : Gateway}
      → Reach J switches config lws_pre topic w
      → (after_log w.session.log).pending ≡ pending
      → (v : Gateway) × IsSent topic w v
  unfolding after_log
  send_all [] {w} r e =
      let o = Reach-IsOrdered J switches config lws_pre r in
      (
        w,
        record {
          later = stay;
          hub = refl;
          todo = refl;
          done = refl;
          empty = rw e at (Reach-Refines lws_pre o.session).holds;
        },
      )
  send_all (m ∷ pending) {w} r e =
      let o = Reach-IsOrdered J switches config lws_pre r in
      let v = Reach-Refines lws_pre o.session in
      let s = after_log w.session.log in
      let (acts, q, eq, _, _, _) =
        callback-first lws_pre w.session.queue s.pending s.sent v.holds v.fit in
      let st = writeable (callback acts q eq) in
      let (u, g) = send_all pending (next r st) (send_first-pending m pending s.pending s.sent e) in
      (
        u,
        record {
          later = after st g.later;
          hub = g.hub;
          todo = g.todo;
          done = g.done;
          empty = g.empty;
        },
      )

  -- At rest, all that was stored is sent.
  rest-sent :
      {topic : Text} {v : Gateway}
      → Reach J switches config lws_pre topic v
      → v.todo ≡ []
      → Holds v.session.queue []
      → Produced J switches config lws_pre v.hub.handled (map (λ a. a.send) v.done)
        × Perm v.session.sent (stored_texts v.done ++ written false v.session.log)
  rest-sent {v = v} r idle empty =
      let (_, l, _, produced, made, holds, commands, sent, queries) =
        commands_reach_websocket J switches config lws_pre r in
      let nothing : l.commands ++ l.queries ≡ [] =
        Holds-nil v.session.queue (l.commands ++ l.queries) empty holds in
      let (no_commands, no_queries) = append-nil_left l.commands l.queries nothing in
      let all : v.commands ≡ map (λ a. a.send) v.done =
        made ∙ rw (idle, append-nil (map (λ a. a.send) v.done)) in
      let stored : Perm l.sent_commands (stored_texts v.done) =
        rw (no_commands, append-nil l.sent_commands) at commands in
      let asked : l.sent_queries ≡ written false v.session.log =
        rw (no_queries, append-nil l.sent_queries) at queries in
      (
        rw all at produced,
        Perm.trans sent (rw asked (Perm.append_right (written false v.session.log) stored)),
      )

  -- With all messages handled and freed, no node of the hub's queue is left.
  hub_empty :
      {topic : Text} {v : Gateway}
      → Reach J switches config lws_pre topic v
      → v.hub.handled ≡ v.hub.arrived
      → v.hub.hub.place ≢ freeing
      → (p : Ptr) → v.hub.hub.queue.heap p ≡ none
  hub_empty {v = v} r all freed =
      let (left, h, eq) = Drain.Reach-IsOrdered (Reach-IsOrdered J switches config lws_pre r).hub in
      let none_left : left ≡ [] =
        append-cancel v.hub.handled left [] (sym eq ∙ sym all ∙ sym (append-nil v.hub.handled)) in
      Pending.Holds-empty v.hub.hub (rw none_left at h) freed

  -- From every state that the running gateway reaches it can go on, with no message lost and no new
  -- one, until all messages that arrived are handled: the commands not written yet and those of the
  -- pending messages are written and stored, in order; no node of either queue is left in memory; and
  -- what was sent are exactly the commands ever stored and the queries ever stored. The commands not
  -- written yet fit the buffer, and each pending message is handled in some surroundings with no
  -- fault, and its commands fit.
  pub gateway_drains :
      {topic : Text} {w : Gateway} (pending : List Text)
      → Reach J switches config lws_pre topic w
      → w.hub.arrived ≡ w.hub.handled ++ pending
      → AllHandled J switches config lws_pre pending
      → AllFit J switches config lws_pre w.todo
      → (v : Gateway) × (made : List Send) × Later J switches config lws_pre topic w v
        × (v.hub.arrived ≡ w.hub.arrived)
        × (v.hub.handled ≡ w.hub.arrived)
        × (v.todo ≡ [])
        × (v.done ≡ w.done ++ map kept (w.todo ++ made))
        × ((p : Ptr) → v.hub.hub.queue.heap p ≡ none)
        × ((p : Ptr) → v.session.queue.heap p ≡ none)
        × Produced J switches config lws_pre v.hub.handled (map (λ a. a.send) v.done)
        × Perm v.session.sent (stored_texts v.done ++ written false v.session.log)
  gateway_drains {w = w} pending r split a f =
      let (u, g, same) = write_all J switches config lws_pre w.todo r refl f in
      let r₁ = Later-Reach J switches config lws_pre g.later r in
      let (waiting, h, eq) =
        Drain.Reach-IsOrdered (Reach-IsOrdered J switches config lws_pre r).hub in
      let same_pending : waiting ≡ pending =
        append-cancel w.hub.handled waiting pending (sym eq ∙ split) in
      let (x, made, k, freed) =
        handle_all J switches config lws_pre (4 * length waiting + 1) waiting r₁
          (rw (ap (λ y. y.hub) same) h)
          (rw (ap (λ y. y.hub) same) (cost-le w.hub.hub.place waiting)) g.idle
          (rw same_pending a) in
      let (v, e) =
        send_all (after_log x.session.log).pending
          (Later-Reach J switches config lws_pre k.later r₁) refl in
      let later =
        Later-trans J switches config lws_pre g.later
          (Later-trans J switches config lws_pre k.later e.later) in
      let idle : v.todo ≡ [] = e.todo ∙ k.idle in
      let arrived : v.hub.arrived ≡ w.hub.arrived =
        ap (λ y. y.arrived) e.hub ∙ k.arrived ∙ g.arrived in
      let handled : v.hub.handled ≡ w.hub.arrived =
        ap (λ y. y.handled) e.hub
        ∙ k.handled
        ∙ ap (λ ms. ms ++ waiting) (g.handled ∙ append-nil w.hub.handled)
        ∙ sym eq in
      let (produced, sent) =
        rest-sent (Later-Reach J switches config lws_pre later r) idle e.empty in
      (
        v,
        made,
        later,
        arrived,
        handled,
        idle,
        e.done
            ∙ k.done
            ∙ rw (
              g.done,
              append_assoc w.done (map kept w.todo) (map kept made),
              map-append kept w.todo made,
            ),
        hub_empty (Later-Reach J switches config lws_pre later r) (handled ∙ sym arrived)
            (λ z. freed (sym (ap (λ y. y.hub.place) e.hub) ∙ z)),
        Pushes.Holds-empty v.session.queue e.empty,
        produced,
        sent,
      )
