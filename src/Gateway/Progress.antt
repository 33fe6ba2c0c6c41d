-- ===== src/Gateway/Progress.antt =====
-- src/mqtt.c, src/wsclient.c: the running gateway comes to rest.
use mathlib.Core.List.{map-append}
use edgebox.Prelude.{
  ℕ, zero, suc, ◌+◌, ◌≤◌, ◌≡◌, ◌≢◌, refl, sym, ap, ◌∙◌, Bool, true, Option, none, some, List, [],
  ◌∷◌, ◌++◌, map, append_assoc, append-nil, length,
}
use edgebox.Prelude.Text.{Text}
use edgebox.Prelude.Run.{ok}
use edgebox.Json.{CJson}
use edgebox.Memory.Room.{free_address}
use edgebox.Switches.{Switches}
use edgebox.Uplink.{Config}
use edgebox.HubQueue.Pending
use edgebox.HubQueue.{freeing}
use edgebox.HubQueue.Order.{cost, emitted, iot_msg_handler_step-Holds}
use edgebox.HubQueue.Drain.{nil_of_cost, freed_of_cost, cost-falls}
use edgebox.WsQueue.{ws_tx_buffer_len}
use edgebox.WsQueue.Pushes.{eb_ws_write-Holds}
use edgebox.WsQueue.Refinement.{Write, after_log, Reach-Refines}
use edgebox.Downlink.{Send, Surroundings}
use edgebox.Gateway.{Attempt, Gateway, handling, Step, handle, commanded, Reach, next}
use edgebox.Gateway.Order.{Reach-IsOrdered}

-- Memory was found for the text.
abbrev pub kept : Send → Attempt
kept s = record { send = s; stored = true }

module _ (J : CJson) (switches : Switches) (config : Config) (lws_pre : ℕ) where
  -- The gateway makes steps.
  pub data Later (topic : Text) : Gateway → Gateway → Type 0 where
    stay : {w : Gateway} → Later topic w w
    after :
        {w u v : Gateway}
        → Step J switches config lws_pre topic w u
        → Later topic u v
        → Later topic w v

  pub Later-trans :
      {topic : Text} {w u v : Gateway} → Later topic w u → Later topic u v → Later topic w v
  Later-trans stay l = l
  Later-trans (after st k) l = after st (Later-trans k l)

  pub Later-Reach :
      {topic : Text} {w v : Gateway}
      → Later topic w v
      → Reach J switches config lws_pre topic w
      → Reach J switches config lws_pre topic v
  Later-Reach stay r = r
  Later-Reach (after st l) r = Later-Reach l (next r st)

  -- The texts fit the buffer of the callback.
  abbrev pub AllFit : List Send → Type 0
  AllFit [] = Unit {0}
  AllFit (s ∷ ss) = (lws_pre + length s.text ≤ ws_tx_buffer_len) × AllFit ss

  -- Each message is handled with no fault in some surroundings, and its commands fit.
  abbrev pub AllHandled : List Text → Type 0
  AllHandled [] = Unit {0}
  AllHandled (m ∷ ms) =
      ((found : ℕ → Bool) × (env : Surroundings) × (sends : List Send) × (handling J switches config
            lws_pre found env (some m)
          ≡ ok sends)
        × AllFit sends)
      × AllHandled ms

  -- From `w` to `v` the messages `ms` are handled, and the commands `made` written and stored.
  pub record Progress (topic : Text) (w v : Gateway) (ms : List Text) (made : List Send)
      : Type 0 where
    pub later : Later topic w v
    pub arrived : v.hub.arrived ≡ w.hub.arrived
    pub handled : v.hub.handled ≡ w.hub.handled ++ ms
    pub idle : v.todo ≡ []
    pub done : v.done ≡ w.done ++ map kept made

  pub write_all :
      {topic : Text} (ss : List Send) {w : Gateway}
      → Reach J switches config lws_pre topic w
      → w.todo ≡ ss
      → AllFit ss
      → (v : Gateway) × Progress topic w v [] ss × (v.hub ≡ w.hub)
  write_all [] {w} r e f = (
    w,
    record {
      later = stay;
      arrived = refl;
      handled = sym (append-nil w.hub.handled);
      idle = e;
      done = sym (append-nil w.done);
    },
    refl,
  )
  write_all (s ∷ ss) {w} r e f =
      let o = Reach-IsOrdered J switches config lws_pre r in
      let v = Reach-Refines lws_pre o.session in
      let (cs, _, no_leak, _) = v.holds in
      let (p, ne, free) = free_address w.session.queue.heap cs no_leak in
      let (q, eq, _) =
        eb_ws_write-Holds w.session.queue (after_log w.session.log).pending p s.text s.priority
          v.holds ne free in
      let st = commanded s ss e (Write.write p _ q ne free f.0 eq) in
      let (u, g, same) = write_all ss (next r st) refl f.1 in
      (
        u,
        record {
          later = after st g.later;
          arrived = g.arrived;
          handled = g.handled;
          idle = g.idle;
          done = g.done ∙ append_assoc w.done (kept s ∷ []) (map kept ss);
        },
        same,
      )

  next_handled :
      (out : Option Text) (pending rest : List Text)
      → pending ≡ emitted out ++ rest
      → AllHandled pending
      → (found : ℕ → Bool) × (env : Surroundings) × (sends : List Send) × (handling J switches
            config lws_pre found env out
          ≡ ok sends)
        × AllFit sends
        × AllHandled rest
  unfolding handling
  next_handled none pending rest split a =
      (λ _. true, record { found = λ _. true; junk = λ _. [] }, [], refl, tt, rw split at a)
  next_handled (some m) pending rest split a =
      let ((found, env, sends, e, f), b) : AllHandled (m ∷ rest) = rw split at a in
      (found, env, sends, e, f, b)

  pub handle_all :
      {topic : Text} (n : ℕ) (pending : List Text) {w : Gateway}
      → Reach J switches config lws_pre topic w
      → Pending.Holds w.hub.hub pending
      → cost w.hub.hub.place pending ≤ n
      → w.todo ≡ []
      → AllHandled pending
      → (v : Gateway) × (made : List Send) × Progress topic w v pending made
        × (v.hub.hub.place ≢ freeing)
  handle_all zero pending {w} r h le idle a =
      let empty : pending ≡ [] = nil_of_cost w.hub.hub.place pending le in
      (
        w,
        [],
        record {
          later = stay;
          arrived = refl;
          handled = sym (append-nil w.hub.handled) ∙ rw empty;
          idle = idle;
          done = sym (append-nil w.done);
        },
        freed_of_cost w.hub.hub.place pending le,
      )
  handle_all (suc n) pending {w} r h le idle a =
      let (out, s, rest, e, split, h', falls) = iot_msg_handler_step-Holds w.hub.hub pending h in
      let (found, env, sends, e', f, b) = next_handled out pending rest split a in
      let st = handle found env out s sends idle e e' in
      let (u, g, same) = write_all sends (next r st) refl f in
      let hub : u.hub.hub ≡ s = ap (λ x. x.hub) same in
      let (v, made, k, freed) =
        handle_all n rest {w = u} (Later-Reach (after st g.later) r) (rw hub h')
          (rw hub (cost-falls n w.hub.hub.place s.place pending rest le falls)) g.idle b in
      (
        v,
        sends ++ made,
        record {
          later = after st (Later-trans g.later k.later);
          arrived = k.arrived ∙ g.arrived;
          handled =
              k.handled
              ∙ ap (λ x. x ++ rest) (g.handled ∙ append-nil (w.hub.handled ++ emitted out))
              ∙ append_assoc w.hub.handled (emitted out) rest
              ∙ rw split;
          idle = k.idle;
          done =
              k.done
              ∙ rw (
                g.done,
                append_assoc w.done (map kept sends) (map kept made),
                map-append kept sends made,
              );
        },
        freed,
      )
