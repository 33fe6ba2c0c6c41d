-- ===== src/WsQueue/Lanes.antt =====
-- src/wsclient.c: the queue as two lanes, one for the texts with priority and one for the others.
use mathlib.Core.List.Perm
use mathlib.Core.List.{Perm, perm_middle, perm_append_singleton}
use edgebox.Prelude.{
  ℕ, ◌≡◌, refl, sym, ap, ◌∙◌, Bool, true, false, List, [], ◌∷◌, ◌++◌, append_assoc,
}
use edgebox.Prelude.Text.{Text}
use edgebox.WsQueue.Pushes.{Holds}
use edgebox.WsQueue.Refinement.{
  Op, wrote, called_back, Sent, send_first, after_log, Session, Reach, ws_refines,
}

-- The texts with priority wait on a stack, the others in a queue; and what was sent of each.
pub record Lanes : Type 0 where
  pub commands : List Text
  pub queries : List Text
  pub sent_commands : List Text
  pub sent_queries : List Text

-- The stack goes first.
send_next : List Text → List Text → Lanes → Lanes
send_next (m ∷ commands) queries l = record l {
  commands = commands;
  sent_commands = l.sent_commands ++ m ∷ [];
}
send_next [] (m ∷ queries) l = record l {
  queries = queries;
  sent_queries = l.sent_queries ++ m ∷ [];
}
send_next [] [] l = l

-- The lanes after the operations of a log that has the latest one first.
unfoldable pub lanes : List Op → Lanes
unfolding send_next
lanes [] = record { commands = []; queries = []; sent_commands = []; sent_queries = [] }
lanes (wrote true m ∷ log) = let l = lanes log in record l { commands = m ∷ l.commands }
lanes (wrote false m ∷ log) = let l = lanes log in record l { queries = l.queries ++ m ∷ [] }
lanes (called_back ∷ log) = send_next (lanes log).commands (lanes log).queries (lanes log)

-- The texts that a log wrote with a priority, the first one first.
unfoldable pub written : Bool → List Op → List Text
written priority [] = []
written true (wrote true m ∷ log) = written true log ++ m ∷ []
written true (wrote false m ∷ log) = written true log
written false (wrote true m ∷ log) = written false log
written false (wrote false m ∷ log) = written false log ++ m ∷ []
written priority (called_back ∷ log) = written priority log

-- What the lanes hold, against the one list and what was written.
record Agrees (l : Lanes) (s : Sent) (commands queries : List Text) : Type 0 where
  waiting : s.pending ≡ l.commands ++ l.queries
  in_order : l.sent_queries ++ l.queries ≡ queries
  kept : Perm (l.sent_commands ++ l.commands) commands
  all : Perm s.sent (l.sent_commands ++ l.sent_queries)

push-Agrees :
    (l : Lanes) (s : Sent) (commands queries : List Text) (m : Text)
    → Agrees l s commands queries
    → Agrees
        (record l { commands = m ∷ l.commands })
        (record s { pending = m ∷ s.pending })
        (commands ++ m ∷ [])
        queries
push-Agrees l s commands queries m a = record {
  waiting = ap (λ ms. m ∷ ms) a.waiting;
  in_order = a.in_order;
  kept =
      Perm.trans (perm_middle l.sent_commands l.commands)
        (Perm.trans (Perm.cons m a.kept) (Perm.symm (perm_append_singleton m commands)));
  all = a.all;
}

queue-Agrees :
    (l : Lanes) (s : Sent) (commands queries : List Text) (m : Text)
    → Agrees l s commands queries
    → Agrees
        (record l { queries = l.queries ++ m ∷ [] })
        (record s { pending = s.pending ++ m ∷ [] })
        commands
        (queries ++ m ∷ [])
queue-Agrees l s commands queries m a = record {
  waiting = ap (λ ms. ms ++ m ∷ []) a.waiting ∙ append_assoc l.commands l.queries (m ∷ []);
  in_order =
      sym (append_assoc l.sent_queries l.queries (m ∷ [])) ∙ ap (λ ms. ms ++ m ∷ []) a.in_order;
  kept = a.kept;
  all = a.all;
}

send_next-Agrees :
    (first rest : List Text) (l : Lanes) (s : Sent) (commands queries : List Text)
    → l.commands ≡ first
    → l.queries ≡ rest
    → Agrees l s commands queries
    → Agrees (send_next first rest l) (send_first s.pending s.sent) commands queries
unfolding send_next send_first
send_next-Agrees (m ∷ first) rest l s commands queries e e' a =
    let waiting : s.pending ≡ m ∷ (first ++ rest) = a.waiting ∙ rw (e, e') in
    rw waiting (record {
      waiting = rw e';
      in_order = a.in_order;
      kept = rw (append_assoc l.sent_commands (m ∷ []) first) (rw e at a.kept);
      all = rw (append_assoc l.sent_commands (m ∷ []) l.sent_queries) (
          Perm.trans (perm_append_singleton m s.sent) (
            Perm.trans (Perm.cons m a.all)
              (Perm.symm (perm_middle l.sent_commands l.sent_queries))));
    })
send_next-Agrees [] (m ∷ rest) l s commands queries e e' a =
    let waiting : s.pending ≡ m ∷ rest = a.waiting ∙ rw (e, e') in
    rw waiting (record {
      waiting = rw e;
      in_order = append_assoc l.sent_queries (m ∷ []) rest ∙ (rw e' at a.in_order);
      kept = a.kept;
      all =
          rw (← append_assoc l.sent_commands l.sent_queries (m ∷ []))
            (Perm.append_right (m ∷ []) a.all);
    })
send_next-Agrees [] [] l s commands queries e e' a =
    let waiting : s.pending ≡ [] = a.waiting ∙ rw (e, e') in
    rw waiting (record { waiting = rw (e, e'); in_order = a.in_order; kept = a.kept; all = a.all })

lanes-Agrees :
    (log : List Op) → Agrees (lanes log) (after_log log) (written true log) (written false log)
unfolding lanes after_log written
lanes-Agrees [] = record { waiting = refl; in_order = refl; kept = Perm.nil; all = Perm.nil }
lanes-Agrees (wrote true m ∷ log) =
    push-Agrees (lanes log) (after_log log) (written true log) (written false log) m
      (lanes-Agrees log)
lanes-Agrees (wrote false m ∷ log) =
    queue-Agrees (lanes log) (after_log log) (written true log) (written false log) m
      (lanes-Agrees log)
lanes-Agrees (called_back ∷ log) =
    send_next-Agrees (lanes log).commands (lanes log).queries (lanes log) (after_log log)
      (written true log) (written false log) refl refl (lanes-Agrees log)

-- In every history of writes and writeable callbacks the pointers hold the stack of the texts with
-- priority in front of the queue of the others, and memory has no other node; the others are sent in the order in which they were
-- written, those not sent yet wait; each text with priority that was written was sent once or waits;
-- and nothing else was sent.
pub ws_lanes :
    (lws_pre : ℕ) {s : Session}
    → Reach lws_pre s
    → (l : Lanes) × (l ≡ lanes s.log)
      × Holds s.queue (l.commands ++ l.queries)
      × (l.sent_queries ++ l.queries ≡ written false s.log)
      × Perm (l.sent_commands ++ l.commands) (written true s.log)
      × Perm s.sent (l.sent_commands ++ l.sent_queries)
ws_lanes lws_pre {s} r =
    let (sent, holds, _) = ws_refines lws_pre r in
    let a = lanes-Agrees s.log in
    (lanes s.log, refl, rw (← a.waiting) holds, a.in_order, a.kept, rw sent a.all)
