-- ===== src/WsQueue/Starvation.antt =====
-- src/wsclient.c: how long a text may wait for those that are written in front of it.
use mathlib.Core.List.Perm
use mathlib.Core.List.{Perm, perm_middle, perm_append_singleton}
use edgebox.Prelude.{
  ℕ, suc, ◌+◌, ◌≤◌, ◌≡◌, refl, sym, ap, ◌∙◌, ◌⊎◌, inl, inr, true, false, List, [], ◌∷◌, ◌++◌,
  append_assoc, append-nil, length, arith,
}
use edgebox.Prelude.Text.{Text}
use edgebox.WsQueue.Pushes.{Holds}
use edgebox.WsQueue.Refinement.{
  Op, wrote, called_back, Sent, send_first, after_log, Session, Reach, ws_refines,
}

-- The texts of a log that were written in front, and its callbacks.
abbrev pub commands : List Op → ℕ
commands [] = 0
commands (wrote true m ∷ ops) = suc (commands ops)
commands (wrote false m ∷ ops) = commands ops
commands (called_back ∷ ops) = commands ops

abbrev pub callbacks : List Op → ℕ
callbacks [] = 0
callbacks (wrote priority m ∷ ops) = callbacks ops
callbacks (called_back ∷ ops) = suc (callbacks ops)

-- The texts `pending` waited, and `sent` were sent: those still waiting stand behind a front, and each
-- callback has taken off a text of the front or of those.
record Waits (pending sent : List Text) (cs ks : ℕ) (s : Sent) : Type 0 where
  front : List Text
  old : List Text
  back : List Text
  gone : List Text
  more : List Text
  rest : List Text
  waiting : s.pending ≡ front ++ (old ++ back)
  split : pending ≡ gone ++ old
  sent_now : s.sent ≡ sent ++ more
  gone_sent : Perm more (gone ++ rest)
  less : (old ≡ []) ⊎ (length front + length old + ks ≤ length pending + cs)

one_more :
    (more gone rest : List Text) (m : Text)
    → Perm more (gone ++ rest)
    → Perm (more ++ m ∷ []) (gone ++ m ∷ rest)
one_more more gone rest m p =
    Perm.trans (perm_append_singleton m more)
      (Perm.trans (Perm.cons m p) (Perm.symm (perm_middle gone rest)))

module _ (pending sent : List Text) (cs ks : ℕ) (s : Sent) where
  -- A callback, by what stands first.
  called-Waits :
      (front old back : List Text) (w : Waits pending sent cs ks s)
      → w.front ≡ front
      → w.old ≡ old
      → w.back ≡ back
      → Waits pending sent cs (suc ks) (send_first s.pending s.sent)
  unfolding send_first
  called-Waits (m ∷ front) old back w e e' e'' =
      let first : s.pending ≡ m ∷ (front ++ (old ++ back)) = w.waiting ∙ rw (e, e', e'') in
      rw first (record {
        front = front;
        old = old;
        back = back;
        gone = w.gone;
        more = w.more ++ m ∷ [];
        rest = m ∷ w.rest;
        waiting = refl;
        split = w.split ∙ rw e';
        sent_now = ap (λ ms. ms ++ m ∷ []) w.sent_now ∙ append_assoc sent w.more (m ∷ []);
        gone_sent = one_more w.more w.gone w.rest m w.gone_sent;
        less = elim w.less [
          | inl none_left ↦ inl (sym e' ∙ none_left)
          | inr fewer ↦ inr (
              omega (
                arith,
                fewer,
                ap (λ (ms : List Text). length ms) e,
                ap (λ (ms : List Text). length ms) e',
              ))
        ];
      })
  called-Waits [] (m ∷ old) back w e e' e'' =
      let first : s.pending ≡ m ∷ (old ++ back) = w.waiting ∙ rw (e, e', e'') in
      rw first (record {
        front = [];
        old = old;
        back = back;
        gone = w.gone ++ m ∷ [];
        more = w.more ++ m ∷ [];
        rest = w.rest;
        waiting = refl;
        split = w.split ∙ rw e' (sym (append_assoc w.gone (m ∷ []) old));
        sent_now = ap (λ ms. ms ++ m ∷ []) w.sent_now ∙ append_assoc sent w.more (m ∷ []);
        gone_sent =
            rw (append_assoc w.gone (m ∷ []) w.rest) (one_more w.more w.gone w.rest m w.gone_sent);
        less = elim w.less [
          | inl none_left ↦ cc
          | inr fewer ↦ inr (
              omega (
                arith,
                fewer,
                ap (λ (ms : List Text). length ms) e,
                ap (λ (ms : List Text). length ms) e',
              ))
        ];
      })
  called-Waits [] [] (m ∷ back) w e e' e'' =
      let first : s.pending ≡ m ∷ back = w.waiting ∙ rw (e, e', e'') in
      rw first (record {
        front = [];
        old = [];
        back = back;
        gone = w.gone;
        more = w.more ++ m ∷ [];
        rest = m ∷ w.rest;
        waiting = refl;
        split = w.split ∙ rw e';
        sent_now = ap (λ ms. ms ++ m ∷ []) w.sent_now ∙ append_assoc sent w.more (m ∷ []);
        gone_sent = one_more w.more w.gone w.rest m w.gone_sent;
        less = inl refl;
      })
  called-Waits [] [] [] w e e' e'' =
      let first : s.pending ≡ [] = w.waiting ∙ rw (e, e', e'') in
      rw first (record {
        front = [];
        old = [];
        back = [];
        gone = w.gone;
        more = w.more;
        rest = w.rest;
        waiting = refl;
        split = w.split ∙ rw e';
        sent_now = w.sent_now;
        gone_sent = w.gone_sent;
        less = inl refl;
      })

log-Waits :
    (log ops : List Op)
    → Waits
        (after_log log).pending
        (after_log log).sent
        (commands ops)
        (callbacks ops)
        (after_log (ops ++ log))
unfolding after_log
log-Waits log [] = record {
  front = [];
  old = (after_log log).pending;
  back = [];
  gone = [];
  more = [];
  rest = [];
  waiting = sym (append-nil (after_log log).pending);
  split = refl;
  sent_now = sym (append-nil (after_log log).sent);
  gone_sent = Perm.nil;
  less = inr (omega arith);
}
log-Waits log (wrote true m ∷ ops) =
    let w = log-Waits log ops in
    record {
      front = m ∷ w.front;
      old = w.old;
      back = w.back;
      gone = w.gone;
      more = w.more;
      rest = w.rest;
      waiting = ap (λ ms. m ∷ ms) w.waiting;
      split = w.split;
      sent_now = w.sent_now;
      gone_sent = w.gone_sent;
      less = elim w.less [ inl none_left ↦ inl none_left | inr fewer ↦ inr (omega (arith, fewer)) ];
    }
log-Waits log (wrote false m ∷ ops) =
    let w = log-Waits log ops in
    record {
      front = w.front;
      old = w.old;
      back = w.back ++ m ∷ [];
      gone = w.gone;
      more = w.more;
      rest = w.rest;
      waiting =
          ap (λ ms. ms ++ m ∷ []) w.waiting
          ∙ append_assoc w.front (w.old ++ w.back) (m ∷ [])
          ∙ ap (λ ms. w.front ++ ms) (append_assoc w.old w.back (m ∷ []));
      split = w.split;
      sent_now = w.sent_now;
      gone_sent = w.gone_sent;
      less = w.less;
    }
log-Waits log (called_back ∷ ops) =
    let w = log-Waits log ops in
    called-Waits (after_log log).pending (after_log log).sent (commands ops) (callbacks ops)
      (after_log (ops ++ log)) w.front w.old w.back w refl refl refl

empty_of_length : (ms : List Text) → length ms ≤ 0 → ms ≡ []
empty_of_length [] le = refl
empty_of_length (m ∷ ms) le = absurd (omega arith)

old_sent :
    (pending sent : List Text) (cs ks : ℕ) (s : Sent) (w : Waits pending sent cs ks s)
    → length pending + cs ≤ ks
    → pending ≡ w.gone
old_sent pending sent cs ks s w le = w.split ∙ rw (none_left w.less, append-nil w.gone)
  where
    none_left :
        (w.old ≡ []) ⊎ (length w.front + length w.old + ks ≤ length pending + cs) → w.old ≡ []
    none_left (inl empty) = empty
    none_left (inr fewer) = empty_of_length w.old (omega arith)

-- From a history to a later one whose log goes on from its log: with one callback for each text that
-- waited and for each one that was written in front since, whatever their order, all texts that waited
-- are sent, each as often as it waited, whatever else was sent since.
pub waiting_are_sent :
    (lws_pre : ℕ) {s t : Session} (ops : List Op)
    → Reach lws_pre s
    → Reach lws_pre t
    → t.log ≡ ops ++ s.log
    → length (after_log s.log).pending + commands ops ≤ callbacks ops
    → Holds s.queue (after_log s.log).pending
      × ((rest : List Text) × Perm t.sent (s.sent ++ ((after_log s.log).pending ++ rest)))
waiting_are_sent lws_pre {s} {t} ops r r' on le =
    let (sent, holds, _) = ws_refines lws_pre r in
    let (sent', _, _) = ws_refines lws_pre r' in
    let before : Sent = after_log s.log in
    let w = log-Waits s.log ops in
    let gone : before.pending ≡ w.gone =
      old_sent before.pending before.sent (commands ops) (callbacks ops) (after_log (ops ++ s.log))
        w le in
    let now : t.sent ≡ s.sent ++ w.more =
      sent' ∙ rw on w.sent_now ∙ ap (λ ms. ms ++ w.more) (sym sent) in
    (holds, (w.rest, rw now (Perm.append_left s.sent (rw gone w.gone_sent))))
