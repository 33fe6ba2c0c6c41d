-- ===== src/WsQueue/Bursts.antt =====
-- src/wsclient.c: the order in which texts with priority are sent that were written one after another.
use mathlib.Core.List.{reverse_aux, reverse-append}
use edgebox.Prelude.{
  ℕ, zero, suc, ◌≡◌, refl, sym, ap, ◌∙◌, true, List, [], ◌∷◌, ◌++◌, append_assoc, append-nil,
  length, reverse,
}
use edgebox.Prelude.Text.{Text}
use edgebox.WsQueue.Refinement.{
  Op, wrote, called_back, send_first, after_log, Session, Reach, ws_refines,
}

-- The log after the texts were written with priority, one after another.
abbrev pub burst : List Text → List Op → List Op
burst [] log = log
burst (m ∷ ms) log = burst ms (wrote true m ∷ log)

-- The log after callbacks alone.
abbrev pub callbacks : ℕ → List Op → List Op
callbacks zero log = log
callbacks (suc n) log = called_back ∷ callbacks n log

reverse_aux-append : (xs ys : List Text) → reverse_aux xs ys ≡ reverse xs ++ ys
reverse_aux-append [] ys = refl
reverse_aux-append (x ∷ xs) ys =
    reverse_aux-append xs (x ∷ ys)
    ∙ sym (append_assoc (reverse xs) (x ∷ []) ys)
    ∙ ap (λ zs. zs ++ ys) (sym (reverse_aux-append xs (x ∷ [])))

after_log-burst :
    (ms : List Text) (log : List Op)
    → after_log (burst ms log)
      ≡ record { pending = reverse ms ++ (after_log log).pending; sent = (after_log log).sent }
unfolding after_log
after_log-burst ms log = go ms log ∙ rw (reverse_aux-append ms (after_log log).pending)
  where
    go :
        (ms : List Text) (log : List Op)
        → after_log (burst ms log)
          ≡ record { pending = reverse_aux ms (after_log log).pending; sent = (after_log log).sent }
    go [] log = refl
    go (m ∷ ms) log = go ms (wrote true m ∷ log)

callbacks_later : (n : ℕ) (log : List Op) → callbacks n (called_back ∷ log) ≡ callbacks (suc n) log
callbacks_later zero log = refl
callbacks_later (suc n) log = ap (λ l. called_back ∷ l) (callbacks_later n log)

-- As many callbacks as texts wait in front send these, in order.
after_log-callbacks :
    (xs rest : List Text) (log : List Op)
    → (after_log log).pending ≡ xs ++ rest
    → after_log (callbacks (length xs) log)
      ≡ record { pending = rest; sent = (after_log log).sent ++ xs }
unfolding after_log send_first
after_log-callbacks [] rest log h = rw (append-nil (after_log log).sent, ← h)
after_log-callbacks (x ∷ xs) rest log h =
    ap after_log (sym (callbacks_later (length xs) log))
    ∙ after_log-callbacks xs rest (called_back ∷ log) (rw h)
    ∙ rw (h, append_assoc (after_log log).sent (x ∷ []) xs)

sent_after :
    (xs rest sent : List Text) (log : List Op)
    → after_log log ≡ record { pending = xs ++ rest; sent = sent }
    → (after_log (callbacks (length xs) log)).sent ≡ sent ++ xs
sent_after xs rest sent log e =
    ap (λ t. t.sent) (after_log-callbacks xs rest log (ap (λ t. t.pending) e))
    ∙ ap (λ t. t.sent ++ xs) e

-- The text written last is sent by the callback.
after_log-interrupted :
    (before : List Text) (m : Text) (log : List Op)
    → after_log (called_back ∷ burst (before ++ m ∷ []) log) ≡ record {
      pending = reverse before ++ (after_log log).pending;
      sent = (after_log log).sent ++ m ∷ [];
    }
unfolding after_log send_first
after_log-interrupted before m log =
    rw (after_log-burst (before ++ m ∷ []) log, reverse-append before (m ∷ []))

module _ (lws_pre : ℕ) {s : Session} (r : Reach lws_pre s) where
  -- Where the texts `first` and then the texts `later` are written with priority, one after another,
  -- and then as many callbacks come as these are, all of `later` is sent before `first`, and of both
  -- the text written last goes first.
  pub later_sent_first :
      (first later : List Text) (log : List Op)
      → s.log ≡ callbacks (length (reverse later ++ reverse first)) (burst later (burst first log))
      → s.sent ≡ (after_log log).sent ++ (reverse later ++ reverse first)
  later_sent_first first later log e =
      (ws_refines lws_pre r).0
      ∙ ap (λ l. (after_log l).sent) e
      ∙ sent_after (reverse later ++ reverse first) (after_log log).pending (after_log log).sent
          (burst later (burst first log))
          (after_log-burst later (burst first log)
            ∙ rw (
              after_log-burst first log,
              append_assoc (reverse later) (reverse first) (after_log log).pending,
            ))

  -- If a callback comes while texts are written with priority one after another, the text written last
  -- before it is sent first, then those written behind it, and then those written before it.
  pub interrupted_burst :
      (before behind : List Text) (m : Text) (log : List Op)
      → s.log
        ≡ callbacks
            (length (reverse behind ++ reverse before))
            (burst behind (called_back ∷ burst (before ++ m ∷ []) log))
      → s.sent ≡ (after_log log).sent ++ m ∷ (reverse behind ++ reverse before)
  interrupted_burst before behind m log e =
      (ws_refines lws_pre r).0
      ∙ ap (λ l. (after_log l).sent) e
      ∙ sent_after (reverse behind ++ reverse before) (after_log log).pending
          ((after_log log).sent ++ m ∷ [])
          (burst behind (called_back ∷ burst (before ++ m ∷ []) log))
          (after_log-burst behind (called_back ∷ burst (before ++ m ∷ []) log)
            ∙ rw (
              after_log-interrupted before m log,
              append_assoc (reverse behind) (reverse before) (after_log log).pending,
            ))
      ∙ append_assoc (after_log log).sent (m ∷ []) (reverse behind ++ reverse before)
