-- ===== src/HubQueue/Fairness.antt =====
-- src/mqtt.c: the handler thread comes on however arrivals are interleaved with its steps.
use edgebox.Prelude.{
  ℕ, suc, ◌+◌, ◌*◌, ◌≤◌, ◌≡◌, sym, ap, ◌∙◌, ◌⊎◌, inl, inr, some, Option, List, [], ◌++◌,
  append_assoc, append-nil, length, length-append, arith,
}
use edgebox.Prelude.Text.{Text}
use edgebox.HubQueue.{Hub, iot_msg_handler_step}
use edgebox.HubQueue.Pending.{Holds}
use edgebox.HubQueue.Order.{cost, emitted, iot_msg_handler_step-Holds}
use edgebox.HubQueue.Drain.{History, Callback, Reach, Reach-IsOrdered, nil_of_cost, cost-le}
use edgebox.HubQueue.Growth.{Callback-Grows, cost-append, cost-ge, prefix_of_length}

-- The history goes on, with `n` steps of the thread among the calls of the callback.
pub data Later (w : History) : ℕ → History → Type 0 where
  stay : Later w 0 w
  called : {n : ℕ} {v u : History} → Later w n v → Callback v u → Later w n u
  handled :
      {n : ℕ} {v : History} (out : Option Text) (s : Hub)
      → Later w n v
      → iot_msg_handler_step v.hub ≡ some (out, s)
      → Later w (suc n) (record v { hub = s; handled = v.handled ++ emitted out })

-- From `w`, which held messages at the cost `c`, to `v` with `n` steps of the thread: all that had
-- arrived at `w` is handled, or each step has lowered the cost.
record Progress (w v : History) (n c : ℕ) : Type 0 where
  pending : List Text
  holds : Holds v.hub pending
  all : v.arrived ≡ v.handled ++ pending
  new : List Text
  arrived : v.arrived ≡ w.arrived ++ new
  comes_on :
      (length w.arrived ≤ length v.handled) ⊎ (cost v.hub.place pending + n ≤ c + 4 * length new)

stay-Progress :
    (w : History) (pending : List Text)
    → Holds w.hub pending
    → w.arrived ≡ w.handled ++ pending
    → Progress w w 0 (cost w.hub.place pending)
stay-Progress w pending h eq = record {
  pending = pending;
  holds = h;
  all = eq;
  new = [];
  arrived = sym (append-nil w.arrived);
  comes_on = inr (omega arith);
}

called-Progress : {w v u : History} {n c : ℕ} → Progress w v n c → Callback v u → Progress w u n c
called-Progress {w} {v} {u} {n} {c} p st =
    let g = Callback-Grows p.pending st p.holds in
    record {
      pending = p.pending ++ g.new;
      holds = g.holds;
      all =
          g.arrived
          ∙ ap (λ xs. xs ++ g.new) p.all
          ∙ append_assoc v.handled p.pending g.new
          ∙ ap (λ xs. xs ++ (p.pending ++ g.new)) (sym g.same);
      new = p.new ++ g.new;
      arrived = g.arrived ∙ ap (λ xs. xs ++ g.new) p.arrived ∙ append_assoc w.arrived p.new g.new;
      comes_on = elim p.comes_on [
        | inl done ↦ inl (rw g.same done)
        | inr more ↦ inr (
            rw (← g.place) (
              omega
                (arith, more, cost-append v.hub.place p.pending g.new, length-append p.new g.new)))
      ];
    }

handled-Progress :
    {w v : History} {n c : ℕ} (out : Option Text) (s : Hub)
    → Progress w v n c
    → iot_msg_handler_step v.hub ≡ some (out, s)
    → Progress w (record v { hub = s; handled = v.handled ++ emitted out }) (suc n) c
handled-Progress {w} {v} {n} {c} out s p e =
    let (out', s', rest, e', split, h', falls) =
      iot_msg_handler_step-Holds v.hub p.pending p.holds in
    let same : s' ≡ s = cc (e, e') in
    let same_out : out' ≡ out = cc (e, e') in
    let split' : p.pending ≡ emitted out ++ rest = rw (← same_out) split in
    let all : v.arrived ≡ (v.handled ++ emitted out) ++ rest =
      p.all ∙ ap (λ xs. v.handled ++ xs) split' ∙ sym (append_assoc v.handled (emitted out) rest) in
    record {
      pending = rest;
      holds = rw (← same) h';
      all = all;
      new = p.new;
      arrived = p.arrived;
      comes_on = elim p.comes_on [
        | inl done ↦ inl (omega (arith, done, length-append v.handled (emitted out)))
        | inr more ↦ elim falls [
          | inl zero_left ↦
              let empty : rest ≡ [] = nil_of_cost s'.place rest (omega (arith, zero_left)) in
              inl (
                omega (
                  arith,
                  ap (λ (xs : List Text). length xs) all,
                  ap (λ (xs : List Text). length xs) p.arrived,
                  ap (λ (xs : List Text). length xs) empty,
                  length-append (v.handled ++ emitted out) rest,
                  length-append w.arrived p.new,
                ))
          | inr less ↦ inr (rw (← same) (omega (arith, more, less)))
        ]
      ];
    }

Later-Progress :
    {w v : History} {n : ℕ} (pending : List Text)
    → Holds w.hub pending
    → w.arrived ≡ w.handled ++ pending
    → Later w n v
    → Progress w v n (cost w.hub.place pending)
Later-Progress {w} pending h eq stay = stay-Progress w pending h eq
Later-Progress pending h eq (called l c) = called-Progress (Later-Progress pending h eq l) c
Later-Progress pending h eq (handled out s l e) =
    handled-Progress out s (Later-Progress pending h eq l) e

enough :
    {w v : History} (n : ℕ) (first others pending : List Text)
    → w.arrived ≡ w.handled ++ pending
    → (p : Progress w v n (cost w.hub.place pending)) → w.arrived ≡ (w.handled ++ first) ++ others
    → 4 * length first ≤ n
    → length (w.handled ++ first) ≤ length v.handled
enough {w} {v} n first others pending eq p start le = elim p.comes_on [
  | inl done ↦ omega (
    arith,
    done,
    ap (λ (xs : List Text). length xs) start,
    length-append (w.handled ++ first) others,
  )
  | inr more ↦ omega (
    arith,
    more,
    cost-ge v.hub.place p.pending,
    cost-le w.hub.place pending,
    ap (λ (xs : List Text). length xs) p.all,
    ap (λ (xs : List Text). length xs) p.arrived,
    ap (λ (xs : List Text). length xs) eq,
    length-append v.handled p.pending,
    length-append w.arrived p.new,
    length-append w.handled pending,
    length-append w.handled first,
  )
]

-- However calls of the callback are interleaved with the steps of the thread: four steps of the thread
-- for each of the first pending messages handle these messages, each once, in order, and before any
-- that came later.
pub handler_comes_on :
    {w v : History} {n : ℕ} (first others : List Text)
    → Reach w
    → w.arrived ≡ w.handled ++ (first ++ others)
    → Later w n v
    → 4 * length first ≤ n
    → (rest : List Text) × (v.handled ≡ (w.handled ++ first) ++ rest)
handler_comes_on {w} {v} {n} first others r split l le =
    let (pending, h, eq) = Reach-IsOrdered r in
    let p = Later-Progress pending h eq l in
    let start : w.arrived ≡ (w.handled ++ first) ++ others =
      split ∙ sym (append_assoc w.handled first others) in
    let arrived : v.handled ++ p.pending ≡ (w.handled ++ first) ++ (others ++ p.new) =
      sym p.all
      ∙ p.arrived
      ∙ ap (λ xs. xs ++ p.new) start
      ∙ append_assoc (w.handled ++ first) others p.new in
    prefix_of_length v.handled p.pending (w.handled ++ first) (others ++ p.new) arrived
      (enough n first others pending eq p start le)
