-- ===== src/Memory/Pointers.antt =====
-- The critical sections of the two queues on a chain of nodes.
use edgebox.Prelude.{
  ◌≡◌, refl, sym, ◌≢◌, ◌∙◌, false, some, List, [], ◌∷◌, ◌++◌, arith, ◌==◌, ap, ==_ne,
}
use edgebox.Memory.{Ptr, null, Heap, Queue, write, set_next, link_tail, take_head}
use edgebox.Memory.Linked.{
  has, first, last, SameOutside, IsQueue, set_next-snoc, last-snoc, head-ne-tail, last_ne_null,
}

module _ {A : Type 0} where
  -- The queue with a new node in the heap that nothing points to.
  pub with_node : Queue A → Ptr → A → Ptr → Queue A
  with_node q p a next = record q {
    heap = write q.heap p (some (record { payload = a; next = next }));
  }

  link_tail_empty :
      (q : Queue A) (p : Ptr) (a : A)
      → IsQueue q []
      → p ≢ null
      → q.heap p ≡ some (record { payload = a; next = null })
      → (q' : Queue A) × (link_tail p q ≡ some q')
        × IsQueue q' ((p, a) ∷ [])
        × SameOutside [] q.heap q'.heap
  unfolding link_tail
  link_tail_empty q p a v ne hp = (
    record q { head = p; tail = p },
    rw (v.head, v.tail),
    record { head = refl; tail = refl; chain = (ne, hp, refl, tt) },
    λ x o. refl,
  )

  link_tail_more :
      (q : Queue A) (p : Ptr) (a : A) (c : Ptr × A) (cs : List (Ptr × A))
      → IsQueue q (c ∷ cs)
      → p ≢ null
      → q.heap p ≡ some (record { payload = a; next = null })
      → has p (c ∷ cs) ≡ false
      → (q' : Queue A) × (link_tail p q ≡ some q')
        × IsQueue q' (c ∷ cs ++ (p, a) ∷ [])
        × SameOutside (c ∷ cs) q.heap q'.heap
  unfolding link_tail
  link_tail_more q p a (x, b) cs v ne hp out =
      let (g, e, l, same) = set_next-snoc q.heap p a (x, b) cs v.chain ne hp out in
      (
        record { head = q.head; tail = p; heap = g },
        rw (has_tail, linked g e, nonempty),
        record { head = v.head; tail = sym (last-snoc ((x, b) ∷ cs) p a); chain = l },
        same,
      )
    where
      nonempty : (q.head == null) ≡ false
      nonempty = ground (arith, v.head, v.chain.0)

      has_tail : (q.tail == null) ≡ false
      has_tail = ground (arith, v.tail, last_ne_null q.heap (x, b) cs v.chain)

      linked :
          (g : Heap A)
          → set_next q.heap (last ((x, b) ∷ cs)) p ≡ some g
          → set_next q.heap q.tail p ≡ some g
      linked g e = ap (λ t. set_next q.heap t p) v.tail ∙ e

  -- The node ends up behind all others.
  pub link_tail-snoc :
      (q : Queue A) (p : Ptr) (a : A) (cs : List (Ptr × A))
      → IsQueue q cs
      → p ≢ null
      → q.heap p ≡ some (record { payload = a; next = null })
      → has p cs ≡ false
      → (q' : Queue A) × (link_tail p q ≡ some q')
        × IsQueue q' (cs ++ (p, a) ∷ [])
        × SameOutside cs q.heap q'.heap
  link_tail-snoc q p a [] v ne hp out = link_tail_empty q p a v ne hp
  link_tail-snoc q p a (c ∷ cs) v ne hp out = link_tail_more q p a c cs v ne hp out

  pub take_head-nil : (q : Queue A) (old : Ptr) → IsQueue q [] → take_head old q ≡ some (old, q)
  unfolding take_head
  take_head-nil q old v = rw v.head

  -- The head comes off; its node stays in the heap, for the caller to free.
  pub take_head-cons :
      (q : Queue A) (old p : Ptr) (a : A) (cs : List (Ptr × A))
      → IsQueue q ((p, a) ∷ cs)
      → (q' : Queue A) × (take_head old q ≡ some (p, q')) × IsQueue q' cs × (q'.heap ≡ q.heap)
  unfolding take_head
  take_head-cons q old p a [] v = (
    record q { head = null; tail = null },
    ground (arith, v.head, v.tail, v.chain.0),
    record { head = refl; tail = refl; chain = tt },
    refl,
  )
  take_head-cons q old p a (c ∷ cs) v = (
    record q { head = first (c ∷ cs) },
    rw (nonempty, apart, load) (ap (λ h. some (h, record q { head = first (c ∷ cs) })) v.head),
    record { head = refl; tail = v.tail; chain = v.chain.3 },
    refl,
  )
    where
      nonempty : (q.head == null) ≡ false
      nonempty = ground (arith, v.head, v.chain.0)

      apart : (q.head == q.tail) ≡ false
      apart =
          ==_ne q.head q.tail
            (λ e. head-ne-tail q.heap (p, a) c cs v.chain (sym v.head ∙ e ∙ v.tail))

      load : q.heap q.head ≡ some (record { payload = a; next = first (c ∷ cs) })
      load = ap q.heap v.head ∙ v.chain.1
