-- ===== src/Memory/Linked.antt =====
-- Chains of nodes, and what the pointer operations of the queues do to them.
use edgebox.Prelude.{
  ◌≡◌, refl, ap, ◌∙◌, ◌≢◌, Bool, true, false, ◌||◌, Option, none, some, List, [], ◌∷◌, ◌++◌, arith,
  ◌==◌,
}
use edgebox.Memory.{Ptr, null, Node, Heap, Queue, write, set_next, release}

module _ {A : Type 0} where
  abbrev pub has : Ptr → List (Ptr × A) → Bool
  has a [] = false
  has a ((p, _) ∷ cs) = a == p || has a cs

  abbrev pub first : List (Ptr × A) → Ptr
  first [] = null
  first ((p, _) ∷ cs) = p

  abbrev pub last : List (Ptr × A) → Ptr
  last [] = null
  last ((p, _) ∷ []) = p
  last (_ ∷ c ∷ cs) = last (c ∷ cs)

  -- The nodes are distinct, and each leads to the one behind it.
  abbrev pub Linked : Heap A → List (Ptr × A) → Type 0
  Linked h [] = Unit {0}
  Linked h ((p, a) ∷ cs) =
      (p ≢ null)
      × (h p ≡ some (record { payload = a; next = first cs }))
      × (has p cs ≡ false)
      × Linked h cs

  -- The pointers of a queue that holds the nodes `cs`, in order.
  pub record IsQueue (q : Queue A) (cs : List (Ptr × A)) : Type 0 where
    pub head : q.head ≡ first cs
    pub tail : q.tail ≡ last cs
    pub chain : Linked q.heap cs

  -- `g` differs from `h` at nodes of `cs` at most.
  abbrev pub SameOutside : List (Ptr × A) → Heap A → Heap A → Type 0
  SameOutside cs h g = (x : Ptr) → has x cs ≡ false → g x ≡ h x

  -- The messages alone: the queue that a user sees.
  abbrev pub contents : List (Ptr × A) → List A
  contents [] = []
  contents ((_, a) ∷ cs) = a ∷ contents cs

  pub contents-snoc :
      (cs : List (Ptr × A)) (p : Ptr) (a : A) → contents (cs ++ (p, a) ∷ []) ≡ contents cs ++ a ∷ []
  contents-snoc [] p a = refl
  contents-snoc ((x, b) ∷ cs) p a = ap (λ ys. b ∷ ys) (contents-snoc cs p a)

  pub has_of_none :
      (h : Heap A) (p : Ptr) (cs : List (Ptr × A)) → Linked h cs → h p ≡ none → has p cs ≡ false
  has_of_none h p [] l e = refl
  has_of_none h p ((x, a) ∷ cs) l e = ground (arith, has_of_none h p cs l.3 e, l.1)

  pub has-last : (c : Ptr × A) (cs : List (Ptr × A)) → has (last (c ∷ cs)) (c ∷ cs) ≡ true
  has-last (p, a) [] = ground arith
  has-last (p, a) (c ∷ cs) = ground (arith, has-last c cs)

  pub last-snoc : (cs : List (Ptr × A)) (p : Ptr) (a : A) → last (cs ++ (p, a) ∷ []) ≡ p
  last-snoc [] p a = refl
  last-snoc (_ ∷ []) p a = refl
  last-snoc (_ ∷ c ∷ cs) p a = last-snoc (c ∷ cs) p a

  pub has-snoc :
      (x p : Ptr) (a : A) (cs : List (Ptr × A))
      → has x cs ≡ false
      → x ≢ p
      → has x (cs ++ (p, a) ∷ []) ≡ false
  has-snoc x p a [] h ne = ground arith
  has-snoc x p a ((y, b) ∷ cs) h ne = ground (arith, has-snoc x p a cs)

  -- A chain survives a write to an address outside it.
  pub Linked-write :
      (h : Heap A) (p : Ptr) (n : Option (Node A)) (cs : List (Ptr × A))
      → Linked h cs
      → has p cs ≡ false
      → Linked (write h p n) cs
  unfolding write
  Linked-write h p n [] l out = tt
  Linked-write h p n ((x, a) ∷ cs) l out =
      (l.0, ground (arith, l.1), l.2, Linked-write h p n cs l.3 (ground arith))

  pub last_holds :
      (h : Heap A) (c : Ptr × A) (cs : List (Ptr × A))
      → Linked h (c ∷ cs)
      → (b : A) × (h (last (c ∷ cs)) ≡ some (record { payload = b; next = null }))
  last_holds h (x, b) [] l = (b, l.1)
  last_holds h (x, b) (c ∷ cs) l = last_holds h c cs l.3

  pub last_ne_null :
      (h : Heap A) (c : Ptr × A) (cs : List (Ptr × A)) → Linked h (c ∷ cs) → last (c ∷ cs) ≢ null
  last_ne_null h (x, b) [] l = l.0
  last_ne_null h (x, b) (c ∷ cs) l = last_ne_null h c cs l.3

  pub write_ne : (h : Heap A) (p x : Ptr) (n : Option (Node A)) → x ≢ p → write h p n x ≡ h x
  unfolding write
  write_ne h p x n ne = ground arith

  ne_last :
      (x : Ptr) (c : Ptr × A) (cs : List (Ptr × A)) → has x (c ∷ cs) ≡ false → x ≢ last (c ∷ cs)
  ne_last x c cs out e = ground (arith, has-last c cs, e)

  -- Linking a new node behind the last one.
  pub Linked-snoc :
      (h : Heap A) (p : Ptr) (a b : A) (c : Ptr × A) (cs : List (Ptr × A))
      → Linked h (c ∷ cs)
      → p ≢ null
      → h p ≡ some (record { payload = a; next = null })
      → has p (c ∷ cs) ≡ false
      → h (last (c ∷ cs)) ≡ some (record { payload = b; next = null })
      → Linked
          (write h (last (c ∷ cs)) (some (record { payload = b; next = p })))
          ((c ∷ cs) ++ (p, a) ∷ [])
  unfolding write
  Linked-snoc h p a b (x, b') [] l ne hp out hl =
      (l.0, ground (arith, l.1), ground arith, (ne, ground arith, refl, tt))
  Linked-snoc h p a b (x, b') (c ∷ cs) l ne hp out hl = (
    l.0,
    write_ne h (last (c ∷ cs)) x _ (ne_last x c cs l.2) ∙ l.1,
    has-snoc x p a (c ∷ cs) l.2 (ground arith),
    Linked-snoc h p a b c cs l.3 ne hp (ground arith) hl,
  )

  set_next-ok :
      (h : Heap A) (t p : Ptr) (b : A) (q : Ptr)
      → h t ≡ some (record { payload = b; next = q })
      → set_next h t p ≡ some (write h t (some (record { payload = b; next = p })))
  unfolding set_next
  set_next-ok h t p b q e = rw (e, set_next)

  -- `tail->next = p` on a chain that ends in `tail` makes the chain with the new node at its end.
  pub set_next-snoc :
      (h : Heap A) (p : Ptr) (a : A) (c : Ptr × A) (cs : List (Ptr × A))
      → Linked h (c ∷ cs)
      → p ≢ null
      → h p ≡ some (record { payload = a; next = null })
      → has p (c ∷ cs) ≡ false
      → (g : Heap A) × (set_next h (last (c ∷ cs)) p ≡ some g)
        × Linked g ((c ∷ cs) ++ (p, a) ∷ [])
        × SameOutside (c ∷ cs) h g
  set_next-snoc h p a c cs l ne hp out =
      let (b, hl) = last_holds h c cs l in
      (
        _,
        set_next-ok h (last (c ∷ cs)) p b null hl,
        Linked-snoc h p a b c cs l ne hp out hl,
        λ x o. write_ne h (last (c ∷ cs)) x _ (ne_last x c cs o),
      )

  -- The tail differs from the head exactly if there are two nodes at least.
  pub head-ne-tail :
      (h : Heap A) (x y : Ptr × A) (cs : List (Ptr × A))
      → Linked h (x ∷ y ∷ cs)
      → x.0 ≢ last (x ∷ y ∷ cs)
  head-ne-tail h (x, a) y cs l = ne_last x y cs l.2

  -- Freeing the node that was taken off leaves the others.
  pub release-IsQueue :
      (q : Queue A) (p : Ptr) (cs : List (Ptr × A))
      → IsQueue q cs
      → has p cs ≡ false
      → IsQueue (release q p) cs
  unfolding release
  release-IsQueue q p cs v out = record {
    head = v.head;
    tail = v.tail;
    chain = Linked-write q.heap p none cs v.chain out;
  }
