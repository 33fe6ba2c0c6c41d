-- ===== src/Memory/Leaks.antt =====
-- Memory that has the nodes of a chain and no other.
use edgebox.Prelude.{
  ◌≡◌, ◌∙◌, false, none, some, List, [], ◌∷◌, ◌++◌, arith, ◌==◌, Bool-cases, inl, inr,
}
use edgebox.Memory.{Ptr, Heap, Queue, write, release}
use edgebox.Memory.Linked.{has, SameOutside, write_ne}

module _ {A : Type 0} where
  -- No node but those of `cs` is in memory.
  abbrev pub NoLeak : Heap A → List (Ptr × A) → Type 0
  NoLeak h cs = (x : Ptr) → has x cs ≡ false → h x ≡ none

  has_of_snoc :
      (x p : Ptr) (a : A) (cs : List (Ptr × A))
      → has x (cs ++ (p, a) ∷ []) ≡ false
      → has x ((p, a) ∷ cs) ≡ false
  has_of_snoc x p a [] out = out
  has_of_snoc x p a ((y, b) ∷ cs) out = ground (arith, has_of_snoc x p a cs)

  pub write-NoLeak :
      (h : Heap A) (p next : Ptr) (a : A) (cs : List (Ptr × A))
      → NoLeak h cs
      → NoLeak (write h p (some (record { payload = a; next = next }))) ((p, a) ∷ cs)
  write-NoLeak h p next a cs f x out =
      write_ne h p x _ (λ e. ground (arith, e)) ∙ f x (ground arith)

  pub snoc-NoLeak :
      (h g : Heap A) (p : Ptr) (a : A) (cs : List (Ptr × A))
      → SameOutside ((p, a) ∷ cs) h g
      → NoLeak h cs
      → NoLeak g (cs ++ (p, a) ∷ [])
  snoc-NoLeak h g p a cs same f x out =
      let o : has x ((p, a) ∷ cs) ≡ false = has_of_snoc x p a cs out in
      same x o ∙ f x (ground arith)

  pub release-NoLeak :
      (q : Queue A) (p : Ptr) (a : A) (cs : List (Ptr × A))
      → NoLeak q.heap ((p, a) ∷ cs)
      → NoLeak (release q p).heap cs
  unfolding release write
  release-NoLeak q p a cs f x out = elim (Bool-cases (x == p)) [
    | inl here ↦ rw here
    | inr there ↦ let free : q.heap x ≡ none = f x (rw (there, out)) in rw there free
  ]
