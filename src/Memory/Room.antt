-- ===== src/Memory/Room.antt =====
-- An address at which memory may be found for the next node.
use edgebox.Prelude.{◌+◌, ◌≤◌, ◌≡◌, refl, ◌≢◌, false, none, List, [], ◌∷◌, arith, ==_ne}
use edgebox.Memory.{Ptr, null, Heap}
use edgebox.Memory.Linked.{has}
use edgebox.Memory.Leaks.{NoLeak}

module _ {A : Type 0} where
  -- Above the addresses of the nodes.
  abbrev bound : List (Ptr × A) → Ptr
  bound [] = 1
  bound ((p, _) ∷ cs) = p + bound cs

  one-le-bound : (cs : List (Ptr × A)) → 1 ≤ bound cs
  one-le-bound [] = omega arith
  one-le-bound ((p, _) ∷ cs) = omega (arith, one-le-bound cs)

  has-bound : (cs : List (Ptr × A)) (x : Ptr) → bound cs ≤ x → has x cs ≡ false
  has-bound [] x le = refl
  has-bound ((p, _) ∷ cs) x le =
      rw (==_ne x p (λ e. omega (arith, one-le-bound cs))) (has-bound cs x (omega arith))

  pub free_address :
      (h : Heap A) (cs : List (Ptr × A)) → NoLeak h cs → (p : Ptr) × (p ≢ null) × (h p ≡ none)
  free_address h cs f = (
    bound cs,
    (λ e. omega (arith, one-le-bound cs)),
    f (bound cs) (has-bound cs (bound cs) (omega arith)),
  )
