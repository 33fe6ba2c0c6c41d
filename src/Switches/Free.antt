-- ===== src/Switches/Free.antt =====
-- src/parse_switch.c: `free_switch_list`, on the heap. Nodes lead to one another by their links; the
-- fuel is the number of nodes.
pub mod Examples
use edgebox.Prelude.{
  ℕ, zero, suc, ◌≡◌, refl, ap, ◌∙◌, true, false, Option, none, some, List, [], ◌∷◌, ◌==◌,
  if◌then◌else◌, length, arith, Bool-cases, inl, inr, ==_iff,
}
use edgebox.Memory.{Ptr, null, Heap, write}
use edgebox.Memory.Linked.{has, first, Linked, Linked-write, SameOutside}

module _ {A : Type 0} where
  -- `while (*head != NULL)`: the head and the heap afterwards, and `none` for a fault.
  unfoldable pub free_switch_list : ℕ → Ptr → Heap A → Option (Ptr × Heap A)
  free_switch_list zero head h = if head == null then some (head, h) else none
  free_switch_list (suc left) head h = if head == null then some (head, h) else elim (h head) [
    | none ↦ none
    | some node ↦ free_switch_list left node.next (write h head none)
  ]

  -- With as many rounds as a chain has nodes, the loop ends with the head NULL, every node of the chain
  -- is freed, and all other memory is as it was.
  pub free_switch_list_frees :
      (cs : List (Ptr × A)) (h : Heap A)
      → Linked h cs
      → (g : Heap A) × (free_switch_list (length cs) (first cs) h ≡ some (null, g))
        × SameOutside cs h g
        × ((x : Ptr) → has x cs ≡ true → g x ≡ none)
  unfolding free_switch_list write
  free_switch_list_frees [] h l = (h, refl, (λ x e. refl), λ x e. cc e)
  free_switch_list_frees ((p, a) ∷ cs) h (ne, here, once, l) =
      let there : (p == null) ≡ false = ground arith in
      let (g, run, same, gone) =
        free_switch_list_frees cs (write h p none) (Linked-write h p none cs l once) in
      (
        g,
        rw (there, here) run,
        (λ x out. ground (arith, same x)),
        λ x inside. elim (Bool-cases (x == p)) [
          | inl at_p ↦
              let is_p : x ≡ p = (==_iff x p).0 at_p in ap g is_p ∙ same p once ∙ ground arith
          | inr behind ↦ gone x (ground arith)
        ],
      )
