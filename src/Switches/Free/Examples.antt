-- ===== src/Switches/Free/Examples.antt =====
-- A list of two nodes that is freed.
use edgebox.Prelude.{ℕ, ◌≡◌, refl, true, none, some, [], ◌∷◌, if◌then◌else◌, ◌==◌, arith}
use edgebox.Memory.{Ptr, Heap}
use edgebox.Memory.Linked.{has, Linked, SameOutside}
use edgebox.Switches.Free.{free_switch_list, free_switch_list_frees}

-- At the addresses 3 and 8.
abbrev two_nodes : Heap ℕ
two_nodes p =
    if p == 3
    then some (record { payload = 1; next = 8 })
    else if p == 8
    then some (record { payload = 2; next = 0 })
    else none

two_nodes-Linked : Linked two_nodes ((3, 1) ∷ (8, 2) ∷ [])
two_nodes-Linked = ((λ e. omega arith), refl, refl, ((λ e. omega arith), refl, refl, tt))

free_switch_list_frees_example :
    (g : Heap ℕ) × (free_switch_list 2 3 two_nodes ≡ some (0, g))
    × SameOutside {A = ℕ} ((3, 1) ∷ (8, 2) ∷ []) two_nodes g
    × ((x : Ptr) → has {A = ℕ} x ((3, 1) ∷ (8, 2) ∷ []) ≡ true → g x ≡ none)
free_switch_list_frees_example =
    free_switch_list_frees ((3, 1) ∷ (8, 2) ∷ []) two_nodes two_nodes-Linked
