-- ===== src/Switches/Loads.antt =====
-- src/parse_switch.c: the loading of an array of elements that fit, from its start to its end.
use mathlib.Core.Option
use edgebox.Prelude.{ℕ, ◌≡◌, ◌∙◌, List, [], map}
use edgebox.Prelude.CInt.{ℤ}
use edgebox.Prelude.Text.{Text}
use edgebox.Prelude.Run.{ok}
use edgebox.Json.{CJson}
use edgebox.Switches.{
  Switches, Entry, Memory, get_switch_node, get_plc_node, read_entry, read_items,
}
use edgebox.Switches.Lookup.{node_of, AllFit, Found, read_items-ok}
use edgebox.Switches.Names.{
  last_named, last_at, reg_name, get_switch_node-Loaded, reg_name-Loaded, or_else-none,
}

-- The loop over the array, started with empty lists, comes to its end if every element can be read,
-- memory is found, each name fits its node and its block, and each reply channel lies inside the
-- arrays; then a name stands for the last element of that name, and a register of a PLC has the name of
-- the last element for that PLC with that register as its reply channel, and no name without one.
pub read_items_loads :
    (J : CJson) (mem : Memory) (items : List J.Item) (es : List Entry)
    → map (read_entry J) items ≡ map ok es
    → Found mem
    → AllFit mem es
    → (t : Switches) × (read_items J mem 0 items (record { switch_list = []; plc_list = [] })
        ≡ ok t)
      × ((name : Text)
          → get_switch_node name t.switch_list ≡ Option.map (node_of mem) (last_named name es))
      × ((addr : ℤ) (c : ℕ) → reg_name addr c t.plc_list ≡ last_at addr c es)
unfolding get_switch_node reg_name get_plc_node
read_items_loads J mem items es reads found fit =
    let (t, run, loaded) = read_items-ok J mem 0 items es _ reads found fit in
    (
      t,
      run,
      (λ name. get_switch_node-Loaded mem name es _ t loaded ∙ or_else-none _),
      λ addr c. reg_name-Loaded mem addr c es _ t loaded ∙ or_else-none _,
    )
