-- ===== src/Switches/Examples.antt =====
-- The loading of switches.json at a concrete file.
use Prim.Native.String.{String}
use mathlib.Core.Option
use edgebox.Prelude.{ℕ, ◌+◌, ◌≡◌, refl, Bool, true, none, some, List, [], ◌∷◌, map, arith}
use edgebox.Prelude.CInt.{ℤ, pos, negsuc}
use edgebox.Prelude.Text.{Text, codes, text_eq, strtol16}
use edgebox.Prelude.Run.{Run, ok}
use edgebox.Json.{CJson}
use edgebox.Json.Sample.{Element, text, object, nil, cons, reading}
use edgebox.Switches.{
  Switches, Entry, Memory, SwitchesFile, read_switches, read_items, read_entry, add_entry,
  get_switch_node, mark, register, get_plc_node, find_or_add_plc, update_plc_node, add_plc_to_list,
  new_plc_node,
}
use edgebox.Switches.Lookup.{AllFit, node_of}
use edgebox.Switches.Marks.{marked_at, stands_for, read_items-stands_for}
use edgebox.Switches.Loads.{read_items_loads}
use edgebox.Switches.Names.{
  last_named, last_at, reg_name, read_items-last_named, read_items-last_at,
}

abbrev field : String → String → Element
field key value = text (some (codes key)) (codes value)

-- Two switches at the PLC 1; the second one has a read-only channel.
abbrev pub pump : Element
pump = object none (
    cons (field "name" "pump")
      (cons (field "plc" "1") (cons (field "plc_channel" "0x5") (cons (field "reg_len" "1") nil))))

abbrev pub valve : Element
valve = object none (
    cons (field "name" "valve") (
      cons (field "plc" "1") (
        cons (field "plc_channel" "6")
          (cons (field "plc_channel_ro" "7") (cons (field "reg_len" "2") nil)))))

abbrev pub library : CJson
library =
    reading (codes "switches.json")
      (object none (cons (object (some (codes "switches")) (cons pump (cons valve nil))) nil))

abbrev pub roomy : Memory
roomy = record { found = λ _. true; usable = λ n. n + 8; junk = pos 0 }

abbrev pump_entry : Entry
pump_entry = record {
  name = codes "pump";
  plc = pos 1;
  plc_channel = pos 5;
  plc_channel_ro = negsuc 0;
  reg_len = pos 1;
}

abbrev valve_entry : Entry
valve_entry = record {
  name = codes "valve";
  plc = pos 1;
  plc_channel = pos 6;
  plc_channel_ro = pos 7;
  reg_len = pos 2;
}

abbrev pub nothing_loaded : Switches
nothing_loaded = record { switch_list = []; plc_list = [] }

abbrev loaded_by : Run Switches → Switches
loaded_by (ok s) = s
loaded_by _ = nothing_loaded

pub both : Switches
unfolding read_items read_entry add_entry strtol16 text_eq find_or_add_plc get_plc_node
    update_plc_node register mark
both = loaded_by (read_items library roomy 0 (pump ∷ valve ∷ []) nothing_loaded)

pub both_loaded : read_items library roomy 0 (pump ∷ valve ∷ []) nothing_loaded ≡ ok both
unfolding both add_plc_to_list new_plc_node
both_loaded = refl

-- The same elements in the other order.
pub swapped : Switches
unfolding read_items read_entry add_entry strtol16 text_eq find_or_add_plc get_plc_node
    update_plc_node register mark
swapped = loaded_by (read_items library roomy 0 (valve ∷ pump ∷ []) nothing_loaded)

pub swapped_loaded : read_items library roomy 0 (valve ∷ pump ∷ []) nothing_loaded ≡ ok swapped
unfolding swapped add_plc_to_list new_plc_node
swapped_loaded = refl

entries_read : map (read_entry library) (pump ∷ valve ∷ []) ≡ map ok (pump_entry ∷ valve_entry ∷ [])
unfolding read_entry strtol16 text_eq
entries_read = refl

read_items-last_named_example :
    (es : List Entry) × (map (read_entry library) (pump ∷ valve ∷ []) ≡ map ok es)
    × ((name : Text)
        → get_switch_node name both.switch_list ≡ Option.map (node_of roomy) (last_named name es))
read_items-last_named_example =
    read_items-last_named library roomy (pump ∷ valve ∷ []) both both_loaded

last_register :
    (es : List Entry) × (map (read_entry library) (pump ∷ valve ∷ []) ≡ map ok es)
    × ((addr : ℤ) (c : ℕ) → reg_name addr c both.plc_list ≡ last_at addr c es)
last_register = read_items-last_at library roomy (pump ∷ valve ∷ []) both both_loaded

read_items-stands_for_example :
    (es : List Entry) × (map (read_entry library) (pump ∷ valve ∷ []) ≡ map ok es)
    × ((w : Bool) (addr : ℤ) (c : ℕ) → marked_at w addr c both.plc_list ≡ stands_for w addr c es)
read_items-stands_for_example =
    read_items-stands_for library roomy (pump ∷ valve ∷ []) both both_loaded

both_fit : AllFit roomy (pump_entry ∷ valve_entry ∷ [])
both_fit = (
  record { channel = 5; index = refl; short = omega arith; room = omega arith },
  (record { channel = 7; index = refl; short = omega arith; room = omega arith }, tt),
)

read_items_loads_example :
    (t : Switches) × (read_items library roomy 0 (pump ∷ valve ∷ []) nothing_loaded ≡ ok t)
    × ((name : Text)
        → get_switch_node name t.switch_list
          ≡ Option.map (node_of roomy) (last_named name (pump_entry ∷ valve_entry ∷ [])))
    × ((addr : ℤ) (c : ℕ)
        → reg_name addr c t.plc_list ≡ last_at addr c (pump_entry ∷ valve_entry ∷ []))
read_items_loads_example =
    read_items_loads library roomy (pump ∷ valve ∷ []) (pump_entry ∷ valve_entry ∷ []) entries_read
      (λ i. refl) both_fit

-- The whole file gives the same lists.
abbrev pub switches_json : SwitchesFile
switches_json = record {
  stat_ok = true;
  open_ok = true;
  buffer_ok = true;
  content = codes "switches.json";
}

pub read_switches-both : read_switches library roomy switches_json nothing_loaded ≡ ok both
unfolding read_switches text_eq
read_switches-both = both_loaded
