-- ===== src/StatusQuery/Examples.antt =====
-- The scan of a concrete PLC's registers.
use edgebox.Prelude.{
  ◌&&◌, ◌+◌, ◌≡◌, refl, true, [], ◌∷◌, leb, ◌==◌, ◌||◌, if◌then◌else◌, arith, Bool, map, some, List,
}
use edgebox.Prelude.CInt.{pos, ℤ}
use edgebox.Switches.{Bank, max_reg_addr, PlcNode, Entry, get_plc_node, read_entry}
use edgebox.Switches.Banks.{IsBank}
use edgebox.Prelude.Run.{ok}
use edgebox.Switches.Marks.{bank_of, stands_for}
use edgebox.Switches.Examples.{
  library, roomy, pump, valve, both, both_loaded, swapped, swapped_loaded,
}
use mathlib.Core.List.Perm
use edgebox.StatusQuery.Unordered.{asked, asked_in_any_order}
use edgebox.StatusQuery.Loaded.{loaded_registers_asked}
use edgebox.StatusQuery.{scan_bank, block_end, next_marked, scan}
use edgebox.StatusQuery.Blocks.{marked_from}
use edgebox.StatusQuery.Cover.{registers, AllSized}

-- The registers 3 to 15 and 20 are marked.
abbrev bank : Bank
bank = record {
  channel = λ i. if (leb 3 i && leb i 15) || i == 20 then 1 else 0;
  first = 3;
  last = pos 20;
}

bank-IsBank : IsBank bank
bank-IsBank = record {
  low = λ i h. ground arith;
  high = λ i h. ground arith;
  inside = λ i h. ground arith;
  first_marked = λ h. refl;
  last_marked = λ l h. ground arith;
}

-- Three blocks: ten registers from 3 on, three from 13 on, and the register 20.
three_blocks :
    scan_bank bank
    ≡ record { start_reg = 3; num_reg = 10 }
      ∷ record { start_reg = 13; num_reg = 3 }
      ∷ record { start_reg = 20; num_reg = 1 }
      ∷ []
unfolding scan_bank scan block_end next_marked
three_blocks = refl

-- The registers of the two switches of switches.json.
loaded_registers_asked_example :
    (es : List Entry) × (map (read_entry library) (pump ∷ valve ∷ []) ≡ map ok es)
    × ((w : Bool) (addr : ℤ) (p : PlcNode)
        → get_plc_node addr both.plc_list ≡ some p
        → (registers (scan_bank (bank_of w p))
            ≡ marked_from (λ c. if stands_for w addr c es then 1 else 0) (max_reg_addr + 1) 0)
          × AllSized (scan_bank (bank_of w p)))
loaded_registers_asked_example =
    loaded_registers_asked library roomy (pump ∷ valve ∷ []) both both_loaded

-- The same elements in the other order.
asked_in_any_order_example : asked true (pos 1) both.plc_list ≡ asked true (pos 1) swapped.plc_list
asked_in_any_order_example =
    asked_in_any_order library roomy roomy (pump ∷ valve ∷ []) (valve ∷ pump ∷ []) both swapped
      (Perm.swap valve pump []) both_loaded swapped_loaded true (pos 1)
