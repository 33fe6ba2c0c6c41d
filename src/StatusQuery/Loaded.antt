-- ===== src/StatusQuery/Loaded.antt =====
-- src/statusquery.c, src/parse_switch.c: what the queries ask for after the loading of switches.json.
use mathlib.Core.Path.{subst}
use edgebox.Prelude.{
  ℕ, zero, suc, ◌+◌, ◌≡◌, refl, sym, ◌∙◌, Bool, true, false, some, List, [], ◌∷◌, map, ◌==◌,
  if◌then◌else◌, arith, Bool-cases, inl, inr,
}
use edgebox.Prelude.CInt.{ℤ, eq_int}
use edgebox.Prelude.Run.{ok}
use edgebox.Json.{CJson}
use edgebox.Switches.{
  PlcNode, Switches, Entry, Memory, get_plc_node, read_entry, read_items, max_reg_addr,
}
use edgebox.Switches.Banks.{IsBank, AllBanks, read_items-AllBanks}
use edgebox.Switches.Marks.{bank_of, stands_for, marked_at, read_items-stands_for}
use edgebox.StatusQuery.{scan_bank}
use edgebox.StatusQuery.Blocks.{marked_from}
use edgebox.StatusQuery.Cover.{registers, AllSized, scan_bank_covers}

-- The list of the marked registers depends on the marks alone.
pub marked_from_same :
    (f g : ℕ → ℕ) (k i : ℕ)
    → ((c : ℕ) → (f c == 1) ≡ (g c == 1))
    → marked_from f k i ≡ marked_from g k i
unfolding marked_from
marked_from_same f g zero i same = refl
marked_from_same f g (suc k) i same = rw (same i, marked_from_same f g k (i + 1) same)

pub flag : (b : Bool) → ((if b then 1 else 0) == 1) ≡ b
flag b = ground arith

pub found-IsBank :
    (w : Bool) (addr : ℤ) (p : PlcNode) (ps : List PlcNode)
    → AllBanks ps
    → get_plc_node addr ps ≡ some p
    → IsBank (bank_of w p)
unfolding get_plc_node
found-IsBank w addr p [] all h = cc h
found-IsBank w addr p (q ∷ ps) all h = elim (Bool-cases (eq_int q.addr_485 addr)) [
  | inl hit ↦
      let same : q ≡ p = cc (rw hit at h) in subst (λ x. IsBank (bank_of w x)) same (either w)
  | inr miss ↦ found-IsBank w addr p ps all.1 (rw miss at h)
]
  where
    either : (w : Bool) → IsBank (bank_of w q)
    either false = all.0.0
    either true = all.0.1

-- When the loop over switches.json comes to its end, started with empty lists, it has read every
-- element; and the queries for a PLC and a length ask, in ascending order and each once, for exactly
-- the registers that are reply channels of elements for this PLC with this length, in blocks of one to
-- ten registers.
pub loaded_registers_asked :
    (J : CJson) (mem : Memory) (items : List J.Item) (t : Switches)
    → read_items J mem 0 items (record { switch_list = []; plc_list = [] }) ≡ ok t
    → (es : List Entry) × (map (read_entry J) items ≡ map ok es)
      × ((w : Bool) (addr : ℤ) (p : PlcNode)
          → get_plc_node addr t.plc_list ≡ some p
          → (registers (scan_bank (bank_of w p))
              ≡ marked_from (λ c. if stands_for w addr c es then 1 else 0) (max_reg_addr + 1) 0)
            × AllSized (scan_bank (bank_of w p)))
unfolding marked_at
loaded_registers_asked J mem items t h =
    let (es, reads, marks) = read_items-stands_for J mem items t h in
    (
      es,
      reads,
      λ w addr p found.
          let bank = found-IsBank w addr p t.plc_list (read_items-AllBanks J mem items t h) found in
          let (covers, sized) = scan_bank_covers (bank_of w p) bank in
          (
            covers
                ∙ marked_from_same (bank_of w p).channel
                    (λ c. if stands_for w addr c es then 1 else 0) (max_reg_addr + 1) 0
                    (λ c.
                      mark_of w addr p found c
                      ∙ marks w addr c
                      ∙ sym (flag (stands_for w addr c es))),
            sized,
          ),
    )
  where
    mark_of :
        (w : Bool) (addr : ℤ) (p : PlcNode)
        → get_plc_node addr t.plc_list ≡ some p
        → (c : ℕ) → ((bank_of w p).channel c == 1) ≡ marked_at w addr c t.plc_list
    mark_of w addr p found c = rw found
