-- ===== src/Switches/Marks.antt =====
-- src/parse_switch.c: which registers of a PLC are marked after loading.
use mathlib.Core.Option
use edgebox.Prelude.{
  ℕ, ◌≡◌, refl, sym, ap, ◌∙◌, ◌⊎◌, inl, inr, Bool, true, false, ◌&&◌, ◌||◌, Option, none, some,
  List, [], ◌∷◌, map, ◌==◌, if◌then◌else◌, arith, Bool-cases,
}
use edgebox.Prelude.CInt.{ℤ, pos, eq_int, eq_int→eq}
use edgebox.Prelude.Text.{Text}
use edgebox.Prelude.Run.{ok}
use edgebox.Json.{CJson}
use edgebox.Switches.{
  Bank, PlcNode, Switches, Entry, Memory, get_plc_node, new_plc_node, mark, register, reply_channel,
  register_index, read_entry, read_items,
}
use edgebox.Switches.Lookup.{Added, Loaded, read_items-Loaded}
use edgebox.Switches.Names.{get_plc_node-update, register-addr}

-- The registers of one length: `false` for one byte, `true` for two.
abbrev pub bank_of : Bool → PlcNode → Bank
bank_of false p = p.bank_1B
bank_of true p = p.bank_2B

abbrev pub length_of : Bool → ℤ
length_of false = pos 1
length_of true = pos 2

-- Is the register marked in the node that was found?
abbrev marked_in : Bool → ℕ → Option PlcNode → Bool
marked_in w c none = false
marked_in w c (some p) = (bank_of w p).channel c == 1

unfoldable pub marked_at : Bool → ℤ → ℕ → List PlcNode → Bool
marked_at w addr c ps = marked_in w c (get_plc_node addr ps)

abbrev is_index : ℕ → Option ℕ → Bool
is_index c none = false
is_index c (some d) = c == d

-- Does an element of the array stand for this register of this PLC, in this length?
unfoldable pub stands_for : Bool → ℤ → ℕ → List Entry → Bool
stands_for w addr c [] = false
stands_for w addr c (e ∷ es) =
    (eq_int e.plc addr
      && (eq_int e.reg_len (length_of w) && is_index c (register_index (reply_channel e))))
    || stands_for w addr c es

register-marks :
    (w : Bool) (name : Text) (c d : ℕ) (len : ℤ) (p : PlcNode)
    → ((bank_of w (register name d len p)).channel c == 1)
      ≡ ((eq_int len (length_of w) && c == d) || (bank_of w p).channel c == 1)
unfolding register mark
register-marks false name c d len p = ground arith
register-marks true name c d len p = ground arith

marked_at-new :
    (w : Bool) (a b : ℤ) (c : ℕ) (ps : List PlcNode)
    → get_plc_node b ps ≡ none
    → marked_at w a c (new_plc_node b ∷ ps) ≡ marked_at w a c ps
unfolding marked_at get_plc_node new_plc_node
marked_at-new w a b c ps h = elim (Bool-cases (eq_int b a)) [
  | inl hit ↦
      let gone : get_plc_node a ps ≡ none =
        ap (λ z. get_plc_node z ps) (sym (eq_int→eq b a hit)) ∙ h in
      rw (hit, gone) (unmarked w)
  | inr miss ↦ rw miss
]
  where
    unmarked : (w : Bool) → marked_in w c (some (new_plc_node b)) ≡ false
    unmarked false = refl
    unmarked true = refl

module _ {mem : Memory} {e : Entry} {s t : Switches} (v : Added mem e s t) (w : Bool) where
  marked_at-plcs : (a : ℤ) (c : ℕ) → marked_at w a c v.plcs ≡ marked_at w a c s.plc_list
  marked_at-plcs a c = by v.found
    where
      by :
          (v.plcs ≡ s.plc_list)
            ⊎ ((get_plc_node e.plc s.plc_list ≡ none) × (v.plcs ≡ new_plc_node e.plc ∷ s.plc_list))
          → marked_at w a c v.plcs ≡ marked_at w a c s.plc_list
      by (inl same) = ap (marked_at w a c) same
      by (inr (missing, new)) =
          ap (marked_at w a c) new ∙ marked_at-new w a e.plc c s.plc_list missing

  -- One round marks one register of one PLC.
  marked_at-Added :
      (a : ℤ) (c : ℕ)
      → marked_at w a c t.plc_list ≡ (
          (eq_int e.plc a && (eq_int e.reg_len (length_of w) && c == v.channel))
          || marked_at w a c s.plc_list)
  unfolding marked_at
  marked_at-Added a c = elim (Bool-cases (eq_int e.plc a)) [
    | inl hit ↦
        let (p, present) = v.present in
        let at_a : get_plc_node a v.plcs ≡ some p =
          ap (λ z. get_plc_node z v.plcs) (sym (eq_int→eq e.plc a hit)) ∙ present in
        let old : ((bank_of w p).channel c == 1) ≡ marked_at w a c s.plc_list =
          sym (ap (marked_in w c) at_a) ∙ marked_at-plcs a c in
        rw (got, hit, at_a) (register-marks w e.name c v.channel e.reg_len p ∙ rw old)
    | inr miss ↦ rw (got, miss) (marked_at-plcs a c)
  ]
    where
      f : PlcNode → PlcNode
      f = register e.name v.channel e.reg_len

      got :
          get_plc_node a t.plc_list
          ≡ (if eq_int e.plc a then Option.map f (get_plc_node a v.plcs) else get_plc_node a v.plcs)
      got =
          ap (get_plc_node a) v.plc_list
          ∙ get_plc_node-update a e.plc f v.plcs (register-addr e.name v.channel e.reg_len)

marked_at-Loaded :
    (mem : Memory) (w : Bool) (a : ℤ) (c : ℕ) (es : List Entry) (s t : Switches)
    → Loaded mem es s t
    → marked_at w a c t.plc_list ≡ (stands_for w a c es || marked_at w a c s.plc_list)
unfolding stands_for
marked_at-Loaded mem w a c [] s t l = ap (λ u. marked_at w a c u.plc_list) (sym l)
marked_at-Loaded mem w a c (e ∷ es) s t (m, v, l) =
    rw (marked_at-Loaded mem w a c es m t l, marked_at-Added v w a c, v.index) (ground arith)

-- When the loop over the array comes to its end, started with empty lists, it has read every element,
-- and a register of a PLC is marked for a length exactly if an element for this PLC with this length
-- has the register as its reply channel.
pub read_items-stands_for :
    (J : CJson) (mem : Memory) (items : List J.Item) (t : Switches)
    → read_items J mem 0 items (record { switch_list = []; plc_list = [] }) ≡ ok t
    → (es : List Entry) × (map (read_entry J) items ≡ map ok es)
      × ((w : Bool) (addr : ℤ) (c : ℕ) → marked_at w addr c t.plc_list ≡ stands_for w addr c es)
unfolding marked_at get_plc_node
read_items-stands_for J mem items t h =
    let (es, reads, loaded) = read_items-Loaded J mem 0 items _ t h in
    (es, reads, λ w addr c. marked_at-Loaded mem w addr c es _ t loaded ∙ ground arith)
