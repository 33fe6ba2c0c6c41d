-- ===== src/Switches/Banks.antt =====
-- src/parse_switch.c: the marks of a PLC's registers and their bounds after loading.
use edgebox.Prelude.{
  ℕ, ◌≤◌, ◌≡◌, refl, ◌⊎◌, inl, inr, Bool, true, false, none, some, List, [], ◌∷◌, ◌==◌,
  if◌then◌else◌, arith, Bool-cases, ==_iff,
}
use edgebox.Prelude.CInt.{ℤ, pos, negsuc, eq_int}
use edgebox.Prelude.Text.{Text}
use edgebox.Prelude.Run.{ok}
use edgebox.Json.{CJson}
use edgebox.Switches.{
  PlcNode, Bank, Switches, Entry, Memory, get_plc_node, update_plc_node, new_plc_node, register,
  empty_bank, at_least, reply_channel, register_index, read_items, mark, max_reg_addr,
}
use edgebox.Switches.Lookup.{Added, Loaded, read_items-Loaded}

abbrev pub AtMost : ℕ → ℤ → Type 0
AtMost i (pos l) = i ≤ l
AtMost i (negsuc l) = ⊥

-- The bounds enclose the marked registers, and are marked themselves unless nothing is.
pub record IsBank (b : Bank) : Type 0 where
  pub low : (i : ℕ) → b.channel i ≡ 1 → b.first ≤ i
  pub high : (i : ℕ) → b.channel i ≡ 1 → AtMost i b.last
  pub inside : (i : ℕ) → b.channel i ≡ 1 → i ≤ max_reg_addr
  pub first_marked : b.first ≤ max_reg_addr → b.channel b.first ≡ 1
  pub last_marked : (l : ℕ) → b.last ≡ pos l → b.channel l ≡ 1

empty_bank-IsBank : IsBank empty_bank
empty_bank-IsBank = record {
  low = λ i h. ground arith;
  high = λ i h. ground arith;
  inside = λ i h. ground arith;
  first_marked = λ h. ground arith;
  last_marked = λ l h. ground arith;
}

AtMost-max : (z : ℤ) (i c : ℕ) → AtMost i z ⊎ (i ≡ c) → AtMost i (if at_least c z then pos c else z)
AtMost-max (pos l) i c (inl h) = ground arith
AtMost-max (pos l) i c (inr h) = ground arith
AtMost-max (negsuc l) i c (inl h) = absurd h
AtMost-max (negsuc l) i c (inr h) = omega arith

marked-max :
    (z : ℤ) (channel : ℕ → ℕ) (l c : ℕ)
    → ((k : ℕ) → z ≡ pos k → channel k ≡ 1)
    → (if at_least c z then pos c else z) ≡ pos l
    → (if l == c then 1 else channel l) ≡ 1
marked-max (pos m) channel l c marked h = ground (arith, marked m refl)
marked-max (negsuc m) channel l c marked h = ground arith

module _ (c : ℕ) (b : Bank) (fits : c ≤ max_reg_addr) (v : IsBank b) where
  mark-low : (i : ℕ) → (mark c b).channel i ≡ 1 → (mark c b).first ≤ i
  unfolding mark
  mark-low i h = ground (arith, v.low i)

  mark-high : (i : ℕ) → (mark c b).channel i ≡ 1 → AtMost i (mark c b).last
  unfolding mark
  mark-high i h = elim (Bool-cases (i == c)) [
    | inl at_c ↦ AtMost-max b.last i c (inr ((==_iff i c).0 at_c))
    | inr off ↦ AtMost-max b.last i c (inl (v.high i (rw (off) at h)))
  ]

  mark-first : (mark c b).first ≤ max_reg_addr → (mark c b).channel (mark c b).first ≡ 1
  unfolding mark
  mark-first h = ground (arith, v.first_marked)

  mark-last : (l : ℕ) → (mark c b).last ≡ pos l → (mark c b).channel l ≡ 1
  unfolding mark
  mark-last l h = marked-max b.last b.channel l c v.last_marked h

  mark-IsBank : IsBank (mark c b)
  unfolding mark
  mark-IsBank = record {
    low = mark-low;
    high = mark-high;
    inside = λ i h. ground (arith, v.inside i);
    first_marked = mark-first;
    last_marked = mark-last;
  }

abbrev BothBanks : PlcNode → Type 0
BothBanks p = IsBank p.bank_1B × IsBank p.bank_2B

-- Every PLC's banks are in order.
abbrev pub AllBanks : List PlcNode → Type 0
AllBanks [] = Unit {0}
AllBanks (p ∷ ps) = BothBanks p × AllBanks ps

if-IsBank : (t : Bool) (b d : Bank) → IsBank b → IsBank d → IsBank (if t then b else d)
if-IsBank true b d v w = v
if-IsBank false b d v w = w

register-BothBanks :
    (name : Text) (c : ℕ) (len : ℤ) (p : PlcNode)
    → c ≤ max_reg_addr
    → BothBanks p
    → BothBanks (register name c len p)
unfolding register
register-BothBanks name c len p fits v = (
  if-IsBank (eq_int len (pos 1)) _ _ (mark-IsBank c p.bank_1B fits v.0) v.0,
  if-IsBank (eq_int len (pos 2)) _ _ (mark-IsBank c p.bank_2B fits v.1) v.1,
)

AllBanks-update :
    (addr : ℤ) (f : PlcNode → PlcNode) (ps : List PlcNode)
    → ((p : PlcNode) → BothBanks p → BothBanks (f p))
    → AllBanks ps
    → AllBanks (update_plc_node addr f ps)
unfolding update_plc_node
AllBanks-update addr f [] keep v = tt
AllBanks-update addr f (p ∷ ps) keep v = elim (Bool-cases (eq_int p.addr_485 addr)) [
  | inl hit ↦ rw hit (keep p v.0, v.1)
  | inr miss ↦ rw miss (v.0, AllBanks-update addr f ps keep v.1)
]

register_index-le : (z : ℤ) (c : ℕ) → register_index z ≡ some c → c ≤ max_reg_addr
register_index-le (pos n) c h = ground arith
register_index-le (negsuc n) c h = cc

Added-AllBanks :
    {mem : Memory} {e : Entry} {s t : Switches}
    → Added mem e s t
    → AllBanks s.plc_list
    → AllBanks t.plc_list
unfolding new_plc_node
Added-AllBanks {e} {s} {t} v all = rw v.plc_list (
    AllBanks-update e.plc _ v.plcs
      (λ p w.
        register-BothBanks e.name v.channel e.reg_len p
          (register_index-le (reply_channel e) v.channel v.index) w)
      (old_and_new v.found))
  where
    old_and_new :
        (v.plcs ≡ s.plc_list)
          ⊎ ((get_plc_node e.plc s.plc_list ≡ none) × (v.plcs ≡ new_plc_node e.plc ∷ s.plc_list))
        → AllBanks v.plcs
    old_and_new (inl same) = rw same all
    old_and_new (inr (_, new)) = rw new ((empty_bank-IsBank, empty_bank-IsBank), all)

Loaded-AllBanks :
    (mem : Memory) (es : List Entry) (s t : Switches)
    → Loaded mem es s t
    → AllBanks s.plc_list
    → AllBanks t.plc_list
Loaded-AllBanks mem [] s t l all = rw (← l) all
Loaded-AllBanks mem (e ∷ es) s t (m, v, l) all = Loaded-AllBanks mem es m t l (Added-AllBanks v all)

-- When the loop over the array comes to its end, started with empty lists, in every PLC and for both
-- register lengths the marked registers lie between the bounds and inside the arrays, and the bounds
-- are marked registers unless nothing is marked.
pub read_items-AllBanks :
    (J : CJson) (mem : Memory) (items : List J.Item) (t : Switches)
    → read_items J mem 0 items (record { switch_list = []; plc_list = [] }) ≡ ok t
    → AllBanks t.plc_list
read_items-AllBanks J mem items t h =
    let (es, _, loaded) = read_items-Loaded J mem 0 items _ t h in
    Loaded-AllBanks mem es _ t loaded tt
