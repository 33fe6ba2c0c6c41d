-- ===== src/Switches/Names.antt =====
-- src/parse_switch.c: which switch a name, and which name a register, stands for after loading.
use mathlib.Core.Option
use edgebox.Prelude.{
  ℕ, ◌≡◌, refl, sym, ap, ◌∙◌, ◌⊎◌, inl, inr, true, false, Option, none, some, List, [], ◌∷◌, map,
  ◌==◌, if◌then◌else◌, arith, Bool-cases,
}
use edgebox.Prelude.CInt.{ℤ, eq_int, eq_int→eq}
use edgebox.Prelude.Text.{Text, text_eq}
use edgebox.Prelude.Run.{ok}
use edgebox.Json.{CJson}
use edgebox.Switches.{
  PlcNode, Switches, Entry, Memory, get_switch_node, get_plc_node, update_plc_node, new_plc_node,
  register, reply_channel, register_index, read_entry, read_items,
}
use edgebox.Switches.Lookup.{node_of, Added, Loaded, read_items-Loaded}

abbrev pub or_else {ℓ} : {A : Type ℓ} → Option A → Option A → Option A
or_else (some a) o = some a
or_else none o = o

-- The last element with this name.
unfoldable pub last_named : Text → List Entry → Option Entry
last_named name [] = none
last_named name (e ∷ es) =
    or_else (last_named name es) (if text_eq e.name name then some e else none)

-- The name of the last element for this PLC and this register.
unfoldable pub last_at : ℤ → ℕ → List Entry → Option Text
last_at addr c [] = none
last_at addr c (e ∷ es) = or_else (last_at addr c es) (
    if eq_int e.plc addr
    then elim (register_index (reply_channel e)) [
      | none ↦ none
      | some d ↦ if c == d then some e.name else none
    ]
    else none)

-- `get_plc_node(addr)->reg2name[c]`, and none without a node.
abbrev name_in : ℕ → Option PlcNode → Option Text
name_in c none = none
name_in c (some p) = p.reg2name c

unfoldable pub reg_name : ℤ → ℕ → List PlcNode → Option Text
reg_name addr c ps = name_in c (get_plc_node addr ps)

eq_int_apart : (p b a : ℤ) → eq_int p b ≡ false → eq_int b a ≡ true → eq_int p a ≡ false
eq_int_apart p b a h k = rw (← eq_int→eq b a k) h

pub get_plc_node-update :
    (a b : ℤ) (f : PlcNode → PlcNode) (ps : List PlcNode)
    → ((p : PlcNode) → (f p).addr_485 ≡ p.addr_485)
    → get_plc_node a (update_plc_node b f ps)
      ≡ (if eq_int b a then Option.map f (get_plc_node a ps) else get_plc_node a ps)
unfolding get_plc_node update_plc_node
get_plc_node-update a b f [] keep = ground arith
get_plc_node-update a b f (p ∷ ps) keep = elim (Bool-cases (eq_int p.addr_485 b)) [
  | inl hit ↦
      let test : eq_int b a ≡ eq_int p.addr_485 a =
        ap (λ z. eq_int z a) (sym (eq_int→eq p.addr_485 b hit)) in
      let kept : eq_int (f p).addr_485 a ≡ eq_int p.addr_485 a = ap (λ z. eq_int z a) (keep p) in
      elim (Bool-cases (eq_int p.addr_485 a)) [
        | inl at_a ↦ rw (hit, update_plc_node, get_plc_node, kept, test, at_a)
        | inr off_a ↦ rw (hit, update_plc_node, get_plc_node, kept, test, off_a)
      ]
  | inr miss ↦ ground (arith, eq_int_apart p.addr_485 b a miss, get_plc_node-update a b f ps keep)
]

pub register-addr :
    (name : Text) (c : ℕ) (len : ℤ) (p : PlcNode) → (register name c len p).addr_485 ≡ p.addr_485
unfolding register
register-addr name c len p = refl

register-reg2name :
    (name : Text) (c d : ℕ) (len : ℤ) (p : PlcNode)
    → (register name c len p).reg2name d ≡ (if d == c then some name else p.reg2name d)
unfolding register
register-reg2name name c d len p = refl

reg_name-new :
    (a b : ℤ) (c : ℕ) (ps : List PlcNode)
    → get_plc_node b ps ≡ none
    → reg_name a c (new_plc_node b ∷ ps) ≡ reg_name a c ps
unfolding reg_name get_plc_node new_plc_node
reg_name-new a b c ps h = elim (Bool-cases (eq_int b a)) [
  | inl hit ↦
      rw hit (sym (ap (name_in c) (ap (λ z. get_plc_node z ps) (sym (eq_int→eq b a hit)) ∙ h)))
  | inr miss ↦ rw miss
]

module _ {mem : Memory} {e : Entry} {s t : Switches} (v : Added mem e s t) where
  reg_name-plcs : (a : ℤ) (c : ℕ) → reg_name a c v.plcs ≡ reg_name a c s.plc_list
  reg_name-plcs a c = by v.found
    where
      by :
          (v.plcs ≡ s.plc_list)
            ⊎ ((get_plc_node e.plc s.plc_list ≡ none) × (v.plcs ≡ new_plc_node e.plc ∷ s.plc_list))
          → reg_name a c v.plcs ≡ reg_name a c s.plc_list
      by (inl same) = ap (reg_name a c) same
      by (inr (missing, new)) = ap (reg_name a c) new ∙ reg_name-new a e.plc c s.plc_list missing

  -- One round names one register of one PLC.
  reg_name-Added :
      (a : ℤ) (c : ℕ)
      → reg_name a c t.plc_list ≡ (
          if eq_int e.plc a
          then (if c == v.channel then some e.name else reg_name a c s.plc_list)
          else reg_name a c s.plc_list)
  unfolding reg_name
  reg_name-Added a c = elim (Bool-cases (eq_int e.plc a)) [
    | inl hit ↦
        let (p, present) = v.present in
        let at_a : get_plc_node a v.plcs ≡ some p =
          ap (λ z. get_plc_node z v.plcs) (sym (eq_int→eq e.plc a hit)) ∙ present in
        let old : p.reg2name c ≡ reg_name a c s.plc_list =
          sym (ap (name_in c) at_a) ∙ reg_name-plcs a c in
        rw (got, hit, at_a, register-reg2name, old)
    | inr miss ↦ rw (got, miss) (reg_name-plcs a c)
  ]
    where
      f : PlcNode → PlcNode
      f = register e.name v.channel e.reg_len

      got :
          get_plc_node a t.plc_list
          ≡ (if eq_int e.plc a then Option.map f (get_plc_node a v.plcs) else get_plc_node a v.plcs)
      got =
          ap (get_plc_node a) v.plc_list
          ∙ get_plc_node-update a e.plc f v.plcs (register-addr e.name v.channel e.reg_len)

  get_switch_node-Added :
      (name : Text)
      → get_switch_node name t.switch_list
        ≡ (if text_eq e.name name then some (node_of mem e) else get_switch_node name s.switch_list)
  unfolding get_switch_node
  get_switch_node-Added name = rw v.switch_list

pub or_else-none {ℓ} : {A : Type ℓ} (a : Option A) → or_else a none ≡ a
or_else-none none = refl
or_else-none (some a) = refl

module _ (mem : Memory) where
  pub get_switch_node-Loaded :
      (name : Text) (es : List Entry) (s t : Switches)
      → Loaded mem es s t
      → get_switch_node name t.switch_list
        ≡ or_else
            (Option.map (node_of mem) (last_named name es))
            (get_switch_node name s.switch_list)
  unfolding last_named
  get_switch_node-Loaded name [] s t l = ap (λ u. get_switch_node name u.switch_list) (sym l)
  get_switch_node-Loaded name (e ∷ es) s t (m, v, l) =
      rw (get_switch_node-Loaded name es m t l, get_switch_node-Added v name) (ground arith)

  pub reg_name-Loaded :
      (a : ℤ) (c : ℕ) (es : List Entry) (s t : Switches)
      → Loaded mem es s t
      → reg_name a c t.plc_list ≡ or_else (last_at a c es) (reg_name a c s.plc_list)
  unfolding last_at
  reg_name-Loaded a c [] s t l = ap (λ u. reg_name a c u.plc_list) (sym l)
  reg_name-Loaded a c (e ∷ es) s t (m, v, l) =
      rw (reg_name-Loaded a c es m t l, reg_name-Added v a c, v.index) (ground (arith, v.index))

-- When the loop over the array comes to its end, started with empty lists, it has read every element,
-- and a name stands for the last element of that name.
pub read_items-last_named :
    (J : CJson) (mem : Memory) (items : List J.Item) (t : Switches)
    → read_items J mem 0 items (record { switch_list = []; plc_list = [] }) ≡ ok t
    → (es : List Entry) × (map (read_entry J) items ≡ map ok es)
      × ((name : Text)
          → get_switch_node name t.switch_list ≡ Option.map (node_of mem) (last_named name es))
unfolding get_switch_node
read_items-last_named J mem items t h =
    let (es, reads, loaded) = read_items-Loaded J mem 0 items _ t h in
    (es, reads, λ name. get_switch_node-Loaded mem name es _ t loaded ∙ or_else-none _)

-- When the loop over the array comes to its end, started with empty lists, it has read every element,
-- and a register of a PLC has the name of the last element for that PLC with that register as its
-- reply channel, and no name without such an element.
pub read_items-last_at :
    (J : CJson) (mem : Memory) (items : List J.Item) (t : Switches)
    → read_items J mem 0 items (record { switch_list = []; plc_list = [] }) ≡ ok t
    → (es : List Entry) × (map (read_entry J) items ≡ map ok es)
      × ((addr : ℤ) (c : ℕ) → reg_name addr c t.plc_list ≡ last_at addr c es)
unfolding reg_name get_plc_node
read_items-last_at J mem items t h =
    let (es, reads, loaded) = read_items-Loaded J mem 0 items _ t h in
    (es, reads, λ addr c. reg_name-Loaded mem addr c es _ t loaded ∙ or_else-none _)
