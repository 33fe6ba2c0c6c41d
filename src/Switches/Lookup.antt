-- ===== src/Switches/Lookup.antt =====
-- src/parse_switch.c: the lists after loading, as functions of the elements that were loaded.
use edgebox.Prelude.{
  ℕ, ◌+◌, ◌*◌, ◌≡◌, refl, ◌⊎◌, inl, inr, Bool, true, none, some, List, [], ◌∷◌, map, ltb, length,
  arith, Option-cases, lt→ltb, ◌<◌,
}
use edgebox.Prelude.CInt.{ℤ, eq_int_self}
use edgebox.Prelude.Run.{ok, defined, allocated, deref, bind-ok}
use edgebox.Json.{CJson}
use edgebox.Switches.{
  SwitchNode, PlcNode, Switches, Entry, Memory, add_switch_to_list, add_plc_to_list, get_plc_node,
  update_plc_node, new_plc_node, register, reply_channel, register_index, find_or_add_plc,
  add_entry, read_entry, read_items, name_size,
}

-- What a switch becomes in the list.
abbrev pub node_of : Memory → Entry → SwitchNode
node_of mem e = record {
  name = e.name;
  plc = e.plc;
  plc_channel = e.plc_channel;
  plc_channel_ro = e.plc_channel_ro;
  reg_len = e.reg_len;
  v = mem.junk;
}

-- What one round of the loop has done, if it came to its end.
pub record Added (mem : Memory) (e : Entry) (s t : Switches) : Type 0 where
  pub channel : ℕ
  pub index : register_index (reply_channel e) ≡ some channel
  pub plcs : List PlcNode
  pub found :
      (plcs ≡ s.plc_list)
      ⊎ ((get_plc_node e.plc s.plc_list ≡ none) × (plcs ≡ new_plc_node e.plc ∷ s.plc_list))
  pub present : (p : PlcNode) × (get_plc_node e.plc plcs ≡ some p)
  pub switch_list : t.switch_list ≡ node_of mem e ∷ s.switch_list
  pub plc_list : t.plc_list ≡ update_plc_node e.plc (register e.name channel e.reg_len) plcs

get_plc_node-new :
    (addr : ℤ) (ps : List PlcNode)
    → get_plc_node addr (new_plc_node addr ∷ ps) ≡ some (new_plc_node addr)
unfolding get_plc_node new_plc_node
get_plc_node-new addr ps = rw (eq_int_self addr)

find_or_add_cases :
    (f : Bool) (addr : ℤ) (ps plcs : List PlcNode)
    → find_or_add_plc f addr ps ≡ ok plcs
    → ((plcs ≡ ps) ⊎ ((get_plc_node addr ps ≡ none) × (plcs ≡ new_plc_node addr ∷ ps)))
      × ((p : PlcNode) × (get_plc_node addr plcs ≡ some p))
unfolding find_or_add_plc add_plc_to_list
find_or_add_cases f addr ps plcs h = elim (Option-cases (get_plc_node addr ps)) [
  | inl e ↦
      let new : plcs ≡ new_plc_node addr ∷ ps = ground arith in
      (inr (e, new), (new_plc_node addr, rw new (get_plc_node-new addr ps)))
  | inr (p, e) ↦ let old : plcs ≡ ps = ground arith in (inl old, (p, rw old e))
]

register_index_cases : (z : ℤ) {c : ℕ} → deref (register_index z) ≡ ok c → register_index z ≡ some c
register_index_cases z h = elim (Option-cases (register_index z)) [
  | inl e ↦ cc (rw e at h)
  | inr (d, e) ↦ cc (e, rw e at h)
]

pub add_entry-Added :
    (mem : Memory) (n : ℕ) (e : Entry) (s t : Switches)
    → add_entry mem n e s ≡ ok t
    → Added mem e s t
unfolding add_entry add_switch_to_list
add_entry-Added mem n e s t h =
    let (_, _, h₁) = bind-ok (allocated (mem.found (3 * n))) _ h in
    let (_, _, h₂) = bind-ok (defined (ltb (length e.name) name_size)) _ h₁ in
    let (plcs, found, h₃) =
      bind-ok (find_or_add_plc (mem.found (3 * n + 1)) e.plc s.plc_list) _ h₂ in
    let (_, _, h₄) = bind-ok (allocated (mem.found (3 * n + 2))) _ h₃ in
    let (_, _, h₅) = bind-ok (defined (ltb (length e.name) (mem.usable (length e.name)))) _ h₄ in
    let (c, index, h₆) = bind-ok (deref (register_index (reply_channel e))) _ h₅ in
    let (cases, present) = find_or_add_cases (mem.found (3 * n + 1)) e.plc s.plc_list plcs found in
    record {
      channel = c;
      index = register_index_cases (reply_channel e) index;
      plcs = plcs;
      found = cases;
      present = present;
      switch_list = cc;
      plc_list = cc;
    }

-- The loop has gone through the elements `es`, in this order.
abbrev pub Loaded : Memory → List Entry → Switches → Switches → Type 0
Loaded mem [] s t = s ≡ t
Loaded mem (e ∷ es) s t = (m : Switches) × Added mem e s m × Loaded mem es m t

-- A loop that comes to its end has read every element of the array.
pub read_items-Loaded :
    (J : CJson) (mem : Memory) (n : ℕ) (items : List J.Item) (s t : Switches)
    → read_items J mem n items s ≡ ok t
    → (es : List Entry) × (map (read_entry J) items ≡ map ok es) × Loaded mem es s t
unfolding read_items
read_items-Loaded J mem n [] s t h = ([], refl, cc)
read_items-Loaded J mem n (sw ∷ sws) s t h =
    let (e, read, h₁) = bind-ok (read_entry J sw) _ h in
    let (m, added, h₂) = bind-ok (add_entry mem n e s) _ h₁ in
    let (es, reads, loaded) = read_items-Loaded J mem (n + 1) sws m t h₂ in
    (e ∷ es, rw (read, reads), (m, add_entry-Added mem n e s m added, loaded))

-- What a round needs: memory, room for the name in both places, and a channel inside the arrays.
pub record Fits (mem : Memory) (e : Entry) : Type 0 where
  pub channel : ℕ
  pub index : register_index (reply_channel e) ≡ some channel
  pub short : length e.name < name_size
  pub room : length e.name < mem.usable (length e.name)

abbrev pub AllFit : Memory → List Entry → Type 0
AllFit mem [] = Unit {0}
AllFit mem (e ∷ es) = Fits mem e × AllFit mem es

abbrev pub Found : Memory → Type 0
Found mem = (i : ℕ) → mem.found i ≡ true

find_or_add_ok :
    (addr : ℤ) (ps : List PlcNode)
    → (plcs : List PlcNode) × (find_or_add_plc true addr ps ≡ ok plcs)
unfolding find_or_add_plc add_plc_to_list
find_or_add_ok addr ps = elim (Option-cases (get_plc_node addr ps)) [
  | inl e ↦ (new_plc_node addr ∷ ps, rw (e, find_or_add_plc))
  | inr (p, e) ↦ (ps, rw (e, find_or_add_plc))
]

pub add_entry-ok :
    (mem : Memory) (n : ℕ) (e : Entry) (s : Switches)
    → Found mem
    → Fits mem e
    → (t : Switches) × (add_entry mem n e s ≡ ok t)
unfolding add_entry add_switch_to_list
add_entry-ok mem n e s found v =
    let (plcs, h) = find_or_add_ok e.plc s.plc_list in
    (
      record {
        switch_list = node_of mem e ∷ s.switch_list;
        plc_list = update_plc_node e.plc (register e.name v.channel e.reg_len) plcs;
      },
      rw (
        found (3 * n),
        lt→ltb _ _ v.short,
        found (3 * n + 1),
        h,
        found (3 * n + 2),
        lt→ltb _ _ v.room,
        v.index,
      ),
    )

-- The loop over the array comes to its end if every element can be read, memory is found, each name
-- fits its node and its block, and each reply channel lies inside the arrays.
pub read_items-ok :
    (J : CJson) (mem : Memory) (n : ℕ) (items : List J.Item) (es : List Entry) (s : Switches)
    → map (read_entry J) items ≡ map ok es
    → Found mem
    → AllFit mem es
    → (t : Switches) × (read_items J mem n items s ≡ ok t) × Loaded mem es s t
unfolding read_items
read_items-ok J mem n [] [] s reads found fit = (s, refl, refl)
read_items-ok J mem n [] (e ∷ es) s reads found fit = cc
read_items-ok J mem n (sw ∷ sws) [] s reads found fit = cc
read_items-ok J mem n (sw ∷ sws) (e ∷ es) s reads found fit =
    let (m, h) = add_entry-ok mem n e s found fit.0 in
    let read : read_entry J sw ≡ ok e = cc in
    let rest : map (read_entry J) sws ≡ map ok es = cc in
    let (t, h', loaded) = read_items-ok J mem (n + 1) sws es m rest found fit.1 in
    (t, rw (read, read_items, h) h', (m, add_entry-Added mem n e s m h, loaded))
