-- ===== src/Switches.antt =====
-- src/parse_switch.c: the list of switches, the list of PLCs with their registers, and the loading of
-- switches.json into both. A node that is changed in place is the first one with its address, which is
-- the one that `get_plc_node` finds.
pub mod Lookup
pub mod Loads
pub mod Names
pub mod Banks
pub mod Marks
pub mod Free
pub mod Examples
use edgebox.Prelude.{
  ℕ, ◌+◌, ◌*◌, ◌≡◌, Bool, true, false, Option, none, some, List, [], ◌∷◌, ◌==◌, ltb, leb, length,
  if◌then◌else◌,
}
use edgebox.Prelude.CInt.{ℤ, pos, negsuc, eq_int}
use edgebox.Prelude.Text.{Text, codes, text_eq, strtol16}
use edgebox.Prelude.Run.{Run, ok, ◌>>=◌, ◌>>◌, defined, allocated, deref}
use edgebox.Json.{CJson}

abbrev pub max_reg_addr : ℕ
max_reg_addr = 1024

-- The size of `name` in `struct switch_node`.
abbrev pub name_size : ℕ
name_size = 64

-- `struct switch_node` but for the link and for `type`, which nothing reads; `v` is `v.intv`.
pub record SwitchNode : Type 0 where
  pub name : Text
  pub plc : ℤ
  pub plc_channel : ℤ
  pub plc_channel_ro : ℤ
  pub reg_len : ℤ
  pub v : ℤ

-- The registers of one length of a PLC: the marks, and the lowest and the highest marked one.
pub record Bank : Type 0 where
  pub channel : ℕ → ℕ
  pub first : ℕ
  pub last : ℤ

-- `struct plc_node` but for the link; `bank_1B` and `bank_2B` hold the fields with these endings.
pub record PlcNode : Type 0 where
  pub addr_485 : ℤ
  pub bank_1B : Bank
  pub bank_2B : Bank
  pub reg2name : ℕ → Option Text

-- The two global lists; the head comes first.
pub record Switches : Type 0 where
  pub switch_list : List SwitchNode
  pub plc_list : List PlcNode

-- `add_switch_to_list`
unfoldable pub add_switch_to_list : SwitchNode → List SwitchNode → List SwitchNode
add_switch_to_list p head = p ∷ head

-- `get_switch_node`
unfoldable pub get_switch_node : Text → List SwitchNode → Option SwitchNode
get_switch_node name [] = none
get_switch_node name (p ∷ ps) = if text_eq p.name name then some p else get_switch_node name ps

-- `add_plc_to_list`
unfoldable pub add_plc_to_list : PlcNode → List PlcNode → List PlcNode
add_plc_to_list p head = p ∷ head

-- `get_plc_node`
unfoldable pub get_plc_node : ℤ → List PlcNode → Option PlcNode
get_plc_node addr [] = none
get_plc_node addr (p ∷ ps) = if eq_int p.addr_485 addr then some p else get_plc_node addr ps

-- A change in place of the node that `get_plc_node` finds.
unfoldable pub update_plc_node : ℤ → (PlcNode → PlcNode) → List PlcNode → List PlcNode
update_plc_node addr f [] = []
update_plc_node addr f (p ∷ ps) =
    if eq_int p.addr_485 addr then f p ∷ ps else p ∷ update_plc_node addr f ps

abbrev pub empty_bank : Bank
empty_bank = record { channel = λ _. 0; first = max_reg_addr + 1; last = negsuc 0 }

-- A node behind the `memset` and the five assignments.
unfoldable pub new_plc_node : ℤ → PlcNode
new_plc_node addr = record {
  addr_485 = addr;
  bank_1B = empty_bank;
  bank_2B = empty_bank;
  reg2name = λ _. none;
}

abbrev pub at_least : ℕ → ℤ → Bool
at_least c (pos l) = leb l c
at_least c (negsuc l) = true

-- `if (channel <= first) …; if (channel >= last) …; channel[…] = 1`
unfoldable pub mark : ℕ → Bank → Bank
mark c b = record {
  channel = λ i. if i == c then 1 else b.channel i;
  first = if leb c b.first then c else b.first;
  last = if at_least c b.last then pos c else b.last;
}

-- What a switch with register `c` and length `len` changes in its PLC's node.
unfoldable pub register : Text → ℕ → ℤ → PlcNode → PlcNode
unfolding mark
register name c len p = record p {
  reg2name = λ i. if i == c then some name else p.reg2name i;
  bank_1B = if eq_int len (pos 1) then mark c p.bank_1B else p.bank_1B;
  bank_2B = if eq_int len (pos 2) then mark c p.bank_2B else p.bank_2B;
}

-- One element of the array, read: the number of the read-only channel is -1 if there is none.
pub record Entry : Type 0 where
  pub name : Text
  pub plc : ℤ
  pub plc_channel : ℤ
  pub plc_channel_ro : ℤ
  pub reg_len : ℤ

-- The channel under which replies come: the read-only one, if it is defined.
abbrev pub reply_channel : Entry → ℤ
reply_channel e = elim e.plc_channel_ro [ pos n ↦ pos n | negsuc n ↦ e.plc_channel ]

-- Is it an index of the arrays of `struct plc_node`?
abbrev pub register_index : ℤ → Option ℕ
register_index (pos n) = if leb n max_reg_addr then some n else none
register_index (negsuc n) = none

module _ (J : CJson) where
  open J use {Item, parse, get_object_item, children, valuestring}

  -- `strtol(item->valuestring, NULL, 16)` of a field that has to be there.
  hex_field : Item → Text → Run ℤ
  hex_field sw key = do
    item ← deref (get_object_item sw key)
    text ← deref (valuestring item)
    ok (strtol16 text)

  -- `(plc_channel_ro == NULL) ? -1 : strtol(…)`
  optional_hex_field : Item → Text → Run ℤ
  optional_hex_field sw key = elim (get_object_item sw key) [
    | none ↦ ok (negsuc 0)
    | some item ↦ do text ← deref (valuestring item); ok (strtol16 text)
  ]

  unfoldable pub read_entry : Item → Run Entry
  unfolding hex_field optional_hex_field
  read_entry sw = do
    plc ← hex_field sw (codes "plc")
    channel ← hex_field sw (codes "plc_channel")
    ro ← optional_hex_field sw (codes "plc_channel_ro")
    len ← hex_field sw (codes "reg_len")
    item ← deref (get_object_item sw (codes "name"))
    name ← deref (valuestring item)
    ok (record {
      name = name;
      plc = plc;
      plc_channel = channel;
      plc_channel_ro = ro;
      reg_len = len;
    })

-- What is there besides the program: which calls of `malloc` find memory, how many bytes a block that
-- was asked for as `n` bytes can take, and what a fresh block holds where `v.intv` will lie.
pub record Memory : Type 0 where
  pub found : ℕ → Bool
  pub usable : ℕ → ℕ
  pub junk : ℤ

-- `get_plc_node`, and a new node at the head if there is none.
unfoldable pub find_or_add_plc : Bool → ℤ → List PlcNode → Run (List PlcNode)
find_or_add_plc found addr ps = elim (get_plc_node addr ps) [
  | some p ↦ ok ps
  | none ↦ allocated found >> ok (add_plc_to_list (new_plc_node addr) ps)
]

-- The rest of the loop's body: the node for the switch, that of its PLC, and the copy of the name, for
-- which the code asks for a block of `strlen` bytes and writes one byte more. `n` counts the rounds.
unfoldable pub add_entry : Memory → ℕ → Entry → Switches → Run Switches
add_entry mem n e s = do
  allocated (mem.found (3 * n))
  defined (ltb (length e.name) name_size)
  let node : SwitchNode = record {
    name = e.name;
    plc = e.plc;
    plc_channel = e.plc_channel;
    plc_channel_ro = e.plc_channel_ro;
    reg_len = e.reg_len;
    v = mem.junk;
  }
  plcs ← find_or_add_plc (mem.found (3 * n + 1)) e.plc s.plc_list
  allocated (mem.found (3 * n + 2))
  defined (ltb (length e.name) (mem.usable (length e.name)))
  c ← deref (register_index (reply_channel e))
  ok (record {
    switch_list = add_switch_to_list node s.switch_list;
    plc_list = update_plc_node e.plc (register e.name c e.reg_len) plcs;
  })

module _ (J : CJson) (mem : Memory) where
  open J use {Item, parse, get_object_item, children}

  -- `cJSON_ArrayForEach(sw, switches)`
  unfoldable pub read_items : ℕ → List Item → Switches → Run Switches
  unfolding read_entry
  read_items n [] s = ok s
  read_items n (sw ∷ sws) s = do
    e ← read_entry J sw
    s' ← add_entry mem n e s
    read_items (n + 1) sws s'

-- What the calls of the system give: whether `stat`, `open` and `malloc` succeed, and the text that the
-- buffer then holds.
pub record SwitchesFile : Type 0 where
  pub stat_ok : Bool
  pub open_ok : Bool
  pub buffer_ok : Bool
  pub content : Text

-- `readSwitches`. A text that does not parse is logged and then looked into as NULL, which has no
-- fields: the lists stay as they are.
unfoldable pub read_switches : CJson → Memory → SwitchesFile → Switches → Run Switches
read_switches J mem file s =
    allocated file.stat_ok
    >> allocated file.open_ok
    >> allocated file.buffer_ok
    >> elim (J.parse file.content) [
      | none ↦ ok s
      | some root ↦ elim (J.get_object_item root (codes "switches")) [
        | none ↦ ok s
        | some switches ↦ read_items J mem 0 (J.children switches) s
      ]
    ]
