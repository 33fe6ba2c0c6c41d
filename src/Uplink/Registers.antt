-- ===== src/Uplink/Registers.antt =====
-- src/wsclient.c, src/mqtt.c: the reply of a PLC, from the text to the report.
use edgebox.Prelude.{
  ℕ, zero, suc, ◌+◌, ◌-◌, ◌*◌, ◌/◌, ◌≤◌, ◌<◌, ◌≡◌, refl, sym, ap, ◌∙◌, Bool, true, none, some, List,
  [], ◌∷◌, map, take, length, get_elem?, leb, arith, Option-cases, inl, inr,
}
use edgebox.Prelude.CInt.{ℤ, pos}
use edgebox.Prelude.Text.{Text, codes}
use edgebox.Prelude.Run.{ok}
use edgebox.Json.{CJson, attach}
use edgebox.Crc.Reference.{AllBytes}
use edgebox.Hex.{hex2ascii}
use edgebox.Hex.RoundTrip.{ascii2hex-hex2ascii}
use edgebox.Switches.{PlcNode, get_plc_node, max_reg_addr}
use edgebox.Report.{
  Reporter, eb_publish, register_value, switch_number, switch_document, add_switches,
  eb_report_switch_data_for_loranode,
}
use edgebox.Uplink.{Stack, hex_array, hex_size, max_1byte_len_reg, eb_ws_parse_non_weather_data}

-- The registers from `addr` on that have a name, with their values.
unfoldable pub named : PlcNode → ℕ → List ℤ → List (Text × ℤ)
named p addr [] = []
named p addr (v ∷ vs) =
    let rest = named p (addr + 1) vs in
    elim (p.reg2name addr) [ none ↦ rest | some name ↦ (name, v) ∷ rest ]

unfoldable pub values_from : (ℕ → ℤ) → ℕ → ℕ → List ℤ
values_from value i zero = []
values_from value i (suc rounds) = value i ∷ values_from value (i + 1) rounds

-- Behind the five bytes in front of the values.
pub hex_array-values :
    (env : Stack) (a b c d e : ℕ) (vs : List ℕ) (j v : ℕ)
    → get_elem? vs j ≡ some v
    → hex_array env (a ∷ b ∷ c ∷ d ∷ e ∷ vs) (5 + (0 + j)) ≡ v
hex_array-values env a b c d e vs j v h =
    let shift : 5 + (0 + j) ≡ suc (suc (suc (suc (suc j)))) = omega arith in
    rw (shift, hex_array, h)

module _ (J : CJson) where
  open J use {Item, create_object, create_string, add_item, print}

  -- The parameters with one more number for each named register.
  unfoldable pub with_switches : List (Text × ℤ) → Item → Item
  with_switches [] params = params
  with_switches ((name, v) ∷ xs) params =
      with_switches xs (add_item params name (switch_number J name v))

  -- The loop adds the named registers in their order.
  add_switches-ok :
      (found : ℕ → Bool) (p : PlcNode) (start_addr : ℕ) (hexdata : ℕ → ℕ) (reg_size : ℕ)
      (value : ℕ → ℤ) (rounds i : ℕ) (params : Item)
      → ((j : ℕ) → found j ≡ true)
      → ((j : ℕ) → i ≤ j → j < i + rounds → register_value reg_size hexdata j ≡ ok (value j))
      → start_addr + i + rounds ≤ 1025
      → add_switches J found p start_addr hexdata reg_size rounds i params
        ≡ ok (some (with_switches (named p (start_addr + i) (values_from value i rounds)) params))
  unfolding add_switches named with_switches values_from
  add_switches-ok found p start hexdata size value zero i params all reads fits = refl
  add_switches-ok found p start hexdata size value (suc rounds) i params all reads fits =
      let inside : leb (start + i) max_reg_addr ≡ true = ground arith in
      let next : start + (i + 1) ≡ start + i + 1 = omega arith in
      let first : register_value size hexdata i ≡ ok (value i) =
        reads i (omega arith) (omega arith) in
      let others : (j : ℕ)
          → i + 1 ≤ j
          → j < i + 1 + rounds
          → register_value size hexdata j ≡ ok (value j) =
        λ j lo hi. reads j (omega arith) (omega arith) in
      elim (Option-cases (p.reg2name (start + i))) [
        | inl unnamed ↦ rw (
          first,
          inside,
          unnamed,
          add_switches-ok found p start hexdata size value rounds (i + 1) params all others
              (omega arith),
          next,
        )
        | inr (name, is_named) ↦ rw (
          first,
          inside,
          is_named,
          all (2 * i),
          all (2 * i + 1),
          add_switches-ok found p start hexdata size value rounds (i + 1)
              (add_item params name (switch_number J name (value i))) all others (omega arith),
          next,
        )
      ]

  -- The report on a node: its name, and the named registers.
  abbrev pub report_text : ℕ → Text → List (Text × ℤ) → Text
  report_text id lorasn switches = print (
      switch_document J (λ _. true) id
        (with_switches switches
          (add_item create_object (codes "loraNodeSerialNo") (create_string lorasn))))

  pub report-ok :
      (found node_found : ℕ → Bool) (lorasn : Text) (plc : ℤ) (plcs : List PlcNode) (p : PlcNode)
      (start_addr : ℕ) (hexdata : ℕ → ℕ) (rounds reg_size : ℕ) (value : ℕ → ℤ) (r : Reporter)
      → ((j : ℕ) → found j ≡ true)
      → ((j : ℕ) → node_found j ≡ true)
      → get_plc_node plc plcs ≡ some p
      → ((j : ℕ) → j < rounds → register_value reg_size hexdata j ≡ ok (value j))
      → start_addr + rounds ≤ 1025
      → eb_report_switch_data_for_loranode J found node_found lorasn plc plcs start_addr hexdata
          rounds reg_size r
        ≡ ok (
            eb_publish
              (report_text r.msgid_in_payload lorasn
                (named p start_addr (values_from value 0 rounds)))
              (record r { msgid_in_payload = r.msgid_in_payload + 1 }))
  unfolding eb_report_switch_data_for_loranode switch_document
  report-ok found node_found lorasn plc plcs p start hexdata rounds size value r all nodes known
        reads fits =
      let none_moved : start + 0 ≡ start = omega arith in
      rw (
        all 0,
        all 1,
        all 3,
        all 5,
        all 7,
        known,
        add_switches-ok node_found p start hexdata size value rounds 0
            (attach J (found 8) create_object (codes "loraNodeSerialNo") (create_string lorasn))
            nodes (λ j lo hi. reads j (omega arith)) (omega arith),
        none_moved,
        all 9,
        all 8,
        all 2,
        all 4,
        all 6,
      )

  values_from-bytes :
      (vs : List ℕ) (value : ℕ → ℤ) (rounds i : ℕ)
      → rounds ≤ length vs
      → ((j b : ℕ) → get_elem? vs j ≡ some b → value (i + j) ≡ pos b)
      → values_from value i rounds ≡ map pos (take rounds vs)
  unfolding values_from
  values_from-bytes vs value zero i short reads = refl
  values_from-bytes [] value (suc rounds) i short reads = absurd (omega arith)
  values_from-bytes (v ∷ vs) value (suc rounds) i short reads =
      let here : i + 0 ≡ i = omega arith in
      let first : value i ≡ pos v = ap value (sym here) ∙ reads 0 v refl in
      rw (
        first,
        values_from-bytes vs value rounds (i + 1) (omega arith)
            (λ j b h. ap value (later j) ∙ reads (suc j) b h),
      )
    where
      later : (j : ℕ) → i + 1 + j ≡ i + suc j
      later j = omega arith

  -- With memory, the reply of a known PLC, made of bytes, that starts with an address up to 511 is
  -- reported with one number for each register that has a name, in order: the byte of the reply at the
  -- register's place. The reply holds as many values as its count less two, or more, and fits the array.
  pub registers_reported :
      (env : Stack) (plcs : List PlcNode) (p : PlcNode) (lorasn : Text) (plc f n sh sl : ℕ)
      (vs : List ℕ) (r : Reporter)
      → ((j : ℕ) → env.found j ≡ true)
      → ((j : ℕ) → env.node_found j ≡ true)
      → AllBytes (plc ∷ f ∷ n ∷ sh ∷ sl ∷ vs)
      → get_plc_node (pos plc) plcs ≡ some p
      → sh * 256 + sl ≤ max_1byte_len_reg
      → n - 2 ≤ length vs
      → length vs + 5 ≤ hex_size
      → eb_ws_parse_non_weather_data J env plcs lorasn (hex2ascii (plc ∷ f ∷ n ∷ sh ∷ sl ∷ vs)) r
        ≡ ok (
            eb_publish
              (report_text r.msgid_in_payload lorasn
                (named p (sh * 256 + sl) (map pos (take (n - 2) vs))))
              (record r { msgid_in_payload = r.msgid_in_payload + 1 }))
  unfolding eb_ws_parse_non_weather_data register_value
  registers_reported env plcs p lorasn plc f n sh sl vs r all nodes bytes known low enough fits =
      let bs : List ℕ = plc ∷ f ∷ n ∷ sh ∷ sl ∷ vs in
      let room : leb (length bs) hex_size ≡ true = ground arith in
      let one_byte : leb (sh * 256 + sl) max_1byte_len_reg ≡ true = ground arith in
      let rounds : (n - 2) / 1 ≡ n - 2 = omega arith in
      let small : n < 256 = bytes.1.1.0 in
      let value : ℕ → ℤ = λ j. pos (hex_array env bs (5 + j)) in
      rw (ascii2hex-hex2ascii bs bytes, room, one_byte, rounds)
        (report-ok env.found env.node_found lorasn (pos plc) plcs p (sh * 256 + sl)
            (λ j. hex_array env bs (5 + j)) (n - 2) 1 value r all nodes known (λ j hi. refl)
            (omega arith)
          ∙ ap
              (λ xs. ok (
                eb_publish (report_text r.msgid_in_payload lorasn (named p (sh * 256 + sl) xs))
                  (record r { msgid_in_payload = r.msgid_in_payload + 1 })))
              (values_from-bytes vs value (n - 2) 0 enough
                (λ j b h. ap pos (hex_array-values env plc f n sh sl vs j b h))))
