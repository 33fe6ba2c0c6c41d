-- ===== src/Uplink/Words/Faults.antt =====
-- src/wsclient.c, src/mqtt.c: replies with registers of two bytes that the code cannot take.
use edgebox.Prelude.{
  ℕ, zero, suc, ◌+◌, ◌-◌, ◌*◌, ◌/◌, ◌%◌, ◌^◌, ◌≤◌, ◌<◌, ◌≡◌, ◌≢◌, ◌⊎◌, inl, inr, ap, Bool, true,
  false, some, List, ◌∷◌, length, get_elem?, leb, arith, Bool-cases, ltb, Option-cases,
}
use edgebox.Prelude.CInt.{ℤ, pos, s32}
use edgebox.Prelude.Text.{Text, codes}
use edgebox.Prelude.Run.{ok, fault}
use edgebox.Json.{CJson, attach}
use edgebox.Crc.Reference.{AllBytes}
use edgebox.Hex.{hex2ascii}
use edgebox.Hex.RoundTrip.{ascii2hex-hex2ascii}
use edgebox.Switches.{PlcNode, get_plc_node, max_reg_addr}
use edgebox.Report.{
  Reporter, two_byte_value, register_value, switch_number, add_switches,
  eb_report_switch_data_for_loranode,
}
use edgebox.Uplink.{Stack, hex_array, hex_size, max_1byte_len_reg, eb_ws_parse_non_weather_data}
use edgebox.Uplink.Registers.{hex_array-values}

module _ (J : CJson) where
  open J use {Item, create_object, create_string, add_item}

  -- A register whose value is a fault makes the loop one, if the values before it are none that exit.
  add_switches-fault :
      (found : ℕ → Bool) (p : PlcNode) (start_addr : ℕ) (hexdata : ℕ → ℕ) (reg_size k rounds i : ℕ)
      (params : Item)
      → ((j : ℕ) → found j ≡ true)
      → ((j : ℕ)
          → ((value : ℤ) × (register_value reg_size hexdata j ≡ ok value))
            ⊎ (register_value reg_size hexdata j ≡ fault))
      → register_value reg_size hexdata k ≡ fault
      → i ≤ k
      → k < i + rounds
      → add_switches J found p start_addr hexdata reg_size rounds i params ≡ fault
  unfolding add_switches
  add_switches-fault found p start hexdata size k zero i params all cases bad lo hi =
      absurd (omega arith)
  add_switches-fault found p start hexdata size k (suc rounds) i params all cases bad lo hi =
      elim (cases i) [
        | inr now ↦ rw now
        | inl (value, reads) ↦
            let later : i ≢ k = λ e. cc (reads, bad, ap (register_value size hexdata) e) in
            let rest : (q : Item)
                → add_switches J found p start hexdata size rounds (i + 1) q ≡ fault =
              λ q.
                add_switches-fault found p start hexdata size k rounds (i + 1) q all cases bad
                  (omega (arith, later)) (omega arith) in
            elim (Bool-cases (leb (start + i) max_reg_addr)) [
              | inr outside ↦ rw (reads, outside)
              | inl inside ↦ elim (Option-cases (p.reg2name (start + i))) [
                | inl unnamed ↦ rw (reads, inside, unnamed, rest params)
                | inr (name, is_named) ↦ rw (
                  reads,
                  inside,
                  is_named,
                  all (2 * i),
                  all (2 * i + 1),
                  rest (add_item params name (switch_number J name value)),
                )
              ]
            ]
      ]

  two_byte_cases :
      (hexdata : ℕ → ℕ) (j : ℕ)
      → ((value : ℤ) × (register_value 2 hexdata j ≡ ok value))
        ⊎ (register_value 2 hexdata j ≡ fault)
  unfolding register_value two_byte_value
  two_byte_cases hexdata j = elim (Bool-cases (ltb (8 + hexdata (j * 2 + 1)) 32)) [
    | inl narrow ↦
        inl (s32 (hexdata (j * 2) * 2 ^ (8 + hexdata (j * 2 + 1)) % 4294967296), rw narrow)
    | inr wide ↦ inr (rw wide)
  ]

  report-fault :
      (found node_found : ℕ → Bool) (lorasn : Text) (plc : ℤ) (plcs : List PlcNode) (p : PlcNode)
      (start_addr : ℕ) (hexdata : ℕ → ℕ) (rounds reg_size k : ℕ) (r : Reporter)
      → ((j : ℕ) → found j ≡ true)
      → ((j : ℕ) → node_found j ≡ true)
      → get_plc_node plc plcs ≡ some p
      → ((j : ℕ)
          → ((value : ℤ) × (register_value reg_size hexdata j ≡ ok value))
            ⊎ (register_value reg_size hexdata j ≡ fault))
      → register_value reg_size hexdata k ≡ fault
      → k < rounds
      → eb_report_switch_data_for_loranode J found node_found lorasn plc plcs start_addr hexdata
          rounds reg_size r
        ≡ fault
  unfolding eb_report_switch_data_for_loranode
  report-fault found node_found lorasn plc plcs p start hexdata rounds size k r all nodes known
        cases bad counted =
      rw (
        all 0,
        all 1,
        all 3,
        all 5,
        all 7,
        known,
        add_switches-fault node_found p start hexdata size k rounds 0
            (attach J (found 8) create_object (codes "loraNodeSerialNo") (create_string lorasn))
            nodes cases bad (omega arith) (omega arith),
      )

  wide_shift :
      (env : Stack) (a b c d e : ℕ) (vs : List ℕ) (k low : ℕ)
      → get_elem? vs (k * 2 + 1) ≡ some low
      → 24 ≤ low
      → register_value 2 (λ i. hex_array env (a ∷ b ∷ c ∷ d ∷ e ∷ vs) (5 + i)) k ≡ fault
  unfolding register_value two_byte_value
  wide_shift env a b c d e vs k low at_low wide =
      let second : 5 + (k * 2 + 1) ≡ 5 + (0 + (k * 2 + 1)) = omega arith in
      let past : ltb (8 + low) 32 ≡ false = ground arith in
      rw (second, hex_array-values env a b c d e vs (k * 2 + 1) low at_low, past)

  -- With memory, the reply of a known PLC that starts with an address from 512 on and has a register
  -- among those counted whose low byte is 24 or more is no reply that the code can take: the shift is as
  -- wide as an `int`, or the registers before it lead to a fault. The reply is made of bytes and fits
  -- the array.
  pub word_fault :
      (env : Stack) (plcs : List PlcNode) (p : PlcNode) (lorasn : Text) (plc f n sh sl : ℕ)
      (vs : List ℕ) (k low : ℕ) (r : Reporter)
      → ((j : ℕ) → env.found j ≡ true)
      → ((j : ℕ) → env.node_found j ≡ true)
      → AllBytes (plc ∷ f ∷ n ∷ sh ∷ sl ∷ vs)
      → get_plc_node (pos plc) plcs ≡ some p
      → max_1byte_len_reg < sh * 256 + sl
      → k < (n - 2) / 2
      → get_elem? vs (k * 2 + 1) ≡ some low
      → 24 ≤ low
      → length vs + 5 ≤ hex_size
      → eb_ws_parse_non_weather_data J env plcs lorasn (hex2ascii (plc ∷ f ∷ n ∷ sh ∷ sl ∷ vs)) r
        ≡ fault
  unfolding eb_ws_parse_non_weather_data
  word_fault env plcs p lorasn plc f n sh sl vs k low r all nodes bytes known high counted at_low
        wide fits =
      let bs : List ℕ = plc ∷ f ∷ n ∷ sh ∷ sl ∷ vs in
      let room : leb (length bs) hex_size ≡ true = ground arith in
      let two_bytes : leb (sh * 256 + sl) max_1byte_len_reg ≡ false = ground arith in
      rw (ascii2hex-hex2ascii bs bytes, room, two_bytes)
        (report-fault env.found env.node_found lorasn (pos plc) plcs p (sh * 256 + sl)
          (λ j. hex_array env bs (5 + j)) ((n - 2) / 2) 2 k r all nodes known
          (two_byte_cases (λ j. hex_array env bs (5 + j)))
          (wide_shift env plc f n sh sl vs k low at_low wide) counted)
