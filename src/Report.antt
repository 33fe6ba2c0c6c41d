-- ===== src/Report.antt =====
-- src/mqtt.c: the reports that the gateway publishes at the hub. The JSON text of a weather report is
-- printed byte by byte, that of a switch report by the library.
pub mod Decimals
pub mod Examples
use edgebox.Prelude.{
  ℕ, zero, suc, ◌+◌, ◌-◌, ◌*◌, ◌/◌, ◌%◌, ◌^◌, Bool, not, true, false, ◌&&◌, Option, none, some,
  List, [], ◌∷◌, ◌++◌, get_elem?, ltb, leb, if◌then◌else◌, length,
}
use edgebox.Prelude.CInt.{ℤ, pos, negsuc, s32}
use edgebox.Prelude.Decimal.{decimal, int_digits}
use edgebox.Prelude.Text.{Text, codes, text_eq}
use edgebox.Prelude.Run.{Run, ok, fault, ◌>>=◌, ◌>>◌, defined, deref}
use edgebox.Json.{CJson, number, tenths, attach}
use edgebox.Switches.{PlcNode, get_plc_node, max_reg_addr}

-- A message as `MQTTPublish` gets it, always with QoS 0. The identifier is an unsigned short.
pub record MqttMessage : Type 0 where
  pub topic : Text
  pub id : ℕ
  pub payload : Text

-- The topic, the two counters, and what was published, the latest last.
pub record Reporter : Type 0 where
  pub eb_pub_topic : Text
  pub msgid_in_payload : ℕ
  pub msgid : ℕ
  pub published : List MqttMessage

-- `eb_publish`. The result of `MQTTPublish` is only logged.
unfoldable pub eb_publish : Text → Reporter → Reporter
eb_publish content r = record r {
  msgid = r.msgid + 1;
  published =
      r.published
      ++ record { topic = r.eb_pub_topic; id = r.msgid % 65536; payload = content } ∷ [];
}

-- `%.1f` of an integer divided by ten. A float holds the quotient of a sixteen-bit number by ten to
-- much less than half a tenth, so that the printed digit is the exact one.
unfoldable pub one_decimal : ℤ → Text
unfolding decimal
one_decimal (pos n) = decimal int_digits (n / 10) ++ b'.' ∷ (n % 10 + b'0') ∷ []
one_decimal (negsuc n) =
    b'-' ∷ (decimal int_digits ((n + 1) / 10) ++ b'.' ∷ ((n + 1) % 10 + b'0') ∷ [])

-- The formats of the weather reports, up to the values.
abbrev pub weather_head : ℕ → Text
weather_head id =
    codes "{\"id\":"
    ++ (decimal int_digits id ++ codes ",\"params\":{\"loraNodeSerialNo\":\"00000000\",\"")

abbrev pub weather_end : Text
weather_end = codes "},\"method\":\"thing.event.property.post\"}"

abbrev next_id : Reporter → Reporter
next_id r = record r { msgid_in_payload = r.msgid_in_payload + 1 }

unfoldable pub temp_hum_json : ℕ → ℤ → ℕ → Text
unfolding one_decimal
temp_hum_json id rawtemp rawhum =
    weather_head id
    ++ (codes "temperature\":"
        ++ (one_decimal rawtemp
            ++ (codes ",\"humidity\":" ++ (one_decimal (pos rawhum) ++ weather_end))))

-- `eb_report_temp_hum`: the text is shorter than its array.
unfoldable pub eb_report_temp_hum : ℤ → ℕ → Reporter → Reporter
unfolding eb_publish temp_hum_json
eb_report_temp_hum rawtemp rawhum r =
    eb_publish (temp_hum_json r.msgid_in_payload rawtemp rawhum) (next_id r)

-- The eight names, in UTF-8, from north on clockwise.
abbrev pub dirs : List Text
dirs =
    (0xe5 ∷ 0x8c ∷ 0x97 ∷ 0xe9 ∷ 0xa3 ∷ 0x8e ∷ [])
    ∷ (0xe4 ∷ 0xb8 ∷ 0x9c ∷ 0xe5 ∷ 0x8c ∷ 0x97 ∷ 0xe9 ∷ 0xa3 ∷ 0x8e ∷ [])
    ∷ (0xe4 ∷ 0xb8 ∷ 0x9c ∷ 0xe9 ∷ 0xa3 ∷ 0x8e ∷ [])
    ∷ (0xe4 ∷ 0xb8 ∷ 0x9c ∷ 0xe5 ∷ 0x8d ∷ 0x97 ∷ 0xe9 ∷ 0xa3 ∷ 0x8e ∷ [])
    ∷ (0xe5 ∷ 0x8d ∷ 0x97 ∷ 0xe9 ∷ 0xa3 ∷ 0x8e ∷ [])
    ∷ (0xe8 ∷ 0xa5 ∷ 0xbf ∷ 0xe5 ∷ 0x8d ∷ 0x97 ∷ 0xe9 ∷ 0xa3 ∷ 0x8e ∷ [])
    ∷ (0xe8 ∷ 0xa5 ∷ 0xbf ∷ 0xe9 ∷ 0xa3 ∷ 0x8e ∷ [])
    ∷ (0xe8 ∷ 0xa5 ∷ 0xbf ∷ 0xe5 ∷ 0x8c ∷ 0x97 ∷ 0xe9 ∷ 0xa3 ∷ 0x8e ∷ [])
    ∷ []

unfoldable pub wind_dir_json : ℕ → Text → Text
wind_dir_json id dir =
    weather_head id ++ (codes "windDirection\":\"" ++ (dir ++ (codes "\"" ++ weather_end)))

-- `eb_report_wind_dir`: a fault if the value is no index of `dirs`.
unfoldable pub eb_report_wind_dir : ℕ → Reporter → Run Reporter
unfolding eb_publish wind_dir_json
eb_report_wind_dir rawvalue r = do
  dir ← deref (get_elem? dirs rawvalue)
  ok (eb_publish (wind_dir_json r.msgid_in_payload dir) (next_id r))

unfoldable pub wind_speed_json : ℕ → ℕ → Text
unfolding one_decimal
wind_speed_json id rawvalue =
    weather_head id ++ (codes "windSpeed\":" ++ (one_decimal (pos rawvalue) ++ weather_end))

-- `eb_report_wind_speed`
unfoldable pub eb_report_wind_speed : ℕ → Reporter → Reporter
unfolding eb_publish wind_speed_json
eb_report_wind_speed rawvalue r =
    eb_publish (wind_speed_json r.msgid_in_payload rawvalue) (next_id r)

-- `hexdata[i*2]<<8 + hexdata[i*2+1]`, where the sum binds tighter than the shift: a fault if the
-- shift is as wide as an `int`, else the low 32 bits.
unfoldable pub two_byte_value : ℕ → ℕ → Run ℤ
two_byte_value high low =
    if ltb (8 + low) 32 then ok (s32 (high * 2 ^ (8 + low) % 4294967296)) else fault

unfoldable pub register_value : ℕ → (ℕ → ℕ) → ℕ → Run ℤ
unfolding two_byte_value
register_value (suc zero) hexdata i = ok (pos (hexdata i))
register_value _ hexdata i = two_byte_value (hexdata (i * 2)) (hexdata (i * 2 + 1))

module _ (J : CJson) where
  open J use {Item, create_object, create_string, create_number, print}

  -- `cJSON_CreateNumber` of a register's value, by the switch's name.
  unfoldable pub switch_number : Text → ℤ → Item
  switch_number name value =
      if text_eq name (codes "waterFertilizerPressure")
      then create_number (tenths value)
      else create_number (number value)

  -- The loop, with the rounds left: `none` if a value could not be made. Of the two allocations of a
  -- round the second one is that of the key, which is not checked.
  unfoldable pub add_switches :
      (ℕ → Bool) → PlcNode → ℕ → (ℕ → ℕ) → ℕ → ℕ → ℕ → Item → Run (Option Item)
  unfolding switch_number register_value
  add_switches found p_plc start_addr hexdata reg_size zero i params = ok (some params)
  add_switches found p_plc start_addr hexdata reg_size (suc rounds) i params =
      let rest =
        λ (q : Item). add_switches found p_plc start_addr hexdata reg_size rounds (i + 1) q in
      do
        value ← register_value reg_size hexdata i
        defined (leb (start_addr + i) max_reg_addr)
        elim (p_plc.reg2name (start_addr + i)) [
          | none ↦ rest params
          | some switch_name ↦
              if found (2 * i)
              then rest (
                  attach J (found (2 * i + 1)) params switch_name (switch_number switch_name value))
              else ok none
        ]

  -- The document, with the fields whose keys find memory; the parameters are complete before it is
  -- printed.
  unfoldable pub switch_document : (ℕ → Bool) → ℕ → Item → Item
  switch_document found id params =
      let root = attach J (found 2) create_object (codes "id") (create_number (number (pos id))) in
      let method =
        attach J (found 4) root (codes "method")
          (create_string (codes "thing.event.property.post")) in
      attach J (found 6) method (codes "params") params

  -- `eb_report_switch_data_for_loranode`; `rounds` is `len/reg_size`. The root and the first
  -- value that cannot be made end the report; the counter has then moved on, unless it was the root.
  -- Behind each value comes the copy of its key, and the tenth allocation is that of `cJSON_Print`; these
  -- are not checked.
  unfoldable pub eb_report_switch_data_for_loranode :
      (ℕ → Bool)
      → (ℕ → Bool)
      → Text
      → ℤ
      → List PlcNode
      → ℕ
      → (ℕ → ℕ)
      → ℕ
      → ℕ
      → Reporter
      → Run Reporter
  unfolding switch_document
  eb_report_switch_data_for_loranode found node_found lorasn plc plcs start_addr hexdata rounds
        reg_size r =
      if not (found 0)
      then ok r
      else if not (found 1 && found 3 && found 5 && found 7)
      then ok (next_id r)
      else elim (get_plc_node plc plcs) [
        | none ↦ ok (next_id r)
        | some p_plc ↦ do
          params ←
              add_switches node_found p_plc start_addr hexdata reg_size rounds 0
                (attach J (found 8) create_object (codes "loraNodeSerialNo") (create_string lorasn))
          elim params [
            | none ↦ ok (next_id r)
            | some items ↦
                defined (found 9)
                >> ok (
                    eb_publish (print (switch_document found r.msgid_in_payload items)) (next_id r))
          ]
      ]
