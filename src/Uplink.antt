-- ===== src/Uplink.antt =====
-- src/wsclient.c: what becomes of a message from the LoRaWAN server. The data is the text of the reply
-- that a Modbus device sent: of a weather sensor, or of a PLC.
pub mod Fields
pub mod Weather
pub mod Registers
pub mod Words
pub mod Received
pub mod Published
pub mod Numbering
pub mod Examples
use edgebox.Prelude.{
  ℕ, ◌+◌, ◌-◌, ◌*◌, ◌/◌, ◌≡◌, Bool, true, false, Option, none, some, List, [], ◌∷◌, ◌++◌, leb, ltb,
  take, drop, length, get_elem?, if◌then◌else◌,
}
use edgebox.Prelude.CInt.{ℤ, pos, eq_int, u16, s16}
use edgebox.Prelude.Text.{Text, codes, text_case_eq, strtol16}
use edgebox.Prelude.Run.{Run, ok, ◌>>=◌, ◌>>◌, defined, deref}
use edgebox.Json.{CJson}
use edgebox.Hex.{ascii2hex}
use edgebox.Switches.{PlcNode}
use edgebox.Report.{
  Reporter, eb_report_temp_hum, eb_report_wind_dir, eb_report_wind_speed,
  eb_report_switch_data_for_loranode,
}

-- The globals that `readConfig` sets: the LoRa node of the weather station, which may be NULL, and
-- the addresses of its sensors.
pub record Config : Type 0 where
  pub weather_lorasn : Option Text
  pub temp_humi_485_addr : ℤ
  pub wind_dir_485_addr : ℤ
  pub wind_speed_485_addr : ℤ

-- What is there besides the program: whether the byte behind the array `dir` may be written, what
-- the last byte of that array holds, what the array `hex` holds at first, and which of the
-- allocations of a report succeed, those of its switches apart.
pub record Stack : Type 0 where
  pub dir_slack : Bool
  pub dir_junk : ℕ
  pub hex_junk : ℕ → ℕ
  pub found : ℕ → Bool
  pub node_found : ℕ → Bool

-- `strncpy(field, &data[i], 4)` as a text: a fault if the start lies behind the terminating NUL.
unfoldable pub field4 : ℕ → Text → Run Text
field4 i text = defined (leb i (length text)) >> ok (take 4 (drop i text))

-- `dir[5] = 0` writes behind the array, and leaves the byte behind four characters as it was.
abbrev pub dir_text : Stack → Text → Text
dir_text env field = if leb 4 (length field) then field ++ env.dir_junk ∷ [] else field

-- `eb_ws_parse_weather_data`
unfoldable pub eb_ws_parse_weather_data : Config → Stack → Text → Reporter → Run Reporter
unfolding field4
eb_ws_parse_weather_data config env ascii r =
    defined (leb 1 (length ascii))
    >> (let addr_485 = strtol16 (take 2 ascii) in
        if eq_int addr_485 config.temp_humi_485_addr
        then (do
          hum ← field4 6 ascii
          temp ← field4 10 ascii
          ok (eb_report_temp_hum (s16 (u16 (strtol16 temp))) (u16 (strtol16 hum)) r))
        else if eq_int addr_485 config.wind_dir_485_addr
        then (do
          dir ← field4 6 ascii
          defined env.dir_slack
          eb_report_wind_dir (u16 (strtol16 (dir_text env dir))) r)
        else if eq_int addr_485 config.wind_speed_485_addr
        then (do speed ← field4 6 ascii; ok (eb_report_wind_speed (u16 (strtol16 speed)) r))
        else ok r)

-- The size of the array `hex`.
abbrev pub hex_size : ℕ
hex_size = 1024

abbrev pub max_1byte_len_reg : ℕ
max_1byte_len_reg = 511

-- The array: the bytes that were written, and behind them what was there.
abbrev pub hex_array : Stack → List ℕ → ℕ → ℕ
hex_array env bytes i = elim (get_elem? bytes i) [ none ↦ env.hex_junk i | some b ↦ b ]

-- The texts that are written over those of every message.
abbrev pub test_devaddr : Text
test_devaddr = codes "7076e841"

abbrev pub test_data : Text
test_data = codes "01030400075801FFFF"

module _ (J : CJson) (env : Stack) (plcs : List PlcNode) where
  open J use {Item, parse, get_object_item, valuestring}

  -- `eb_ws_parse_non_weather_data`: a fault if the text has more pairs than the array has bytes. If
  -- there are fewer than two bytes, the number of rounds is not positive.
  unfoldable pub eb_ws_parse_non_weather_data : Text → Text → Reporter → Run Reporter
  eb_ws_parse_non_weather_data lorasn ascii r =
      let hex = hex_array env (ascii2hex ascii) in
      let start_addr = hex 3 * 256 + hex 4 in
      let reg_size = if leb start_addr max_1byte_len_reg then 1 else 2 in
      defined (leb (length (ascii2hex ascii)) hex_size)
      >> eb_report_switch_data_for_loranode J env.found env.node_found lorasn (pos (hex 0)) plcs
          start_addr (λ i. hex (5 + i)) ((hex 2 - 2) / reg_size) reg_size r

  -- `sprintf(item->valuestring, text)`: a fault if there is no text, or no room for the new one.
  -- `room` tells how many bytes the block of an item's text can take.
  overwrite : (Item → ℕ) → Item → Text → Run Text
  overwrite room item text = do
    _ ← deref (valuestring item)
    defined (ltb (length text) (room item))
    ok text

  -- `ws_receive_msg`
  unfoldable pub ws_receive_msg : Config → (Item → ℕ) → Text → Reporter → Run Reporter
  unfolding overwrite
  ws_receive_msg config room json_text r = elim (parse json_text) [
    | none ↦ ok r
    | some root ↦ elim (get_object_item root (codes "devaddr")) [
      | none ↦ ok r
      | some devaddr ↦ elim (get_object_item root (codes "data")) [
        | none ↦ ok r
        | some payload ↦ do
          lorasn ← overwrite room devaddr test_devaddr
          text ← overwrite room payload test_data
          weather_lorasn ← deref config.weather_lorasn
          if text_case_eq weather_lorasn lorasn
              then eb_ws_parse_weather_data config env text r
              else eb_ws_parse_non_weather_data lorasn text r
      ]
    ]
  ]
