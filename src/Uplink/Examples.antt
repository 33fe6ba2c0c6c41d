-- ===== src/Uplink/Examples.antt =====
-- Messages from the LoRaWAN server at concrete texts.
use Prim.Native.String.{String}
use edgebox.Prelude.{
  ℕ, ◌+◌, ◌*◌, ◌≡◌, refl, true, none, some, [], ◌∷◌, ◌==◌, map, take, if◌then◌else◌, arith,
}
use edgebox.Prelude.CInt.{pos, s16}
use edgebox.Prelude.Text.{codes, text_eq, hex_digit}
use edgebox.Prelude.Run.{ok, fault}
use edgebox.Json.{CJson}
use edgebox.Json.Sample.{Element, text, object, nil, cons, reading}
use edgebox.Hex.{hex2ascii}
use edgebox.Switches.{PlcNode, empty_bank, get_plc_node}
use edgebox.Report.{Reporter, eb_publish, eb_report_temp_hum, eb_report_wind_dir}
use edgebox.Uplink.{
  Config, Stack, eb_ws_parse_weather_data, eb_ws_parse_non_weather_data, ws_receive_msg,
}
use edgebox.Uplink.Weather.{word_reply, words_reply, temp_hum_parsed, wind_dir_by_junk}
use edgebox.Uplink.Registers.{named, report_text, registers_reported}
use edgebox.Uplink.Received.{Complete, ws_receive_msg_same}

abbrev pub config : Config
config = record {
  weather_lorasn = some (codes "7076E841");
  temp_humi_485_addr = pos 1;
  wind_dir_485_addr = pos 2;
  wind_speed_485_addr = pos 3;
}

abbrev pub stack_with : ℕ → Stack
stack_with junk = record {
  dir_slack = true;
  dir_junk = junk;
  hex_junk = λ _. 0;
  found = λ _. true;
  node_found = λ _. true;
}

abbrev reporter : Reporter
reporter = record { eb_pub_topic = codes "topic"; msgid_in_payload = 0; msgid = 0; published = [] }

-- 60.0 percent, and 10.1 degrees below zero.
temp_hum_parsed_example :
    eb_ws_parse_weather_data config
      (stack_with 0)
      (words_reply 1 3 4 0x02 0x58 0xff 0x9b [])
      reporter
    ≡ ok (eb_report_temp_hum (s16 (0xff * 256 + 0x9b)) (0x02 * 256 + 0x58) reporter)
temp_hum_parsed_example =
    temp_hum_parsed config (stack_with 0) 1 3 4 0x02 0x58 0xff 0x9b [] reporter (omega arith)
      (omega arith) (omega arith) (omega arith) (omega arith) refl

-- With an `A` in the last byte.
wind_dir_misread :
    (hex_digit b'A' ≡ none
      → eb_ws_parse_weather_data config (stack_with b'A') (word_reply 2 3 2 0 5 []) reporter
        ≡ eb_report_wind_dir 5 reporter)
    × ((d : ℕ)
        → hex_digit b'A' ≡ some d
        → eb_ws_parse_weather_data config (stack_with b'A') (word_reply 2 3 2 0 5 []) reporter
          ≡ fault)
wind_dir_misread =
    wind_dir_by_junk config (stack_with b'A') 2 3 2 5 [] reporter (omega arith) (omega arith)
      (omega arith) refl refl refl

abbrev plc : PlcNode
plc = record {
  addr_485 = pos 1;
  bank_1B = empty_bank;
  bank_2B = empty_bank;
  reg2name =
      λ i. if i == 5 then some (codes "pump") else if i == 7 then some (codes "valve") else none;
}

-- {"devaddr": …, "data": …}
abbrev pub message : String → Element
message value = object none (
    cons (text (some (codes "devaddr")) (codes "01020304"))
      (cons (text (some (codes "data")) (codes value)) nil))

-- The library reads any text but one as the first of two messages.
abbrev pub library : CJson
library = record (reading (codes "one") (message "0103")) {
  parse = λ t. if text_eq t (codes "other") then some (message "0206") else some (message "0103");
}

registers_reported_example :
    eb_ws_parse_non_weather_data library
      (stack_with 0)
      (plc ∷ [])
      (codes "01020304")
      (hex2ascii (1 ∷ 3 ∷ 5 ∷ 0 ∷ 5 ∷ 1 ∷ 0 ∷ 9 ∷ []))
      reporter
    ≡ ok (
        eb_publish
          (report_text library 0
            (codes "01020304")
            (named plc 5 (map pos (take 3 (1 ∷ 0 ∷ 9 ∷ [])))))
          (record reporter { msgid_in_payload = 1 }))
unfolding get_plc_node
registers_reported_example =
    registers_reported library (stack_with 0) (plc ∷ []) plc (codes "01020304") 1 3 5 0 5
      (1 ∷ 0 ∷ 9 ∷ []) reporter (λ j. refl) (λ j. refl) (omega arith) refl (omega arith)
      (omega arith) (omega arith)

-- The switches at the registers 5 and 7.
two_named :
    named plc 5 (map pos (1 ∷ 0 ∷ 9 ∷ [])) ≡ (codes "pump", pos 1) ∷ (codes "valve", pos 9) ∷ []
unfolding named
two_named = refl

abbrev pub room : Element → ℕ
room _ = 64

one_Complete : Complete library room (codes "one")
unfolding text_eq
one_Complete = record {
  root = message "0103";
  devaddr = text (some (codes "devaddr")) (codes "01020304");
  payload = text (some (codes "data")) (codes "0103");
  parsed = refl;
  has_devaddr = refl;
  has_data = refl;
  devaddr_text = (codes "01020304", refl);
  data_text = (codes "0103", refl);
  devaddr_room = omega arith;
  data_room = omega arith;
}

other_Complete : Complete library room (codes "other")
unfolding text_eq
other_Complete = record {
  root = message "0206";
  devaddr = text (some (codes "devaddr")) (codes "01020304");
  payload = text (some (codes "data")) (codes "0206");
  parsed = refl;
  has_devaddr = refl;
  has_data = refl;
  devaddr_text = (codes "01020304", refl);
  data_text = (codes "0206", refl);
  devaddr_room = omega arith;
  data_room = omega arith;
}

ws_receive_msg_same_example :
    ws_receive_msg library (stack_with 0) (plc ∷ []) config room (codes "one") reporter
    ≡ ws_receive_msg library (stack_with 0) (plc ∷ []) config room (codes "other") reporter
ws_receive_msg_same_example =
    ws_receive_msg_same library (stack_with 0) (plc ∷ []) config room (codes "one") (codes "other")
      reporter one_Complete other_Complete
