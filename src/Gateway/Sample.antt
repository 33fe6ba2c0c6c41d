-- ===== src/Gateway/Sample.antt =====
-- A message that opens a valve, and the states of the running gateway on its way.
use edgebox.Prelude.{ℕ, ◌+◌, ◌≤◌, ◌≡◌, refl, true, Option, none, some, List, [], ◌∷◌, arith, length}
use edgebox.Prelude.CInt.{pos, negsuc}
use edgebox.Prelude.Text.{Text, codes, text_eq, text_case_eq, to_lower, strtol16}
use edgebox.Prelude.Run.{Run, ok}
use edgebox.Memory.{Queue, link_tail, take_head, release}
use edgebox.Json.{CJson}
use edgebox.Json.Sample.{Element, text, amount, object, nil, cons, reading}
use edgebox.Hex.{hex2ascii}
use edgebox.Crc.{modbus_crc16}
use edgebox.Modbus.{with_checksum, modbus_write}
use edgebox.Switches.{SwitchNode, Switches, get_switch_node, add_switch_to_list}
use edgebox.Report.{Reporter, eb_report_temp_hum}
use edgebox.Uplink.{Config, Stack, ws_receive_msg, eb_ws_parse_weather_data}
use edgebox.HubQueue.{Hub, start, iothub_msg_en_q, iot_msg_handler_step, handle_msg_from_iot_hub}
use edgebox.WsQueue.{
  EbWsMsg, Action, link_head, eb_ws_msg_en_q, eb_ws_msg_de_q, eb_ws_write, writeable, ws_callback,
  client_writeable,
}
use edgebox.WsQueue.Refinement.{write, callback, wrote, called_back}
use edgebox.WsQueue.Refinement
use edgebox.Downlink.{
  Send, Surroundings, lora_document, construct_json_text2lora, gather, gather_all, commanded,
  run_command_on_lora_node, process_single_iot_hub_msg,
}
use edgebox.Downlink.Documents.{command}
use edgebox.Gateway.{begin, handling, c_string}

-- {"params": {"loraNodeSerialNo": "7076", "valve": 3}}
abbrev params : Element
params = object (some (codes "params")) (
    cons (text (some (codes "loraNodeSerialNo")) (codes "7076"))
      (cons (amount (some (codes "valve")) (pos 3) (pos 30)) nil))

abbrev pub message : Text
message = codes "m"

abbrev pub library : CJson
library = reading message (
    object none (
      cons params (
        cons (text (some (codes "devaddr")) (codes "7076E841"))
          (cons (text (some (codes "data")) (codes "0103")) nil))))

abbrev valve : SwitchNode
valve = record {
  name = codes "valve";
  plc = pos 1;
  plc_channel = pos 6;
  plc_channel_ro = negsuc 0;
  reg_len = pos 2;
  v = pos 0;
}

abbrev pub switches : Switches
switches = record { switch_list = valve ∷ []; plc_list = [] }

abbrev pub config : Config
config = record {
  weather_lorasn = some (codes "7076E841");
  temp_humi_485_addr = pos 1;
  wind_dir_485_addr = pos 2;
  wind_speed_485_addr = pos 3;
}

abbrev pub plenty : Surroundings
plenty = record { found = λ _. true; junk = λ _. [] }

abbrev pub open_valve : Send
open_valve = command library (codes "7076") (record valve { v = pos 3 })

pub message_handled :
    handling library switches config 16 (λ _. true) plenty (some message) ≡ ok (open_valve ∷ [])
unfolding handling c_string process_single_iot_hub_msg gather_all gather commanded get_switch_node
    text_eq add_switch_to_list run_command_on_lora_node construct_json_text2lora lora_document
    hex2ascii modbus_write with_checksum modbus_crc16
message_handled = refl

-- The message arrives at address 7, and the handler makes its three steps.
abbrev hub_or_start : Option Hub → Hub
hub_or_start none = start
hub_or_start (some s) = s

abbrev stepped : Option (Option Text × Hub) → Hub
stepped none = start
stepped (some (_, s)) = s

unfoldable pub arrived_hub : Hub
unfolding handle_msg_from_iot_hub iothub_msg_en_q link_tail
arrived_hub = hub_or_start (handle_msg_from_iot_hub (some 7) true message start)

pub looked_hub : Hub
unfolding arrived_hub iot_msg_handler_step
looked_hub = stepped (iot_msg_handler_step arrived_hub)

pub taken_hub : Hub
unfolding looked_hub take_head
taken_hub = stepped (iot_msg_handler_step looked_hub)

pub done_hub : Hub
unfolding taken_hub
done_hub = stepped (iot_msg_handler_step taken_hub)

unfoldable pub freed_hub : Hub
unfolding done_hub release
freed_hub = stepped (iot_msg_handler_step done_hub)

-- Its command is written at address 5, and one callback comes.
abbrev queue_of : Option (List Action × Queue EbWsMsg) → Queue EbWsMsg
queue_of none = Refinement.begin.queue
queue_of (some (_, q)) = q

abbrev pub acts_of : Option (List Action × Queue EbWsMsg) → List Action
acts_of none = []
acts_of (some (acts, _)) = acts

pub queued : Queue EbWsMsg
unfolding eb_ws_write eb_ws_msg_en_q link_head
queued =
    queue_of (
      eb_ws_write (some 5) true open_valve.text (length open_valve.text) true
        Refinement.begin.queue)

unfoldable pub emptied : Queue EbWsMsg
unfolding queued ws_callback writeable eb_ws_msg_de_q take_head
emptied = queue_of (ws_callback 16 client_writeable queued)

-- The text, computed once.
pub command_fits : 16 + length open_valve.text ≤ 4096
unfolding lora_document hex2ascii modbus_write with_checksum modbus_crc16
command_fits = omega arith

-- The server sends the same text, for which a report is published.
abbrev pub stack : Stack
stack = record {
  dir_slack = true;
  dir_junk = 0;
  hex_junk = λ _. 0;
  found = λ _. true;
  node_found = λ _. true;
}

abbrev pub room : Element → ℕ
room _ = 64

-- The topic is set.
abbrev pub connected_reporter : Reporter
connected_reporter = record begin.reporter { eb_pub_topic = codes "topic" }

abbrev reporter_of : Run Reporter → Reporter
reporter_of (ok r) = r
reporter_of _ = connected_reporter

unfoldable pub one_reported : Reporter
unfolding ws_receive_msg eb_ws_parse_weather_data text_eq text_case_eq to_lower strtol16
one_reported = reporter_of (ws_receive_msg library stack [] config room message connected_reporter)

report_published : length one_reported.published ≡ 1
unfolding one_reported eb_report_temp_hum
report_published = refl
