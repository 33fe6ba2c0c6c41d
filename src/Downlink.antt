-- ===== src/Downlink.antt =====
-- What the gateway sends to LoRa nodes: the JSON text around a frame, the queries and the weather
-- requests (src/statusquery.c), and the commands in a message from the hub (src/mqtt.c). Each call of
-- `eb_ws_write` is a `Send`, in the order of the calls.
pub mod Documents
pub mod Commands
pub mod Blocks
pub mod Examples
use edgebox.Prelude.{
  ℕ, zero, suc, ◌+◌, ◌*◌, ◌≡◌, Bool, true, false, ◌&&◌, Option, none, some, List, [], ◌∷◌, ltb,
  length, if◌then◌else◌,
}
use edgebox.Prelude.CInt.{ℤ, pos}
use edgebox.Prelude.Text.{Text, codes, text_eq}
use edgebox.Prelude.Run.{Run, ok, ◌>>=◌, ◌>>◌, defined, deref}
use edgebox.Json.{CJson, number, attach}
use edgebox.Hex.{hex2ascii}
use edgebox.Modbus.{modbus_read, modbus_weather, modbus_write}
use edgebox.Switches.{SwitchNode, get_switch_node, add_switch_to_list}

-- The arguments of a call of `eb_ws_write`; the length is that of the text.
pub record Send : Type 0 where
  pub text : Text
  pub priority : Bool

-- The size of `json_text` in each caller, and of `loranodesn`.
abbrev pub json_text_size : ℕ
json_text_size = 1024

abbrev pub loranodesn_size : ℕ
loranodesn_size = 32

-- What is there besides the program: which allocations succeed, counted from 0, ten for each document;
-- and what the array `json_text` holds, up to a NUL, at the start of each round of a caller's loop.
pub record Surroundings : Type 0 where
  pub found : ℕ → Bool
  pub junk : ℕ → Text

-- Those of the rounds behind the first one.
abbrev pub next_round : Surroundings → Surroundings
next_round env = record { found = λ i. env.found (10 + i); junk = λ r. env.junk (1 + r) }

module _ (J : CJson) where
  open J use {Item, create_object, create_string, create_number, print}

  -- {"data": …, "devaddr": …, "port": …, "time": "immediately"}, with the fields whose keys find memory.
  unfoldable pub lora_document : (ℕ → Bool) → Text → ℤ → Text → Item
  lora_document found ascii_data port_num lorasn =
      let data' = attach J (found 2) create_object (codes "data") (create_string ascii_data) in
      let devaddr = attach J (found 4) data' (codes "devaddr") (create_string lorasn) in
      let port = attach J (found 6) devaddr (codes "port") (create_number (number port_num)) in
      attach J (found 8) port (codes "time") (create_string (codes "immediately"))

  -- `construct_json_text2lora`: what `json_output` holds afterwards. Of the ten allocations the results
  -- of five are checked, those of the root and the four values; without one of these the output stays
  -- as it was. Behind each value comes the copy of its key, and the tenth is that of `cJSON_Print`.
  unfoldable pub construct_json_text2lora : Surroundings → Text → ℤ → Text → Text → Run Text
  construct_json_text2lora env ascii_data port_num lorasn json_output =
      let text = print (lora_document env.found ascii_data port_num lorasn) in
      if env.found 0 && env.found 1 && env.found 3 && env.found 5 && env.found 7
      then defined (env.found 9) >> defined (ltb (length text) json_text_size) >> ok text
      else ok json_output

  -- `run_single_switch_query_command`
  unfoldable pub run_single_switch_query_command : Surroundings → Text → ℤ → ℤ → ℤ → Run Send
  run_single_switch_query_command env lorasn plc start_reg num_reg = do
    json_text ←
        construct_json_text2lora env (hex2ascii (modbus_read plc start_reg num_reg)) (pos 2) lorasn
          (env.junk 0)
    ok (record { text = json_text; priority = false })

  -- `send_weather_info_request`, with `weather_lorasn`, which may be NULL.
  unfoldable pub send_weather_info_request : Surroundings → Option Text → ℤ → Run (List Send)
  send_weather_info_request env none target_addr = ok []
  send_weather_info_request env (some weather_lorasn) target_addr = do
    json_text ←
        construct_json_text2lora env (hex2ascii (modbus_weather target_addr)) (pos 2) weather_lorasn
          (env.junk 0)
    ok (record { text = json_text; priority = false } ∷ [])

  -- `run_command_on_lora_node`. The array is one of the loop's body.
  unfoldable pub run_command_on_lora_node : Surroundings → Text → List SwitchNode → Run (List Send)
  run_command_on_lora_node env loranodesn [] = ok []
  run_command_on_lora_node env loranodesn (p ∷ ps) = do
    json_text ←
        construct_json_text2lora env (hex2ascii (modbus_write p.plc p.plc_channel p.v)) (pos 2)
          loranodesn (env.junk 0)
    sends ← run_command_on_lora_node (next_round env) loranodesn ps
    ok (record { text = json_text; priority = true } ∷ sends)

-- What the loop over the parameters of a message has gathered.
pub record Gathered : Type 0 where
  pub loranodesn : Text
  pub list_head : List SwitchNode

abbrev pub serial_key : Text
serial_key = codes "loraNodeSerialNo"

abbrev pub pressure_key : Text
pressure_key = codes "waterFertilizerPressure"

module _ (J : CJson) (switches : List SwitchNode) where
  open J use {
    Item, parse, get_object_item, children, string, valuestring, valueint, valuedouble_tenfold,
    is_number,
  }

  -- The copy of a switch, with the value of the parameter if that is a number.
  unfoldable pub commanded : Text → Item → SwitchNode → SwitchNode
  commanded key element p =
      if is_number element
      then record p {
        v = if text_eq key pressure_key then valuedouble_tenfold element else valueint element;
      }
      else p

  -- One parameter. The node's allocation is not checked before the copy.
  unfoldable pub gather : Bool → Item → Gathered → Run Gathered
  gather found element g = elim (string element) [
    | none ↦ ok g
    | some key ↦
        if text_eq key serial_key
        then (do
          serial ← deref (valuestring element)
          defined (ltb (length serial) loranodesn_size)
          ok (record g { loranodesn = serial }))
        else elim (get_switch_node key switches) [
          | none ↦ ok g
          | some p ↦
              defined found
              >> ok (record g {
                list_head = add_switch_to_list (commanded key element p) g.list_head;
              })
        ]
  ]

  unfoldable pub gather_all : (ℕ → Bool) → ℕ → List Item → Gathered → Run Gathered
  gather_all found n [] g = ok g
  gather_all found n (element ∷ elements) g = do
    g' ← gather (found n) element g
    gather_all found (n + 1) elements g'

  -- `process_single_iot_hub_msg`; the text may be NULL. The nodes' allocations are those of `found`,
  -- those of the documents are in `env`.
  unfoldable pub process_single_iot_hub_msg :
      (ℕ → Bool) → Surroundings → Option Text → Run (List Send)
  process_single_iot_hub_msg found env none = ok []
  process_single_iot_hub_msg found env (some json_text) = elim (parse json_text) [
    | none ↦ ok []
    | some root ↦ elim (get_object_item root (codes "params")) [
      | none ↦ ok []
      | some params ↦ do
        g ← gather_all found 0 (children params) (record { loranodesn = []; list_head = [] })
        run_command_on_lora_node J env g.loranodesn g.list_head
    ]
  ]
