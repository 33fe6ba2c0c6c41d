-- ===== src/Downlink/Examples.antt =====
-- What is sent for a concrete message from the hub, with memory and without.
use edgebox.Prelude.{◌≡◌, refl, true, none, some, List, [], ◌∷◌, ◌++◌, map, ltb, arith}
use edgebox.Prelude.CInt.{ℤ, pos, negsuc}
use edgebox.Prelude.Text.{Text, codes, text_eq}
use edgebox.Prelude.Run.{ok}
use edgebox.Json.{CJson}
use edgebox.Json.Sample.{Element, text, amount, object, nil, cons, reading}
use edgebox.Hex.{hex2ascii}
use edgebox.Crc.{modbus_crc16}
use edgebox.Modbus.{with_checksum, modbus_write}
use edgebox.Switches.{SwitchNode, get_switch_node}
use edgebox.Downlink.{Send, Surroundings, lora_document, process_single_iot_hub_msg}
use edgebox.Downlink.Documents.{AllShort, command}
use edgebox.Downlink.Commands.{AllSerialsFit, after_sends, targets, serial_after, commands_in_order}

-- {"params": {"pump": 1, "loraNodeSerialNo": "7076", "valve": 3}}
abbrev pub params : Element
params = object (some (codes "params")) (
    cons (amount (some (codes "pump")) (pos 1) (pos 10)) (
      cons (text (some (codes "loraNodeSerialNo")) (codes "7076"))
        (cons (amount (some (codes "valve")) (pos 3) (pos 30)) nil)))

abbrev pub message : Text
message = codes "message"

abbrev pub library : CJson
library = reading message (object none (cons params nil))

abbrev pub switch : Text → ℤ → SwitchNode
switch name channel = record {
  name = name;
  plc = pos 1;
  plc_channel = channel;
  plc_channel_ro = negsuc 0;
  reg_len = pos 2;
  v = pos 0;
}

abbrev pub switches : List SwitchNode
switches = switch (codes "valve") (pos 6) ∷ switch (codes "pump") (pos 5) ∷ []

abbrev pub plenty : Surroundings
plenty = record { found = λ _. true; junk = λ _. [] }

serials_fit : AllSerialsFit library switches (library.children params)
serials_fit = ((λ h. cc), ((λ h. (codes "7076", refl, omega arith)), ((λ h. cc), tt)))

texts_fit :
    AllShort library
      (serial_after library switches [] (library.children params))
      (targets library switches (library.children params))
unfolding targets serial_after get_switch_node text_eq with_checksum modbus_write hex2ascii
    lora_document modbus_crc16
texts_fit = (omega arith, (omega arith, tt))

commands_in_order_example :
    (sends : List Send) × (process_single_iot_hub_msg library switches
        (λ _. true)
        plenty
        (some message)
      ≡ ok sends)
    × (after_sends sends (codes "query" ∷ [])
        ≡ map
            (λ p.
              (command library (serial_after library switches [] (library.children params)) p).text)
            (targets library switches (library.children params))
          ++ codes "query" ∷ [])
unfolding text_eq
commands_in_order_example =
    commands_in_order library switches (λ _. true) plenty message (object none (cons params nil))
      params (codes "query" ∷ []) (λ i. refl) (λ i. refl) refl refl serials_fit texts_fit

-- Memory for the first document only, and the array as the round before left it.
abbrev pub ten_found : Surroundings
ten_found = record { found = λ i. ltb i 10; junk = λ _. codes "before" }
