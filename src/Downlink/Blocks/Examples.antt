-- ===== src/Downlink/Blocks/Examples.antt =====
-- The blocks of a concrete message from the hub, with memory and without.
use edgebox.Prelude.{◌≡◌, refl, true, some, List, [], ◌∷◌}
use edgebox.Prelude.CInt.{pos}
use edgebox.Prelude.Text.{codes, text_eq}
use edgebox.Prelude.Run.{ok}
use edgebox.Switches.{get_switch_node, add_switch_to_list}
use edgebox.Modbus.{with_checksum, modbus_write}
use edgebox.Hex.{hex2ascii}
use edgebox.Downlink.{
  Send, lora_document, process_single_iot_hub_msg, gather, gather_all, commanded,
  run_command_on_lora_node, construct_json_text2lora,
}
use edgebox.Downlink.Documents.{command}
use edgebox.Downlink.Examples.{library, message, switch, switches, plenty, ten_found}
use edgebox.Downlink.Blocks.{
  Event, allocates, frees, tree, node, document, text, process_events, construct_events,
  field_events, run_command_events, gather_events, gather_all_events,
}
use edgebox.Downlink.Blocks.Balance.{allocated, freed, lost_values}
use edgebox.Downlink.Blocks.Handled.{IsBalanced}
use edgebox.Downlink.Blocks.Leaks.{message_gives_back, message_leaks}

-- Two switches: two copies, two documents and two texts.
with_memory :
    process_events library switches (λ _. true) plenty (some message)
    ≡ ok (
        allocates tree
        ∷ allocates node
        ∷ allocates node
        ∷ allocates document
        ∷ allocates document
        ∷ allocates document
        ∷ allocates document
        ∷ allocates document
        ∷ allocates text
        ∷ frees document
        ∷ frees document
        ∷ frees document
        ∷ frees document
        ∷ frees document
        ∷ allocates document
        ∷ allocates document
        ∷ allocates document
        ∷ allocates document
        ∷ allocates document
        ∷ allocates text
        ∷ frees document
        ∷ frees document
        ∷ frees document
        ∷ frees document
        ∷ frees document
        ∷ frees node
        ∷ frees node
        ∷ frees tree
        ∷ [])
unfolding process_events construct_events field_events run_command_events gather_events
    gather_all_events text_eq get_switch_node gather_all gather add_switch_to_list
with_memory = refl

-- The second document cannot be made.
without_memory :
    process_events library switches (λ _. true) ten_found (some message)
    ≡ ok (
        allocates tree
        ∷ allocates node
        ∷ allocates node
        ∷ allocates document
        ∷ allocates document
        ∷ allocates document
        ∷ allocates document
        ∷ allocates document
        ∷ allocates text
        ∷ frees document
        ∷ frees document
        ∷ frees document
        ∷ frees document
        ∷ frees document
        ∷ frees node
        ∷ frees node
        ∷ frees tree
        ∷ [])
unfolding process_events construct_events field_events run_command_events gather_events
    gather_all_events text_eq get_switch_node gather_all gather add_switch_to_list
without_memory = refl

abbrev pump : Send
pump = command library (codes "7076") (record (switch (codes "pump") (pos 5)) { v = pos 1 })

abbrev valve : Send
valve = command library (codes "7076") (record (switch (codes "valve") (pos 6)) { v = pos 3 })

both_sent :
    process_single_iot_hub_msg library switches (λ _. true) plenty (some message)
    ≡ ok (valve ∷ pump ∷ [])
unfolding process_single_iot_hub_msg text_eq get_switch_node gather_all gather add_switch_to_list
    run_command_on_lora_node construct_json_text2lora commanded lora_document hex2ascii modbus_write
    with_checksum
both_sent = refl

-- What the array holds before it is written.
abbrev junk : Send
junk = record { text = codes "before"; priority = true }

one_and_junk :
    process_single_iot_hub_msg library switches (λ _. true) ten_found (some message)
    ≡ ok (valve ∷ junk ∷ [])
unfolding process_single_iot_hub_msg text_eq get_switch_node gather_all gather add_switch_to_list
    run_command_on_lora_node construct_json_text2lora commanded lora_document hex2ascii modbus_write
    with_checksum
one_and_junk = refl

message_gives_back_example :
    (es : List Event) × (process_events library switches (λ _. true) ten_found (some message)
      ≡ ok es)
    × IsBalanced es 2 (lost_values ten_found 2)
message_gives_back_example =
    message_gives_back library switches (λ _. true) ten_found (some message) (valve ∷ junk ∷ [])
      one_and_junk

message_leaks_example :
    (es : List Event) × (process_events library switches (λ _. true) plenty (some message) ≡ ok es)
    × (allocated text es ≡ 2)
    × (freed text es ≡ 0)
message_leaks_example =
    message_leaks library switches (λ _. true) plenty (some message) (valve ∷ pump ∷ []) (λ i. refl)
      both_sent
