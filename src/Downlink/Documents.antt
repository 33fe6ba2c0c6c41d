-- ===== src/Downlink/Documents.antt =====
-- src/statusquery.c: the text for the LoRaWAN server, with memory and without.
use edgebox.Prelude.{
  ℕ, ◌+◌, ◌<◌, ◌≡◌, refl, Bool, true, false, ◌&&◌, List, [], ◌∷◌, map, length, lt→ltb,
}
use edgebox.Prelude.CInt.{ℤ, pos}
use edgebox.Prelude.Text.{Text}
use edgebox.Prelude.Run.{ok}
use edgebox.Json.{CJson}
use edgebox.Hex.{hex2ascii}
use edgebox.Modbus.{modbus_read, modbus_write}
use edgebox.Switches.{SwitchNode}
use edgebox.Downlink.{
  Send, Surroundings, next_round, json_text_size, lora_document, construct_json_text2lora,
  run_single_switch_query_command, run_command_on_lora_node,
}

-- All allocations succeed.
abbrev pub Found : (ℕ → Bool) → Type 0
Found found = (i : ℕ) → found i ≡ true

-- One of the five objects of the document cannot be made.
abbrev pub Missing : Surroundings → Type 0
Missing env = (env.found 0 && env.found 1 && env.found 3 && env.found 5 && env.found 7) ≡ false

module _ (J : CJson) where
  -- The text of a frame for a node.
  abbrev pub frame_text : List ℕ → Text → Text
  frame_text frame lorasn = J.print (lora_document J (λ _. true) (hex2ascii frame) (pos 2) lorasn)

  pub construct_json_text2lora-ok :
      (env : Surroundings) (frame : List ℕ) (lorasn old : Text)
      → Found env.found
      → length (frame_text frame lorasn) < json_text_size
      → construct_json_text2lora J env (hex2ascii frame) (pos 2) lorasn old
        ≡ ok (frame_text frame lorasn)
  unfolding construct_json_text2lora lora_document
  construct_json_text2lora-ok env frame lorasn old found short = rw (
    found 0,
    found 1,
    found 2,
    found 3,
    found 4,
    found 5,
    found 6,
    found 7,
    found 8,
    found 9,
    lt→ltb _ _ short,
  )

  pub construct_json_text2lora-Missing :
      (env : Surroundings) (ascii : Text) (port : ℤ) (lorasn old : Text)
      → Missing env
      → construct_json_text2lora J env ascii port lorasn old ≡ ok old
  unfolding construct_json_text2lora
  construct_json_text2lora-Missing env ascii port lorasn old missing = rw missing

  -- With memory and room a query sends, without priority, the text of its frame for its node.
  pub run_single_switch_query_command-ok :
      (env : Surroundings) (lorasn : Text) (plc start_reg num_reg : ℤ)
      → Found env.found
      → length (frame_text (modbus_read plc start_reg num_reg) lorasn) < json_text_size
      → run_single_switch_query_command J env lorasn plc start_reg num_reg
        ≡ ok (record {
          text = frame_text (modbus_read plc start_reg num_reg) lorasn;
          priority = false;
        })
  unfolding run_single_switch_query_command
  run_single_switch_query_command-ok env lorasn plc start_reg num_reg found short = rw (
      construct_json_text2lora-ok env (modbus_read plc start_reg num_reg) lorasn (env.junk 0) found
        short)

  -- If an object of the document cannot be made, the query sends what its array happens to hold.
  pub run_single_switch_query_command-Missing :
      (env : Surroundings) (lorasn : Text) (plc start_reg num_reg : ℤ)
      → Missing env
      → run_single_switch_query_command J env lorasn plc start_reg num_reg
        ≡ ok (record { text = env.junk 0; priority = false })
  unfolding run_single_switch_query_command
  run_single_switch_query_command-Missing env lorasn plc start_reg num_reg missing = rw (
      construct_json_text2lora-Missing env (hex2ascii (modbus_read plc start_reg num_reg)) (pos 2)
        lorasn (env.junk 0) missing)

  -- What the command for a switch is.
  abbrev pub command : Text → SwitchNode → Send
  command lorasn p = record {
    text = frame_text (modbus_write p.plc p.plc_channel p.v) lorasn;
    priority = true;
  }

  -- Every command's text fits the array.
  abbrev pub AllShort : Text → List SwitchNode → Type 0
  AllShort lorasn [] = Unit {0}
  AllShort lorasn (p ∷ ps) = (length (command lorasn p).text < json_text_size) × AllShort lorasn ps

  -- With memory and room one command is sent for each switch of the list, in the list's order.
  pub run_command_on_lora_node-ok :
      (env : Surroundings) (lorasn : Text) (ps : List SwitchNode)
      → Found env.found
      → AllShort lorasn ps
      → run_command_on_lora_node J env lorasn ps ≡ ok (map (command lorasn) ps)
  unfolding run_command_on_lora_node
  run_command_on_lora_node-ok env lorasn [] found short = refl
  run_command_on_lora_node-ok env lorasn (p ∷ ps) found short =
      rw
        (construct_json_text2lora-ok env (modbus_write p.plc p.plc_channel p.v) lorasn (env.junk 0)
          found short.0)
        (rw (run_command_on_lora_node-ok (next_round env) lorasn ps (λ i. found (10 + i)) short.1))
