-- ===== src/Uplink/Words/Examples.antt =====
-- Replies with registers of two bytes, from the address 512 on.
use edgebox.Prelude.{◌≡◌, ◌*◌, refl, none, some, [], ◌∷◌, ◌++◌, ◌==◌, map, if◌then◌else◌, arith}
use edgebox.Prelude.CInt.{pos}
use edgebox.Prelude.Text.{codes}
use edgebox.Prelude.Run.{ok, fault}
use edgebox.Json.{CJson}
use edgebox.Json.Sample.{object, nil, reading}
use edgebox.Hex.{hex2ascii}
use edgebox.Switches.{PlcNode, empty_bank, get_plc_node}
use edgebox.Report.{Reporter, eb_publish}
use edgebox.Uplink.{eb_ws_parse_non_weather_data}
use edgebox.Uplink.Examples.{stack_with}
use edgebox.Uplink.Registers.{named, report_text}
use edgebox.Uplink.Words.{even_words, words_reported}
use edgebox.Uplink.Words.Faults.{word_fault}

abbrev library : CJson
library = reading (codes "any") (object none nil)

abbrev plc : PlcNode
plc = record {
  addr_485 = pos 1;
  bank_1B = empty_bank;
  bank_2B = empty_bank;
  reg2name = λ i. if i == 513 then some (codes "pressure") else none;
}

abbrev reporter : Reporter
reporter = record { eb_pub_topic = codes "topic"; msgid_in_payload = 0; msgid = 0; published = [] }

-- The registers 512 and 513 hold 0x0100 and 0x0200.
words_reported_example :
    eb_ws_parse_non_weather_data library
      (stack_with 0)
      (plc ∷ [])
      (codes "01020304")
      (hex2ascii (1 ∷ 3 ∷ 6 ∷ 2 ∷ 0 ∷ (even_words (1 ∷ 2 ∷ []) ++ 9 ∷ [])))
      reporter
    ≡ ok (
        eb_publish
          (report_text library 0
            (codes "01020304")
            (named plc 512 (map (λ h. pos (h * 256)) (1 ∷ 2 ∷ []))))
          (record reporter { msgid_in_payload = 1 }))
unfolding get_plc_node even_words
words_reported_example =
    words_reported library (stack_with 0) (plc ∷ []) plc (codes "01020304") 1 3 6 2 0 (1 ∷ 2 ∷ [])
      (9 ∷ []) reporter (λ j. refl) (λ j. refl) (omega arith) refl (omega arith) (omega arith)
      (omega arith) (omega arith)

-- The register 513 holds 0x0118.
word_fault_example :
    eb_ws_parse_non_weather_data library
      (stack_with 0)
      (plc ∷ [])
      (codes "01020304")
      (hex2ascii (1 ∷ 3 ∷ 6 ∷ 2 ∷ 0 ∷ 1 ∷ 0 ∷ 1 ∷ 24 ∷ []))
      reporter
    ≡ fault
unfolding get_plc_node
word_fault_example =
    word_fault library (stack_with 0) (plc ∷ []) plc (codes "01020304") 1 3 6 2 0
      (1 ∷ 0 ∷ 1 ∷ 24 ∷ []) 1 24 reporter (λ j. refl) (λ j. refl) (omega arith) refl (omega arith)
      (omega arith) refl (omega arith) (omega arith)
