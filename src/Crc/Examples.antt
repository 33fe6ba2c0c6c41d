-- ===== src/Crc/Examples.antt =====
-- The checksum at concrete bytes.
use edgebox.Prelude.{◌≡◌, ◌≢◌, [], ◌∷◌, ◌++◌, arith}
use edgebox.Crc.{modbus_crc16}
use edgebox.Crc.Reference.{crc16_by_shifts, modbus_crc16-crc16_by_shifts}
use edgebox.Crc.Detection.{modbus_crc16_detects}

modbus_crc16-crc16_by_shifts_example :
    modbus_crc16 (1 ∷ 3 ∷ 0 ∷ 0 ∷ 0 ∷ 2 ∷ []) ≡ crc16_by_shifts 0xffff (1 ∷ 3 ∷ 0 ∷ 0 ∷ 0 ∷ 2 ∷ [])
modbus_crc16-crc16_by_shifts_example =
    modbus_crc16-crc16_by_shifts (1 ∷ 3 ∷ 0 ∷ 0 ∷ 0 ∷ 2 ∷ []) (omega arith)

modbus_crc16_detects_example :
    modbus_crc16 ((1 ∷ 3 ∷ []) ++ 0 ∷ (5 ∷ [])) ≢ modbus_crc16 ((1 ∷ 3 ∷ []) ++ 8 ∷ (5 ∷ []))
modbus_crc16_detects_example =
    modbus_crc16_detects (1 ∷ 3 ∷ []) (5 ∷ []) 0 8 (omega arith) (omega arith) (omega arith)
      (omega arith) (omega arith)
