-- ===== src/Modbus.antt =====
-- The Modbus frames that the gateway sends: to read registers and to ask a weather sensor
-- (src/statusquery.c), and to write a register (src/mqtt.c); the function codes of include/mqtt.h.
pub mod Frames
pub mod Examples
use edgebox.Prelude.{ℕ, ◌/◌, ◌%◌, List, [], ◌∷◌, ◌++◌}
use edgebox.Prelude.CInt.{ℤ, pos, u8, u16}
use edgebox.Prelude.Text.{Text}
use edgebox.Crc.{modbus_crc16, crc16_high_byte, crc16_low_byte}
use edgebox.Hex.{hex2ascii}

abbrev pub fc_read : ℕ
fc_read = 3

abbrev pub fc_write : ℕ
fc_write = 6

-- `(x & 0xFF00) >> 8` and `x & 0xFF` of an `int`.
abbrev pub high_byte : ℤ → ℕ
high_byte x = u16 x / 256

abbrev pub low_byte : ℤ → ℕ
low_byte x = u16 x % 256

-- The six bytes, and the checksum over them, low byte first.
unfoldable pub with_checksum : List ℕ → List ℕ
with_checksum bytes =
    let crc16 = modbus_crc16 bytes in bytes ++ crc16_low_byte crc16 ∷ crc16_high_byte crc16 ∷ []

-- `modbus_read` in `run_single_switch_query_command`
unfoldable pub modbus_read : ℤ → ℤ → ℤ → List ℕ
modbus_read plc start_reg num_reg = with_checksum (
    u8 plc
    ∷ fc_read
    ∷ high_byte start_reg
    ∷ low_byte start_reg
    ∷ high_byte num_reg
    ∷ low_byte num_reg
    ∷ [])

-- `modbus_read` in `send_weather_info_request`
unfoldable pub modbus_weather : ℤ → List ℕ
modbus_weather target_addr = with_checksum (u8 target_addr ∷ fc_read ∷ 0 ∷ 0 ∷ 0 ∷ 2 ∷ [])

-- `modbus_write` in `run_command_on_lora_node`
unfoldable pub modbus_write : ℤ → ℤ → ℤ → List ℕ
modbus_write plc plc_channel intv = with_checksum (
    u8 plc
    ∷ fc_write
    ∷ high_byte plc_channel
    ∷ low_byte plc_channel
    ∷ high_byte intv
    ∷ low_byte intv
    ∷ [])
