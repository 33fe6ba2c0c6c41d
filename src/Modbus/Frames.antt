-- ===== src/Modbus/Frames.antt =====
-- What a Modbus device makes of the frames of the gateway.
use edgebox.Prelude.{
  ℕ, ◌+◌, ◌*◌, ◌/◌, ◌%◌, ◌<◌, ◌≡◌, ◌∙◌, Option, none, some, List, [], ◌∷◌, arith, ◌==◌,
  if◌then◌else◌, length,
}
use mathlib.Core.Path.{ap₂}
use edgebox.Prelude.CInt.{ℤ, u8, u16, u8-lt, u16-lt}
use edgebox.Prelude.Text.{Text}
use edgebox.Crc.{modbus_crc16}
use edgebox.Crc.Reference.{AllBytes, modbus_crc16-lt}
use edgebox.Crc.Residue.{modbus_crc16_residue}
use edgebox.Hex.{hex2ascii, ascii2hex}
use edgebox.Hex.RoundTrip.{ascii2hex-hex2ascii, length-hex2ascii}
use edgebox.Modbus.{
  fc_read, fc_write, high_byte, low_byte, with_checksum, modbus_read, modbus_weather, modbus_write,
}

-- A request, as a device reads it: the address, the function code, and two words.
pub record Request : Type 0 where
  pub device : ℕ
  pub function : ℕ
  pub register : ℕ
  pub argument : ℕ

-- A device takes eight bytes whose checksum is zero, and no others.
unfoldable pub decode : List ℕ → Option Request
decode (a ∷ f ∷ rh ∷ rl ∷ vh ∷ vl ∷ cl ∷ ch ∷ []) =
    if modbus_crc16 (a ∷ f ∷ rh ∷ rl ∷ vh ∷ vl ∷ cl ∷ ch ∷ []) == 0
    then some
        (record { device = a; function = f; register = rh * 256 + rl; argument = vh * 256 + vl })
    else none
decode _ = none

-- The device receives the bytes that the text over the air stands for.
unfoldable pub received : Text → Option Request
received text = decode (ascii2hex text)

decode-with_checksum :
    (a f rh rl vh vl : ℕ)
    → AllBytes (a ∷ f ∷ rh ∷ rl ∷ vh ∷ vl ∷ [])
    → decode (with_checksum (a ∷ f ∷ rh ∷ rl ∷ vh ∷ vl ∷ []))
      ≡ some
          (record { device = a; function = f; register = rh * 256 + rl; argument = vh * 256 + vl })
unfolding decode with_checksum
decode-with_checksum a f rh rl vh vl h =
    rw (modbus_crc16_residue (a ∷ f ∷ rh ∷ rl ∷ vh ∷ vl ∷ []) h)

checksum_bytes :
    (a f rh rl vh vl : ℕ)
    → AllBytes (a ∷ f ∷ rh ∷ rl ∷ vh ∷ vl ∷ [])
    → AllBytes (with_checksum (a ∷ f ∷ rh ∷ rl ∷ vh ∷ vl ∷ []))
unfolding with_checksum
checksum_bytes a f rh rl vh vl h =
    let crc = modbus_crc16-lt (a ∷ f ∷ rh ∷ rl ∷ vh ∷ vl ∷ []) h in omega (arith, crc)

received-with_checksum :
    (a f rh rl vh vl : ℕ)
    → AllBytes (a ∷ f ∷ rh ∷ rl ∷ vh ∷ vl ∷ [])
    → received (hex2ascii (with_checksum (a ∷ f ∷ rh ∷ rl ∷ vh ∷ vl ∷ [])))
      ≡ some
          (record { device = a; function = f; register = rh * 256 + rl; argument = vh * 256 + vl })
unfolding received
received-with_checksum a f rh rl vh vl h =
    rw (ascii2hex-hex2ascii _ (checksum_bytes a f rh rl vh vl h))
      (decode-with_checksum a f rh rl vh vl h)

two_bytes : (z : ℤ) → (u16 z / 256) * 256 + u16 z % 256 ≡ u16 z
two_bytes z = omega arith

word_bytes :
    (a f : ℕ) (x y : ℤ)
    → a < 256
    → f < 256
    → AllBytes (a ∷ f ∷ high_byte x ∷ low_byte x ∷ high_byte y ∷ low_byte y ∷ [])
word_bytes a f x y ha hf = omega (arith, u16-lt x, u16-lt y)

-- For every PLC address, register and count the text of the query is taken by the device, with the
-- low eight bits of the address, code 3 and the low sixteen bits of register and count.
pub received-modbus_read :
    (plc start_reg num_reg : ℤ)
    → received (hex2ascii (modbus_read plc start_reg num_reg))
      ≡ some (record {
        device = u8 plc;
        function = fc_read;
        register = u16 start_reg;
        argument = u16 num_reg;
      })
unfolding modbus_read
received-modbus_read plc start_reg num_reg =
    received-with_checksum (u8 plc) fc_read _ _ _ _
      (word_bytes (u8 plc) fc_read start_reg num_reg (u8-lt plc) (omega arith))
    ∙ ap₂ (λ r v. some (record { device = u8 plc; function = fc_read; register = r; argument = v }))
        (two_bytes start_reg) (two_bytes num_reg)

-- For every PLC address, register and value the text of the command is taken by the device, with the
-- low eight bits of the address, code 6 and the low sixteen bits of register and value.
pub received-modbus_write :
    (plc plc_channel intv : ℤ)
    → received (hex2ascii (modbus_write plc plc_channel intv))
      ≡ some (record {
        device = u8 plc;
        function = fc_write;
        register = u16 plc_channel;
        argument = u16 intv;
      })
unfolding modbus_write
received-modbus_write plc plc_channel intv =
    received-with_checksum (u8 plc) fc_write _ _ _ _
      (word_bytes (u8 plc) fc_write plc_channel intv (u8-lt plc) (omega arith))
    ∙ ap₂
        (λ r v. some (record { device = u8 plc; function = fc_write; register = r; argument = v }))
        (two_bytes plc_channel) (two_bytes intv)

-- For every address the text of the weather request is taken by the device, with the low eight bits of
-- the address, code 3, and a request for two registers from 0 on.
pub received-modbus_weather :
    (target_addr : ℤ)
    → received (hex2ascii (modbus_weather target_addr))
      ≡ some (record { device = u8 target_addr; function = fc_read; register = 0; argument = 2 })
unfolding modbus_weather
received-modbus_weather target_addr =
    received-with_checksum (u8 target_addr) fc_read 0 0 0 2 (omega (arith, u8-lt target_addr))

-- Each text has sixteen characters, one less than the array `ascii_data`.
pub length-with_checksum :
    (a f rh rl vh vl : ℕ) → length (hex2ascii (with_checksum (a ∷ f ∷ rh ∷ rl ∷ vh ∷ vl ∷ []))) ≡ 16
unfolding with_checksum
length-with_checksum a f rh rl vh vl =
    length-hex2ascii (with_checksum (a ∷ f ∷ rh ∷ rl ∷ vh ∷ vl ∷ []))
