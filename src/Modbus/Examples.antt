-- ===== src/Modbus/Examples.antt =====
-- The frames at concrete addresses and values.
use edgebox.Prelude.{◌≡◌, some}
use edgebox.Prelude.CInt.{pos, negsuc}
use edgebox.Hex.{hex2ascii}
use edgebox.Modbus.{modbus_read, modbus_write}
use edgebox.Modbus.Frames.{received, received-modbus_read, received-modbus_write}

received-modbus_read_example :
    received (hex2ascii (modbus_read (pos 1) (pos 300) (pos 10)))
    ≡ some (record { device = 1; function = 3; register = 300; argument = 10 })
received-modbus_read_example = received-modbus_read (pos 1) (pos 300) (pos 10)

-- A value of -1 is written as sixteen ones.
received-modbus_write_example :
    received (hex2ascii (modbus_write (pos 1) (pos 5) (negsuc 0)))
    ≡ some (record { device = 1; function = 6; register = 5; argument = 65535 })
received-modbus_write_example = received-modbus_write (pos 1) (pos 5) (negsuc 0)
