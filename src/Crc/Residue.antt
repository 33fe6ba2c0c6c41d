-- ===== src/Crc/Residue.antt =====
-- src/crc.c: the checksum of a frame with its own checksum behind it, low byte first.
use edgebox.Prelude.{
  ℕ, ◌/◌, ◌%◌, ◌<◌, ◌≡◌, refl, List, [], ◌∷◌, ◌++◌, true, bit_xor, arith, ◌==◌, ==_iff, get_or,
}
use edgebox.Prelude.Tables.{every_below, checked_at}
use edgebox.Prelude.Xor.{xor-zero}
use edgebox.Crc.{
  Crc, crc_hi, crc_low, crc_round, crc_loop, crc_start, word, modbus_crc16, crc16_high_byte,
  crc16_low_byte,
}
use edgebox.Crc.Reference.{AllBytes, IsCrc, crc_loop-IsCrc}

pub crc_loop-append :
    (c : Crc) (xs ys : List ℕ) → crc_loop c (xs ++ ys) ≡ crc_loop (crc_loop c xs) ys
unfolding crc_loop
crc_loop-append c [] ys = refl
crc_loop-append c (x ∷ xs) ys = crc_loop-append (crc_round c x) xs ys

xor_self_table : every_below 256 (λ a. bit_xor a a == 0) ≡ true
unfolding every_below
xor_self_table = refl

xor_self : (a : ℕ) → a < 256 → bit_xor a a ≡ 0
xor_self a h = (==_iff _ 0).0 (checked_at 256 (λ a. bit_xor a a == 0) a xor_self_table h)

first_entries : (get_or crc_low 0 0 ≡ 0) × (get_or crc_hi 0 0 ≡ 0)
unfolding crc_low crc_hi
first_entries = (refl, refl)

-- The byte that equals the low half moves the high half down.
crc_round_low :
    (c : Crc) → IsCrc c → crc_round c c.low_byte ≡ record { high_byte = 0; low_byte = c.high_byte }
unfolding crc_round
crc_round_low c v =
    rw (xor_self c.low_byte v.1, first_entries.0, first_entries.1, xor-zero c.high_byte)

crc_loop_own : (c : Crc) → IsCrc c → word (crc_loop c (c.low_byte ∷ c.high_byte ∷ [])) ≡ 0
unfolding crc_loop
crc_loop_own c v = rw (
  crc_round_low c v,
  crc_round_low (record { high_byte = 0; low_byte = c.high_byte }) (omega arith, v.0),
)

-- The two bytes that a sender puts behind the bytes of a frame.
abbrev pub checksum : List ℕ → List ℕ
checksum bs = crc16_low_byte (modbus_crc16 bs) ∷ crc16_high_byte (modbus_crc16 bs) ∷ []

-- A frame of bytes followed by its own checksum has the checksum zero.
pub modbus_crc16_residue : (bs : List ℕ) → AllBytes bs → modbus_crc16 (bs ++ checksum bs) ≡ 0
unfolding modbus_crc16
modbus_crc16_residue bs h =
    let c = crc_loop crc_start bs in
    let v : IsCrc c = crc_loop-IsCrc crc_start bs (omega arith, omega arith) h in
    let lo : word c % 256 ≡ c.low_byte = omega arith in
    let hi : word c / 256 ≡ c.high_byte = omega arith in
    rw (crc_loop-append crc_start bs (checksum bs), lo, hi) (crc_loop_own c v)
