-- ===== src/Crc/Reference.antt =====
-- src/crc.c against the published CRC-16/MODBUS: eight conditional shifts for each byte.
use edgebox.Prelude.{
  ℕ, ◌+◌, ◌*◌, ◌/◌, ◌%◌, ◌<◌, ◌≡◌, refl, List, [], ◌∷◌, true, bit_xor, arith, if◌then◌else◌, ◌==◌,
  ==_iff, ltb, get_or, ◌&&◌,
}
use edgebox.Prelude.Tables.{every_below, checked_at, all_pairs_sound, xor_byte, xor_comm}
use edgebox.Prelude.Xor.{xor_low_byte}
use edgebox.Crc.{Crc, crc_hi, crc_low, crc_round, crc_loop, crc_start, word, modbus_crc16}

-- One shift by the reversed polynomial.
unfoldable pub shift : ℕ → ℕ
shift x = if x % 2 == 1 then bit_xor (x / 2) 0xa001 else x / 2

unfoldable pub shift_byte : ℕ → ℕ
unfolding shift
shift_byte x = shift (shift (shift (shift (shift (shift (shift (shift x)))))))

-- The definition by shifts, on a sixteen-bit word.
unfoldable pub crc16_by_shifts : ℕ → List ℕ → ℕ
crc16_by_shifts crc [] = crc
crc16_by_shifts crc (byte ∷ bytes) = crc16_by_shifts (shift_byte (bit_xor crc byte)) bytes

-- All entries are bytes.
abbrev pub AllBytes : List ℕ → Type 0
AllBytes [] = Unit {0}
AllBytes (b ∷ bs) = (b < 256) × AllBytes bs

abbrev pub IsCrc : Crc → Type 0
IsCrc c = (c.high_byte < 256) × (c.low_byte < 256)

-- The tables hold the two bytes of eight shifts of the index.
abbrev entry : ℕ → ℕ
entry i = get_or crc_low i 0 * 256 + get_or crc_hi i 0

entries_table : every_below 256 (λ i. entry i == shift_byte i) ≡ true
unfolding every_below crc_hi crc_low shift_byte
entries_table = refl

byte_entries :
    every_below 256 (λ i. ltb (get_or crc_low i 0) 256 && ltb (get_or crc_hi i 0) 256) ≡ true
unfolding every_below crc_hi crc_low
byte_entries = refl

-- Eight shifts carry the high byte to the low one.
carry_table :
    every_below 256
      (λ h. every_below 256 (λ i. bit_xor (shift_byte i) h == shift_byte (h * 256 + i)))
    ≡ true
unfolding every_below shift_byte
carry_table = refl

carry : (h i : ℕ) → h < 256 → i < 256 → bit_xor (shift_byte i) h ≡ shift_byte (h * 256 + i)
carry h i hh hi = (==_iff _ _).0 (
    all_pairs_sound 256 256 (λ h i. bit_xor (shift_byte i) h == shift_byte (h * 256 + i)) h i
      carry_table hh hi)

module _ {i : ℕ} (hi : i < 256) where
  entry-shift_byte : entry i ≡ shift_byte i
  entry-shift_byte =
      (==_iff _ _).0 (checked_at 256 (λ i. entry i == shift_byte i) i entries_table hi)

  pub entry_bytes : (get_or crc_low i 0 < 256) × (get_or crc_hi i 0 < 256)
  entry_bytes = ground (
    arith,
    checked_at 256 (λ i. ltb (get_or crc_low i 0) 256 && ltb (get_or crc_hi i 0) 256) i byte_entries
        hi,
  )

pub crc_round-IsCrc : (c : Crc) (b : ℕ) → IsCrc c → b < 256 → IsCrc (crc_round c b)
unfolding crc_round
crc_round-IsCrc c b v hb =
    let (lo, hi) = entry_bytes (xor_byte c.low_byte b v.1 hb) in (lo, xor_byte c.high_byte _ v.0 hi)

-- One round of the loop is one byte of the definition by shifts.
crc_round-shift_byte :
    (c : Crc) (b : ℕ) → IsCrc c → b < 256 → word (crc_round c b) ≡ shift_byte (bit_xor (word c) b)
unfolding crc_round
crc_round-shift_byte c b v hb =
    let i = bit_xor c.low_byte b in
    let hi : i < 256 = xor_byte c.low_byte b v.1 hb in
    let (lo, top) = entry_bytes hi in
    rw (
      xor_low_byte c.high_byte c.low_byte b v.1 hb,
      ← carry c.high_byte i v.0 hi,
      ← entry-shift_byte hi,
      xor_low_byte (get_or crc_low i 0) _ c.high_byte top v.0,
      xor_comm c.high_byte (get_or crc_hi i 0) v.0 top,
    )

pub crc_loop-IsCrc : (c : Crc) (bs : List ℕ) → IsCrc c → AllBytes bs → IsCrc (crc_loop c bs)
unfolding crc_loop
crc_loop-IsCrc c [] v h = v
crc_loop-IsCrc c (b ∷ bs) v h = crc_loop-IsCrc (crc_round c b) bs (crc_round-IsCrc c b v h.0) h.1

crc_loop-crc16_by_shifts :
    (c : Crc) (bs : List ℕ)
    → IsCrc c
    → AllBytes bs
    → word (crc_loop c bs) ≡ crc16_by_shifts (word c) bs
unfolding crc_loop crc16_by_shifts
crc_loop-crc16_by_shifts c [] v h = refl
crc_loop-crc16_by_shifts c (b ∷ bs) v h =
    rw (← crc_round-shift_byte c b v h.0)
      (crc_loop-crc16_by_shifts (crc_round c b) bs (crc_round-IsCrc c b v h.0) h.1)

-- For every sequence of bytes the table-driven loop returns what the definition by eight
-- conditional shifts for each byte (start 0xffff, reversed polynomial 0xa001) returns.
pub modbus_crc16-crc16_by_shifts :
    (bs : List ℕ) → AllBytes bs → modbus_crc16 bs ≡ crc16_by_shifts 0xffff bs
unfolding modbus_crc16
modbus_crc16-crc16_by_shifts bs h =
    crc_loop-crc16_by_shifts crc_start bs (omega arith, omega arith) h

pub modbus_crc16-lt : (bs : List ℕ) → AllBytes bs → modbus_crc16 bs < 65536
unfolding modbus_crc16
modbus_crc16-lt bs h = omega (arith, crc_loop-IsCrc crc_start bs (omega arith, omega arith) h)
