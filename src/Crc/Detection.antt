-- ===== src/Crc/Detection.antt =====
-- src/crc.c: the checksums of frames that differ in one byte.
use edgebox.Prelude.{
  ℕ, ◌<◌, ◌≡◌, refl, sym, ap, ◌∙◌, ◌≢◌, List, [], ◌∷◌, ◌++◌, true, bit_xor, arith, ◌==◌, ==_iff,
  get_or,
}
use edgebox.Prelude.Tables.{every_below, checked_at, xor_byte, xor_cancel, xor_comm}
use edgebox.Crc.{Crc, crc_hi, crc_low, crc_round, crc_loop, crc_start, word, modbus_crc16}
use edgebox.Crc.Reference.{AllBytes, IsCrc, entry_bytes, crc_round-IsCrc, crc_loop-IsCrc}
use edgebox.Crc.Residue.{crc_loop-append}

-- The place of each byte in `crc_low`, which holds every byte once.
crc_low_place : List ℕ
crc_low_place =
    0x00 ∷ 0x03 ∷ 0x06 ∷ 0x05 ∷ 0x0f ∷ 0x0c ∷ 0x09 ∷ 0x0a ∷ 0x1e ∷ 0x1d ∷ 0x18 ∷ 0x1b ∷ 0x11 ∷ 0x12
    ∷ 0x17 ∷ 0x14 ∷ 0x3f ∷ 0x3c ∷ 0x39 ∷ 0x3a ∷ 0x30 ∷ 0x33 ∷ 0x36 ∷ 0x35 ∷ 0x21 ∷ 0x22 ∷ 0x27
    ∷ 0x24 ∷ 0x2e ∷ 0x2d ∷ 0x28 ∷ 0x2b ∷ 0x7e ∷ 0x7d ∷ 0x78 ∷ 0x7b ∷ 0x71 ∷ 0x72 ∷ 0x77 ∷ 0x74
    ∷ 0x60 ∷ 0x63 ∷ 0x66 ∷ 0x65 ∷ 0x6f ∷ 0x6c ∷ 0x69 ∷ 0x6a ∷ 0x41 ∷ 0x42 ∷ 0x47 ∷ 0x44 ∷ 0x4e
    ∷ 0x4d ∷ 0x48 ∷ 0x4b ∷ 0x5f ∷ 0x5c ∷ 0x59 ∷ 0x5a ∷ 0x50 ∷ 0x53 ∷ 0x56 ∷ 0x55 ∷ 0xff ∷ 0xfc
    ∷ 0xf9 ∷ 0xfa ∷ 0xf0 ∷ 0xf3 ∷ 0xf6 ∷ 0xf5 ∷ 0xe1 ∷ 0xe2 ∷ 0xe7 ∷ 0xe4 ∷ 0xee ∷ 0xed ∷ 0xe8
    ∷ 0xeb ∷ 0xc0 ∷ 0xc3 ∷ 0xc6 ∷ 0xc5 ∷ 0xcf ∷ 0xcc ∷ 0xc9 ∷ 0xca ∷ 0xde ∷ 0xdd ∷ 0xd8 ∷ 0xdb
    ∷ 0xd1 ∷ 0xd2 ∷ 0xd7 ∷ 0xd4 ∷ 0x81 ∷ 0x82 ∷ 0x87 ∷ 0x84 ∷ 0x8e ∷ 0x8d ∷ 0x88 ∷ 0x8b ∷ 0x9f
    ∷ 0x9c ∷ 0x99 ∷ 0x9a ∷ 0x90 ∷ 0x93 ∷ 0x96 ∷ 0x95 ∷ 0xbe ∷ 0xbd ∷ 0xb8 ∷ 0xbb ∷ 0xb1 ∷ 0xb2
    ∷ 0xb7 ∷ 0xb4 ∷ 0xa0 ∷ 0xa3 ∷ 0xa6 ∷ 0xa5 ∷ 0xaf ∷ 0xac ∷ 0xa9 ∷ 0xaa ∷ 0xfe ∷ 0xfd ∷ 0xf8
    ∷ 0xfb ∷ 0xf1 ∷ 0xf2 ∷ 0xf7 ∷ 0xf4 ∷ 0xe0 ∷ 0xe3 ∷ 0xe6 ∷ 0xe5 ∷ 0xef ∷ 0xec ∷ 0xe9 ∷ 0xea
    ∷ 0xc1 ∷ 0xc2 ∷ 0xc7 ∷ 0xc4 ∷ 0xce ∷ 0xcd ∷ 0xc8 ∷ 0xcb ∷ 0xdf ∷ 0xdc ∷ 0xd9 ∷ 0xda ∷ 0xd0
    ∷ 0xd3 ∷ 0xd6 ∷ 0xd5 ∷ 0x80 ∷ 0x83 ∷ 0x86 ∷ 0x85 ∷ 0x8f ∷ 0x8c ∷ 0x89 ∷ 0x8a ∷ 0x9e ∷ 0x9d
    ∷ 0x98 ∷ 0x9b ∷ 0x91 ∷ 0x92 ∷ 0x97 ∷ 0x94 ∷ 0xbf ∷ 0xbc ∷ 0xb9 ∷ 0xba ∷ 0xb0 ∷ 0xb3 ∷ 0xb6
    ∷ 0xb5 ∷ 0xa1 ∷ 0xa2 ∷ 0xa7 ∷ 0xa4 ∷ 0xae ∷ 0xad ∷ 0xa8 ∷ 0xab ∷ 0x01 ∷ 0x02 ∷ 0x07 ∷ 0x04
    ∷ 0x0e ∷ 0x0d ∷ 0x08 ∷ 0x0b ∷ 0x1f ∷ 0x1c ∷ 0x19 ∷ 0x1a ∷ 0x10 ∷ 0x13 ∷ 0x16 ∷ 0x15 ∷ 0x3e
    ∷ 0x3d ∷ 0x38 ∷ 0x3b ∷ 0x31 ∷ 0x32 ∷ 0x37 ∷ 0x34 ∷ 0x20 ∷ 0x23 ∷ 0x26 ∷ 0x25 ∷ 0x2f ∷ 0x2c
    ∷ 0x29 ∷ 0x2a ∷ 0x7f ∷ 0x7c ∷ 0x79 ∷ 0x7a ∷ 0x70 ∷ 0x73 ∷ 0x76 ∷ 0x75 ∷ 0x61 ∷ 0x62 ∷ 0x67
    ∷ 0x64 ∷ 0x6e ∷ 0x6d ∷ 0x68 ∷ 0x6b ∷ 0x40 ∷ 0x43 ∷ 0x46 ∷ 0x45 ∷ 0x4f ∷ 0x4c ∷ 0x49 ∷ 0x4a
    ∷ 0x5e ∷ 0x5d ∷ 0x58 ∷ 0x5b ∷ 0x51 ∷ 0x52 ∷ 0x57 ∷ 0x54 ∷ []

places_table : every_below 256 (λ i. get_or crc_low_place (get_or crc_low i 0) 0 == i) ≡ true
unfolding every_below crc_low crc_low_place
places_table = refl

crc_low_injective : (i j : ℕ) → i < 256 → j < 256 → get_or crc_low i 0 ≡ get_or crc_low j 0 → i ≡ j
crc_low_injective i j hi hj e = sym (place i hi) ∙ ap (λ v. get_or crc_low_place v 0) e ∙ place j hj
  where
    place : (i : ℕ) → i < 256 → get_or crc_low_place (get_or crc_low i 0) 0 ≡ i
    place i h =
        (==_iff _ i).0
          (checked_at 256 (λ i. get_or crc_low_place (get_or crc_low i 0) 0 == i) i places_table h)

xor_right_injective : (a b c : ℕ) → a < 256 → b < 256 → c < 256 → bit_xor a c ≡ bit_xor b c → a ≡ b
xor_right_injective a b c ha hb hc e =
    sym (xor_cancel a c ha hc) ∙ ap (λ v. bit_xor v c) e ∙ xor_cancel b c hb hc

xor_left_injective : (a b c : ℕ) → a < 256 → b < 256 → c < 256 → bit_xor c a ≡ bit_xor c b → a ≡ b
xor_left_injective a b c ha hb hc e =
    xor_right_injective a b c ha hb hc (xor_comm a c ha hc ∙ e ∙ xor_comm c b hc hb)

-- The index of a round can be read off its result.
index_injective :
    (c d : Crc) (a b : ℕ)
    → IsCrc c
    → IsCrc d
    → a < 256
    → b < 256
    → crc_round c a ≡ crc_round d b
    → bit_xor c.low_byte a ≡ bit_xor d.low_byte b
unfolding crc_round
index_injective c d a b v w ha hb e =
    crc_low_injective _ _ (xor_byte c.low_byte a v.1 ha) (xor_byte d.low_byte b w.1 hb)
      (ap (λ r. r.high_byte) e)

crc_round_injective_byte :
    (c : Crc) (a b : ℕ) → IsCrc c → a < 256 → b < 256 → crc_round c a ≡ crc_round c b → a ≡ b
crc_round_injective_byte c a b v ha hb e =
    xor_left_injective a b c.low_byte ha hb v.1 (index_injective c c a b v v ha hb e)

crc_round_injective :
    (c d : Crc) (a : ℕ) → IsCrc c → IsCrc d → a < 256 → crc_round c a ≡ crc_round d a → c ≡ d
unfolding crc_round
crc_round_injective c d a v w ha e = λ i. record { high_byte = high i; low_byte = low i }
  where
    index : bit_xor c.low_byte a ≡ bit_xor d.low_byte a
    index = index_injective c d a a v w ha ha e

    low : c.low_byte ≡ d.low_byte
    low = xor_right_injective c.low_byte d.low_byte a v.1 w.1 ha index

    high : c.high_byte ≡ d.high_byte
    high =
        xor_right_injective c.high_byte d.high_byte (get_or crc_hi (bit_xor d.low_byte a) 0) v.0 w.0
          (entry_bytes (xor_byte d.low_byte a w.1 ha)).1
          (ap (λ j. bit_xor c.high_byte (get_or crc_hi j 0)) (sym index) ∙ ap (λ r. r.low_byte) e)

crc_loop_injective :
    (c d : Crc) (bs : List ℕ)
    → IsCrc c
    → IsCrc d
    → AllBytes bs
    → crc_loop c bs ≡ crc_loop d bs
    → c ≡ d
unfolding crc_loop
crc_loop_injective c d [] v w h e = e
crc_loop_injective c d (b ∷ bs) v w h e = crc_round_injective c d b v w h.0 (
    crc_loop_injective (crc_round c b) (crc_round d b) bs (crc_round-IsCrc c b v h.0)
      (crc_round-IsCrc d b w h.0) h.1 e)

word_injective : (c d : Crc) → IsCrc c → IsCrc d → word c ≡ word d → c ≡ d
word_injective c d v w e = ground arith

-- Two frames that differ in exactly one byte, the ones before and behind it being the same, have
-- different checksums.
pub modbus_crc16_detects :
    (xs ys : List ℕ) (a b : ℕ)
    → AllBytes xs
    → AllBytes ys
    → a < 256
    → b < 256
    → a ≢ b
    → modbus_crc16 (xs ++ a ∷ ys) ≢ modbus_crc16 (xs ++ b ∷ ys)
unfolding modbus_crc16 crc_loop
modbus_crc16_detects xs ys a b hx hy ha hb ne e = ne (
    crc_round_injective_byte c a b v ha hb
      (crc_loop_injective (crc_round c a) (crc_round c b) ys va vb hy same))
  where
    c : Crc
    c = crc_loop crc_start xs

    v : IsCrc c
    v = crc_loop-IsCrc crc_start xs (omega arith, omega arith) hx

    va : IsCrc (crc_round c a)
    va = crc_round-IsCrc c a v ha

    vb : IsCrc (crc_round c b)
    vb = crc_round-IsCrc c b v hb

    same : crc_loop (crc_round c a) ys ≡ crc_loop (crc_round c b) ys
    same = word_injective _ _ (crc_loop-IsCrc _ ys va hy) (crc_loop-IsCrc _ ys vb hy) (
        ap word (sym (crc_loop-append crc_start xs (a ∷ ys)))
        ∙ e
        ∙ ap word (crc_loop-append crc_start xs (b ∷ ys)))
