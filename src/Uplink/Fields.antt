-- ===== src/Uplink/Fields.antt =====
-- src/wsclient.c: the numbers that `strtol` reads in the hexadecimal text of a reply.
use edgebox.Prelude.{
  ℕ, ◌+◌, ◌*◌, ◌/◌, ◌%◌, ◌<◌, ◌≡◌, false, ◌||◌, none, some, [], ◌∷◌, ◌++◌, ◌==◌, arith,
}
use edgebox.Prelude.CInt.{pos}
use edgebox.Prelude.Text.{
  Text, is_space, hex_digit, skip_space, hex_digits, hex_magnitude, signed_hex, clamp_positive,
  strtol16,
}
use edgebox.Hex.{ascii_digit, hex2ascii}

digit_is : (n : ℕ) → n < 16 → hex_digit (ascii_digit n) ≡ some n
unfolding hex_digit ascii_digit
digit_is n h = ground arith

-- A digit is none of the bytes that `strtol` treats apart.
digit_plain :
    (n : ℕ)
    → n < 16
    → (is_space (ascii_digit n) ≡ false)
      × ((ascii_digit n == b'-') ≡ false)
      × ((ascii_digit n == b'+') ≡ false)
      × ((ascii_digit n == b'x' || ascii_digit n == b'X') ≡ false)
unfolding is_space ascii_digit
digit_plain n h = (ground arith, ground arith, ground arith, ground arith)

hex_digits-byte :
    (acc b : ℕ) (s : Text)
    → b < 256
    → hex_digits acc (ascii_digit (b / 16) ∷ ascii_digit (b % 16) ∷ s)
      ≡ hex_digits (acc * 256 + b) s
unfolding hex_digits
hex_digits-byte acc b s h =
    let value : (acc * 16 + b / 16) * 16 + b % 16 ≡ acc * 256 + b = omega arith in
    rw (digit_is (b / 16) (omega arith), hex_digits, digit_is (b % 16) (omega arith), value)

-- Two digits and what follows.
strtol16-byte :
    (b : ℕ) (s : Text)
    → b < 256
    → strtol16 (ascii_digit (b / 16) ∷ ascii_digit (b % 16) ∷ s) ≡ clamp_positive (hex_digits b s)
unfolding strtol16 skip_space signed_hex hex_magnitude
strtol16-byte b s h =
    let (no_space, no_minus, no_plus, _) = digit_plain (b / 16) (omega arith) in
    let (_, _, _, no_prefix) = digit_plain (b % 16) (omega arith) in
    rw (no_space, skip_space, no_minus, no_plus, no_prefix, hex_digits-byte 0 b s h) (ground arith)

pub strtol16-one_byte : (a : ℕ) → a < 256 → strtol16 (hex2ascii (a ∷ [])) ≡ pos a
unfolding hex2ascii hex_digits clamp_positive
strtol16-one_byte a h = rw (strtol16-byte a [] h) (ground arith)

pub strtol16-two_bytes :
    (h l : ℕ) → h < 256 → l < 256 → strtol16 (hex2ascii (h ∷ l ∷ [])) ≡ pos (h * 256 + l)
unfolding hex2ascii hex_digits clamp_positive
strtol16-two_bytes h l hh hl = rw (strtol16-byte h _ hh, hex_digits-byte h l [] hl) (ground arith)

-- A byte behind the four digits is one more digit, or ends the number.
pub strtol16-junk_digit :
    (h l j d : ℕ)
    → h < 256
    → l < 256
    → hex_digit j ≡ some d
    → d < 16
    → strtol16 (hex2ascii (h ∷ l ∷ []) ++ j ∷ []) ≡ pos ((h * 256 + l) * 16 + d)
unfolding hex2ascii hex_digits clamp_positive
strtol16-junk_digit h l j d hh hl is_digit hd =
    rw (strtol16-byte h _ hh, hex_digits-byte h l _ hl, hex_digits, is_digit) (ground arith)

pub strtol16-junk_other :
    (h l j : ℕ)
    → h < 256
    → l < 256
    → hex_digit j ≡ none
    → strtol16 (hex2ascii (h ∷ l ∷ []) ++ j ∷ []) ≡ pos (h * 256 + l)
unfolding hex2ascii hex_digits clamp_positive
strtol16-junk_other h l j hh hl no_digit =
    rw (strtol16-byte h _ hh, hex_digits-byte h l _ hl, hex_digits, no_digit) (ground arith)

pub hex_digit-lt : (j d : ℕ) → hex_digit j ≡ some d → d < 16
unfolding hex_digit
hex_digit-lt j d h = ground arith
