-- ===== src/Hex/RoundTrip.antt =====
-- src/statusquery.c: each of the two conversions behind the other.
use edgebox.Prelude.{
  ℕ, ◌-◌, ◌*◌, ◌/◌, ◌%◌, ◌<◌, ◌≡◌, refl, ap, Bool, true, false, ◌&&◌, ◌||◌, not, List, [], ◌∷◌, map,
  arith, ◌==◌, ==_iff, if◌then◌else◌, leb, length, none, some,
}
use edgebox.Prelude.Tables.{every_below, checked_at, all_pairs_sound}
use edgebox.Prelude.CInt.{u8}
use edgebox.Prelude.Text.{Text, strtol16, hex_digit}
use edgebox.Hex.{ascii_digit, hex2ascii, ascii2hex}
use edgebox.Crc.Reference.{AllBytes}

abbrev pair_value : ℕ → ℕ → ℕ
pair_value c d = u8 (strtol16 (c ∷ d ∷ []))

byte_table :
    every_below 256 (λ b. pair_value (ascii_digit (b / 16)) (ascii_digit (b % 16)) == b) ≡ true
unfolding every_below ascii_digit strtol16
byte_table = refl

-- What `hex2ascii` writes `ascii2hex` reads back, for every sequence of bytes.
pub ascii2hex-hex2ascii : (bs : List ℕ) → AllBytes bs → ascii2hex (hex2ascii bs) ≡ bs
unfolding ascii2hex hex2ascii
ascii2hex-hex2ascii [] h = refl
ascii2hex-hex2ascii (b ∷ bs) h = rw (ascii2hex-hex2ascii bs h.1) (
    ap (λ x. x ∷ bs)
      ((==_iff _ b).0 (
        checked_at 256 (λ b. pair_value (ascii_digit (b / 16)) (ascii_digit (b % 16)) == b) b
          byte_table h.0)))

pub length-hex2ascii : (bs : List ℕ) → length (hex2ascii bs) ≡ 2 * length bs
unfolding hex2ascii
length-hex2ascii [] = refl
length-hex2ascii (b ∷ bs) = omega (arith, length-hex2ascii bs)

unfoldable pub to_upper : ℕ → ℕ
to_upper c = if leb b'a' c && leb c b'z' then c - 32 else c

unfoldable pub is_hex : ℕ → Bool
is_hex c = elim (hex_digit c) [ none ↦ false | some d ↦ true ]

-- A text of pairs of hexadecimal digits, of either case.
abbrev pub HexPairs : Text → Type 0
HexPairs [] = Unit {0}
HexPairs (c ∷ []) = ⊥
HexPairs (c ∷ d ∷ s) = (is_hex c ≡ true) × (is_hex d ≡ true) × HexPairs s

abbrev reads_back : ℕ → ℕ → Bool
reads_back c d =
    not (is_hex c && is_hex d)
    || (ascii_digit (pair_value c d / 16) == to_upper c
        && ascii_digit (pair_value c d % 16) == to_upper d)

pair_table : every_below 103 (λ c. every_below 103 (reads_back c)) ≡ true
unfolding every_below ascii_digit strtol16 is_hex to_upper
pair_table = refl

is_hex-lt : (c : ℕ) → is_hex c ≡ true → c < 103
unfolding is_hex hex_digit
is_hex-lt c h = ground arith

pair_back :
    (c d : ℕ)
    → is_hex c ≡ true
    → is_hex d ≡ true
    → (ascii_digit (pair_value c d / 16) ≡ to_upper c)
      × (ascii_digit (pair_value c d % 16) ≡ to_upper d)
pair_back c d hc hd = ground (
  arith,
  all_pairs_sound 103 103 reads_back c d pair_table (is_hex-lt c hc) (is_hex-lt d hd),
  ==_iff (ascii_digit (pair_value c d / 16)) (to_upper c),
  ==_iff (ascii_digit (pair_value c d % 16)) (to_upper d),
)

-- A text of pairs of hexadecimal digits, read by `ascii2hex` and written by `hex2ascii`, comes back in
-- capital letters.
pub hex2ascii-ascii2hex : (s : Text) → HexPairs s → hex2ascii (ascii2hex s) ≡ map to_upper s
unfolding ascii2hex hex2ascii
hex2ascii-ascii2hex [] h = refl
hex2ascii-ascii2hex (c ∷ []) h = absurd h
hex2ascii-ascii2hex (c ∷ d ∷ s) h =
    let (ec, ed) = pair_back c d h.0 h.1 in rw (ec, ed, hex2ascii-ascii2hex s h.2)
