-- ===== src/Prelude/Text.antt =====
-- C strings as lists of bytes, without the terminating NUL: comparison, and `strtol` to base 16.
use Prim.Native.Nat.{ℕ, ◌+◌, ◌-◌, ◌*◌}
use Prim.Native.Char.{code}
use Prim.Native.String.{String}
use mathlib.Core.Path.{◌≡◌, refl}
use mathlib.Core.Bool.{Bool, true, false, ◌&&◌, ◌||◌}
use mathlib.Core.Option.{Option, none, some}
use mathlib.Core.List.{List, [], ◌∷◌, map}
use native.Mathlib.Omega.{arith}
use edgebox.Prelude.Tests.{ltb, leb, ◌==◌, if◌then◌else◌}
use edgebox.Prelude.CInt.{ℤ, pos, negsuc}

abbrev pub Text : Type 0
Text = List ℕ

-- The bytes of an ASCII literal.
abbrev pub codes : String → Text
codes String.[] = []
codes (String.◌∷◌ c s) = code c ∷ codes s

-- `strcmp(a, b) == 0`
unfoldable pub text_eq : Text → Text → Bool
text_eq [] [] = true
text_eq [] (b ∷ bs) = false
text_eq (a ∷ as') [] = false
text_eq (a ∷ as') (b ∷ bs) = a == b && text_eq as' bs

pub text_eq→eq : (a b : Text) → text_eq a b ≡ true → a ≡ b
unfolding text_eq
text_eq→eq [] [] h = refl
text_eq→eq [] (b ∷ bs) h = ground arith
text_eq→eq (a ∷ as') [] h = ground arith
text_eq→eq (a ∷ as') (b ∷ bs) h = ground (arith, text_eq→eq as' bs)

pub text_eq_self : (a : Text) → text_eq a a ≡ true
unfolding text_eq
text_eq_self [] = refl
text_eq_self (a ∷ as') = ground (arith, text_eq_self as')

unfoldable pub to_lower : ℕ → ℕ
to_lower c = if leb b'A' c && leb c b'Z' then c + 32 else c

-- `strcasecmp(a, b) == 0`
unfoldable pub text_case_eq : Text → Text → Bool
text_case_eq a b = text_eq (map to_lower a) (map to_lower b)

unfoldable pub is_space : ℕ → Bool
is_space c = c == b' ' || (leb 9 c && leb c 13)

unfoldable pub hex_digit : ℕ → Option ℕ
hex_digit c =
    if leb b'0' c && leb c b'9'
    then some (c - b'0')
    else if leb b'A' c && leb c b'F'
    then some (c - b'A' + 10)
    else if leb b'a' c && leb c b'f'
    then some (c - b'a' + 10)
    else none

unfoldable pub skip_space : Text → Text
skip_space [] = []
skip_space (c ∷ s) = if is_space c then skip_space s else c ∷ s

-- The digits up to the first byte that is none.
unfoldable pub hex_digits : ℕ → Text → ℕ
hex_digits acc [] = acc
hex_digits acc (c ∷ s) = elim (hex_digit c) [ none ↦ acc | some d ↦ hex_digits (acc * 16 + d) s ]

-- An `0x` in front of the digits is skipped.
unfoldable pub hex_magnitude : Text → ℕ
hex_magnitude [] = 0
hex_magnitude (c ∷ []) = hex_digits 0 (c ∷ [])
hex_magnitude (c ∷ d ∷ s) =
    if c == b'0' && (d == b'x' || d == b'X') then hex_digits 0 s else hex_digits 0 (c ∷ d ∷ s)

-- A result that does not fit a 32-bit `long` is clamped to it.
unfoldable pub clamp_positive : ℕ → ℤ
clamp_positive n = pos (if ltb n 2147483648 then n else 2147483647)

unfoldable pub clamp_negative : ℕ → ℤ
clamp_negative n = if n == 0 then pos 0 else negsuc (if ltb n 2147483649 then n - 1 else 2147483647)

unfoldable pub signed_hex : Text → ℤ
signed_hex [] = pos 0
signed_hex (c ∷ s) =
    if c == b'-'
    then clamp_negative (hex_magnitude s)
    else if c == b'+'
    then clamp_positive (hex_magnitude s)
    else clamp_positive (hex_magnitude (c ∷ s))

-- `strtol(s, NULL, 16)`
unfoldable pub strtol16 : Text → ℤ
unfolding is_space hex_digit skip_space hex_digits hex_magnitude clamp_positive clamp_negative
    signed_hex
strtol16 s = signed_hex (skip_space s)
