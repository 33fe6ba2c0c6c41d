-- ===== src/Hex.antt =====
-- src/statusquery.c: `hex2ascii` and `ascii2hex`. A plain `char` is unsigned, as on the ARM target
-- that the Makefile names.
pub mod RoundTrip
pub mod Examples
use edgebox.Prelude.{ℕ, ◌+◌, ◌-◌, ◌/◌, ◌%◌, List, [], ◌∷◌, if◌then◌else◌, leb}
use edgebox.Prelude.CInt.{u8}
use edgebox.Prelude.Text.{Text, strtol16}

-- `(half <= 9) ? (half + '0') : (half - 10 + 'A')`
unfoldable pub ascii_digit : ℕ → ℕ
ascii_digit half = if leb half 9 then half + b'0' else half - 10 + b'A'

-- Two characters for each byte; the terminating NUL is not in the list.
unfoldable pub hex2ascii : List ℕ → Text
unfolding ascii_digit
hex2ascii [] = []
hex2ascii (b ∷ bs) = ascii_digit (b / 16) ∷ ascii_digit (b % 16) ∷ hex2ascii bs

-- Two characters are read in each round. Of a text of odd length the last pair ends in the NUL.
unfoldable pub ascii2hex : Text → List ℕ
ascii2hex [] = []
ascii2hex (c ∷ []) = u8 (strtol16 (c ∷ [])) ∷ []
ascii2hex (c ∷ d ∷ s) = u8 (strtol16 (c ∷ d ∷ [])) ∷ ascii2hex s
