-- ===== src/Hex/Examples.antt =====
-- The hexadecimal text at concrete bytes.
use edgebox.Prelude.{◌≡◌, refl, [], ◌∷◌, arith}
use edgebox.Prelude.Text.{codes, hex_digit}
use edgebox.Hex.{hex2ascii, ascii2hex}
use edgebox.Hex.RoundTrip.{HexPairs, is_hex, ascii2hex-hex2ascii}

read_back : ascii2hex (hex2ascii (0 ∷ 31 ∷ 255 ∷ [])) ≡ 0 ∷ 31 ∷ 255 ∷ []
read_back = ascii2hex-hex2ascii (0 ∷ 31 ∷ 255 ∷ []) (omega arith)

pairs : HexPairs (codes "01aF")
unfolding is_hex hex_digit
pairs = (refl, refl, (refl, refl, tt))
