-- ===== src/Prelude/Xor.antt =====
-- The exclusive or of a two-byte word and a byte.
use Prim.Native.Nat.{
  ℕ, zero, suc, ◌+◌, ◌*◌, ◌/◌, ◌%◌, ◌≤◌, ◌<◌, bit_xor, bit_xor-bitwise, digits, differ,
}
use mathlib.Core.Path.{◌≡◌, refl}
use native.Mathlib.Omega.{arith}

-- What the native operation stands for, with the fuel as an argument.
abbrev xor_digits : ℕ → ℕ → ℕ → ℕ
xor_digits n a b = digits (λ b. b) differ n a b

-- Fuel above the first number makes no difference.
xor_digits_fuel : (n m a b : ℕ) → a ≤ n → a ≤ m → xor_digits n a b ≡ xor_digits m a b
xor_digits_fuel zero zero a b p q = refl
xor_digits_fuel zero (suc m) zero b p q = refl
xor_digits_fuel zero (suc m) (suc a) b p q = absurd (omega arith)
xor_digits_fuel (suc n) zero zero b p q = refl
xor_digits_fuel (suc n) zero (suc a) b p q = absurd (omega arith)
xor_digits_fuel (suc n) (suc m) zero b p q = refl
xor_digits_fuel (suc n) (suc m) (suc a) b p q =
    omega (arith, xor_digits_fuel n m (suc a / 2) (b / 2) (omega arith) (omega arith))

pub zero-xor : (b : ℕ) → bit_xor 0 b ≡ b
zero-xor b = bit_xor-bitwise 0 b

-- The law of the lowest digit.
pub xor_step : (a b : ℕ) → bit_xor a b ≡ bit_xor (a / 2) (b / 2) * 2 + differ (a % 2) (b % 2)
xor_step zero b = omega (arith, zero-xor b, zero-xor (b / 2))
xor_step (suc a) b = omega (
  arith,
  bit_xor-bitwise (suc a) b,
  bit_xor-bitwise (suc a / 2) (b / 2),
  xor_digits_fuel a (suc a / 2) (suc a / 2) (b / 2) (omega arith) (omega arith),
)

differ-zero : (x : ℕ) → x < 2 → differ x 0 ≡ x
differ-zero zero h = refl
differ-zero (suc zero) h = refl
differ-zero (suc (suc x)) h = absurd (omega arith)

xor-zero_fuel : (n a : ℕ) → a ≤ n → bit_xor a 0 ≡ a
xor-zero_fuel n zero h = refl
xor-zero_fuel zero (suc a) h = absurd (omega arith)
xor-zero_fuel (suc n) (suc a) h = omega (
  arith,
  xor_step (suc a) 0,
  xor-zero_fuel n (suc a / 2) (omega arith),
  differ-zero (suc a % 2) (omega arith),
)

pub xor-zero : (a : ℕ) → bit_xor a 0 ≡ a
xor-zero a = xor-zero_fuel a a (omega arith)

-- From `k` low digits to `k + 1`, with `m` for two to the `k`.
xor_widen :
    (m h l b : ℕ)
    → bit_xor (h * m + l / 2) (b / 2) ≡ h * m + bit_xor (l / 2) (b / 2)
    → bit_xor (h * (m * 2) + l) b ≡ h * (m * 2) + bit_xor l b
xor_widen m h l b ih = rw (xor_step (h * (m * 2) + l) b, xor_step l b, half, rest, ih) (omega arith)
  where
    half : (h * (m * 2) + l) / 2 ≡ h * m + l / 2
    half = omega arith

    rest : (h * (m * 2) + l) % 2 ≡ l % 2
    rest = omega arith

xor_none : (h l b : ℕ) → l ≡ 0 → b ≡ 0 → bit_xor (h * 1 + l) b ≡ h * 1 + bit_xor l b
xor_none h l b el eb = rw (el, eb, xor-zero (h * 1 + 0)) (omega arith)

-- `h << 8 | l` with a byte: the high part stays.
pub xor_low_byte : (h l b : ℕ) → l < 256 → b < 256 → bit_xor (h * 256 + l) b ≡ h * 256 + bit_xor l b
xor_low_byte h l b hl hb = xor_widen 128 h l b (
    xor_widen 64 h _ _ (
      xor_widen 32 h _ _ (
        xor_widen 16 h _ _ (
          xor_widen 8 h _ _ (
            xor_widen 4 h _ _ (
              xor_widen 2 h _ _
                (xor_widen 1 h _ _ (xor_none h _ _ (omega arith) (omega arith)))))))))
