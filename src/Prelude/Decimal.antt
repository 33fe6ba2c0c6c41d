-- ===== src/Prelude/Decimal.antt =====
-- Numbers printed in decimal digits, and read.
use Prim.Native.Nat.{ℕ, zero, suc, ◌+◌, ◌-◌, ◌*◌, ◌/◌, ◌%◌, ◌^◌, ◌<◌}
use mathlib.Core.Path.{◌≡◌, refl, ◌∙◌}
use mathlib.Core.Logic.{inl, inr}
use mathlib.Core.Bool.{true, false}
use mathlib.Core.List.{[], ◌∷◌, ◌++◌}
use native.Mathlib.Omega.{arith}
use edgebox.Prelude.Tests.{ltb, ◌==◌, if◌then◌else◌, Bool-cases, ltb→lt}
use edgebox.Prelude.Text.{Text}

-- `%d` of a number that is not negative: at most ten digits for an `int`.
unfoldable pub decimal : ℕ → ℕ → Text
decimal zero n = []
decimal (suc digits_left) n =
    let more = decimal digits_left (n / 10) in
    if ltb n 10 then (n + b'0') ∷ [] else more ++ (n % 10 + b'0') ∷ []

abbrev pub int_digits : ℕ
int_digits = 10

-- The number that a text of digits stands for; a point is passed over.
unfoldable pub read_digits : ℕ → Text → ℕ
read_digits acc [] = acc
read_digits acc (c ∷ s) =
    if c == b'.' then read_digits acc s else read_digits (acc * 10 + (c - b'0')) s

pub read_digits-append :
    (acc : ℕ) (s t : Text) → read_digits acc (s ++ t) ≡ read_digits (read_digits acc s) t
unfolding read_digits
read_digits-append acc [] t = refl
read_digits-append acc (c ∷ s) t =
    ground (arith, read_digits-append acc s t, read_digits-append (acc * 10 + (c - b'0')) s t)

pub read_digits-digit : (acc d : ℕ) → d < 10 → read_digits acc ((d + b'0') ∷ []) ≡ acc * 10 + d
unfolding read_digits
read_digits-digit acc d h =
    let no_point : (d + b'0' == b'.') ≡ false = ground arith in rw no_point (omega arith)

tenth_lt : (k n : ℕ) → n < 10 ^ suc k → n / 10 < 10 ^ k
tenth_lt k n h = omega arith

read_digits-first : (n : ℕ) → n < 10 → read_digits 0 ((n + b'0') ∷ []) ≡ n
read_digits-first n h = read_digits-digit 0 n h ∙ omega arith

-- The digits of a number below the power of ten read as the number.
pub read_digits-decimal : (k n : ℕ) → n < 10 ^ suc k → read_digits 0 (decimal (suc k) n) ≡ n
unfolding decimal
read_digits-decimal zero n h =
    let small : ltb n 10 ≡ true = ground arith in rw small (read_digits-first n (omega arith))
read_digits-decimal (suc k) n h = elim (Bool-cases (ltb n 10)) [
  | inl small ↦ rw small (read_digits-first n (ltb→lt _ _ small))
  | inr large ↦
      let last : (n / 10) * 10 + n % 10 ≡ n = omega arith in
      let more : read_digits 0 (decimal (suc k) (n / 10)) ≡ n / 10 =
        read_digits-decimal k (n / 10) (tenth_lt (suc k) n h) in
      rw large (
        read_digits-append 0 (decimal (suc k) (n / 10)) ((n % 10 + b'0') ∷ [])
        ∙ rw more (read_digits-digit (n / 10) (n % 10) (omega arith) ∙ last))
]
