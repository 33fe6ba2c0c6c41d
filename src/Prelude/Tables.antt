-- ===== src/Prelude/Tables.antt =====
-- Facts about bytes, and about pairs of bytes, that are checked value by value.
use Prim.Native.Nat.{ℕ, zero, suc, ◌<◌, bit_xor}
use mathlib.Core.Path.{◌≡◌, refl}
use mathlib.Core.Bool.{Bool, true, ◌&&◌}
use native.Mathlib.Omega.{arith}
use edgebox.Prelude.Tests.{◌==◌, ==_iff, ltb, ltb→lt}

-- The test holds for each number under the bound; the largest is tried first.
unfoldable pub every_below : ℕ → (ℕ → Bool) → Bool
every_below zero test = true
every_below (suc bound) test = test bound && every_below bound test

pub checked_at :
    (bound : ℕ) (test : ℕ → Bool) (k : ℕ)
    → every_below bound test ≡ true
    → k < bound
    → test k ≡ true
unfolding every_below
checked_at zero test k all below = absurd (omega arith)
checked_at (suc bound) test k all below = ground (arith, checked_at bound test k)

pub all_pairs_sound :
    (n m : ℕ) (p : ℕ → ℕ → Bool) (x y : ℕ)
    → every_below n (λ a. every_below m (p a)) ≡ true
    → x < n
    → y < m
    → p x y ≡ true
all_pairs_sound n m p x y h hx hy =
    checked_at m (p x) y (checked_at n (λ a. every_below m (p a)) x h hx) hy

xor_cancel_table : every_below 256 (λ a. every_below 256 (λ b. bit_xor (bit_xor a b) b == a)) ≡ true
unfolding every_below
xor_cancel_table = refl

pub xor_cancel : (a b : ℕ) → a < 256 → b < 256 → bit_xor (bit_xor a b) b ≡ a
xor_cancel a b ha hb =
    (==_iff _ a).0
      (all_pairs_sound 256 256 (λ a b. bit_xor (bit_xor a b) b == a) a b xor_cancel_table ha hb)

xor_byte_table : every_below 256 (λ a. every_below 256 (λ b. ltb (bit_xor a b) 256)) ≡ true
unfolding every_below
xor_byte_table = refl

pub xor_byte : (a b : ℕ) → a < 256 → b < 256 → bit_xor a b < 256
xor_byte a b ha hb =
    ltb→lt _ 256 (all_pairs_sound 256 256 (λ a b. ltb (bit_xor a b) 256) a b xor_byte_table ha hb)

xor_comm_table : every_below 256 (λ a. every_below 256 (λ b. bit_xor a b == bit_xor b a)) ≡ true
unfolding every_below
xor_comm_table = refl

pub xor_comm : (a b : ℕ) → a < 256 → b < 256 → bit_xor a b ≡ bit_xor b a
xor_comm a b ha hb =
    (==_iff _ _).0
      (all_pairs_sound 256 256 (λ a b. bit_xor a b == bit_xor b a) a b xor_comm_table ha hb)
