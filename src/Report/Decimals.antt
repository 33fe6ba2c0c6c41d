-- ===== src/Report/Decimals.antt =====
-- src/mqtt.c: the numbers in the reports.
use edgebox.Prelude.{
  ◌↔◌, ◌||◌, ℕ, ◌+◌, ◌*◌, ◌/◌, ◌%◌, ◌^◌, ◌≤◌, ◌<◌, ◌≡◌, ◌≢◌, refl, ap, ◌∙◌, Bool, true, false, not,
  [], ◌∷◌, ltb, ◌==◌, arith, Bool-cases, inl, inr, ltb→lt, ==_iff,
}
use edgebox.Prelude.CInt.{pos, negsuc, s32, eq_int, eq_int_self}
use edgebox.Prelude.Tables.{every_below, all_pairs_sound}
use edgebox.Prelude.Run.{ok, fault}
use edgebox.Prelude.Decimal.{
  decimal, read_digits, read_digits-append, read_digits-digit, read_digits-decimal,
}
use edgebox.Report.{one_decimal, two_byte_value}

-- For less than ten digits the text of a number of tenths reads, its point passed over, as the number,
-- and that of a negative number is a sign and the text of its absolute value.
pub one_decimal-read_digits :
    (n : ℕ)
    → n < 10 ^ 10
    → (read_digits 0 (one_decimal (pos n)) ≡ n)
      × (one_decimal (negsuc n) ≡ b'-' ∷ one_decimal (pos (n + 1)))
unfolding one_decimal read_digits
one_decimal-read_digits n h =
    let whole : read_digits 0 (decimal 10 (n / 10)) ≡ n / 10 =
      read_digits-decimal 9 (n / 10) (omega arith) in
    let last : (n / 10) * 10 + n % 10 ≡ n = omega arith in
    (
      read_digits-append 0 (decimal 10 (n / 10)) (b'.' ∷ (n % 10 + b'0') ∷ [])
          ∙ rw whole (read_digits-digit (n / 10) (n % 10) (omega arith) ∙ last),
      refl,
    )

abbrev is_pair_value : ℕ → ℕ → Bool
is_pair_value high low = eq_int (s32 (high * 2 ^ (8 + low) % 4294967296)) (pos (high * 256 + low))

abbrev differs : ℕ → ℕ → Bool
differs low high = (low == 0) || not (is_pair_value high low)

differs_table : every_below 24 (λ low. every_below 256 (differs low)) ≡ true
unfolding every_below
differs_table = refl

pair_of_zero : (high : ℕ) → high < 256 → s32 (high * 2 ^ 8 % 4294967296) ≡ pos (high * 256 + 0)
pair_of_zero high h = ground arith

never_pair : (high low : ℕ) → high < 256 → low < 24 → low ≢ 0 → is_pair_value high low ≡ false
never_pair high low hh hl ne =
    let entry : differs low high ≡ true =
      all_pairs_sound 24 256 differs low high differs_table hl hh in
    ground arith

pair_value_eq :
    (high low : ℕ)
    → s32 (high * 2 ^ (8 + low) % 4294967296) ≡ pos (high * 256 + low)
    → is_pair_value high low ≡ true
pair_value_eq high low e =
    ap (λ z. eq_int z (pos (high * 256 + low))) e ∙ eq_int_self (pos (high * 256 + low))

two_byte_value-low :
    (high low : ℕ) → high < 256 → two_byte_value high low ≡ ok (pos (high * 256 + low)) → low ≡ 0
unfolding two_byte_value
two_byte_value-low high low hh e = elim (Bool-cases (ltb (8 + low) 32)) [
  | inr wide ↦ cc (rw wide at e)
  | inl fits ↦ elim (Bool-cases (low == 0)) [
    | inl is_zero ↦ (==_iff low 0).0 is_zero
    | inr nonzero ↦
        let ne : low ≢ 0 = ground arith in
        let same : s32 (high * 2 ^ (8 + low) % 4294967296) ≡ pos (high * 256 + low) =
          cc (rw fits at e) in
        let small : low < 24 = omega (arith, ltb→lt _ _ fits) in
        cc (pair_value_eq high low same, never_pair high low hh small ne)
  ]
]

-- The value of a register of two bytes is what the bytes stand for, high byte first, exactly if the
-- low byte is zero; from a low byte of 24 on the shift is as wide as an `int`.
pub two_byte_value_iff :
    (high low : ℕ)
    → high < 256
    → low < 256
    → ((two_byte_value high low ≡ ok (pos (high * 256 + low))) ↔ (low ≡ 0))
      × (24 ≤ low → two_byte_value high low ≡ fault)
unfolding two_byte_value
two_byte_value_iff high low hh hl = (
  (two_byte_value-low high low hh, λ e. rw e (ap ok (pair_of_zero high hh))),
  λ wide. let past : ltb (8 + low) 32 ≡ false = ground arith in rw past,
)
