-- ===== src/StatusQuery/Cover.antt =====
-- src/statusquery.c: what the queries of a PLC ask for.
use edgebox.Prelude.{
  ℕ, zero, suc, ◌+◌, ◌-◌, ◌≤◌, ◌<◌, ◌≡◌, refl, sym, ap, ◌∙◌, ◌⊎◌, inl, inr, true, false, List, [],
  ◌∷◌, ◌++◌, ◌==◌, ltb, arith, Bool-cases, ltb→lt,
}
use edgebox.Switches.{Bank, max_reg_addr}
use edgebox.Switches.Banks.{IsBank}
use edgebox.StatusQuery.{Block, block_end, scan, scan_bank, max_reg_in_one_read}
use edgebox.StatusQuery.Blocks.{
  marked_from, range, BlockTo, block_end-BlockTo, NextFrom, next_marked-NextFrom,
}

-- The registers that a list of blocks asks for.
unfoldable pub registers : List Block → List ℕ
registers [] = []
registers (b ∷ bs) = range b.start_reg b.num_reg ++ registers bs

-- Each block asks for one register at least and for ten at most.
abbrev pub AllSized : List Block → Type 0
AllSized [] = Unit {0}
AllSized (b ∷ bs) = (0 < b.num_reg) × (b.num_reg ≤ max_reg_in_one_read) × AllSized bs

module _ (channel : ℕ → ℕ) where
  abbrev Covers : ℕ → ℕ → List Block → Type 0
  Covers k start bs = (registers bs ≡ marked_from channel k start) × AllSized bs

  scan_round :
      (k start e d : ℕ) (bs : List Block) (b : BlockTo channel max_reg_in_one_read start k e)
      → 0 < k
      → channel start ≡ 1
      → (n : NextFrom channel e b.beyond d) → Covers n.beyond d bs
      → Covers k start (record { start_reg = start; num_reg = e - start } ∷ bs)
  unfolding registers
  scan_round k start e d bs b some_left on n rest =
      let size : e - start ≡ b.size = omega (arith, b.ends) in
      (
        ap (λ m. range start m ++ registers bs) size
            ∙ ap (λ rs. range start b.size ++ rs) (rest.0 ∙ sym n.marked)
            ∙ sym b.marked,
        (
          omega (arith, size, b.some_if on some_left (omega arith)),
          omega (arith, size, b.bounded),
          rest.1,
        ),
      )

  scan-Covers :
      (fuel k start : ℕ)
      → start + k ≡ 1025
      → k < fuel
      → (k ≡ 0) ⊎ (channel start ≡ 1)
      → Covers k start (scan channel fuel start)
  unfolding scan registers marked_from
  scan-Covers zero k start e lt on = absurd (omega arith)
  scan-Covers (suc fuel) zero start e lt on =
      let past : ltb start (max_reg_addr + 1) ≡ false = ground arith in rw past (refl, tt)
  scan-Covers (suc fuel) (suc k) start e lt (inl none_left) = absurd (omega arith)
  scan-Covers (suc fuel) (suc k) start e lt (inr on) =
      let inside : ltb start (max_reg_addr + 1) ≡ true = ground arith in
      let end = block_end channel max_reg_in_one_read start in
      let b = block_end-BlockTo channel max_reg_in_one_read start (suc k) e in
      let grows : 0 < b.size = b.some_if on (omega arith) (omega arith) in
      let left : end + b.beyond ≡ 1025 = omega (arith, b.ends, b.splits) in
      let n =
        next_marked-NextFrom channel (max_reg_addr + 1 - end) end b.beyond left (omega arith) in
      let fewer : n.beyond < fuel = omega (arith, n.fewer, b.splits, grows) in
      rw inside (
        scan_round (suc k) start end _ _ b (omega arith) on n
          (scan-Covers fuel n.beyond _ n.left_over fewer n.stops))

  marked_from-nil : (i : ℕ) → marked_from channel 0 i ≡ []
  unfolding marked_from
  marked_from-nil i = refl

  -- Registers below the first marked one do not matter.
  marked_from-skip :
      (d k n i first : ℕ)
      → k ≡ d + n
      → first ≡ i + d
      → ((j : ℕ) → channel j ≡ 1 → first ≤ j)
      → marked_from channel k i ≡ marked_from channel n first
  unfolding marked_from
  marked_from-skip zero k n i first ek ef low =
      let same_k : k ≡ n = omega arith in
      let same_i : first ≡ i = omega arith in rw (same_k, same_i)
  marked_from-skip (suc d) zero n i first ek ef low = absurd (omega arith)
  marked_from-skip (suc d) (suc k) n i first ek ef low =
      let off : (channel i == 1) ≡ false = ground (arith, low i) in
      rw off (marked_from-skip d k n (i + 1) first (omega arith) (omega arith) low)

-- For each bank whose bounds enclose its marked registers and are marked themselves, the queries ask
-- for exactly the marked registers, each once and in ascending order, in blocks of one to ten.
pub scan_bank_covers :
    (b : Bank)
    → IsBank b
    → (registers (scan_bank b) ≡ marked_from b.channel (max_reg_addr + 1) 0)
      × AllSized (scan_bank b)
unfolding scan_bank registers
scan_bank_covers b v = elim (Bool-cases (ltb b.first (max_reg_addr + 1))) [
  | inl some_marked ↦
      let inside : b.first < max_reg_addr + 1 = ltb→lt _ _ some_marked in
      let n : ℕ = max_reg_addr + 1 - b.first in
      let (covers, sized) =
        scan-Covers b.channel (max_reg_addr + 2) n b.first (omega arith) (omega arith)
          (inr (v.first_marked (omega arith))) in
      rw some_marked (
        covers
            ∙ sym (
                marked_from-skip b.channel b.first (max_reg_addr + 1) n 0 b.first (omega arith)
                  (omega arith) v.low),
        sized,
      )
  | inr none_marked ↦
      let past : max_reg_addr + 1 ≤ b.first = ground arith in
      rw none_marked (
        sym (
            marked_from-skip b.channel (max_reg_addr + 1) (max_reg_addr + 1) 0 0 (max_reg_addr + 1)
              (omega arith) (omega arith) (λ j h. omega (arith, v.low j h))
            ∙ marked_from-nil b.channel (max_reg_addr + 1)),
        tt,
      )
]
