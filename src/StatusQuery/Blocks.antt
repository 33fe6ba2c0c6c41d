-- ===== src/StatusQuery/Blocks.antt =====
-- src/statusquery.c: the two inner loops of the scan, on the registers from `i` to the last one.
use edgebox.Prelude.{
  ℕ, zero, suc, ◌+◌, ◌≤◌, ◌<◌, ◌≡◌, refl, ◌≢◌, ◌⊎◌, inl, inr, true, false, List, [], ◌∷◌, ◌++◌,
  ◌==◌, leb, if◌then◌else◌, arith, Bool-cases, ==_iff,
}
use edgebox.Switches.{max_reg_addr}
use edgebox.StatusQuery.{block_end, next_marked}

-- The marked registers among the `k` from `i` on, in order.
unfoldable pub marked_from : (ℕ → ℕ) → ℕ → ℕ → List ℕ
marked_from channel zero i = []
marked_from channel (suc k) i =
    let rest = marked_from channel k (i + 1) in if channel i == 1 then i ∷ rest else rest

-- The `n` registers from `i` on.
unfoldable pub range : ℕ → ℕ → List ℕ
range i zero = []
range i (suc n) = i ∷ range (i + 1) n

module _ (channel : ℕ → ℕ) where
  -- A block from `i` to before `e`, where `k` registers are left at `i`.
  pub record BlockTo (left i k e : ℕ) : Type 0 where
    pub size : ℕ
    pub beyond : ℕ
    pub ends : i + size ≡ e
    pub splits : size + beyond ≡ k
    pub bounded : size ≤ left
    pub marked : marked_from channel k i ≡ range i size ++ marked_from channel beyond e
    pub some_if : channel i ≡ 1 → 0 < k → 0 < left → 0 < size

  block_none : (left i k : ℕ) → (channel i ≢ 1) ⊎ (k ≡ 0) ⊎ (left ≡ 0) → BlockTo left i k i
  unfolding range
  block_none left i k why = record {
    size = 0;
    beyond = k;
    ends = omega arith;
    splits = omega arith;
    bounded = omega arith;
    marked = refl;
    some_if = λ h p q. ground arith;
  }

  block_more :
      (left i k e : ℕ) → channel i ≡ 1 → BlockTo left (i + 1) k e → BlockTo (suc left) i (suc k) e
  unfolding range marked_from
  block_more left i k e h b = record {
    size = suc b.size;
    beyond = b.beyond;
    ends = omega (arith, b.ends);
    splits = omega (arith, b.splits);
    bounded = omega (arith, b.bounded);
    marked = rw (h, b.marked);
    some_if = λ _ _ _. omega arith;
  }

  pub block_end-BlockTo :
      (left i k : ℕ) → i + k ≡ 1025 → BlockTo left i k (block_end channel left i)
  unfolding block_end
  block_end-BlockTo zero i k e = block_none zero i k (inr (inr refl))
  block_end-BlockTo (suc left) i zero e =
      let last : leb i max_reg_addr ≡ false = ground arith in
      rw last (block_none (suc left) i zero (inr (inl refl)))
  block_end-BlockTo (suc left) i (suc k) e =
      let inside : leb i max_reg_addr ≡ true = ground arith in
      rw inside (elim (Bool-cases (channel i == 1)) [
        | inl yes' ↦ rw yes' (
            block_more left i k _ ((==_iff (channel i) 1).0 yes')
              (block_end-BlockTo left (i + 1) k (omega arith)))
        | inr no' ↦ rw no' (block_none (suc left) i (suc k) (inl (λ h. ground arith)))
      ])

  -- The next marked register, with `beyond` registers left at it, or the end of them all.
  pub record NextFrom (i k e : ℕ) : Type 0 where
    pub beyond : ℕ
    pub left_over : e + beyond ≡ 1025
    pub fewer : beyond ≤ k
    pub marked : marked_from channel k i ≡ marked_from channel beyond e
    pub stops : (beyond ≡ 0) ⊎ (channel e ≡ 1)

  next_here : (i k : ℕ) → i + k ≡ 1025 → (k ≡ 0) ⊎ (channel i ≡ 1) → NextFrom i k i
  next_here i k e stop = record {
    beyond = k;
    left_over = e;
    fewer = omega arith;
    marked = refl;
    stops = stop;
  }

  next_skip : (i k e : ℕ) → (channel i == 1) ≡ false → NextFrom (i + 1) k e → NextFrom i (suc k) e
  unfolding marked_from
  next_skip i k e off n = record {
    beyond = n.beyond;
    left_over = n.left_over;
    fewer = omega (arith, n.fewer);
    marked = rw off n.marked;
    stops = n.stops;
  }

  pub next_marked-NextFrom :
      (fuel i k : ℕ) → i + k ≡ 1025 → k ≤ fuel → NextFrom i k (next_marked channel fuel i)
  unfolding next_marked marked_from
  next_marked-NextFrom zero i zero e le = next_here i zero e (inl refl)
  next_marked-NextFrom (suc fuel) i zero e le =
      let last : leb i max_reg_addr ≡ false = ground arith in
      rw last (next_here i zero e (inl refl))
  next_marked-NextFrom zero i (suc k) e le = absurd (omega arith)
  next_marked-NextFrom (suc fuel) i (suc k) e le =
      let inside : leb i max_reg_addr ≡ true = ground arith in
      rw inside (elim (Bool-cases (channel i == 1)) [
        | inl on ↦ rw on (next_here i (suc k) e (inr ((==_iff (channel i) 1).0 on)))
        | inr off ↦
            rw off (
              next_skip i k _ off (next_marked-NextFrom fuel (i + 1) k (omega arith) (omega arith)))
      ])
