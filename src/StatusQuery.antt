-- ===== src/StatusQuery.antt =====
-- src/statusquery.c: `loop_each_lora_each_plc_each_switch`, which asks each PLC for its registers in
-- blocks. A query is the arguments of `run_single_switch_query_command`; the waits of four seconds
-- between queries change nothing. The code for the two register lengths differs in the bank alone.
pub mod Blocks
pub mod Cover
pub mod Loaded
pub mod Unordered
pub mod Examples
use edgebox.Prelude.{
  ℕ, zero, suc, ◌+◌, ◌-◌, ◌≡◌, Bool, true, false, ◌&&◌, List, [], ◌∷◌, ◌++◌, ◌==◌, ltb, leb,
  if◌then◌else◌,
}
use edgebox.Prelude.CInt.{ℤ}
use edgebox.Prelude.Text.{Text}
use edgebox.Switches.{Bank, PlcNode, max_reg_addr}

abbrev pub max_reg_in_one_read : ℕ
max_reg_in_one_read = 10

pub record Query : Type 0 where
  pub lorasn : Text
  pub plc : ℤ
  pub start_reg : ℕ
  pub num_reg : ℕ

-- `for (i = start_reg; reg_continuous < MAX_REG_IN_ONE_READ && i <= MAX_REG_ADDR; i++)` up to a
-- register that is not marked: the final `i`. `left` counts the registers that may follow.
unfoldable pub block_end : (ℕ → ℕ) → ℕ → ℕ → ℕ
block_end channel zero i = i
block_end channel (suc left) i =
    let rest = block_end channel left (i + 1) in
    if leb i max_reg_addr && channel i == 1 then rest else i

-- `for (next_reg = i; next_reg <= MAX_REG_ADDR; next_reg++)` up to a marked register. The fuel is
-- the number of registers left.
unfoldable pub next_marked : (ℕ → ℕ) → ℕ → ℕ → ℕ
next_marked channel zero i = i
next_marked channel (suc fuel) i =
    let rest = next_marked channel fuel (i + 1) in
    if leb i max_reg_addr then (if channel i == 1 then i else rest) else i

-- A block: its first register and how many there are.
pub record Block : Type 0 where
  pub start_reg : ℕ
  pub num_reg : ℕ

-- `while (start_reg < (MAX_REG_ADDR + 1))`. Each round moves on by one register at least.
unfoldable pub scan : (ℕ → ℕ) → ℕ → ℕ → List Block
scan channel zero start = []
scan channel (suc fuel) start =
    let i = block_end channel max_reg_in_one_read start in
    let rest = scan channel fuel (next_marked channel (max_reg_addr + 1 - i) i) in
    if ltb start (max_reg_addr + 1)
    then record { start_reg = start; num_reg = i - start } ∷ rest
    else []

-- The code for one register length of one PLC.
unfoldable pub scan_bank : Bank → List Block
scan_bank b =
    if ltb b.first (max_reg_addr + 1) then scan b.channel (max_reg_addr + 2) b.first else []

unfoldable pub queries_of : Text → ℤ → List Block → List Query
queries_of lorasn plc [] = []
queries_of lorasn plc (b ∷ bs) =
    record { lorasn = lorasn; plc = plc; start_reg = b.start_reg; num_reg = b.num_reg }
    ∷ queries_of lorasn plc bs

unfoldable pub each_plc : Text → List PlcNode → List Query
unfolding queries_of
each_plc lorasn [] = []
each_plc lorasn (p ∷ ps) =
    queries_of lorasn p.addr_485 (scan_bank p.bank_1B)
    ++ (queries_of lorasn p.addr_485 (scan_bank p.bank_2B) ++ each_plc lorasn ps)

-- The names of the LoRa nodes come first.
unfoldable pub loop_each_lora_each_plc_each_switch : List Text → List PlcNode → List Query
unfolding each_plc
loop_each_lora_each_plc_each_switch [] plcs = []
loop_each_lora_each_plc_each_switch (lora ∷ loras) plcs =
    each_plc lora plcs ++ loop_each_lora_each_plc_each_switch loras plcs
