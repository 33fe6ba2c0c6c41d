-- ===== src/StatusQuery/Unordered.antt =====
-- src/parse_switch.c, src/statusquery.c: the order of the elements of switches.json and the queries.
use mathlib.Core.Logic.{∥∥₁_elim}
use mathlib.Core.List.{Perm, Permᴰ}
use edgebox.Prelude.{
  ℕ, zero, suc, ◌+◌, ◌≡◌, refl, sym, ap, ◌∙◌, Bool, false, ◌||◌, none, some, List, [], ◌∷◌, map,
  ◌==◌, if◌then◌else◌, arith, Option-cases, inl, inr,
}
use edgebox.Prelude.CInt.{ℤ}
use edgebox.Prelude.Run.{Run, ok, exits, fault}
use edgebox.Json.{CJson}
use edgebox.Switches.{
  PlcNode, Switches, Entry, Memory, get_plc_node, read_entry, read_items, max_reg_addr,
}
use edgebox.Switches.Banks.{AllBanks, read_items-AllBanks}
use edgebox.Switches.Marks.{bank_of, stands_for, marked_at, read_items-stands_for}
use edgebox.StatusQuery.{scan_bank}
use edgebox.StatusQuery.Blocks.{marked_from}
use edgebox.StatusQuery.Cover.{registers, scan_bank_covers}
use edgebox.StatusQuery.Loaded.{marked_from_same, flag, found-IsBank}

-- The registers of a length that the queries for a PLC ask for, if it is known.
unfoldable pub asked : Bool → ℤ → List PlcNode → List ℕ
asked w addr plcs = elim (get_plc_node addr plcs) [
  | none ↦ []
  | some p ↦ registers (scan_bank (bank_of w p))
]

none_marked : (k i : ℕ) → marked_from (λ c. 0) k i ≡ []
unfolding marked_from
none_marked zero i = refl
none_marked (suc k) i = none_marked k (i + 1)

-- What is asked for is what is marked.
asked-marked :
    (w : Bool) (addr : ℤ) (plcs : List PlcNode)
    → AllBanks plcs
    → asked w addr plcs
      ≡ marked_from (λ c. if marked_at w addr c plcs then 1 else 0) (max_reg_addr + 1) 0
unfolding asked marked_at
asked-marked w addr plcs all = elim (Option-cases (get_plc_node addr plcs)) [
  | inl unknown ↦ rw (unknown, asked) (sym (none_marked (max_reg_addr + 1) 0))
  | inr (p, known) ↦
      rw (known, asked)
        ((scan_bank_covers (bank_of w p) (found-IsBank w addr p plcs all known)).0
          ∙ marked_from_same (bank_of w p).channel
              (λ c. if (bank_of w p).channel c == 1 then 1 else 0) (max_reg_addr + 1) 0
              (λ c. sym (flag ((bank_of w p).channel c == 1))))
]

-- Does one of the elements pass?
any_of {ℓ} : {A : Type ℓ} → (A → Bool) → List A → Bool
any_of f [] = false
any_of f (x ∷ xs) = f x || any_of f xs

any_of-Permᴰ {ℓ} :
    {A : Type ℓ} (f : A → Bool) {xs ys : List A} → Permᴰ xs ys → any_of f xs ≡ any_of f ys
unfolding any_of
any_of-Permᴰ f Permᴰ.nil = refl
any_of-Permᴰ f (Permᴰ.cons e p) = rw (e, any_of-Permᴰ f p)
any_of-Permᴰ f (Permᴰ.swap e e') = rw (e, e') (ground arith)
any_of-Permᴰ f (Permᴰ.trans p q) = any_of-Permᴰ f p ∙ any_of-Permᴰ f q

module _ (J : CJson) where
  -- Does an element that can be read stand for this register?
  stands : Bool → ℤ → ℕ → Run Entry → Bool
  stands w addr c (ok e) = stands_for w addr c (e ∷ [])
  stands w addr c exits = false
  stands w addr c fault = false

  stands_for-any_of :
      (w : Bool) (addr : ℤ) (c : ℕ) (items : List J.Item) (es : List Entry)
      → map (read_entry J) items ≡ map ok es
      → stands_for w addr c es ≡ any_of (λ item. stands w addr c (read_entry J item)) items
  unfolding stands_for any_of stands
  stands_for-any_of w addr c [] [] e = refl
  stands_for-any_of w addr c [] (x ∷ es) e = cc
  stands_for-any_of w addr c (item ∷ items) [] e = cc
  stands_for-any_of w addr c (item ∷ items) (x ∷ es) e =
      let first : read_entry J item ≡ ok x = cc in
      let rest : map (read_entry J) items ≡ map ok es = cc in
      rw (first, stands_for-any_of w addr c items es rest) (ground arith)

  -- Two files with the same elements, each as often but in any order, lead to the same queries: for
  -- every PLC and both lengths the registers asked for are the same.
  pub asked_in_any_order :
      (mem mem' : Memory) (items items' : List J.Item) (t t' : Switches)
      → Perm items items'
      → read_items J mem 0 items (record { switch_list = []; plc_list = [] }) ≡ ok t
      → read_items J mem' 0 items' (record { switch_list = []; plc_list = [] }) ≡ ok t'
      → (w : Bool) (addr : ℤ) → asked w addr t.plc_list ≡ asked w addr t'.plc_list
  asked_in_any_order mem mem' items items' t t' same loaded loaded' w addr =
      let (es, reads, marks) = read_items-stands_for J mem items t loaded in
      let (es', reads', marks') = read_items-stands_for J mem' items' t' loaded' in
      let marked : (c : ℕ) → marked_at w addr c t.plc_list ≡ marked_at w addr c t'.plc_list = λ c.
        marks w addr c
        ∙ stands_for-any_of w addr c items es reads
        ∙ ∥∥₁_elim same (hlevel) (any_of-Permᴰ (λ item. stands w addr c (read_entry J item)))
        ∙ sym (stands_for-any_of w addr c items' es' reads')
        ∙ sym (marks' w addr c) in
      asked-marked w addr t.plc_list (read_items-AllBanks J mem items t loaded)
      ∙ marked_from_same (λ c. if marked_at w addr c t.plc_list then 1 else 0)
          (λ c. if marked_at w addr c t'.plc_list then 1 else 0) (max_reg_addr + 1) 0
          (λ c. ap (λ b. (if b then 1 else 0) == 1) (marked c))
      ∙ sym (asked-marked w addr t'.plc_list (read_items-AllBanks J mem' items' t' loaded'))
