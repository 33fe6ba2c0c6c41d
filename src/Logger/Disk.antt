-- ===== src/Logger/Disk.antt =====
-- src/logger.c: the names of the backups, and what becomes of the files when they are shifted.
use edgebox.Prelude.{
  ℕ, zero, suc, ◌^◌, ◌<◌, ap, Bool-cases, ◌≡◌, ◌≢◌, refl, ◌∙◌, inl, inr, true, false, Option, none,
  some, [], ◌∷◌, ◌++◌, arith, Option-cases,
}
use edgebox.Prelude.Text.{Text, text_eq, text_eq_self, text_eq→eq}
use edgebox.Prelude.Decimal.{decimal, read_digits, read_digits-decimal}
use edgebox.Logger.{
  Disk, Outcomes, put, is_file_exist, get_backup_file_name, remove_file, rename_file,
}

text_eq-append : (a s t : Text) → text_eq (a ++ s) (a ++ t) ≡ text_eq s t
unfolding text_eq
text_eq-append [] s t = refl
text_eq-append (c ∷ a) s t = ground (arith, text_eq-append a s t)

text_eq-longer : (a : Text) (c : ℕ) (s : Text) → text_eq a (a ++ c ∷ s) ≡ false
unfolding text_eq
text_eq-longer [] c s = refl
text_eq-longer (b ∷ a) c s = ground (arith, text_eq-longer a c s)

text_eq-shorter : (a : Text) (c : ℕ) (s : Text) → text_eq (a ++ c ∷ s) a ≡ false
unfolding text_eq
text_eq-shorter [] c s = refl
text_eq-shorter (b ∷ a) c s = ground (arith, text_eq-shorter a c s)

lt-power : (n : ℕ) → n < 10 ^ n
lt-power zero = omega arith
lt-power (suc n) = omega (arith, lt-power n)

-- A number has its own digits.
digits_apart :
    (i j : ℕ) → i ≢ j → text_eq (decimal (suc i) (suc i)) (decimal (suc j) (suc j)) ≡ false
digits_apart i j ne =
    elim (Bool-cases (text_eq (decimal (suc i) (suc i)) (decimal (suc j) (suc j)))) [
      | inr apart ↦ apart
      | inl same ↦
          let read =
            ap (read_digits 0)
              (text_eq→eq (decimal (suc i) (suc i)) (decimal (suc j) (suc j)) same) in
          let number_i = read_digits-decimal i (suc i) (lt-power (suc i)) in
          let number_j = read_digits-decimal j (suc j) (lt-power (suc j)) in
          absurd (ne (omega (arith, read, number_i, number_j)))
    ]

-- Backups with different numbers have different names.
pub names_apart :
    (filename : Text) (i j : ℕ)
    → i ≢ j
    → text_eq (get_backup_file_name filename i) (get_backup_file_name filename j) ≡ false
unfolding get_backup_file_name text_eq
names_apart filename zero zero ne = absurd (ne refl)
names_apart filename zero (suc j) ne = text_eq-longer filename b'.' _
names_apart filename (suc i) zero ne = text_eq-shorter filename b'.' _
names_apart filename (suc i) (suc j) ne =
    text_eq-append filename _ _ ∙ digits_apart i j (λ e. ne (ap suc e))

pub put_self :
    (name : Text) (content : Option Text) (disk : Disk) → put name content disk name ≡ content
unfolding put
put_self name content disk = rw (text_eq_self name)

pub put-other :
    (name other : Text) (content : Option Text) (disk : Disk)
    → text_eq other name ≡ false
    → put name content disk other ≡ disk other
unfolding put
put-other name other content disk ne = rw ne

-- All calls succeed.
pub record Succeed (out : Outcomes) : Type 0 where
  pub opens : out.opens ≡ true
  pub removes : out.removes ≡ true
  pub renames : out.renames ≡ true

module _ (out : Outcomes) (good : Succeed out) where
  pub removed_self : (name : Text) (disk : Disk) → remove_file out name disk name ≡ none
  unfolding remove_file
  removed_self name disk = elim (Option-cases (disk name)) [
    | inl missing ↦ rw (is_file_exist, missing, missing)
    | inr (content, there) ↦ rw (is_file_exist, there, good.removes) (put_self name none disk)
  ]

  pub removed-other :
      (name other : Text) (disk : Disk)
      → text_eq other name ≡ false
      → remove_file out name disk other ≡ disk other
  unfolding remove_file
  removed-other name other disk ne = elim (Option-cases (disk name)) [
    | inl missing ↦ rw (is_file_exist, missing)
    | inr (content, there) ↦
        rw (is_file_exist, there, good.removes) (put-other name other none disk ne)
  ]

  -- The place that a file is renamed to is free.
  pub renamed-dst :
      (src dst : Text) (disk : Disk)
      → disk dst ≡ none
      → text_eq dst src ≡ false
      → rename_file out src dst disk dst ≡ disk src
  unfolding rename_file
  renamed-dst src dst disk free ne = elim (Option-cases (disk src)) [
    | inl missing ↦ rw (is_file_exist, missing) free
    | inr (content, there) ↦
        rw (is_file_exist, there, good.renames)
          (put-other src dst none _ ne ∙ put_self dst (some content) disk)
  ]

  pub renamed-src : (src dst : Text) (disk : Disk) → rename_file out src dst disk src ≡ none
  unfolding rename_file
  renamed-src src dst disk = elim (Option-cases (disk src)) [
    | inl missing ↦ rw (is_file_exist, missing, missing)
    | inr (content, there) ↦ rw (is_file_exist, there, good.renames) (put_self src none _)
  ]

  pub renamed-other :
      (src dst other : Text) (disk : Disk)
      → text_eq other src ≡ false
      → text_eq other dst ≡ false
      → rename_file out src dst disk other ≡ disk other
  unfolding rename_file
  renamed-other src dst other disk ne ne' = elim (Option-cases (disk src)) [
    | inl missing ↦ rw (is_file_exist, missing)
    | inr (content, there) ↦
        rw (is_file_exist, there, good.renames)
          (put-other src other none _ ne ∙ put-other dst other (some content) disk ne')
  ]
