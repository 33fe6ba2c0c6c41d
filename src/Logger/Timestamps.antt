-- ===== src/Logger/Timestamps.antt =====
-- src/logger.c: the time in front of a line.
pub mod Examples
use edgebox.Prelude.{
  ℕ, zero, suc, ◌+◌, ◌-◌, ◌*◌, ◌/◌, ◌%◌, ◌^◌, ◌≤◌, ◌<◌, ◌≡◌, ◌↔◌, ◌⊎◌, inl, inr, refl, sym, ap, ◌∙◌,
  Bool, true, false, some, List, [], ◌∷◌, ◌++◌, ltb, length, length-replicate, take, take-length,
  replicate, length-append, arith, Bool-cases, ltb→lt, lt→ltb, if◌then◌else◌,
}
use edgebox.Prelude.Text.{Text, text_eq}
use edgebox.Prelude.Run.{ok}
use edgebox.Prelude.Decimal.{decimal, int_digits, read_digits, read_digits-decimal}
use edgebox.Logger.{
  LogLevel, Outcomes, Flog, is_enabled, timestamp_size, fraction_at, three_digits, get_timestamp,
  log_line, log_message, logger_log, rotate_log_files, append_file, vflog,
}
use edgebox.Logger.Disk.{put_self, put-other}

length-decimal_small : (k n : ℕ) → n < 10 → length (decimal (suc k) n) ≡ 1
unfolding decimal
length-decimal_small k n h = rw (lt→ltb _ _ h)

length-decimal_large :
    (k n : ℕ) → 10 ≤ n → length (decimal (suc k) n) ≡ suc (length (decimal k (n / 10)))
unfolding decimal
length-decimal_large k n h =
    let large : ltb n 10 ≡ false = ground arith in
    rw large (length-append (decimal k (n / 10)) ((n % 10 + b'0') ∷ []) ∙ omega arith)

-- As many digits as the powers of ten say.
length-decimal :
    (n w : ℕ) (k : ℕ) → 10 ^ w ≤ n → n < 10 ^ suc w → w < k → length (decimal k n) ≡ suc w
length-decimal n w zero lo hi h = absurd (omega arith)
length-decimal n zero (suc k) lo hi h = length-decimal_small k n (omega arith)
length-decimal n (suc w) (suc k) lo hi h =
    length-decimal_large k n (omega arith)
    ∙ ap suc (length-decimal (n / 10) w k (omega arith) (omega arith) (omega arith))

-- The number of digits below a million.
width : ℕ → ℕ
width n =
    if ltb n 10
    then 1
    else if ltb n 100
    then 2
    else if ltb n 1000
    then 3
    else if ltb n 10000
    then 4
    else if ltb n 100000
    then 5
    else 6

length-decimal-width : (n : ℕ) → n < 1000000 → length (decimal int_digits n) ≡ width n
unfolding width
length-decimal-width n h = elim (Bool-cases (ltb n 10)) [
  | inl a ↦ rw a (length-decimal_small 9 n (ltb→lt _ _ a))
  | inr a ↦ elim (Bool-cases (ltb n 100)) [
    | inl b ↦ rw (a, b) (length-decimal n 1 10 (ground arith) (ltb→lt _ _ b) (omega arith))
    | inr b ↦ elim (Bool-cases (ltb n 1000)) [
      | inl c ↦ rw (a, b, c) (length-decimal n 2 10 (ground arith) (ltb→lt _ _ c) (omega arith))
      | inr c ↦ elim (Bool-cases (ltb n 10000)) [
        | inl d ↦
            rw (a, b, c, d) (length-decimal n 3 10 (ground arith) (ltb→lt _ _ d) (omega arith))
        | inr d ↦ elim (Bool-cases (ltb n 100000)) [
          | inl e ↦
              rw (a, b, c, d, e) (length-decimal n 4 10 (ground arith) (ltb→lt _ _ e) (omega arith))
          | inr e ↦
              rw (a, b, c, d, e) (length-decimal n 5 10 (ground arith) (omega arith) (omega arith))
        ]
      ]
    ]
  ]
]

read_digits-zeros : (k : ℕ) (s : Text) → read_digits 0 (replicate k b'0' ++ s) ≡ read_digits 0 s
unfolding read_digits
read_digits-zeros zero s = refl
read_digits-zeros (suc k) s = read_digits-zeros k s

length-three_digits :
    (n : ℕ) → n < 1000000 → length (three_digits n) ≡ (if ltb n 1000 then 3 else width n)
unfolding three_digits width
length-three_digits n h =
    length-append (replicate (3 - length (decimal int_digits n)) b'0') (decimal int_digits n)
    ∙ rw
        (
          length-replicate {A = ℕ} (3 - length (decimal int_digits n)) b'0',
          length-decimal-width n h,
        )
        (ground arith)

read_digits-three_digits : (n : ℕ) → n < 1000000 → read_digits 0 (three_digits n) ≡ n
unfolding three_digits
read_digits-three_digits n h =
    read_digits-zeros (3 - length (decimal int_digits n)) (decimal int_digits n)
    ∙ read_digits-decimal 9 n (omega arith)

-- `k` digits of a fraction of a second that read as a number of microseconds.
fraction_right :
    (n k : ℕ)
    → n < 1000000
    → k ≡ (if ltb n 1000 then 3 else width n)
    → n * 1000000 ≡ n * 10 ^ k ↔ ((n ≡ 0) ⊎ (100000 ≤ n))
unfolding width
fraction_right n k h e = elim (Bool-cases (ltb n 1000)) [
  | inl a ↦ let three : k ≡ 3 = ground arith in rw three ((λ x. ground arith), λ x. ground arith)
  | inr a ↦ elim (Bool-cases (ltb n 10000)) [
    | inl b ↦ let four : k ≡ 4 = ground arith in rw four ((λ x. ground arith), λ x. ground arith)
    | inr b ↦ elim (Bool-cases (ltb n 100000)) [
      | inl c ↦ let five : k ≡ 5 = ground arith in rw five ((λ x. ground arith), λ x. ground arith)
      | inr c ↦ let six : k ≡ 6 = ground arith in rw six ((λ x. ground arith), λ x. refl)
    ]
  ]
]

-- Where `strftime` writes nineteen characters, the text of a time is that with a point and the digits
-- of the microseconds, at least three and at most six, which fit the array. Read as a fraction of a
-- second they stand for the microseconds exactly if these are zero or at least a tenth of a second.
pub get_timestamp_fraction_iff :
    (strftime : ℕ → Text) (tv_sec tv_usec : ℕ)
    → length (strftime tv_sec) ≡ fraction_at
    → tv_usec < 1000000
    → (digits : Text) × (get_timestamp strftime tv_sec tv_usec
        ≡ ok (strftime tv_sec ++ b'.' ∷ digits))
      × (3 ≤ length digits)
      × (length digits ≤ 6)
      × (read_digits 0 digits ≡ tv_usec)
      × (read_digits 0 digits * 1000000 ≡ tv_usec * 10 ^ length digits
          ↔ ((tv_usec ≡ 0) ⊎ (100000 ≤ tv_usec)))
unfolding get_timestamp width
get_timestamp_fraction_iff strftime sec usec full h =
    let width_of = length-three_digits usec h in
    let value = read_digits-three_digits usec h in
    let fits : ltb (fraction_at + suc (length (three_digits usec))) timestamp_size ≡ true =
      ground (arith, width_of) in
    let whole : take fraction_at (strftime sec) ≡ strftime sec =
      ap (λ k. take k (strftime sec)) (sym full) ∙ take-length (strftime sec) in
    (
      three_digits usec,
      rw (fits, full) (ap (λ t. ok (t ++ b'.' ∷ three_digits usec)) whole),
      ground (arith, width_of),
      ground (arith, width_of),
      value,
      rw value (fraction_right usec (length (three_digits usec)) h width_of),
    )

-- A message of an enabled level, while the log is open and not full, is put behind the content of the
-- file as one line with its time; the size grows by that line, and all other files stay as they were.
pub log_message_appends :
    (out : Outcomes) (strftime : ℕ → Text) (tv_sec tv_usec : ℕ) (s_log_level level : LogLevel)
    (file : Text) (line : ℕ) (message content : Text) (s : Flog)
    → length (strftime tv_sec) ≡ fraction_at
    → tv_usec < 1000000
    → is_enabled s_log_level level ≡ true
    → s.initialized ≡ true
    → s.output ≡ true
    → s.current_file_size < s.max_file_size
    → s.disk s.filename ≡ some content
    → (digits : Text) × (t : Flog) × (log_message out strftime tv_sec tv_usec s_log_level level file
          line message s
        ≡ ok t)
      × (t.disk s.filename
          ≡ some (content ++ log_line level (strftime tv_sec ++ b'.' ∷ digits) file line message))
      × ((other : Text) → text_eq other s.filename ≡ false → t.disk other ≡ s.disk other)
      × (t.current_file_size
          ≡ s.current_file_size
            + length (log_line level (strftime tv_sec ++ b'.' ∷ digits) file line message))
unfolding log_message logger_log rotate_log_files append_file
log_message_appends out strftime sec usec s_log_level level file line message content s full h on
      init opened room there =
    let (digits, stamped, _, _, _, _) = get_timestamp_fraction_iff strftime sec usec full h in
    let written = log_line level (strftime sec ++ b'.' ∷ digits) file line message in
    (
      digits,
      vflog written s,
      rw (init, on, stamped, lt→ltb _ _ room, opened),
      rw (append_file, there) (put_self s.filename (some (content ++ written)) s.disk),
      λ other ne.
          rw (append_file, there)
            (put-other s.filename other (some (content ++ written)) s.disk ne),
      refl,
    )
