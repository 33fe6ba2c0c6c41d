-- ===== src/Logger/Rotation.antt =====
-- src/logger.c: what rotation keeps, how long the file gets, and what a failed reopening leads to.
use edgebox.Prelude.{
  ℕ, zero, suc, ◌+◌, ◌≤◌, ◌<◌, ◌≡◌, ◌≢◌, refl, sym, ap, ◌∙◌, inl, inr, true, false, none, some, [],
  ◌++◌, ltb, length, arith, Option-cases, Bool-cases, ltb→lt, length-append,
}
use edgebox.Prelude.Text.{Text, text_eq}
use edgebox.Prelude.Run.{ok, fault}
use edgebox.Logger.{
  Disk, Flog, backups_fit, Outcomes, LogLevel, put, append_file, open_append, get_file_size,
  get_backup_file_name, remove_file, rename_file, shift_backups, rotate_log_files, logger_log,
  is_enabled, vflog,
}
use edgebox.Logger.Disk.{
  Succeed, names_apart, put_self, put-other, removed_self, removed-other, renamed-dst, renamed-src,
  renamed-other,
}

module _ (out : Outcomes) (good : Succeed out) (filename : Text) where
  abbrev name : ℕ → Text
  name i = get_backup_file_name filename i

  -- One round of the loop.
  abbrev moved_up : ℕ → Disk → Disk
  moved_up i disk = rename_file out (name i) (name (suc i)) (remove_file out (name (suc i)) disk)

  apart : (i j : ℕ) → i ≢ j → text_eq (name i) (name j) ≡ false
  apart i j ne = names_apart filename i j ne

  moved_up-dst : (i : ℕ) (disk : Disk) → moved_up i disk (name (suc i)) ≡ disk (name i)
  moved_up-dst i disk =
      renamed-dst out good (name i) (name (suc i)) _ (removed_self out good (name (suc i)) disk)
        (apart (suc i) i (λ e. omega arith))
      ∙ removed-other out good (name (suc i)) (name i) disk (apart i (suc i) (λ e. omega arith))

  moved_up-src : (i : ℕ) (disk : Disk) → moved_up i disk (name i) ≡ none
  moved_up-src i disk = renamed-src out good (name i) (name (suc i)) _

  moved_up-other :
      (i j : ℕ) (disk : Disk) → j ≢ i → j ≢ suc i → moved_up i disk (name j) ≡ disk (name j)
  moved_up-other i j disk ne ne' =
      renamed-other out good (name i) (name (suc i)) (name j) _ (apart j i ne) (apart j (suc i) ne')
      ∙ removed-other out good (name (suc i)) (name j) disk (apart j (suc i) ne')

  shifted-above :
      (n j : ℕ) (disk : Disk) → n < j → shift_backups out filename n disk (name j) ≡ disk (name j)
  unfolding shift_backups
  shifted-above zero j disk h = refl
  shifted-above (suc i) j disk h =
      shifted-above i j (moved_up i disk) (omega arith)
      ∙ moved_up-other i j disk (λ e. omega arith) (λ e. omega arith)

  shifted-up :
      (n k : ℕ) (disk : Disk)
      → k < n
      → shift_backups out filename n disk (name (suc k)) ≡ disk (name k)
  unfolding shift_backups
  shifted-up zero k disk h = absurd (omega arith)
  shifted-up (suc i) k disk h = elim (Bool-cases (ltb k i)) [
    | inl below ↦
        let lt : k < i = ltb→lt _ _ below in
        shifted-up i k (moved_up i disk) lt
        ∙ moved_up-other i k disk (λ e. omega arith) (λ e. omega arith)
    | inr last ↦
        let same : k ≡ i = ground arith in
        ap (λ j. shift_backups out filename i (moved_up i disk) (name (suc j))) same
        ∙ shifted-above i (suc i) (moved_up i disk) (omega arith)
        ∙ moved_up-dst i disk
        ∙ ap (λ j. disk (name j)) (sym same)
  ]

  shifted-first : (n : ℕ) (disk : Disk) → 0 < n → shift_backups out filename n disk (name 0) ≡ none
  unfolding shift_backups
  shifted-first zero disk h = absurd (omega arith)
  shifted-first (suc zero) disk h = moved_up-src 0 disk
  shifted-first (suc (suc i)) disk h = shifted-first (suc i) (moved_up (suc i) disk) (omega arith)

-- A full log, its stream open, and a name that leaves room for the numbers of the backups.
pub record Full (s : Flog) : Type 0 where
  pub open_stream : s.output ≡ true
  pub backups : 0 < s.max_backup_files
  pub short : backups_fit s ≡ true
  pub full : s.max_file_size ≤ s.current_file_size

-- Where all calls of the system succeed, a full log whose stream is open, with at least one backup and
-- a name that leaves room for the numbers, is rotated: the log is empty, and each backup is what the one
-- before was, the first one what the log was.
pub rotate_log_files_keeps :
    (out : Outcomes) (s : Flog)
    → Succeed out
    → Full s
    → (t : Flog) × (rotate_log_files out s ≡ ok (true, t))
      × (t.filename ≡ s.filename)
      × (t.disk s.filename ≡ some [])
      × (t.current_file_size ≡ 0)
      × ((k : ℕ)
          → k < s.max_backup_files
          → t.disk (get_backup_file_name s.filename (suc k))
            ≡ s.disk (get_backup_file_name s.filename k))
unfolding rotate_log_files open_append get_backup_file_name shift_backups put
rotate_log_files_keeps out s good v =
    let past : ltb s.current_file_size s.max_file_size ≡ false = ground (arith, v.full) in
    let shifted = shift_backups out s.filename s.max_backup_files s.disk in
    let gone : shifted s.filename ≡ none =
      shifted-first out good s.filename s.max_backup_files s.disk v.backups in
    let fresh : put s.filename (some []) shifted s.filename ≡ some [] =
      put_self s.filename (some []) shifted in
    (
      record s { disk = put s.filename (some []) shifted; current_file_size = 0 },
      rw (past, v.open_stream, v.short, good.opens, gone, open_append, get_file_size, fresh),
      refl,
      fresh,
      refl,
      λ k h.
          put-other s.filename (get_backup_file_name s.filename (suc k)) (some []) shifted
            (names_apart s.filename (suc k) 0 (λ e. omega arith))
          ∙ shifted-up out good s.filename s.max_backup_files k s.disk h,
    )

-- The size that the logger keeps is that of the file.
abbrev pub Tracked : Flog → Type 0
Tracked s = s.current_file_size ≡ get_file_size s.disk s.filename

append_file_self :
    (name line : Text) (disk : Disk)
    → get_file_size (append_file name line disk) name ≡ get_file_size disk name + length line
unfolding append_file
append_file_self name line disk = elim (Option-cases (disk name)) [
  | inl missing ↦
      let now = put_self name (some line) disk in
      rw (append_file, missing, get_file_size, now) (omega arith)
  | inr (content, there) ↦
      let now = put_self name (some (content ++ line)) disk in
      rw (append_file, there, get_file_size, now) (length-append content line)
]

vflog-Tracked : (line : Text) (s : Flog) → Tracked s → Tracked (vflog line s)
unfolding vflog
vflog-Tracked line s v = rw (append_file_self s.filename line s.disk, v)

rotate_log_files-fits :
    (out : Outcomes) (s : Flog)
    → ltb s.current_file_size s.max_file_size ≡ true
    → rotate_log_files out s ≡ ok (s.output, s)
unfolding rotate_log_files
rotate_log_files-fits out s fits = rw fits

emptied-Tracked :
    (s t : Flog)
    → t.filename ≡ s.filename
    → t.disk s.filename ≡ some []
    → t.current_file_size ≡ 0
    → Tracked t
emptied-Tracked s t same empty zero_size =
    zero_size ∙ sym (ap (get_file_size t.disk) same ∙ rw (get_file_size, empty))

-- Where all calls of the system succeed, the log is open and has a backup, its name leaves room for the
-- numbers, its limit is not zero and its size is that of the file, a line of an enabled level is written:
-- the size is again that of the file, and less than the limit and the line together.
pub logger_log-Tracked :
    (out : Outcomes) (s_log_level level : LogLevel) (line : Text) (s : Flog)
    → Succeed out
    → s.initialized ≡ true
    → s.output ≡ true
    → 0 < s.max_backup_files
    → backups_fit s ≡ true
    → 0 < s.max_file_size
    → is_enabled s_log_level level ≡ true
    → Tracked s
    → (t : Flog) × (logger_log out s_log_level level line s ≡ ok t)
      × Tracked t
      × (t.current_file_size < s.max_file_size + length line)
unfolding logger_log vflog
logger_log-Tracked out s_log_level level line s good ready is_open backups short limit enabled
      tracked =
    elim (Bool-cases (ltb s.current_file_size s.max_file_size)) [
      | inl fits ↦ (
        vflog line s,
        rw (rotate_log_files-fits out s fits, ready, enabled, is_open),
        vflog-Tracked line s tracked,
        omega (arith, ltb→lt _ _ fits),
      )
      | inr full ↦
          let v : Full s = record {
            open_stream = is_open;
            backups = backups;
            short = short;
            full = ground arith;
          } in
          let (t, rotated, same, empty, zero_size, _) = rotate_log_files_keeps out s good v in
          (
            vflog line t,
            rw (rotated, ready, enabled),
            vflog-Tracked line t (emptied-Tracked s t same empty zero_size),
            omega (arith, zero_size),
          )
    ]

-- If a full log cannot be opened again, the call that should have written a line comes to its end
-- without one, and the next call for an enabled level closes a stream that is not open: a fault.
pub logger_log_after_failed_open :
    (out later : Outcomes) (s_log_level level next_level : LogLevel) (line next_line : Text)
    (s : Flog)
    → s.initialized ≡ true
    → Full s
    → out.opens ≡ false
    → is_enabled s_log_level level ≡ true
    → is_enabled s_log_level next_level ≡ true
    → (t : Flog) × (logger_log out s_log_level level line s ≡ ok t)
      × (logger_log later s_log_level next_level next_line t ≡ fault)
unfolding logger_log rotate_log_files
logger_log_after_failed_open out later s_log_level level next_level line next_line s ready v closed
      enabled next =
    let past : ltb s.current_file_size s.max_file_size ≡ false = ground (arith, v.full) in
    (
      record s { disk = shift_backups out s.filename s.max_backup_files s.disk; output = false },
      rw (ready, enabled, past, v.open_stream, v.short, closed),
      rw (ready, next, past),
    )
