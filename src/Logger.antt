-- ===== src/Logger.antt =====
-- src/logger.c: the log file with its levels and its rotation. The files on the disk are texts under
-- their names. The text of a message comes formatted; the calendar is a parameter.
pub mod Disk
pub mod Rotation
pub mod Timestamps
pub mod Examples
use edgebox.Prelude.{
  ℕ, zero, suc, ◌+◌, ◌*◌, ◌≡◌, Bool, true, false, not, Option, none, some, List, [], ◌∷◌, ◌++◌, ltb,
  leb, length, take, replicate, ◌-◌, ◌==◌, ◌||◌, if◌then◌else◌,
}
use edgebox.Prelude.Text.{Text, codes, text_eq}
use edgebox.Prelude.Decimal.{decimal, int_digits}
use edgebox.Prelude.Run.{Run, ok, ◌>>=◌, ◌>>◌, defined, allocated}

-- `LogLevel`, up to `LogLevel_MAXLEVEL`.
pub data LogLevel : Type 0 where
  debug2 debug1 debug info error : LogLevel

abbrev pub level_number : LogLevel → ℕ
level_number debug2 = 0
level_number debug1 = 1
level_number debug = 2
level_number info = 3
level_number error = 4

-- `log_level_string`
abbrev pub log_level_string : LogLevel → Text
log_level_string debug2 = codes "DEBUG2"
log_level_string debug1 = codes "DEBUG1"
log_level_string debug = codes "DEBUG"
log_level_string info = codes "INFO"
log_level_string error = codes "ERROR"

-- What a name leads to, if there is such a file.
abbrev pub Disk : Type 0
Disk = Text → Option Text

unfoldable pub put : Text → Option Text → Disk → Disk
put name content disk other = if text_eq other name then content else disk other

-- `isFileExist`
abbrev pub is_file_exist : Disk → Text → Bool
is_file_exist disk name = elim (disk name) [ none ↦ false | some content ↦ true ]

-- `getFileSize`, which is 0 without a file.
abbrev pub get_file_size : Disk → Text → ℕ
get_file_size disk name = elim (disk name) [ none ↦ 0 | some content ↦ length content ]

-- `fopen(name, "a")` where it succeeds: a file is made if there is none.
unfoldable pub open_append : Text → Disk → Disk
open_append name disk = elim (disk name) [ none ↦ put name (some []) disk | some content ↦ disk ]

-- The bytes that are written to a file opened for appending.
unfoldable pub append_file : Text → Text → Disk → Disk
append_file name text disk = elim (disk name) [
  | none ↦ put name (some text) disk
  | some content ↦ put name (some (content ++ text)) disk
]

-- `s_flog` with `s_initialized`, and the disk. `output` tells whether the stream is open.
pub record Flog : Type 0 where
  pub initialized : Bool
  pub output : Bool
  pub filename : Text
  pub max_file_size : ℕ
  pub max_backup_files : ℕ
  pub current_file_size : ℕ
  pub disk : Disk

-- Which calls of the system succeed during one call of the logger.
pub record Outcomes : Type 0 where
  pub opens : Bool
  pub removes : Bool
  pub renames : Bool

-- `logging_init`, with the name that `readConfig` wrote. The copy of the name takes 128 bytes, and
-- its end has to be among them.
unfoldable pub logging_init : Outcomes → Text → Flog → Run Flog
logging_init out s_log_file s = if s.initialized then ok s else do
  allocated out.opens
  let disk = open_append s_log_file s.disk
  defined (ltb (length s_log_file) 128)
  ok (record {
    initialized = true;
    output = true;
    filename = s_log_file;
    max_file_size = 10485760;
    max_backup_files = 2;
    current_file_size = get_file_size disk s_log_file;
    disk = disk;
  })

-- `getBackupFileName`, with `%d` of the number. The number of backups is an unsigned char, and so the
-- index that is converted to one keeps its value.
unfoldable pub get_backup_file_name : Text → ℕ → Text
unfolding decimal
get_backup_file_name basename zero = basename
get_backup_file_name basename (suc i) = basename ++ b'.' ∷ decimal (suc i) (suc i)

unfoldable pub remove_file : Outcomes → Text → Disk → Disk
remove_file out name disk =
    if is_file_exist disk name then (if out.removes then put name none disk else disk) else disk

unfoldable pub rename_file : Outcomes → Text → Text → Disk → Disk
rename_file out src dst disk =
    if is_file_exist disk src
    then (if out.renames then put src none (put dst (disk src) disk) else disk)
    else disk

-- The loop of `rotateLogFiles`, from the last backup down to the first.
unfoldable pub shift_backups : Outcomes → Text → ℕ → Disk → Disk
unfolding remove_file rename_file
shift_backups out filename zero disk = disk
shift_backups out filename (suc i) disk =
    let src = get_backup_file_name filename i in
    let dst = get_backup_file_name filename (suc i) in
    shift_backups out filename i (rename_file out src dst (remove_file out dst disk))

-- The arrays for the names of the backups have 128 bytes; the last backup has the longest name.
abbrev pub backups_fit : Flog → Bool
backups_fit s =
    s.max_backup_files == 0 || ltb (length (get_backup_file_name s.filename s.max_backup_files)) 128

-- `rotateLogFiles`: whether there is a stream to write to, and the new state. To close a stream that
-- is not open is a fault.
unfoldable pub rotate_log_files : Outcomes → Flog → Run (Bool × Flog)
rotate_log_files out s = if ltb s.current_file_size s.max_file_size then ok (s.output, s) else do
  defined s.output
  defined (backups_fit s)
  let shifted = shift_backups out s.filename s.max_backup_files s.disk
  let opened = open_append s.filename shifted
  if out.opens
      then ok
          (true, record s { disk = opened; current_file_size = get_file_size opened s.filename })
      else ok (false, record s { disk = shifted; output = false })

-- `logger_isEnabled`
abbrev pub is_enabled : LogLevel → LogLevel → Bool
is_enabled s_log_level level = leb (level_number s_log_level) (level_number level)

-- `vflog`, where the writes succeed: the line goes to the file, and its length is what it returns.
unfoldable pub vflog : Text → Flog → Flog
vflog line s = record s {
  disk = append_file s.filename line s.disk;
  current_file_size = s.current_file_size + length line;
}

-- `logger_log`
unfoldable pub logger_log : Outcomes → LogLevel → LogLevel → Text → Flog → Run Flog
unfolding vflog
logger_log out s_log_level level line s =
    if not s.initialized then ok s else if not (is_enabled s_log_level level) then ok s else (do
      (writes, rotated) ← rotate_log_files out s
      ok (if writes then vflog line rotated else rotated))

-- The size of `timestamp`, and the place of the fraction in it.
abbrev pub timestamp_size : ℕ
timestamp_size = 32

abbrev pub fraction_at : ℕ
fraction_at = 19

-- `%03ld`
unfoldable pub three_digits : ℕ → Text
three_digits n = let digits = decimal int_digits n in replicate (3 - length digits) b'0' ++ digits

-- `getTimestamp`: what `strftime` wrote, up to the place of the fraction, and the fraction. A text of
-- `strftime` that is shorter ends in front of that place.
unfoldable pub get_timestamp : (ℕ → Text) → ℕ → ℕ → Run Text
get_timestamp strftime tv_sec tv_usec =
    let calendar = strftime tv_sec in
    let fraction = b'.' ∷ three_digits tv_usec in
    defined (ltb (fraction_at + length fraction) timestamp_size)
    >> ok (
        if ltb (length calendar) fraction_at
        then calendar
        else take fraction_at calendar ++ fraction)

-- `%5s`
abbrev five_wide : Text → Text
five_wide level = replicate (5 - length level) b' ' ++ level

-- The line that `vflog` writes with its three calls.
unfoldable pub log_line : LogLevel → Text → Text → ℕ → Text → Text
log_line level timestamp file line message =
    timestamp
    ++ (b' ' ∷ five_wide (log_level_string level))
    ++ (b' ' ∷ file)
    ++ (b':' ∷ decimal int_digits line)
    ++ (codes ": " ++ message)
    ++ b'\n' ∷ []

-- A call of `LOG_ERROR` and its like at a line of a file, with the time at hand.
unfoldable pub log_message :
    Outcomes → (ℕ → Text) → ℕ → ℕ → LogLevel → LogLevel → Text → ℕ → Text → Flog → Run Flog
log_message out strftime tv_sec tv_usec s_log_level level file line message s =
    if not s.initialized then ok s else if not (is_enabled s_log_level level) then ok s else (do
      timestamp ← get_timestamp strftime tv_sec tv_usec
      logger_log out s_log_level level (log_line level timestamp file line message) s)
