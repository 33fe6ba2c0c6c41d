-- ===== src/Logger/Examples.antt =====
-- A log file of a few bytes with two backups.
use edgebox.Prelude.{ℕ, suc, ◌+◌, ◌<◌, ◌≡◌, refl, true, false, none, some, [], length, arith}
use edgebox.Prelude.Text.{Text, codes, text_eq}
use edgebox.Prelude.Run.{ok, fault}
use edgebox.Logger.{
  Flog, Outcomes, backups_fit, info, error, put, get_backup_file_name, rotate_log_files, logger_log,
}
use edgebox.Logger.Disk.{Succeed}
use edgebox.Logger.Rotation.{
  Full, Tracked, rotate_log_files_keeps, logger_log-Tracked, logger_log_after_failed_open,
}

abbrev log_of : ℕ → Text → Flog
log_of limit content = record {
  initialized = true;
  output = true;
  filename = codes "log";
  max_file_size = limit;
  max_backup_files = 2;
  current_file_size = length content;
  disk = put (codes "log") (some content) (λ _. none);
}

abbrev good : Outcomes
good = record { opens = true; removes = true; renames = true }

abbrev no_open : Outcomes
no_open = record { opens = false; removes = true; renames = true }

good-Succeed : Succeed good
good-Succeed = record { opens = refl; removes = refl; renames = refl }

two_fit : backups_fit (log_of 4 (codes "line")) ≡ true
unfolding get_backup_file_name
two_fit = refl

log_of-Full : Full (log_of 4 (codes "line"))
log_of-Full = record {
  open_stream = refl;
  backups = omega arith;
  short = two_fit;
  full = omega arith;
}

rotate_log_files_keeps_example :
    (t : Flog) × (rotate_log_files good (log_of 4 (codes "line")) ≡ ok (true, t))
    × (t.filename ≡ codes "log")
    × (t.disk (codes "log") ≡ some [])
    × (t.current_file_size ≡ 0)
    × ((k : ℕ)
        → k < 2
        → t.disk (get_backup_file_name (codes "log") (suc k))
          ≡ (log_of 4 (codes "line")).disk (get_backup_file_name (codes "log") k))
rotate_log_files_keeps_example =
    rotate_log_files_keeps good (log_of 4 (codes "line")) good-Succeed log_of-Full

log_of-Tracked : Tracked (log_of 4 (codes "line"))
unfolding put text_eq
log_of-Tracked = refl

logger_log-Tracked_example :
    (t : Flog) × (logger_log good info error (codes "next") (log_of 4 (codes "line")) ≡ ok t)
    × Tracked t
    × (t.current_file_size < 4 + length (codes "next"))
logger_log-Tracked_example =
    logger_log-Tracked good info error (codes "next") (log_of 4 (codes "line")) good-Succeed refl
      refl (omega arith) two_fit (omega arith) refl log_of-Tracked

reopening_fails :
    (t : Flog) × (logger_log no_open info error (codes "next") (log_of 4 (codes "line")) ≡ ok t)
    × (logger_log good info error (codes "last") t ≡ fault)
reopening_fails =
    logger_log_after_failed_open no_open good info error error (codes "next") (codes "last")
      (log_of 4 (codes "line")) refl log_of-Full refl refl refl
