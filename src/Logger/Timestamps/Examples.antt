-- ===== src/Logger/Timestamps/Examples.antt =====
-- The time of a concrete line: five thousand microseconds read as half a second.
use edgebox.Prelude.{
  ℕ, ◌+◌, ◌*◌, ◌^◌, ◌≤◌, ◌≡◌, ◌↔◌, ◌⊎◌, refl, true, false, none, some, ◌∷◌, ◌++◌, length, arith,
}
use edgebox.Prelude.Text.{Text, codes, text_eq}
use edgebox.Prelude.Run.{ok}
use edgebox.Prelude.Decimal.{decimal, read_digits}
use edgebox.Logger.{
  Flog, Outcomes, info, error, put, three_digits, get_timestamp, log_line, log_message,
}
use edgebox.Logger.Timestamps.{get_timestamp_fraction_iff, log_message_appends}

abbrev calendar : ℕ → Text
calendar seconds = codes "2020-11-22 10:20:30"

-- Half a second, and five thousandths.
half_second : get_timestamp calendar 0 500000 ≡ ok (codes "2020-11-22 10:20:30.500000")
unfolding get_timestamp three_digits decimal
half_second = refl

five_thousandths : get_timestamp calendar 0 5000 ≡ ok (codes "2020-11-22 10:20:30.5000")
unfolding get_timestamp three_digits decimal
five_thousandths = refl

get_timestamp_fraction_iff_example :
    (digits : Text) × (get_timestamp calendar 0 5000 ≡ ok (calendar 0 ++ b'.' ∷ digits))
    × (3 ≤ length digits)
    × (length digits ≤ 6)
    × (read_digits 0 digits ≡ 5000)
    × (read_digits 0 digits * 1000000 ≡ 5000 * 10 ^ length digits
        ↔ ((◌≡◌ {A = ℕ} 5000 0) ⊎ (100000 ≤ 5000)))
get_timestamp_fraction_iff_example = get_timestamp_fraction_iff calendar 0 5000 refl (omega arith)

abbrev log : Flog
log = record {
  initialized = true;
  output = true;
  filename = codes "log";
  max_file_size = 100;
  max_backup_files = 2;
  current_file_size = 5;
  disk = put (codes "log") (some (codes "line\n")) (λ _. none);
}

abbrev good : Outcomes
good = record { opens = true; removes = true; renames = true }

log_there : log.disk (codes "log") ≡ some (codes "line\n")
unfolding put text_eq
log_there = refl

line_appended :
    (digits : Text) × (t : Flog) × (log_message good calendar 0 5000 info error
        (codes "mqtt.c")
        7
        (codes "lost")
        log
      ≡ ok t)
    × (t.disk (codes "log")
        ≡ some (
            codes "line\n"
            ++ log_line error (calendar 0 ++ b'.' ∷ digits) (codes "mqtt.c") 7 (codes "lost")))
    × ((other : Text) → text_eq other (codes "log") ≡ false → t.disk other ≡ log.disk other)
    × (t.current_file_size
        ≡ 5
          + length (log_line error (calendar 0 ++ b'.' ∷ digits) (codes "mqtt.c") 7 (codes "lost")))
line_appended =
    log_message_appends good calendar 0 5000 info error (codes "mqtt.c") 7 (codes "lost")
      (codes "line\n") log refl (omega arith) refl refl refl (omega arith) log_there

-- The whole line.
whole_line :
    log_line error (codes "2020-11-22 10:20:30.5000") (codes "mqtt.c") 7 (codes "lost")
    ≡ codes "2020-11-22 10:20:30.5000 ERROR mqtt.c:7: lost\n"
unfolding log_line decimal
whole_line = refl
