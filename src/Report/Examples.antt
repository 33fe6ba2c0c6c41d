-- ===== src/Report/Examples.antt =====
-- The numbers in the reports, at concrete values.
use edgebox.Prelude.{◌≡◌, refl}
use edgebox.Prelude.CInt.{pos, negsuc}
use edgebox.Prelude.Text.{codes}
use edgebox.Prelude.Run.{ok}
use edgebox.Prelude.Decimal.{decimal}
use edgebox.Report.{one_decimal, two_byte_value}

-- 23.5 degrees, and 0.1 below zero.
printed : one_decimal (pos 235) ≡ codes "23.5"
unfolding one_decimal decimal
printed = refl

printed_negative : one_decimal (negsuc 0) ≡ codes "-0.1"
unfolding one_decimal decimal
printed_negative = refl

-- The bytes 1 and 4 stand for 260; the code makes 4096 of them.
wrong_value : two_byte_value 1 4 ≡ ok (pos 4096)
unfolding two_byte_value
wrong_value = refl
