-- ===== src/Timestamp/Tests.antt =====
-- A time whose local time is 2025-04-01 12:34:56.
use muduo_learning.Prelude.{◌≡◌, refl, pos, some, [], ◌∷◌, length, arith}
use muduo_learning.Text.{Text}
use muduo_learning.Text.Reading.{numbers}
use muduo_learning.Timestamp.{Tm, to_string, now}
use muduo_learning.Timestamp.Printing.{IsDate, to_string_reads}

abbrev pub april : Tm
april = record {
  tm_year = pos 125;
  tm_mon = pos 3;
  tm_mday = pos 1;
  tm_hour = pos 12;
  tm_min = pos 34;
  tm_sec = pos 56;
}

pub april-IsDate : IsDate 2025 4 1 12 34 56 april
april-IsDate = record {
  year_is = refl;
  mon_is = refl;
  mday_is = refl;
  hour_is = refl;
  min_is = refl;
  sec_is = refl;
  four_digits = (omega arith, omega arith);
  two_digits = (omega arith, omega arith, omega arith, omega arith, omega arith);
}

to_string_reads_example :
    (text : Text) × (to_string (λ s. some april) (now (pos 1743510896)) ≡ some text)
    × (length text ≡ 17)
    × (numbers text ≡ 20250401 ∷ 12 ∷ 34 ∷ 56 ∷ [])
to_string_reads_example = to_string_reads april-IsDate (λ s. some april) (now (pos 1743510896)) refl
