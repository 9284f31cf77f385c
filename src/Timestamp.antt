-- ===== src/Timestamp.antt =====
-- include/Timestamp.h and src/Timestamp.cc: a point of time, and its text in local time. `time` and
-- `localtime` are parameters; an `int` is an integer, and `tm_year + 1900` is taken not to overflow.
pub mod Printing
pub mod Tests
use muduo_learning.Prelude.{ℤ, pos, ◌+ℤ◌, Option, some, none, ◌∷◌, ◌++◌}
use muduo_learning.Text.{Text, c_str, print_bounded, zeroed}
use muduo_learning.Text.Decimal.{space_filled, zero_filled}

pub record Timestamp : Type 0 where
  pub micro_second_since_epoch : ℤ

-- The C library's `struct tm`, the members that are printed.
pub record Tm : Type 0 where
  pub tm_year : ℤ
  pub tm_mon : ℤ
  pub tm_mday : ℤ
  pub tm_hour : ℤ
  pub tm_min : ℤ
  pub tm_sec : ℤ

-- `Timestamp()`.
abbrev pub epoch : Timestamp
epoch = record { micro_second_since_epoch = pos 0 }

-- `explicit Timestamp(int64_t)`.
abbrev pub of_micro_second : ℤ → Timestamp
of_micro_second n = record { micro_second_since_epoch = n }

-- `now`, where `time(nullptr)` gives `seconds`.
abbrev pub now : ℤ → Timestamp
now seconds = of_micro_second seconds

-- What the format "%4d%02d%02d %02d:%02d:%02d" makes of a local time.
unfoldable pub format : Tm → Text
format t =
    space_filled 4 (t.tm_year +ℤ pos 1900)
    ++ (zero_filled 2 (t.tm_mon +ℤ pos 1)
        ++ (zero_filled 2 t.tm_mday
            ++ (b' ' ∷ zero_filled 2 t.tm_hour
                ++ (b':' ∷ zero_filled 2 t.tm_min ++ (b':' ∷ zero_filled 2 t.tm_sec)))))

-- The body of `toString`, given what `localtime` returns: `none` where that is a null pointer, which
-- the code follows.
abbrev pub text_of : Option Tm → Option Text
text_of none = none
text_of (some tm) = some (c_str (print_bounded 128 (format tm) (zeroed 128)))

unfoldable pub to_string : (ℤ → Option Tm) → Timestamp → Option Text
to_string localtime t = text_of (localtime t.micro_second_since_epoch)
