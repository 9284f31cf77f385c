-- ===== src/Logger.antt =====
-- include/Logger.h and src/Logger.cc: the one logger and its macros, as one thread runs them. A message
-- is the text that its format and its arguments make; `seconds` is what `time` gives when it is logged.
pub mod Lines
pub mod Tests
use muduo_learning.Prelude.{
  ℕ, Bool, ℤ, Option, some, none, List, [], ◌∷◌, ◌++◌, ◌==◌, if◌then◌else◌,
}
use muduo_learning.Text.{Text, codes, c_str, print_bounded, zeroed}
use muduo_learning.Timestamp.{Tm, to_string, now}

-- The enumeration `LogLevel`.
abbrev pub info : ℕ
info = 0

abbrev pub error : ℕ
error = 1

abbrev pub fatal : ℕ
fatal = 2

abbrev pub debug : ℕ
debug = 3

-- `output` is what was written to `std::cout`.
pub record Logger : Type 0 where
  pub loglevel : ℕ
  pub output : Text

-- What `Logger::instance()` gives first: a static object, whose level is 0.
abbrev pub instance_of : Text → Logger
instance_of output = record { loglevel = 0; output = output }

abbrev pub set_log_level : ℕ → Logger → Logger
set_log_level level l = record l { loglevel = level }

abbrev pub prefix : ℕ → Text
prefix level =
    if level == info
    then codes "[INFO]"
    else if level == error
    then codes "[ERROR]"
    else if level == fatal
    then codes "[FATAL]"
    else if level == debug
    then codes "[DEBUG]"
    else []

-- The line that `log` writes, given the text of the time.
abbrev pub write_line : Text → Text → Logger → Logger
write_line time msg l = record l {
  output = l.output ++ (prefix l.loglevel ++ (time ++ (codes " : " ++ (msg ++ b'\n' ∷ []))));
}

-- `none` where `Timestamp::toString` follows a null pointer.
abbrev pub logged : Option Text → Text → Logger → Option Logger
logged none msg l = none
logged (some time) msg l = some (write_line time msg l)

unfoldable pub log : (ℤ → Option Tm) → ℤ → Text → Logger → Option Logger
log localtime seconds msg l = logged (to_string localtime (now seconds)) msg l

-- The macros, with their message.
pub data Statement : Type 0 where
  log_info log_error log_fatal log_debug : Text → Statement

-- What becomes of the process.
pub data Logged : Type 0 where
  goes_on exits : Logger → Logged
  crashes : Logged

-- The lines that all macros share.
unfoldable pub log_at : (ℤ → Option Tm) → ℤ → ℕ → Text → Logger → Option Logger
log_at localtime seconds level msg l =
    log localtime seconds (c_str (print_bounded 1024 msg (zeroed 1024))) (set_log_level level l)

abbrev pub go_on : Option Logger → Logged
go_on none = crashes
go_on (some l) = goes_on l

abbrev pub exit : Option Logger → Logged
exit none = crashes
exit (some l) = exits l

-- A macro; `mudebug` says whether MUDEBUG is defined.
unfoldable pub execute : Bool → (ℤ → Option Tm) → ℤ → Statement → Logger → Logged
execute mudebug localtime seconds (log_info msg) l = go_on (log_at localtime seconds info msg l)
execute mudebug localtime seconds (log_error msg) l = go_on (log_at localtime seconds error msg l)
execute mudebug localtime seconds (log_fatal msg) l = exit (log_at localtime seconds fatal msg l)
execute mudebug localtime seconds (log_debug msg) l =
    if mudebug then go_on (log_at localtime seconds debug msg l) else goes_on l

-- The process goes on to what follows, or not.
abbrev pub and_then : Logged → (Logger → Logged) → Logged
and_then (goes_on l) f = f l
and_then (exits l) f = exits l
and_then crashes f = crashes

-- Statements with their times, one after the other while the process goes on.
unfoldable pub execute_all : Bool → (ℤ → Option Tm) → List (ℤ × Statement) → Logger → Logged
execute_all mudebug localtime [] l = goes_on l
execute_all mudebug localtime ((seconds, s) ∷ rest) l =
    and_then (execute mudebug localtime seconds s l) (execute_all mudebug localtime rest)
