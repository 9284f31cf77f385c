-- ===== src/Logger/Lines.antt =====
-- src/Logger.cc: what the macros print.
use muduo_learning.Prelude.{
  ℕ, ◌≡◌, refl, sym, ap, ◌∙◌, Bool, true, false, ℤ, Option, some, List, [], ◌∷◌, ◌++◌, append-nil,
  append_assoc, take, if◌then◌else◌, arith,
}
use muduo_learning.Text.{Text, IsText, codes, c_str, print_bounded, zeroed, c_str-print_bounded}
use muduo_learning.Timestamp.{Tm, to_string, now}
use muduo_learning.Logger.{
  info, error, fatal, debug, Logger, set_log_level, prefix, write_line, logged, log, Statement,
  log_info, log_error, log_fatal, log_debug, Logged, goes_on, exits, log_at, go_on, exit, execute,
  and_then, execute_all,
}

abbrev pub message : Statement → Text
message (log_info msg) = msg
message (log_error msg) = msg
message (log_fatal msg) = msg
message (log_debug msg) = msg

-- A line: its tag, the time, and the first 1023 bytes of the message.
abbrev pub line : Text → Text → Text → Text
line tag time msg = tag ++ (time ++ (codes " : " ++ (take 1023 msg ++ b'\n' ∷ [])))

module _ (mudebug : Bool) (time : ℤ → Text) where
  -- What a program of statements is to print: its lines up to the first LOG_FATAL, without those of
  -- LOG_DEBUG where MUDEBUG is not defined.
  abbrev pub transcript : List (ℤ × Statement) → Text
  transcript [] = []
  transcript ((at, log_info msg) ∷ rest) = line (codes "[INFO]") (time at) msg ++ transcript rest
  transcript ((at, log_error msg) ∷ rest) = line (codes "[ERROR]") (time at) msg ++ transcript rest
  transcript ((at, log_fatal msg) ∷ rest) = line (codes "[FATAL]") (time at) msg
  transcript ((at, log_debug msg) ∷ rest) =
      let lines = transcript rest in
      if mudebug then line (codes "[DEBUG]") (time at) msg ++ lines else lines

abbrev pub has_fatal : List (ℤ × Statement) → Bool
has_fatal [] = false
has_fatal ((at, log_info msg) ∷ rest) = has_fatal rest
has_fatal ((at, log_error msg) ∷ rest) = has_fatal rest
has_fatal ((at, log_fatal msg) ∷ rest) = true
has_fatal ((at, log_debug msg) ∷ rest) = has_fatal rest

abbrev pub AreTexts : List (ℤ × Statement) → Type 0
AreTexts [] = Unit
AreTexts ((at, s) ∷ rest) = IsText (message s) × AreTexts rest

-- `r` is how the process ends or goes on, having printed `text`.
abbrev pub Prints : Logger → Text → Bool → Logged → Type 0
Prints l text over r =
    (l' : Logger) × (r ≡ (if over then exits l' else goes_on l')) × (l'.output ≡ l.output ++ text)

module _ (mudebug : Bool) (localtime : ℤ → Option Tm) (time : ℤ → Text)
    (clock : (s : ℤ) → to_string localtime (now s) ≡ some (time s)) where
  -- The logger behind a line.
  abbrev behind : ℕ → ℤ → Text → Logger → Logger
  behind level at msg l = record {
    loglevel = level;
    output = l.output ++ line (prefix level) (time at) msg;
  }

  log_at_lem :
      (at : ℤ) (level : ℕ) (msg : Text) (l : Logger)
      → IsText msg
      → log_at localtime at level msg l ≡ some (behind level at msg l)
  unfolding log_at log
  log_at_lem at level msg l h =
      ap (λ o. logged o (c_str (print_bounded 1024 msg (zeroed 1024))) (set_log_level level l))
        (clock at)
      ∙ ap (λ m. some (write_line (time at) m (set_log_level level l)))
          (c_str-print_bounded 1024 msg (zeroed 1024) h (omega arith) (omega arith))

  module _ (at : ℤ) (msg : Text) (is_text : IsText msg) (f : Logger → Logged) (rest : Text)
      (over : Bool) (prints_rest : (l : Logger) → Prints l rest over (f l)) where
    -- A line, and what is printed after it.
    line_then :
        (level : ℕ) (l : Logger)
        → Prints l
            (line (prefix level) (time at) msg ++ rest)
            over
            (and_then (go_on (log_at localtime at level msg l)) f)
    line_then level l =
        let m = behind level at msg l in
        let (l', is, out) = prints_rest m in
        (
          l',
          ap (λ o. and_then (go_on o) f) (log_at_lem at level msg l is_text) ∙ is,
          out ∙ append_assoc l.output (line (prefix level) (time at) msg) rest,
        )

    debug_then :
        (b : Bool) (l : Logger)
        → Prints l
            (if b then line (prefix debug) (time at) msg ++ rest else rest)
            over
            (and_then (if b then go_on (log_at localtime at debug msg l) else goes_on l) f)
    debug_then true l = line_then debug l
    debug_then false l = prints_rest l

  -- Any statements in one thread, each message a text without a null byte, where the times can be
  -- shown: what is printed is, in order, a line for each statement up to the first LOG_FATAL, with
  -- the tag of its level ([INFO], [ERROR], [FATAL] or [DEBUG]), its time and the first 1023 bytes
  -- of its message, LOG_DEBUG only where MUDEBUG is defined; and the process exits exactly if
  -- there is a LOG_FATAL, and goes on otherwise.
  pub execute_all-Prints :
      (ss : List (ℤ × Statement)) (l : Logger)
      → AreTexts ss
      → Prints l (transcript mudebug time ss) (has_fatal ss) (execute_all mudebug localtime ss l)
  unfolding execute_all execute
  execute_all-Prints [] l h = (l, refl, sym (append-nil l.output))
  execute_all-Prints ((at, log_info msg) ∷ rest) l (h, hs) =
      line_then at msg h _ _ (has_fatal rest) (λ m. execute_all-Prints rest m hs) info l
  execute_all-Prints ((at, log_error msg) ∷ rest) l (h, hs) =
      line_then at msg h _ _ (has_fatal rest) (λ m. execute_all-Prints rest m hs) error l
  execute_all-Prints ((at, log_fatal msg) ∷ rest) l (h, hs) = (
    behind fatal at msg l,
    ap (λ o. and_then (exit o) (execute_all mudebug localtime rest)) (log_at_lem at fatal msg l h),
    refl,
  )
  execute_all-Prints ((at, log_debug msg) ∷ rest) l (h, hs) =
      debug_then at msg h _ _ (has_fatal rest) (λ m. execute_all-Prints rest m hs) mudebug l
