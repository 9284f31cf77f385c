-- ===== src/Logger/Tests.antt =====
-- Three statements at one time, the second of them fatal.
use muduo_learning.Prelude.{◌≡◌, refl, false, ℤ, pos, some, List, [], ◌∷◌, arith}
use muduo_learning.Text.{Text, codes}
use muduo_learning.Timestamp.{to_string, now}
use muduo_learning.Timestamp.Printing.{to_string_reads}
use muduo_learning.Timestamp.Tests.{april, april-IsDate}
use muduo_learning.Logger.{Statement, log_info, log_fatal, log_debug, instance_of, execute_all}
use muduo_learning.Logger.Lines.{AreTexts, transcript, has_fatal, Prints, execute_all-Prints}

abbrev shown : ℤ → Text
shown s = (to_string_reads april-IsDate (λ s. some april) (now s) refl).0

shown_always : (s : ℤ) → to_string (λ s. some april) (now s) ≡ some (shown s)
shown_always s = (to_string_reads april-IsDate (λ s. some april) (now s) refl).1

abbrev statements : List (ℤ × Statement)
statements =
    (pos 0, log_info (codes "hi"))
    ∷ (pos 0, log_debug (codes "x"))
    ∷ (pos 0, log_fatal (codes "bye"))
    ∷ (pos 0, log_info (codes "no"))
    ∷ []

statements-AreTexts : AreTexts statements
statements-AreTexts = (
  (omega arith, (omega arith, tt)),
  (
    (omega arith, tt),
    ((omega arith, (omega arith, (omega arith, tt))), ((omega arith, (omega arith, tt)), tt)),
  ),
)

execute_all-Prints_example :
    Prints
      (instance_of [])
      (transcript false shown statements)
      (has_fatal statements)
      (execute_all false (λ s. some april) statements (instance_of []))
execute_all-Prints_example =
    execute_all-Prints false (λ s. some april) shown shown_always statements (instance_of [])
      statements-AreTexts
