-- ===== src/TcpConnection/Tasks.antt =====
-- src/TcpConnection.cc: the tasks that a connection has queued in its loop, run by the loop.
use muduo_learning.Prelude.{ℕ, List, [], ◌∷◌, Outcome, ok, ◌>>=◌}
use muduo_learning.Loop.{Loop}
use muduo_learning.TcpConnection.{
  Task, write_completes, high_water_marks, sends_file, sends, shuts_down, Conn, Sys, send_in_loop,
  send_file_in_loop, shutdown_in_loop,
}

-- What the tasks work with: the callbacks that were bound, and the bytes that stand at a pointer by
-- the time that a task runs.
pub record Later (l : Loop) : Type 0 where
  pub write_complete : Conn l → Outcome (Conn l)
  pub high_water : ℕ → Conn l → Outcome (Conn l)
  pub memory : ℕ → ℕ → List ℕ

module _ (l : Loop) (sys : Sys) (later : Later l) where
  unfoldable pub run_task : Task → Conn l → Outcome (Conn l)
  run_task write_completes w = later.write_complete w
  run_task (high_water_marks n) w = later.high_water n w
  run_task (sends_file file offset n) w = ok (send_file_in_loop l sys file offset n w)
  run_task (sends pointer n) w = send_in_loop l sys (later.memory pointer n) w
  run_task shuts_down w = ok (shutdown_in_loop l w)

  unfoldable pub run_all : List Task → Conn l → Outcome (Conn l)
  run_all [] w = ok w
  run_all (t ∷ ts) w = run_task t w >>= run_all ts

  -- The loop's `doPendingFunctors`, as far as the connection's tasks are concerned: those that are
  -- queued meanwhile wait for the next turn.
  unfoldable pub run_tasks : Conn l → Outcome (Conn l)
  run_tasks w = run_all w.tasks (record w { tasks = [] })
