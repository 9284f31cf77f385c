-- ===== src/Thread/Tests.antt =====
-- A thread that is started, joined and destroyed.
use muduo_learning.Prelude.{ℕ, ◌+◌, ◌<◌, refl, [], arith}
use muduo_learning.CurrentThread as CurrentThread
use muduo_learning.CurrentThread.{tid}
use muduo_learning.Thread.{
  Thread, init, start, sem_wait, record_tid, sem_post, call_func, end_func, join, end_join, destroy,
}
use muduo_learning.Thread.Start.{
  Run, done, next, starts, records, posts, calls, wakes, returns, joins, ends_join, destroys,
  Promised, start-Promised, GoesOn, blocked_ends,
}

abbrev ids : ℕ → ℕ
ids t = t + 4000

abbrev made : Thread
made = (init 0 [] CurrentThread.init).1

abbrev begun : Thread
begun = start made

abbrev asked : Thread
asked = sem_post (record_tid ids 7 begun)

abbrev called : Thread
called = call_func (sem_wait asked)

abbrev over : Thread
over = end_func (join called)

abbrev freed : Thread
freed = destroy (end_join over)

asked-Run : Run ids 7 3 made asked
unfolding init start record_tid
asked-Run =
    next (next (next (done made) (starts made refl)) (records begun refl))
      (posts (record_tid ids 7 begun) refl)

called-Run : Run ids 7 5 made called
unfolding init start sem_wait record_tid sem_post
called-Run = next (next asked-Run (wakes asked refl (omega arith))) (calls (sem_wait asked) refl)

over-Run : Run ids 7 7 made over
unfolding init start sem_wait record_tid sem_post call_func join
over-Run = next (next called-Run (joins called refl)) (returns (join called) refl)

freed-Run : Run ids 7 9 made freed
unfolding init start sem_wait record_tid sem_post call_func end_func join end_join
freed-Run = next (next over-Run (ends_join over refl refl)) (destroys (end_join over) refl)

start-Promised_example : Promised ids 7 freed freed.creator
start-Promised_example = start-Promised ids (λ t. omega arith) 7 0 [] freed-Run

blocked_ends_example : (3 < 10) × GoesOn ids 7 asked
unfolding init start record_tid sem_post
blocked_ends_example = blocked_ends ids (λ t. omega arith) 7 0 [] asked-Run refl
