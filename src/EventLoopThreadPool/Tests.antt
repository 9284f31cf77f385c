-- ===== src/EventLoopThreadPool/Tests.antt =====
-- A pool of three threads.
use muduo_learning.Prelude.{
  ℕ, ◌+◌, ◌≡◌, ◌≢◌, arith, true, some, [], ◌∷◌, ◌++◌, length, take, drop, replicate, inr,
}
use muduo_learning.EventLoopThreadPool.{EventLoopThreadPool, init, set_thread_num, start}
use muduo_learning.EventLoopThreadPool.Round.{calls, get_next_loop_round}

abbrev loop_of : ℕ → ℕ
loop_of i = i + 10

abbrev three : EventLoopThreadPool ℕ
three = start loop_of true (set_thread_num 3 (init 1))

-- The same pool after one connection.
abbrev next_is_one : EventLoopThreadPool ℕ
next_is_one = record {
  base_loop = 1;
  started = true;
  num_threads = 3;
  next = 1;
  loops = 10 ∷ 11 ∷ 12 ∷ [];
  initialised = [];
}

get_next_loop_round_example :
    ((next_is_one.loops ≢ [])
      → calls (length next_is_one.loops) next_is_one
        ≡ some (
          drop next_is_one.next next_is_one.loops ++ take next_is_one.next next_is_one.loops,
          next_is_one,
        ))
    × ((next_is_one.loops ≡ [])
        → (k : ℕ) → calls k next_is_one ≡ some (replicate k next_is_one.base_loop, next_is_one))
get_next_loop_round_example = get_next_loop_round next_is_one (inr (omega arith))
