-- ===== src/Thread.antt =====
-- include/Thread.h and src/Thread.cc: a thread, the semaphore through which `start` learns its id, and
-- its default name. The thread's number is taken to stay below 2 ^ 31.
pub mod Start
pub mod Names
pub mod Tests
use muduo_learning.Prelude.{
  ℕ, suc, ◌+◌, ◌-◌, Bool, true, false, not, ◌&&◌, ◌++◌, [], ◌∷◌, if◌then◌else◌,
}
use muduo_learning.Text.{Text, codes, c_str, print_bounded, zeroed}
use muduo_learning.Text.Decimal.{decimal}
use muduo_learning.CurrentThread.{Threads, tid}

-- Where the creating thread stands: before `start`, in `sem_wait`, after `start`, in `thread_->join()`,
-- after `join`, and after the destructor.
pub data Creator : Type 0 where
  constructed waiting started_it joining joined_it gone : Creator

-- Where the new thread stands: not there, before `tid_` is set, before `sem_post`, before `func_`, in
-- it, and at its end.
pub data Child : Type 0 where
  unborn born recorded posted running ended : Child

-- The object, with the two threads that work on it. `func_calls` counts the calls of `func_`,
-- `detached` is what `detach` did.
pub record Thread : Type 0 where
  pub started : Bool
  pub joined : Bool
  pub tid_value : ℕ
  pub name : Text
  pub sem : ℕ
  pub creator : Creator
  pub child : Child
  pub func_calls : ℕ
  pub detached : Bool
  pub threads : Threads

abbrev pub is_empty : Text → Bool
is_empty [] = true
is_empty (c ∷ cs) = false

-- What the format "Thread%d" makes, read from the array of 32 bytes.
unfoldable pub default_name : ℕ → Text
default_name num = c_str (print_bounded 32 (codes "Thread" ++ decimal num) (zeroed 32))

-- `setDefaultName`, where `num_created` threads were made before: the counter, and the name.
unfoldable pub set_default_name : ℕ → Text → ℕ × Text
set_default_name num_created name =
    let num = suc num_created in (num, if is_empty name then default_name num else name)

-- The constructor; its first result is `numCreated_`.
unfoldable pub init : ℕ → Text → Threads → ℕ × Thread
init num_created name threads =
    let (num, name) = set_default_name num_created name in
    (
      num,
      record {
        started = false;
        joined = false;
        tid_value = 0;
        name = name;
        sem = 0;
        creator = constructed;
        child = unborn;
        func_calls = 0;
        detached = false;
        threads = threads;
      },
    )

-- `start` up to `sem_wait`: the flag, `sem_init`, and the new thread.
unfoldable pub start : Thread → Thread
start t = record t { started = true; sem = 0; creator = waiting; child = born }

-- `sem_wait` of a semaphore above 0: `start` returns.
unfoldable pub sem_wait : Thread → Thread
sem_wait t = record t { sem = t.sem - 1; creator = started_it }

-- `tid_ = CurrentThread::tid()`, in the new thread, which has number `me`.
unfoldable pub record_tid : (ℕ → ℕ) → ℕ → Thread → Thread
record_tid gettid me t =
    let (id, threads) = tid gettid me t.threads in
    record t { tid_value = id; threads = threads; child = recorded }

unfoldable pub sem_post : Thread → Thread
sem_post t = record t { sem = suc t.sem; child = posted }

-- `func_()` begins, and returns.
unfoldable pub call_func : Thread → Thread
call_func t = record t { func_calls = suc t.func_calls; child = running }

unfoldable pub end_func : Thread → Thread
end_func t = record t { child = ended }

-- `join`: the flag, and then `thread_->join()`.
unfoldable pub join : Thread → Thread
join t = record t { joined = true; creator = joining }

unfoldable pub end_join : Thread → Thread
end_join t = record t { creator = joined_it }

-- The destructor.
unfoldable pub destroy : Thread → Thread
destroy t = record t { detached = t.started && not t.joined; creator = gone }
