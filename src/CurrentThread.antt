-- ===== src/CurrentThread.antt =====
-- include/CurrentThread.h and src/CurrentThread.cc: the thread id that each thread caches. The system
-- call is a parameter, `gettid`, by the number of the thread that makes it.
pub mod Caching
use muduo_learning.Prelude.{ℕ, suc, List, [], ◌∷◌, ◌==◌, if◌then◌else◌}

-- The `t_cachedTid` of every thread, and how often each has made the system call.
pub record Threads : Type 0 where
  pub cached_tid : ℕ → ℕ
  pub syscalls : ℕ → ℕ

-- `t_cachedTid = 0` in every thread.
abbrev pub init : Threads
init = record { cached_tid = λ t. 0; syscalls = λ t. 0 }

abbrev pub assign : (ℕ → ℕ) → ℕ → ℕ → ℕ → ℕ
assign f t v u = if u == t then v else f u

module _ (gettid : ℕ → ℕ) where
  abbrev pub cache_tid : ℕ → Threads → Threads
  cache_tid t s =
      if s.cached_tid t == 0
      then record {
        cached_tid = assign s.cached_tid t (gettid t);
        syscalls = assign s.syscalls t (suc (s.syscalls t));
      }
      else s

  -- `tid()` in thread `t`, with its result.
  unfoldable pub tid : ℕ → Threads → ℕ × Threads
  tid t s = let s = if s.cached_tid t == 0 then cache_tid t s else s in (s.cached_tid t, s)

  -- One call after another, each in the thread that is named.
  unfoldable pub tids : List ℕ → Threads → List ℕ × Threads
  tids [] s = ([], s)
  tids (t ∷ ts) s = let (id, s) = tid t s in let (ids, s) = tids ts s in (id ∷ ids, s)
