-- ===== src/EventLoopThreadPool.antt =====
-- include/EventLoopThreadPool.h and src/EventLoopThreadPool.cc: the loops that share the work.
-- A loop is a value of `L`, its pointer; a thread is the loop that runs in it.
pub mod Round
pub mod Start
pub mod Tests
use muduo_learning.Prelude.{
  ℕ, suc, zero, ◌+◌, ◌≤◌, Bool, true, false, not, ◌&&◌, ◌==◌, leb, if◌then◌else◌, Option, none,
  some, List, [], ◌∷◌, ◌++◌, length, get_elem?,
}

module _ (L : Type 0) where
  -- `initialised` lists the loops that `cb` was called with.
  pub record EventLoopThreadPool : Type 0 where
    pub base_loop : L
    pub started : Bool
    pub num_threads : ℕ
    pub next : ℕ
    pub loops : List L
    pub initialised : List L

module _ {L : Type 0} where
  -- The constructor, and `setThreadNum`.
  unfoldable pub init : L → EventLoopThreadPool L
  init base = record {
    base_loop = base;
    started = false;
    num_threads = 0;
    next = 0;
    loops = [];
    initialised = [];
  }

  unfoldable pub set_thread_num : ℕ → EventLoopThreadPool L → EventLoopThreadPool L
  set_thread_num n p = record p { num_threads = n }

  -- The loop of `start`: `start_loop i` is the loop that the `i`-th thread made, after it called
  -- `cb`, if there is one, with it.
  unfoldable pub start_threads :
      (ℕ → L) → Bool → ℕ → ℕ → EventLoopThreadPool L → EventLoopThreadPool L
  start_threads start_loop has_cb i zero p = p
  start_threads start_loop has_cb i (suc n) p =
      let l = start_loop i in
      start_threads start_loop has_cb (suc i) n (record p {
        loops = p.loops ++ l ∷ [];
        initialised = if has_cb then p.initialised ++ l ∷ [] else p.initialised;
      })

  -- `start(cb)`
  unfoldable pub start : (ℕ → L) → Bool → EventLoopThreadPool L → EventLoopThreadPool L
  start start_loop has_cb p =
      let p' = start_threads start_loop has_cb 0 p.num_threads (record p { started = true }) in
      if p'.num_threads == 0 && has_cb
      then record p' { initialised = p'.initialised ++ p'.base_loop ∷ [] }
      else p'

  -- `getNextLoop`; `none` is an index past the end of the vector.
  unfoldable pub get_next_loop : EventLoopThreadPool L → Option (L × EventLoopThreadPool L)
  get_next_loop p =
      let next = p.next + 1 in
      if not (length p.loops == 0)
      then elim (get_elem? p.loops p.next) [
        | none ↦ none
        | some loop ↦ some (loop, record p { next = if leb (length p.loops) next then 0 else next })
      ]
      else some (p.base_loop, p)

  -- `getAllLoops`
  unfoldable pub get_all_loops : EventLoopThreadPool L → List L
  get_all_loops p = if length p.loops == 0 then p.base_loop ∷ [] else p.loops
