-- ===== src/EventLoop.antt =====
-- include/EventLoop.h and src/EventLoop.cc: the queue of functors, the eventfd that wakes the
-- loop's thread, and `loop`. `Loop.antt` and `Poller.antt` model the channels. Log lines are left out.
pub mod Steps
pub mod Invariant
pub mod Wakeup
pub mod Turn
pub mod Lifetime
pub mod Dispatch
pub mod Looping
pub mod Tests
use muduo_learning.Prelude.{
  ℕ, ◌+◌, ◌≡◌, ◌≢◌, Bool, true, false, not, ◌||◌, ltb, if◌then◌else◌, List, [], ◌∷◌, ◌++◌,
}

module _ (T : Type 0) where
  -- The fields that several threads use, and `counter`, what the eventfd holds.
  pub record EventLoop : Type 0 where
    pub looping : Bool
    pub quitting : Bool
    pub calling_pending_functors : Bool
    pub pending_functors : List T
    pub counter : ℕ

  -- The constructor.
  unfoldable pub init : EventLoop
  init = record {
    looping = false;
    quitting = false;
    calling_pending_functors = false;
    pending_functors = [];
    counter = 0;
  }

module _ {T : Type 0} where
  -- `wakeup`: the eventfd counts the writes.
  unfoldable pub wakeup : EventLoop T → EventLoop T
  wakeup e = record e { counter = e.counter + 1 }

  -- `handleRead`: reading an eventfd takes all that it holds.
  unfoldable pub handle_read : EventLoop T → EventLoop T
  handle_read e = record e { counter = 0 }

  -- The locked block of `queueInLoop`.
  unfoldable pub push : T → EventLoop T → EventLoop T
  push t e = record e { pending_functors = e.pending_functors ++ t ∷ [] }

  -- `queueInLoop(cb)`; `here` says whether the caller is the loop's thread.
  unfoldable pub queue_in_loop : Bool → T → EventLoop T → EventLoop T
  queue_in_loop here t e =
      let e' = push t e in if not here || e'.calling_pending_functors then wakeup e' else e'

  -- `runInLoop(cb)`; `run` is what `cb` does to the loop.
  unfoldable pub run_in_loop :
      (T → EventLoop T → EventLoop T) → Bool → T → EventLoop T → EventLoop T
  run_in_loop run here t e = if here then run t e else queue_in_loop here t e

  unfoldable pub set_quit : EventLoop T → EventLoop T
  set_quit e = record e { quitting = true }

  -- `quit`
  unfoldable pub quit : Bool → EventLoop T → EventLoop T
  quit here e = let e' = set_quit e in if not here then wakeup e' else e'

  -- `loop`, before its first turn and after its last.
  unfoldable pub start_loop : EventLoop T → EventLoop T
  start_loop e = record e { looping = true; quitting = false }

  unfoldable pub end_loop : EventLoop T → EventLoop T
  end_loop e = record e { looping = false }

  -- `doPendingFunctors`: its start, the locked swap, and its end.
  unfoldable pub start_calling : EventLoop T → EventLoop T
  start_calling e = record e { calling_pending_functors = true }

  unfoldable pub swap_functors : EventLoop T → List T × EventLoop T
  swap_functors e = (e.pending_functors, record e { pending_functors = [] })

  unfoldable pub end_calling : EventLoop T → EventLoop T
  end_calling e = record e { calling_pending_functors = false }

  unfoldable pub call_all : (T → EventLoop T → EventLoop T) → List T → EventLoop T → EventLoop T
  call_all run [] e = e
  call_all run (t ∷ ts) e = call_all run ts (run t e)

  -- All of `doPendingFunctors`, with no other thread in between.
  unfoldable pub do_pending_functors : (T → EventLoop T → EventLoop T) → EventLoop T → EventLoop T
  do_pending_functors run e =
      let (functors, e') = swap_functors (start_calling e) in end_calling (call_all run functors e')
