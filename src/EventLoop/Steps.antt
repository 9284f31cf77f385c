-- ===== src/EventLoop/Steps.antt =====
-- src/EventLoop.cc among threads: the loop's thread and others take turns, one step at a time.
use muduo_learning.Prelude.{ℕ, ◌≡◌, Bool, true, false, ltb, List, [], ◌∷◌, ◌++◌, suc}
use muduo_learning.EventLoop.{
  EventLoop, init, wakeup, handle_read, push, queue_in_loop, set_quit, quit, start_loop, end_loop,
  start_calling, swap_functors, end_calling,
}

-- Where the loop's thread stands: outside `loop`, at the test of `while`, in `poll`, among the
-- active channels, with the wakeup channel to come or not, before the swap, and in the functors.
pub data Phase (T : Type 0) : Type 0 where
  outside : Phase T
  testing : Phase T
  polling : Phase T
  handling : Bool → Phase T
  draining : Phase T
  running : List T → Phase T

module _ (T : Type 0) where
  -- `waking` is how many other threads stand before the `wakeup` of their `queueInLoop` or `quit`;
  -- `queued` and `ran` record the functors in the order of their `emplace_back` and of their call;
  -- `unannounced` says that the loop's thread, outside `loop`, has queued one since the last swap.
  pub record World : Type 0 where
    pub event_loop : EventLoop T
    pub phase : Phase T
    pub waking : ℕ
    pub queued : List T
    pub ran : List T
    pub unannounced : Bool

  unfoldable pub start : World
  start = record {
    event_loop = init T;
    phase = outside;
    waking = 0;
    queued = [];
    ran = [];
    unannounced = false;
  }

module _ {T : Type 0} where
  -- A callback of a channel or a functor is what the loop's thread is in.
  abbrev pub in_callback : Phase T → Bool
  in_callback (handling b) = true
  in_callback (running ts) = true
  in_callback outside = false
  in_callback testing = false
  in_callback polling = false
  in_callback draining = false

  abbrev pub at : Phase T → EventLoop T → World T → World T
  at p e w = record w { phase = p; event_loop = e }

  pub data Step : World T → World T → Type 0 where
    -- Another thread, in `queueInLoop` or `quit`, and then at its `wakeup`.
    pushes :
        (w : World T) (t : T)
        → Step w (record w {
          event_loop = push t w.event_loop;
          waking = suc w.waking;
          queued = w.queued ++ t ∷ [];
        })
    asks_quit :
        (w : World T)
        → Step w (record w { event_loop = set_quit w.event_loop; waking = suc w.waking })
    wakes :
        (w : World T) (n : ℕ)
        → w.waking ≡ suc n
        → Step w (record w { event_loop = wakeup w.event_loop; waking = n })
    -- A callback in the loop's thread.
    queues_here :
        (w : World T) (t : T)
        → in_callback w.phase ≡ true
        → Step w (record w {
          event_loop = queue_in_loop true t w.event_loop;
          queued = w.queued ++ t ∷ [];
        })
    quits_here :
        (w : World T)
        → in_callback w.phase ≡ true
        → Step w (record w { event_loop = quit true w.event_loop })
    -- The loop's thread, before `loop` is called or after it has returned.
    queues_outside :
        (w : World T) (t : T)
        → w.phase ≡ outside
        → Step w (record w {
          event_loop = queue_in_loop true t w.event_loop;
          queued = w.queued ++ t ∷ [];
          unannounced = true;
        })
    quits_outside :
        (w : World T)
        → w.phase ≡ outside
        → Step w (record w { event_loop = quit true w.event_loop })
    -- The loop's thread, in `loop`.
    enters : (w : World T) → w.phase ≡ outside → Step w (at testing (start_loop w.event_loop) w)
    goes_on :
        (w : World T)
        → w.phase ≡ testing
        → w.event_loop.quitting ≡ false
        → Step w (at polling w.event_loop w)
    leaves :
        (w : World T)
        → w.phase ≡ testing
        → w.event_loop.quitting ≡ true
        → Step w (at outside (end_loop w.event_loop) w)
    -- `poll` returns for any channel or for its timeout; the wakeup channel is active exactly when
    -- the eventfd holds something.
    polls :
        (w : World T)
        → w.phase ≡ polling
        → Step w (at (handling (ltb 0 w.event_loop.counter)) w.event_loop w)
    reads :
        (w : World T)
        → w.phase ≡ handling true
        → Step w (at (handling false) (handle_read w.event_loop) w)
    drains :
        (w : World T)
        → w.phase ≡ handling false
        → Step w (at draining (start_calling w.event_loop) w)
    swaps :
        (w : World T)
        → w.phase ≡ draining
        → Step w (record w {
          phase = running (swap_functors w.event_loop).0;
          event_loop = (swap_functors w.event_loop).1;
          unannounced = false;
        })
    calls :
        (w : World T) (t : T) (ts : List T)
        → w.phase ≡ running (t ∷ ts)
        → Step w (record w { phase = running ts; ran = w.ran ++ t ∷ [] })
    ends : (w : World T) → w.phase ≡ running [] → Step w (at testing (end_calling w.event_loop) w)

  pub data Steps : World T → World T → Type 0 where
    done : (w : World T) → Steps w w
    next : {u v w : World T} → Step u v → Steps v w → Steps u w

  -- What happens from the loop's creation on.
  abbrev pub Reachable : World T → Type 0
  Reachable w = Steps (start T) w
