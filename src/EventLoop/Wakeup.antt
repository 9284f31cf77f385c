-- ===== src/EventLoop/Wakeup.antt =====
-- src/EventLoop.cc: no functor is lost, and no wakeup is.
use muduo_learning.Prelude.{◌+◌, ◌<◌, ◌≡◌, ◌≢◌, ap, true, false, [], ◌++◌, ◌⊎◌, inl, inr}
use muduo_learning.EventLoop.Steps.{polling, World, Reachable}
use muduo_learning.EventLoop.Invariant.{functors, will_swap, is_polling, start-Inv, Steps-Inv}

module _ {T : Type 0} where
  -- In every reachable state the functors queued so far are, in the order in which they were
  -- queued, those that were called, those of the batch being called that are still to come, and
  -- those that are pending.
  pub functors_in_order :
      {w : World T}
      → Reachable w
      → w.queued ≡ w.ran ++ (functors w.phase ++ w.event_loop.pending_functors)
  functors_in_order s = (Steps-Inv s start-Inv).order

  -- In every reachable state with the loop's thread in `poll`, where `quit_` is set, or a functor
  -- is pending and that thread has queued none outside `loop` since the functors were last
  -- swapped: the eventfd holds something or another thread is about to write to it.
  pub poll_wakes :
      {w : World T}
      → Reachable w
      → w.phase ≡ polling
      → (((w.event_loop.pending_functors ≢ []) × (w.unannounced ≡ false))
          ⊎ (w.event_loop.quitting ≡ true))
      → 0 < w.event_loop.counter + w.waking
  poll_wakes s h (inl (p, a)) = elim ((Steps-Inv s start-Inv).alert_functors (ap will_swap h) a) [
    | inl none ↦ absurd (p none)
    | inr alert ↦ alert
  ]
  poll_wakes s h (inr q) = elim ((Steps-Inv s start-Inv).alert_quit (ap is_polling h)) [
    | inl none ↦ absurd cc
    | inr alert ↦ alert
  ]
