-- ===== src/EventLoop/Tests.antt =====
-- A loop that another thread hands a functor to.
use muduo_learning.Prelude.{
  ℕ, ◌+◌, ◌<◌, ◌≡◌, ◌≢◌, refl, false, List, [], ◌∷◌, ◌++◌, inl, none, ok, arith, Returns,
}
use muduo_learning.Channel
use muduo_learning.Loop.{Loop}
use muduo_learning.Poller
use muduo_learning.Poller.Registry.{poller_loop}
use muduo_learning.Poller.Tests.{memory_epoll, two_ready, two_ready-fits, store}
use muduo_learning.EventLoop.Dispatch.{Machine, Modest}
use muduo_learning.EventLoop.Looping.{turns, KeepsSlots, nothing, fits, turns_lem}
use muduo_learning.EventLoop.{EventLoop, init, push, start_loop}
use muduo_learning.EventLoop.Steps.{
  testing, polling, World, start, at, pushes, enters, goes_on, done, next, Reachable,
}
use muduo_learning.EventLoop.Invariant.{functors}
use muduo_learning.EventLoop.Wakeup.{functors_in_order, poll_wakes}

abbrev entered : World ℕ
entered = at testing (start_loop (start ℕ).event_loop) (start ℕ)

abbrev waiting : World ℕ
waiting = at polling entered.event_loop entered

abbrev handed : World ℕ
handed = record waiting { event_loop = push 5 waiting.event_loop; waking = 1; queued = 5 ∷ [] }

handed-Reachable : Reachable handed
unfolding start start_loop init
handed-Reachable =
    next (enters (start ℕ) refl)
      (next (goes_on entered refl refl) (next (pushes waiting 5) (done handed)))

functors_in_order_example :
    handed.queued ≡ handed.ran ++ (functors handed.phase ++ handed.event_loop.pending_functors)
functors_in_order_example = functors_in_order {w = handed} handed-Reachable

handed-pending : handed.event_loop.pending_functors ≢ []
unfolding push start start_loop init
handed-pending e = cc

poll_wakes_example : 0 < handed.event_loop.counter + handed.waking
unfolding start
poll_wakes_example = poll_wakes {w = handed} handed-Reachable refl (inl (handed-pending, refl))

-- Functor `n` queues `n + 1` and `n + 2`.
abbrev children : ℕ → List ℕ
children n = (n + 1) ∷ (n + 2) ∷ []

abbrev loaded : EventLoop ℕ
loaded = record (init ℕ) { pending_functors = 1 ∷ 10 ∷ [] }

abbrev here : Loop
here = poller_loop memory_epoll

abbrev fresh_poller : here.State
fresh_poller = Poller.init memory_epoll (λ fd. none)

-- Callbacks that do nothing.
abbrev machine : Machine memory_epoll ℕ
machine = record { poller = fresh_poller; store = store; active = []; user = 0; handled = [] }

idle-Modest : Modest memory_epoll ℕ (λ a m. ok m) (λ m. ok m)
idle-Modest = record {
  handle_leaves = λ a m. (λ b. refl, refl);
  functors_leave = λ m. (λ b. refl, refl);
}

idle-KeepsSlots : KeepsSlots memory_epoll ℕ (λ a m. ok m) (λ m. ok m) (λ m. false)
idle-KeepsSlots = record { handle_keeps = λ a m. refl; functors_keep = λ m. refl }

turns_lem_example :
    Returns
      (turns memory_epoll ℕ
        (λ a m. ok m)
        (λ m. ok m)
        (λ m. false)
        (two_ready ∷ two_ready ∷ [])
        (machine, []))
      λ r. r.0.handled ≡ machine.handled ++ r.1
unfolding Poller.init
turns_lem_example =
    turns_lem memory_epoll ℕ (λ a m. ok m) (λ m. ok m) (λ m. false) (two_ready ∷ two_ready ∷ [])
      machine idle-Modest idle-KeepsSlots (omega arith)
      (fits two_ready-fits (fits two_ready-fits nothing))
