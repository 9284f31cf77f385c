-- ===== src/EventLoop/Turn.antt =====
-- src/EventLoop.cc: one turn of `loop`, and the functors that functors queue.
use muduo_learning.Prelude.{
  ◌+◌, ◌≡◌, ◌∙◌, refl, ap, ap₂, sym, arith, if◌then◌else◌, inl, inr, true, false, ltb, List, [],
  ◌∷◌, ◌++◌, append-nil, append_assoc, Bool-cases, length, length-append,
}
use muduo_learning.EventLoop.{
  EventLoop, wakeup, handle_read, push, queue_in_loop, start_calling, swap_functors, end_calling,
  call_all, do_pending_functors,
}
use muduo_learning.EventLoop.Steps.{
  testing, polling, handling, draining, running, World, at, polls, reads, drains, swaps, calls,
  ends, Steps, done, next, Reachable,
}
use muduo_learning.EventLoop.Wakeup.{functors_in_order}

module _ {T : Type 0} where
  Steps-trans : {u v w : World T} → Steps u v → Steps v w → Steps u w
  Steps-trans (done w) t = t
  Steps-trans (next s ss) t = next s (Steps-trans ss t)

  -- The functors of a batch are called one after another.
  calls_all :
      (ts : List T) (w : World T)
      → Steps (record w { phase = running ts }) (record w { phase = running []; ran = w.ran ++ ts })
  calls_all [] w = rw (append-nil w.ran) (done (record w { phase = running [] }))
  calls_all (t ∷ ts) w = rw (sym (append_assoc w.ran (t ∷ []) ts)) (
      next (calls (record w { phase = running (t ∷ ts) }) t ts refl)
        (calls_all ts (record w { ran = w.ran ++ t ∷ [] })))

  abbrev after_turn : World T → World T
  after_turn w = record w {
    phase = testing;
    event_loop = end_calling (swap_functors (start_calling w.event_loop)).1;
    ran = w.ran ++ w.event_loop.pending_functors;
    unannounced = false;
  }

  -- The rest of a turn, once the eventfd was read.
  drained : (w : World T) → Steps (record w { phase = handling false }) (after_turn w)
  unfolding swap_functors start_calling
  drained w =
      let e = start_calling w.event_loop in
      let called = w.ran ++ w.event_loop.pending_functors in
      let swapped = record w { event_loop = (swap_functors e).1; unannounced = false } in
      next (drains (record w { phase = handling false }) refl) (
        next (swaps (at draining e w) refl) (
          Steps-trans (calls_all w.event_loop.pending_functors swapped)
            (next (ends (record swapped { phase = running []; ran = called }) refl) (done _))))

  -- A functor that queues others: each of `children t`, in order.
  unfoldable pub queue_all : List T → EventLoop T → EventLoop T
  queue_all [] e = e
  queue_all (t ∷ ts) e = queue_all ts (queue_in_loop true t e)

  unfoldable pub flat_map : (T → List T) → List T → List T
  flat_map f [] = []
  flat_map f (t ∷ ts) = f t ++ flat_map f ts

  later-none :
      (e : EventLoop T)
      → e ≡ record e { pending_functors = e.pending_functors ++ []; counter = e.counter + 0 }
  later-none e =
      ap₂ (λ p c. record e { pending_functors = p; counter = c })
        (sym (append-nil e.pending_functors)) (omega arith)

  queue_in_loop_calling :
      (t : T) (e : EventLoop T)
      → e.calling_pending_functors ≡ true
      → queue_in_loop true t e
        ≡ record e { pending_functors = e.pending_functors ++ t ∷ []; counter = e.counter + 1 }
  unfolding queue_in_loop push wakeup
  queue_in_loop_calling t e h =
      let p = e.pending_functors ++ t ∷ [] in
      ap
        (λ b.
          if b
          then record e { pending_functors = p; counter = e.counter + 1 }
          else record e { pending_functors = p })
        h

  queue_all_lem :
      (ts : List T) (e : EventLoop T)
      → e.calling_pending_functors ≡ true
      → queue_all ts e
        ≡ record e { pending_functors = e.pending_functors ++ ts; counter = e.counter + length ts }
  unfolding queue_all
  queue_all_lem [] e h = later-none e
  queue_all_lem (t ∷ ts) e h =
      ap (queue_all ts) (queue_in_loop_calling t e h)
      ∙ (queue_all_lem ts
            (record e { pending_functors = e.pending_functors ++ t ∷ []; counter = e.counter + 1 })
            h
          ∙ ap₂ (λ p c. record e { pending_functors = p; counter = c })
              (append_assoc e.pending_functors (t ∷ []) ts) (omega arith))

  call_all_lem :
      (children : T → List T) (ts : List T) (e : EventLoop T)
      → e.calling_pending_functors ≡ true
      → call_all (λ t. queue_all (children t)) ts e ≡ record e {
        pending_functors = e.pending_functors ++ flat_map children ts;
        counter = e.counter + length (flat_map children ts);
      }
  unfolding call_all flat_map
  call_all_lem children [] e h = later-none e
  call_all_lem children (t ∷ ts) e h = rw (queue_all_lem (children t) e h) (
      call_all_lem children ts
        (record e {
          pending_functors = e.pending_functors ++ children t;
          counter = e.counter + length (children t);
        })
        h
      ∙ ap₂ (λ p c. record e { pending_functors = p; counter = c })
          (append_assoc e.pending_functors (children t) (flat_map children ts))
          (omega (arith, length-append (children t) (flat_map children ts))))

  -- `doPendingFunctors`, when each functor `t` queues the functors `children t`: these stay
  -- pending for the next turn, in order, none is called in this one, and each adds one to the
  -- eventfd.
  pub do_pending_functors_lem :
      (children : T → List T) (e : EventLoop T)
      → do_pending_functors (λ t. queue_all (children t)) e ≡ record e {
        calling_pending_functors = false;
        pending_functors = flat_map children e.pending_functors;
        counter = e.counter + length (flat_map children e.pending_functors);
      }
  unfolding do_pending_functors swap_functors start_calling end_calling
  do_pending_functors_lem children e =
      ap end_calling
        (call_all_lem children e.pending_functors (swap_functors (start_calling e)).1 refl)

  -- In every reachable state with the loop's thread in `poll` there are further steps, none of
  -- which queues a functor, that end at the test of `while` with every functor called that was
  -- queued, and none pending.
  pub turn_calls_all :
      (w : World T)
      → Reachable w
      → w.phase ≡ polling
      → (v : World T) × Steps w v
        × (v.phase ≡ testing)
        × (v.ran ≡ w.queued)
        × (v.queued ≡ w.queued)
        × (v.event_loop.pending_functors ≡ [])
  unfolding handle_read start_calling swap_functors end_calling
  turn_calls_all w s h =
      let e = w.event_loop in
      let all : w.ran ++ e.pending_functors ≡ w.queued = sym (cc (functors_in_order s, h)) in
      elim (Bool-cases (ltb 0 e.counter)) [
        | inl active ↦ (
          after_turn (record w { event_loop = handle_read e }),
          next (polls w h) (
              next (reads (at (handling (ltb 0 e.counter)) e w) (ap handling active))
                (drained (record w { event_loop = handle_read e }))),
          refl,
          all,
          refl,
          refl,
        )
        | inr quiet ↦ (after_turn w, next (polls w h) (rw quiet (drained w)), refl, all, refl, refl)
      ]
