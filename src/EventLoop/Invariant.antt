-- ===== src/EventLoop/Invariant.antt =====
-- src/EventLoop.cc: what holds in every state that the threads reach.
use muduo_learning.Prelude.{
  ◌+◌, ◌<◌, ◌≡◌, ◌∙◌, refl, ap, sym, arith, Bool, true, false, List, [], ◌∷◌, ◌++◌, ◌⊎◌, inl, inr,
  append-nil, append_assoc,
}
use muduo_learning.EventLoop.{
  init, wakeup, handle_read, push, queue_in_loop, set_quit, quit, start_loop, end_loop,
  start_calling, swap_functors, end_calling,
}
use muduo_learning.EventLoop.Steps.{
  Phase, outside, testing, polling, handling, draining, running, World, start, in_callback, Step,
  pushes, asks_quit, wakes, queues_here, quits_here, queues_outside, quits_outside, enters, goes_on,
  leaves, polls, reads, drains, swaps, calls, ends, Steps, done, next,
}

module _ {T : Type 0} where
  abbrev pub functors : Phase T → List T
  functors (running ts) = ts
  functors (handling b) = []
  functors outside = []
  functors testing = []
  functors polling = []
  functors draining = []

  -- Where `callingPendingFunctors_` is set.
  abbrev is_calling : Phase T → Bool
  is_calling (running ts) = true
  is_calling (handling b) = false
  is_calling outside = false
  is_calling testing = false
  is_calling polling = false
  is_calling draining = true

  -- Where the swap is yet to come in the turn.
  abbrev pub will_swap : Phase T → Bool
  will_swap (running ts) = false
  will_swap (handling b) = true
  will_swap outside = false
  will_swap testing = false
  will_swap polling = false
  will_swap draining = true

  abbrev pub is_polling : Phase T → Bool
  is_polling (running ts) = false
  is_polling (handling b) = false
  is_polling outside = false
  is_polling testing = false
  is_polling polling = true
  is_polling draining = false

  pub record Inv (w : World T) : Type 0 where
    calling : w.event_loop.calling_pending_functors ≡ is_calling w.phase
    pub alert_functors :
        will_swap w.phase ≡ false
        → w.unannounced ≡ false
        → (w.event_loop.pending_functors ≡ []) ⊎ (0 < w.event_loop.counter + w.waking)
    pub alert_quit :
        is_polling w.phase ≡ true
        → (w.event_loop.quitting ≡ false) ⊎ (0 < w.event_loop.counter + w.waking)
    pub order : w.queued ≡ w.ran ++ (functors w.phase ++ w.event_loop.pending_functors)

  pub start-Inv : Inv (start T)
  unfolding start init
  start-Inv = record {
    calling = refl;
    alert_functors = λ h a. inl refl;
    alert_quit = λ h. inl refl;
    order = refl;
  }

  grow :
      (queued ran functors pending : List T) (t : T)
      → queued ≡ ran ++ (functors ++ pending)
      → queued ++ t ∷ [] ≡ ran ++ (functors ++ (pending ++ t ∷ []))
  grow queued ran functors pending t h = rw h (simp append_assoc refl)

  swap_follows : (p : Phase T) → in_callback p ≡ true → is_calling p ≡ false → will_swap p ≡ true
  swap_follows (running ts) h k = absurd cc
  swap_follows (handling b) h k = refl
  swap_follows outside h k = absurd cc
  swap_follows testing h k = absurd cc
  swap_follows polling h k = absurd cc
  swap_follows draining h k = absurd cc

  not_polling : (p : Phase T) → in_callback p ≡ true → is_polling p ≡ false
  not_polling (running ts) h = refl
  not_polling (handling b) h = refl
  not_polling outside h = refl
  not_polling testing h = refl
  not_polling polling h = absurd cc
  not_polling draining h = refl

  queues_here-Inv :
      (b : Bool) (w : World T) (t : T)
      → in_callback w.phase ≡ true
      → w.event_loop.calling_pending_functors ≡ b
      → Inv w
      → Inv
          (record w { event_loop = queue_in_loop true t w.event_loop; queued = w.queued ++ t ∷ [] })
  unfolding queue_in_loop push wakeup
  queues_here-Inv true w t h c i = rw c (record {
    calling = sym c ∙ i.calling;
    alert_functors = λ k a. inr (omega arith);
    alert_quit = λ k. absurd (cc (not_polling w.phase h));
    order = grow _ w.ran (functors w.phase) _ t i.order;
  })
  queues_here-Inv false w t h c i = rw c (record {
    calling = sym c ∙ i.calling;
    alert_functors = λ k a. absurd (cc (swap_follows w.phase h (sym i.calling ∙ c)));
    alert_quit = λ k. absurd (cc (not_polling w.phase h));
    order = grow _ w.ran (functors w.phase) _ t i.order;
  })

  queues_outside-Inv :
      (w : World T) (t : T)
      → w.phase ≡ outside
      → Inv w
      → Inv (record w {
        event_loop = queue_in_loop true t w.event_loop;
        queued = w.queued ++ t ∷ [];
        unannounced = true;
      })
  unfolding queue_in_loop push wakeup
  queues_outside-Inv w t h i = rw (i.calling ∙ ap is_calling h) (record {
    calling = sym (ap is_calling h);
    alert_functors = λ k a. absurd cc;
    alert_quit = λ k. absurd (cc (ap is_polling h));
    order = grow _ w.ran (functors w.phase) _ t i.order;
  })

  Step-Inv : {u v : World T} → Step u v → Inv u → Inv v
  unfolding push wakeup handle_read queue_in_loop quit set_quit start_loop end_loop start_calling
      swap_functors end_calling
  Step-Inv (pushes w t) i = record {
    calling = i.calling;
    alert_functors = λ h a. inr (omega arith);
    alert_quit = λ h. inr (omega arith);
    order = grow _ w.ran (functors w.phase) _ t i.order;
  }
  Step-Inv (asks_quit w) i = record {
    calling = i.calling;
    alert_functors = λ h a. inr (omega arith);
    alert_quit = λ h. inr (omega arith);
    order = i.order;
  }
  Step-Inv (wakes w n e) i = record {
    calling = i.calling;
    alert_functors = λ h a. inr (omega arith);
    alert_quit = λ h. inr (omega arith);
    order = i.order;
  }
  Step-Inv (queues_here w t h) i = queues_here-Inv _ w t h refl i
  Step-Inv (quits_here w h) i = record {
    calling = i.calling;
    alert_functors = i.alert_functors;
    alert_quit = λ k. absurd (cc (not_polling w.phase h));
    order = i.order;
  }
  Step-Inv (queues_outside w t h) i = queues_outside-Inv w t h i
  Step-Inv (quits_outside w h) i = record {
    calling = i.calling;
    alert_functors = i.alert_functors;
    alert_quit = λ k. absurd (cc (ap is_polling h));
    order = i.order;
  }
  Step-Inv (enters w h) i = record {
    calling = i.calling ∙ ap is_calling h;
    alert_functors = λ k a. i.alert_functors (ap will_swap h) a;
    alert_quit = λ k. inl refl;
    order = i.order ∙ ap (λ p. w.ran ++ (functors p ++ w.event_loop.pending_functors)) h;
  }
  Step-Inv (goes_on w h q) i = record {
    calling = i.calling ∙ ap is_calling h;
    alert_functors = λ k a. i.alert_functors (ap will_swap h) a;
    alert_quit = λ k. inl q;
    order = i.order ∙ ap (λ p. w.ran ++ (functors p ++ w.event_loop.pending_functors)) h;
  }
  Step-Inv (leaves w h q) i = record {
    calling = i.calling ∙ ap is_calling h;
    alert_functors = λ k a. i.alert_functors (ap will_swap h) a;
    alert_quit = λ k. absurd cc;
    order = i.order ∙ ap (λ p. w.ran ++ (functors p ++ w.event_loop.pending_functors)) h;
  }
  Step-Inv (polls w h) i = record {
    calling = i.calling ∙ ap is_calling h;
    alert_functors = λ k a. absurd cc;
    alert_quit = λ k. absurd cc;
    order = i.order ∙ ap (λ p. w.ran ++ (functors p ++ w.event_loop.pending_functors)) h;
  }
  Step-Inv (reads w h) i = record {
    calling = i.calling ∙ ap is_calling h;
    alert_functors = λ k a. absurd cc;
    alert_quit = λ k. absurd cc;
    order = i.order ∙ ap (λ p. w.ran ++ (functors p ++ w.event_loop.pending_functors)) h;
  }
  Step-Inv (drains w h) i = record {
    calling = refl;
    alert_functors = λ k a. absurd cc;
    alert_quit = λ k. absurd cc;
    order = i.order ∙ ap (λ p. w.ran ++ (functors p ++ w.event_loop.pending_functors)) h;
  }
  Step-Inv (swaps w h) i = record {
    calling = i.calling ∙ ap is_calling h;
    alert_functors = λ k a. inl refl;
    alert_quit = λ k. absurd cc;
    order =
        i.order
        ∙ ap (λ p. w.ran ++ (functors p ++ w.event_loop.pending_functors)) h
        ∙ ap (λ ts. w.ran ++ ts) (sym (append-nil w.event_loop.pending_functors));
  }
  Step-Inv (calls w t ts h) i = record {
    calling = i.calling ∙ ap is_calling h;
    alert_functors = λ k a. i.alert_functors (ap will_swap h) a;
    alert_quit = λ k. absurd cc;
    order =
        i.order
        ∙ ap (λ p. w.ran ++ (functors p ++ w.event_loop.pending_functors)) h
        ∙ simp append_assoc refl;
  }
  Step-Inv (ends w h) i = record {
    calling = refl;
    alert_functors = λ k a. i.alert_functors (ap will_swap h) a;
    alert_quit = λ k. absurd cc;
    order = i.order ∙ ap (λ p. w.ran ++ (functors p ++ w.event_loop.pending_functors)) h;
  }

  pub Steps-Inv : {u v : World T} → Steps u v → Inv u → Inv v
  Steps-Inv (done w) i = i
  Steps-Inv (next s ss) i = Steps-Inv ss (Step-Inv s i)
