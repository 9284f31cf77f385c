-- ===== src/EventLoop/Looping.antt =====
-- src/EventLoop.cc: `while (!quit_)`, the turns of `loop` one after another. What each `epoll_wait`
-- gives, and what `quit_` holds before each turn, are parameters.
use muduo_learning.Prelude.{
  ℕ, ◌≡◌, ◌∙◌, refl, sym, ap, arith, ◌<◌, ◌≤◌, length, Bool, if◌then◌else◌, List, [], ◌∷◌, ◌++◌,
  append-nil, append_assoc, Outcome, ok, ◌>>=◌, Returns, Returns-bind, Returns-map, Returns-both,
  Bool-cases, inl, inr,
}
use muduo_learning.Poller.{Epoll}
use muduo_learning.Poller.Poll.{WaitResult, events_of, poll-Polled}
use muduo_learning.EventLoop.Dispatch.{
  Machine, handle_all, polled, turn, turn_lem, Modest, calls_of,
}

module _ (epoll : Epoll) (U : Type 0) where
  abbrev pub Wait : Type 0
  Wait = ℕ → epoll.Kernel → WaitResult

  -- `epoll_wait` gives no more entries than are offered.
  pub data Fits : List Wait → Type 0 where
    nothing : Fits []
    fits :
        {wait : Wait} {waits : List Wait}
        → ((n : ℕ) (k : epoll.Kernel) → length (events_of (wait n k)) ≤ n)
        → Fits waits
        → Fits (wait ∷ waits)

  module _ (handle : ℕ → Machine epoll U → Outcome (Machine epoll U))
      (functors : Machine epoll U → Outcome (Machine epoll U))
      (quits : Machine epoll U → Bool) where
    -- The calls that the reports of a turn ask for.
    abbrev pub asked : Wait → Machine epoll U → List (ℕ × ℕ)
    asked wait m =
        let evs = events_of (wait m.poller.event_slots m.poller.kernel) in calls_of evs evs m.store

    -- At most one turn for each wait; the second component collects what the reports ask for.
    unfoldable pub turns :
        List Wait → Machine epoll U × List (ℕ × ℕ) → Outcome (Machine epoll U × List (ℕ × ℕ))
    turns [] (m, told) = ok (m, told)
    turns (wait ∷ waits) (m, told) =
        if quits m
        then ok (m, told)
        else turn epoll U handle functors wait m >>= λ u. turns waits (u, told ++ asked wait m)

    -- Only `poll` resizes the list of events.
    pub record KeepsSlots : Type 0 where
      pub handle_keeps :
          (a : ℕ) (m : Machine epoll U)
          → Returns (handle a m) λ u. u.poller.event_slots ≡ m.poller.event_slots
      pub functors_keep :
          (m : Machine epoll U)
          → Returns (functors m) λ u. u.poller.event_slots ≡ m.poller.event_slots

    handle_all-slots :
        (channels : List ℕ) (m : Machine epoll U)
        → KeepsSlots
        → Returns
            (handle_all epoll U handle functors channels m)
            λ u. u.poller.event_slots ≡ m.poller.event_slots
    unfolding handle_all
    handle_all-slots [] m keeps = refl
    handle_all-slots (a ∷ channels) m keeps =
        let now = record m { handled = m.handled ++ (a, (m.store a).revents) ∷ [] } in
        Returns-bind (handle a now) (handle_all epoll U handle functors channels) _ _
          (keeps.handle_keeps a now)
          λ u e.
            Returns-map (handle_all epoll U handle functors channels u) _ _
              (handle_all-slots channels u keeps) λ v k. k ∙ e

    turn-slots :
        (wait : Wait) (m : Machine epoll U)
        → KeepsSlots
        → 0 < m.poller.event_slots
        → ((n : ℕ) (k : epoll.Kernel) → length (events_of (wait n k)) ≤ n)
        → Returns
            (turn epoll U handle functors wait m)
            λ u. m.poller.event_slots ≤ u.poller.event_slots
    unfolding turn
    turn-slots wait m keeps room fit =
        let now = polled epoll U handle functors wait m in
        let (a, b, c, d, e, grows) = poll-Polled epoll wait m.poller m.store [] room fit in
        Returns-bind (handle_all epoll U handle functors now.active now) functors _ _
          (handle_all-slots now.active now keeps)
          λ u e.
            Returns-map (functors u) _ _ (keeps.functors_keep u) λ v k. omega (arith, e, k, grows)

    turns-Told :
        (waits : List Wait) (before told : List (ℕ × ℕ)) (m : Machine epoll U)
        → Modest epoll U handle functors
        → KeepsSlots
        → 0 < m.poller.event_slots
        → Fits waits
        → m.handled ≡ before ++ told
        → Returns (turns waits (m, told)) λ r. r.0.handled ≡ before ++ r.1
    unfolding turns
    turns-Told [] before told m modest keeps room f e = e
    turns-Told (wait ∷ waits) before told m modest keeps room (fits fit f) e =
        elim (Bool-cases (quits m)) [
          | inl quit ↦ rw quit e
          | inr on ↦ rw on (
              Returns-bind (turn epoll U handle functors wait m) _ _ _
                (Returns-both (turn epoll U handle functors wait m) _ _
                  (turn_lem epoll U handle functors wait m modest room fit)
                  (turn-slots wait m keeps room fit))
                λ u g.
                  turns-Told waits before (told ++ asked wait m) u modest keeps
                    (omega (arith, g.1, room)) f
                    (g.0 ∙ ap (λ t. t ++ asked wait m) e ∙ append_assoc before told (asked wait m)))
        ]

    -- The turns of `loop`, as many as it makes until `quit_` is set, where `poll` offers at least
    -- one slot at first, each `epoll_wait` gives no more entries than are offered, and callbacks
    -- and functors return and leave alone what only `poll` writes: they return, and over all of
    -- them `handleEvent` was called for each channel that `epoll_wait` reported, once for each
    -- report and in the order of the reports, turn after turn, with the events that its turn
    -- reported last for it.
    pub turns_lem :
        (waits : List Wait) (m : Machine epoll U)
        → Modest epoll U handle functors
        → KeepsSlots
        → 0 < m.poller.event_slots
        → Fits waits
        → Returns (turns waits (m, [])) λ r. r.0.handled ≡ m.handled ++ r.1
    turns_lem waits m modest keeps room f =
        turns-Told waits m.handled [] m modest keeps room f (sym (append-nil m.handled))
