-- ===== src/EventLoop/Dispatch.antt =====
-- src/EventLoop.cc: the turns of `loop` in the loop's own thread: `poll`, the events of the active
-- channels, and the pending functors. What a channel's `handleEvent` and the functors do is a parameter.
use muduo_learning.Prelude.{
  ℕ, ◌≡◌, refl, sym, ap, ap₂, ◌∙◌, ◌<◌, ◌≤◌, length, List, [], ◌∷◌, ◌++◌, map, append-nil,
  append_assoc, Outcome, ok, ◌>>=◌, Returns, Returns-bind, Returns-map,
}
use muduo_learning.Poller.{Epoll, Poller}
use muduo_learning.Poller.Poll.{
  WaitResult, Store, poll, events_of, reported, after_report, poll-Polled,
}

-- The calls of a turn, for what `epoll_wait` reports: each channel reported, in order, with the
-- events that were reported last for it.
abbrev pub calls_of : List (ℕ × ℕ) → List (ℕ × ℕ) → Store → List (ℕ × ℕ)
calls_of evs [] s = []
calls_of evs ((e, a) ∷ rest) s =
    (a, (after_report (reported evs a) (s a)).revents) ∷ calls_of evs rest s

module _ (epoll : Epoll) (U : Type 0) where
  -- The loop's poller, the channels, `activeChannels_`, what the callbacks work on, and the calls of
  -- `handleEvent` so far, each with the channel's `revents_`.
  pub record Machine : Type 0 where
    pub poller : Poller epoll
    pub store : Store
    pub active : List ℕ
    pub user : U
    pub handled : List (ℕ × ℕ)

  module _ (handle : ℕ → Machine → Outcome Machine) (functors : Machine → Outcome Machine) where
    -- The loop over `activeChannels_`.
    unfoldable pub handle_all : List ℕ → Machine → Outcome Machine
    handle_all [] m = ok m
    handle_all (a ∷ channels) m =
        handle a (record m { handled = m.handled ++ (a, (m.store a).revents) ∷ [] })
        >>= handle_all channels

    -- `activeChannels_.clear()` and `poll`.
    abbrev pub polled : (ℕ → epoll.Kernel → WaitResult) → Machine → Machine
    polled epoll_wait m =
        let (p, s, active) = poll epoll epoll_wait m.poller m.store [] in
        record m { poller = p; store = s; active = active }

    unfoldable pub turn : (ℕ → epoll.Kernel → WaitResult) → Machine → Outcome Machine
    turn epoll_wait m = let m = polled epoll_wait m in handle_all m.active m >>= functors

    -- What the callbacks leave alone: `revents_`, which only `poll` writes, and the calls so far.
    abbrev pub LeavesEvents : Machine → Machine → Type 0
    LeavesEvents m m' =
        ((a : ℕ) → (m'.store a).revents ≡ (m.store a).revents) × (m'.handled ≡ m.handled)

    pub record Modest : Type 0 where
      pub handle_leaves : (a : ℕ) (m : Machine) → Returns (handle a m) (LeavesEvents m)
      pub functors_leave : (m : Machine) → Returns (functors m) (LeavesEvents m)

    abbrev pub calls_for : List ℕ → Machine → List (ℕ × ℕ)
    calls_for [] m = []
    calls_for (a ∷ channels) m = (a, (m.store a).revents) ∷ calls_for channels m

    abbrev pub Handles : List ℕ → Machine → Machine → Type 0
    Handles channels m m' =
        ((a : ℕ) → (m'.store a).revents ≡ (m.store a).revents)
        × (m'.handled ≡ m.handled ++ calls_for channels m)

    calls_for-leaves :
        (channels : List ℕ) (m m' : Machine)
        → ((a : ℕ) → (m'.store a).revents ≡ (m.store a).revents)
        → calls_for channels m' ≡ calls_for channels m
    calls_for-leaves [] m m' h = refl
    calls_for-leaves (a ∷ channels) m m' h = cc (h a, calls_for-leaves channels m m' h)

    handle_all-Handles :
        (channels : List ℕ) (m : Machine)
        → Modest
        → Returns (handle_all channels m) (Handles channels m)
    unfolding handle_all
    handle_all-Handles [] m modest = (λ a. refl, sym (append-nil m.handled))
    handle_all-Handles (a ∷ channels) m modest =
        let now = record m { handled = m.handled ++ (a, (m.store a).revents) ∷ [] } in
        Returns-bind (handle a now) (handle_all channels) (LeavesEvents now)
          (Handles (a ∷ channels) m) (modest.handle_leaves a now)
          λ u g.
            Returns-map (handle_all channels u) (Handles channels u) (Handles (a ∷ channels) m)
              (handle_all-Handles channels u modest)
              λ v k. (
                λ b. k.0 b ∙ g.0 b,
                k.1
                    ∙ ap (λ t. t ++ calls_for channels u) g.1
                    ∙ ap (λ t. now.handled ++ t) (calls_for-leaves channels m u g.0)
                    ∙ append_assoc m.handled ((a, (m.store a).revents) ∷ []) (calls_for channels m),
              )

    calls_for-map :
        (evs rest : List (ℕ × ℕ)) (s : Store) (m : Machine)
        → ((a : ℕ) → m.store a ≡ after_report (reported evs a) (s a))
        → calls_for (map (λ r. r.1) rest) m ≡ calls_of evs rest s
    calls_for-map evs [] s m h = refl
    calls_for-map evs ((e, a) ∷ rest) s m h =
        ap₂ (λ c t. (a, c.revents) ∷ t) (h a) (calls_for-map evs rest s m h)

    -- One turn of `loop`, where `poll` offers at least one slot, `epoll_wait` gives no more
    -- entries than are offered, and callbacks and functors return and leave alone what only `poll`
    -- writes: the turn returns, and in it `handleEvent` was called for each channel that
    -- `epoll_wait` reported, once for each report and in their order, with the events that were
    -- reported last for the channel.
    pub turn_lem :
        (epoll_wait : ℕ → epoll.Kernel → WaitResult) (m : Machine)
        → Modest
        → 0 < m.poller.event_slots
        → ((n : ℕ) (k : epoll.Kernel) → length (events_of (epoll_wait n k)) ≤ n)
        → let evs = events_of (epoll_wait m.poller.event_slots m.poller.kernel) in
          Returns (turn epoll_wait m) λ m'. m'.handled ≡ m.handled ++ calls_of evs evs m.store
    unfolding turn
    turn_lem epoll_wait m modest room fits =
        let evs = events_of (epoll_wait m.poller.event_slots m.poller.kernel) in
        let now = polled epoll_wait m in
        let told = poll-Polled epoll epoll_wait m.poller m.store [] room fits in
        Returns-bind (handle_all now.active now) functors (Handles now.active now) _
          (handle_all-Handles now.active now modest)
          λ u g. Returns-map (functors u) (LeavesEvents u) _ (modest.functors_leave u) λ v k.
            k.1
            ∙ g.1
            ∙ ap (λ c. m.handled ++ calls_for c now) told.1
            ∙ ap (λ t. m.handled ++ t) (calls_for-map evs evs m.store now told.0)
