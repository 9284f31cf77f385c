-- ===== src/Poller/Poll.antt =====
-- `EPollPoller::poll` and `fillActiveChannels`. `epoll_wait` and the clock are parameters; channels
-- live in a store by address, since the kernel hands out `Channel*`.
use muduo_learning.Prelude.{
  ℕ, ◌≡◌, ◌≤◌, ◌<◌, ◌*◌, ◌∙◌, refl, arith, ◌==◌, if◌then◌else◌, ltb, Option, none, some, List, [],
  ◌∷◌, ◌++◌, map, length, append_assoc, append-nil, sym,
}
use muduo_learning.Channel.{Channel, set_revents}
use muduo_learning.Poller.{Epoll, Poller, update_at}

-- A result of `epoll_wait`: an `errno`, or the ready entries, events and pointer.
pub data WaitResult : Type 0 where
  failed : ℕ → WaitResult
  ready : List (ℕ × ℕ) → WaitResult

abbrev pub Store : Type 0
Store = ℕ → Channel

unfoldable pub fill_active_channels : List (ℕ × ℕ) → Store → List ℕ → Store × List ℕ
fill_active_channels [] s active = (s, active)
fill_active_channels ((e, a) ∷ evs) s active =
    fill_active_channels evs (update_at s a (set_revents e (s a))) (active ++ a ∷ [])

module _ (epoll : Epoll) where
  open epoll use {Kernel}

  -- The branches of `poll` on `numEvents`; an error is only logged.
  unfoldable pub after_wait :
      WaitResult → Poller epoll → Store → List ℕ → Poller epoll × Store × List ℕ
  after_wait (failed e) p s active = (p, s, active)
  after_wait (ready evs) p s active =
      if ltb 0 (length evs)
      then (let (s', active') = fill_active_channels evs s active in
          (
            (if length evs == p.event_slots
                then record p { event_slots = p.event_slots * 2 }
                else p),
            s',
            active',
          ))
      else (p, s, active)

  unfoldable pub poll :
      (ℕ → Kernel → WaitResult) → Poller epoll → Store → List ℕ → Poller epoll × Store × List ℕ
  poll epoll_wait p s active = after_wait (epoll_wait p.event_slots p.kernel) p s active

-- The mask that the last entry for a pointer reports.
abbrev pub reported : List (ℕ × ℕ) → ℕ → Option ℕ
reported [] a = none
reported ((e, p) ∷ evs) a = elim (reported evs a) [
  | some e' ↦ some e'
  | none ↦ if p == a then some e else none
]

abbrev pub after_report : Option ℕ → Channel → Channel
after_report none c = c
after_report (some e) c = set_revents e c

-- `fillActiveChannels` appends the reported pointers in order; a channel's `revents_` is what the
-- kernel reported for it, and a channel that was not reported is as it was.
pub fill_active_channels_lem :
    (evs : List (ℕ × ℕ)) (s : Store) (active : List ℕ)
    → ((a : ℕ) → (fill_active_channels evs s active).0 a ≡ after_report (reported evs a) (s a))
      × ((fill_active_channels evs s active).1 ≡ active ++ map (λ r. r.1) evs)
unfolding fill_active_channels set_revents
fill_active_channels_lem [] s active = (λ a. refl, sym (append-nil active))
fill_active_channels_lem ((e, p) ∷ evs) s active =
    let (store, list) =
      fill_active_channels_lem evs (update_at s p (set_revents e (s p))) (active ++ p ∷ []) in
    (λ a. ground (arith, store a), list ∙ append_assoc active (p ∷ []) (map (λ r. r.1) evs))

-- What `epoll_wait` reported.
abbrev pub events_of : WaitResult → List (ℕ × ℕ)
events_of (failed e) = []
events_of (ready evs) = evs

module _ (epoll : Epoll) where
  -- The active list grows by the pointers reported, the channels get their `revents_`, the
  -- registrations are as they were, and the next call has room for more entries than this one gave.
  abbrev pub Polled :
      List (ℕ × ℕ) → Poller epoll → Store → List ℕ → Poller epoll × Store × List ℕ → Type 0
  Polled evs p s active (q, s', active') =
      ((a : ℕ) → s' a ≡ after_report (reported evs a) (s a))
      × (active' ≡ active ++ map (λ r. r.1) evs)
      × (q.channels ≡ p.channels)
      × (q.kernel ≡ p.kernel)
      × (length evs < q.event_slots)
      × (p.event_slots ≤ q.event_slots)

  after_wait-Polled :
      (w : WaitResult) (p : Poller epoll) (s : Store) (active : List ℕ)
      → 0 < p.event_slots
      → length (events_of w) ≤ p.event_slots
      → Polled (events_of w) p s active (after_wait epoll w p s active)
  unfolding after_wait
  after_wait-Polled (failed e) p s active pos h =
      (λ a. refl, sym (append-nil active), refl, refl, pos, omega arith)
  after_wait-Polled (ready []) p s active pos h =
      (λ a. refl, sym (append-nil active), refl, refl, pos, omega arith)
  after_wait-Polled (ready (r ∷ evs)) p s active pos h =
      let (store, list) = fill_active_channels_lem (r ∷ evs) s active in
      (
        λ a. ground (arith, store a),
        ground (arith, list),
        ground arith,
        ground arith,
        ground arith,
        ground arith,
      )

  -- `poll`, when it offers at least one slot and `epoll_wait` gives no more entries than the slots
  -- offered, an error included: the active list grows by the pointers reported, in order; the
  -- channels get their `revents_`; the registrations are as they were; and the next call offers
  -- room for more entries than this one gave, and for no fewer than before.
  pub poll-Polled :
      (epoll_wait : ℕ → epoll.Kernel → WaitResult) (p : Poller epoll) (s : Store) (active : List ℕ)
      → 0 < p.event_slots
      → ((n : ℕ) (k : epoll.Kernel) → length (events_of (epoll_wait n k)) ≤ n)
      → Polled
          (events_of (epoll_wait p.event_slots p.kernel))
          p
          s
          active
          (poll epoll epoll_wait p s active)
  unfolding poll
  poll-Polled epoll_wait p s active pos fits =
      after_wait-Polled (epoll_wait p.event_slots p.kernel) p s active pos
        (fits p.event_slots p.kernel)
