-- ===== src/Poller.antt =====
-- include/Poller.h, src/Poller.cc and src/EPollPoller.cc: which channels the loop watches.
-- The kernel's epoll instance is a parameter, with the documented behaviour of `epoll_ctl`.
pub mod Registry
pub mod Poll
pub mod Tests
use muduo_learning.Prelude.{
  ℕ, ◌≡◌, ◌≢◌, arith, ◌+◌, ◌*◌, ◌≤◌, Bool, ◌||◌, ◌==◌, if◌then◌else◌, Option, none, some, List, [],
  ◌∷◌, Outcome, ok, fatal, length,
}
use muduo_learning.Channel.{
  Channel, Index, new, added, deleted, set_index, set_revents, is_none_event,
}

-- EPOLL_CTL_ADD, EPOLL_CTL_MOD and EPOLL_CTL_DEL.
pub data Operation : Type 0 where
  ctl_add ctl_mod ctl_del : Operation

-- A map whose keys are descriptors, changed at one key.
abbrev pub update_at {ℓ} : {A : Type ℓ} → (ℕ → A) → ℕ → A → ℕ → A
update_at f k v j = if j == k then v else f j

pub update_at_self {ℓ} : {A : Type ℓ} (f : ℕ → A) (k : ℕ) (v : A) → update_at f k v k ≡ v
update_at_self f k v = ground arith

pub update_at_ne {ℓ} :
    {A : Type ℓ} (f : ℕ → A) (k : ℕ) (v : A) (j : ℕ) → j ≢ k → update_at f k v j ≡ f j
update_at_ne f k v j ne = ground arith

pub record Epoll : Type 1 where
  pub Kernel : Type 0
  -- `epoll_ctl(op, fd, {events, ptr})`; `none` is -1.
  pub epoll_ctl : Operation → ℕ → ℕ → ℕ → Kernel → Option Kernel
  -- The interest list: the events and the pointer registered for a descriptor.
  pub registered : Kernel → ℕ → Option (ℕ × ℕ)
  -- ADD succeeds on a descriptor that is not registered; MOD and DEL on one that is.
  pub add_lem :
      (k : Kernel) (fd e p : ℕ)
      → registered k fd ≡ none
      → (k' : Kernel) × (epoll_ctl ctl_add fd e p k ≡ some k')
        × ((g : ℕ) → registered k' g ≡ update_at (registered k) fd (some (e, p)) g)
  pub mod_lem :
      (k : Kernel) (fd e p : ℕ) (old : ℕ × ℕ)
      → registered k fd ≡ some old
      → (k' : Kernel) × (epoll_ctl ctl_mod fd e p k ≡ some k')
        × ((g : ℕ) → registered k' g ≡ update_at (registered k) fd (some (e, p)) g)
  pub del_lem :
      (k : Kernel) (fd e p : ℕ) (old : ℕ × ℕ)
      → registered k fd ≡ some old
      → (k' : Kernel) × (epoll_ctl ctl_del fd e p k ≡ some k')
        × ((g : ℕ) → registered k' g ≡ update_at (registered k) fd none g)

module _ (epoll : Epoll) where
  open epoll use {Kernel, epoll_ctl}

  -- `channels_` maps a descriptor to a channel's address; `event_slots` is the size of `events_`.
  pub record Poller : Type 0 where
    pub channels : ℕ → Option ℕ
    pub event_slots : ℕ
    pub kernel : Kernel

  abbrev pub init_event_list_size : ℕ
  init_event_list_size = 16

  -- The members that the constructor sets.
  unfoldable pub init : Kernel → Poller
  init k = record { channels = λ _. none; event_slots = init_event_list_size; kernel = k }

  -- The constructor, where `epoll_create1` gives an instance, or -1.
  unfoldable pub construct_poller : Option Kernel → Outcome Poller
  construct_poller none = fatal
  construct_poller (some k) = ok (init k)

  -- A failing DEL is only logged, a failing ADD or MOD ends the process.
  abbrev pub on_ctl_error : Operation → Poller → Outcome Poller
  on_ctl_error ctl_del p = ok p
  on_ctl_error ctl_add p = fatal
  on_ctl_error ctl_mod p = fatal

  unfoldable pub update : Operation → Channel → Poller → Outcome Poller
  update op c p = elim (epoll_ctl op c.fd c.events c.address p.kernel) [
    | some k ↦ ok (record p { kernel = k })
    | none ↦ on_ctl_error op p
  ]

  abbrev pub with_channel : Channel → Outcome Poller → Outcome (Channel × Poller)
  with_channel c (ok p) = ok (c, p)
  with_channel c fatal = fatal

  -- The branches of `updateChannel`, by the channel's index.
  unfoldable pub update_by_index : Index → Channel → Poller → Outcome (Channel × Poller)
  update_by_index new c p =
      let c' = set_index added c in
      with_channel c'
        (update ctl_add c' (record p { channels = update_at p.channels c.fd (some c.address) }))
  update_by_index deleted c p = let c' = set_index added c in with_channel c' (update ctl_add c' p)
  update_by_index added c p =
      if is_none_event c
      then with_channel (set_index deleted c) (update ctl_del c p)
      else with_channel c (update ctl_mod c p)

  unfoldable pub update_channel : Channel → Poller → Outcome (Channel × Poller)
  update_channel c p = update_by_index c.index c p

  -- `removeChannel` deregisters a channel whose index is kAdded.
  abbrev pub deregister : Index → Channel → Poller → Outcome Poller
  deregister added c p = update ctl_del c p
  deregister new c p = ok p
  deregister deleted c p = ok p

  unfoldable pub remove_channel : Channel → Poller → Outcome (Channel × Poller)
  remove_channel c p =
      with_channel (set_index new c)
        (deregister c.index c (record p { channels = update_at p.channels c.fd none }))

  unfoldable pub has_channel : Channel → Poller → Bool
  has_channel c p = elim (p.channels c.fd) [ none ↦ Bool.false | some a ↦ a == c.address ]
