-- ===== src/Loop.antt =====
-- What a channel and a connection rely on of their loop (`EventLoop::updateChannel` and
-- `EventLoop::removeChannel`): an interface, which `Poller/Registry.antt` fills.
pub mod Beside
use muduo_learning.Prelude.{ℕ, ◌≡◌, ◌≢◌, true, Outcome, Returns}
use muduo_learning.Channel.{
  Channel, new, with_reading, without_reading, with_writing, without_writing, none_event,
}

-- The poller writes a channel's index and nothing else of it.
pub record SameBut (c d : Channel) : Type 0 where
  pub same_address : d.address ≡ c.address
  pub same_fd : d.fd ≡ c.fd
  pub same_events : d.events ≡ c.events
  pub same_revents : d.revents ≡ c.revents
  pub same_tied : d.tied ≡ c.tied

pub record Loop : Type 1 where
  pub State : Type 0
  pub update_channel : Channel → State → Outcome (Channel × State)
  pub remove_channel : Channel → State → Outcome (Channel × State)
  -- The poller's books agree with the channel.
  pub Tracked : Channel → State → Type 0
  -- `tie` does not concern the poller.
  pub tie_tracked : (c : Channel) (s : State) → Tracked c s → Tracked (record c { tied = true }) s
  -- Nor does what `poll` writes to `revents_`.
  pub revents_tracked :
      (c : Channel) (r : ℕ) (s : State) → Tracked c s → Tracked (record c { revents = r }) s
  pub update_tracked :
      (c : Channel) (e : ℕ) (s : State)
      → Tracked c s
      → Returns
          (update_channel (record c { events = e }) s)
          λ r. SameBut (record c { events = e }) r.0 × Tracked r.0 r.1
  pub remove_tracked :
      (c : Channel) (s : State)
      → Tracked c s
      → Returns (remove_channel c s) λ r. SameBut c r.0 × (r.0.index ≡ new) × Tracked r.0 r.1
  -- A change of one channel leaves the channels of other descriptors in agreement.
  pub update_apart :
      (c d : Channel) (e : ℕ) (s : State)
      → Tracked c s
      → d.fd ≢ c.fd
      → Tracked d s
      → Returns (update_channel (record c { events = e }) s) λ r. Tracked d r.1
  pub remove_apart :
      (c d : Channel) (s : State)
      → Tracked c s
      → d.fd ≢ c.fd
      → Tracked d s
      → Returns (remove_channel c s) λ r. Tracked d r.1

module _ (l : Loop) where
  open l use {State, update_channel}

  -- `enableReading()` and the other four: `events_` changes, and `update()` tells the loop.
  unfoldable pub enable_reading : Channel → State → Outcome (Channel × State)
  enable_reading c s = update_channel (record c { events = with_reading c.events }) s

  unfoldable pub disable_reading : Channel → State → Outcome (Channel × State)
  disable_reading c s = update_channel (record c { events = without_reading c.events }) s

  unfoldable pub enable_writing : Channel → State → Outcome (Channel × State)
  enable_writing c s = update_channel (record c { events = with_writing c.events }) s

  unfoldable pub disable_writing : Channel → State → Outcome (Channel × State)
  disable_writing c s = update_channel (record c { events = without_writing c.events }) s

  unfoldable pub disable_all : Channel → State → Outcome (Channel × State)
  disable_all c s = update_channel (record c { events = none_event }) s
