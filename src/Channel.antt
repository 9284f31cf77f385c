-- ===== src/Channel.antt =====
-- include/Channel.h and src/Channel.cc: a descriptor, the events that it waits for, and the
-- dispatch of the events that came. `events_` and `revents_` are 32-bit patterns.
pub mod Masks
pub mod Dispatch
pub mod Tests
use muduo_learning.Prelude.{
  ℕ, ◌-◌, ◌^◌, Bool, true, false, not, ◌&&◌, ◌==◌, if◌then◌else◌, bit_and, bit_or, Option, none,
  some, Outcome, ok, fatal, ◌>>=◌,
}

-- `index_`: what the poller knows of the channel (kNew = -1, kAdded = 1, kDeleted = 2).
pub data Index : Type 0 where
  new added deleted : Index

-- `address` is the object's identity, the value of a `Channel*`.
pub record Channel : Type 0 where
  pub address : ℕ
  pub fd : ℕ
  pub events : ℕ
  pub revents : ℕ
  pub index : Index
  pub tied : Bool

abbrev pub epollin : ℕ
epollin = 1

abbrev pub epollpri : ℕ
epollpri = 2

abbrev pub epollout : ℕ
epollout = 4

abbrev pub epollerr : ℕ
epollerr = 8

abbrev pub epollhup : ℕ
epollhup = 16

abbrev pub none_event : ℕ
none_event = 0

abbrev pub read_event : ℕ
read_event = bit_or epollin epollpri

abbrev pub write_event : ℕ
write_event = epollout

-- `~mask` at 32 bits.
abbrev pub complement : ℕ → ℕ
complement mask = 2 ^ 32 - 1 - mask

-- A bit pattern as a condition.
abbrev pub test : ℕ → ℕ → Bool
test bits mask = not (bit_and bits mask == 0)

unfoldable pub init : ℕ → ℕ → Channel
init address fd = record {
  address = address;
  fd = fd;
  events = 0;
  revents = 0;
  index = new;
  tied = false;
}

unfoldable pub tie : Channel → Channel
tie c = record c { tied = true }

unfoldable pub set_revents : ℕ → Channel → Channel
set_revents r c = record c { revents = r }

unfoldable pub set_index : Index → Channel → Channel
set_index i c = record c { index = i }

unfoldable pub is_none_event : Channel → Bool
is_none_event c = c.events == none_event

unfoldable pub is_writing : Channel → Bool
is_writing c = test c.events write_event

unfoldable pub is_reading : Channel → Bool
is_reading c = test c.events read_event

-- The new value of `events_` in each of the five operations that then call `update()`.
unfoldable pub with_reading : ℕ → ℕ
with_reading e = bit_or e read_event

unfoldable pub without_reading : ℕ → ℕ
without_reading e = bit_and e (complement read_event)

unfoldable pub with_writing : ℕ → ℕ
with_writing e = bit_or e write_event

unfoldable pub without_writing : ℕ → ℕ
without_writing e = bit_and e (complement write_event)

-- The four callbacks; one that was not set is `none`.
pub record Callbacks (S : Type 0) : Type 0 where
  pub read : Option (S → Outcome S)
  pub write : Option (S → Outcome S)
  pub close : Option (S → Outcome S)
  pub error : Option (S → Outcome S)

module _ {S : Type 0} where
  -- The callbacks of a new channel, and the four setters.
  abbrev pub no_callbacks : Callbacks S
  no_callbacks = record { read = none; write = none; close = none; error = none }

  abbrev pub set_read_callback : (S → Outcome S) → Callbacks S → Callbacks S
  set_read_callback f cbs = record cbs { read = some f }

  abbrev pub set_write_callback : (S → Outcome S) → Callbacks S → Callbacks S
  set_write_callback f cbs = record cbs { write = some f }

  abbrev pub set_close_callback : (S → Outcome S) → Callbacks S → Callbacks S
  set_close_callback f cbs = record cbs { close = some f }

  abbrev pub set_error_callback : (S → Outcome S) → Callbacks S → Callbacks S
  set_error_callback f cbs = record cbs { error = some f }

  -- `if (callback_) { callback_(); }`
  abbrev pub invoke : Option (S → Outcome S) → S → Outcome S
  invoke none s = ok s
  invoke (some f) s = f s

  unfoldable pub handle_event_with_guard : Callbacks S → ℕ → S → Outcome S
  handle_event_with_guard cbs revents s = do
    s ← if test revents epollhup && not (test revents epollin) then invoke cbs.close s else ok s
    s ← if test revents epollerr then invoke cbs.error s else ok s
    s ← if test revents (bit_or epollin epollpri) then invoke cbs.read s else ok s
    if test revents epollout then invoke cbs.write s else ok s

  -- `alive`: whether `tie_.lock()` gives the owner.
  unfoldable pub handle_event : Callbacks S → Channel → Bool → S → Outcome S
  handle_event cbs c alive s =
      if c.tied
      then (if alive then handle_event_with_guard cbs c.revents s else ok s)
      else handle_event_with_guard cbs c.revents s
