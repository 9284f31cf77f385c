-- ===== src/EventLoopThread.antt =====
-- include/EventLoopThread.h and src/EventLoopThread.cc: how `startLoop` gets the loop that the new
-- thread makes. The caller and the thread take turns, one locked block at a time.
pub mod Handshake
pub mod Stopping
pub mod Tests
use muduo_learning.Prelude.{Bool, if◌then◌else◌, Option, none, some, List, [], ◌∷◌, ◌++◌}

-- Where the caller of `startLoop` stands: before it, about to test the predicate of `cond_.wait`,
-- asleep in it, and back with what it returns.
pub data Caller (L : Type 0) : Type 0 where
  outside : Caller L
  tests : Caller L
  sleeps : Caller L
  returns : L → Caller L

-- Where `threadFunc` stands: not started, before the callback, before the publication of the loop,
-- in `loop.loop()`, after it, and at its end.
pub data Child : Type 0 where
  unstarted begun prepared looping left ended : Child

module _ (L : Type 0) where
  -- `own` is the loop on the thread's stack; `called` lists the loops that `callback_` was given.
  pub record EventLoopThread : Type 0 where
    pub own : L
    pub has_callback : Bool
    pub called : List L
    pub published : Option L
    pub caller : Caller L
    pub child : Child

module _ {L : Type 0} where
  -- The constructor; `own` is the loop that the thread will make.
  unfoldable pub init : L → Bool → EventLoopThread L
  init own has_callback = record {
    own = own;
    has_callback = has_callback;
    called = [];
    published = none;
    caller = outside;
    child = unstarted;
  }

  -- `thread_.start()`
  unfoldable pub start : EventLoopThread L → EventLoopThread L
  start t = record t { caller = tests; child = begun }

  -- The predicate of `cond_.wait`, and what follows it.
  abbrev pub after_test : Option L → Caller L
  after_test none = sleeps
  after_test (some l) = returns l

  unfoldable pub test : EventLoopThread L → EventLoopThread L
  test t = record t { caller = after_test t.published }

  unfoldable pub run_callback : EventLoopThread L → EventLoopThread L
  run_callback t = record t {
    called = if t.has_callback then t.called ++ t.own ∷ [] else t.called;
    child = prepared;
  }

  -- `notify_one`
  abbrev pub notify : Caller L → Caller L
  notify sleeps = tests
  notify outside = outside
  notify tests = tests
  notify (returns l) = returns l

  unfoldable pub publish : EventLoopThread L → EventLoopThread L
  publish t = record t { published = some t.own; caller = notify t.caller; child = looping }

  -- `loop.loop()` returns.
  unfoldable pub leave : EventLoopThread L → EventLoopThread L
  leave t = record t { child = left }

  -- `loop_ = nullptr`
  unfoldable pub withdraw : EventLoopThread L → EventLoopThread L
  withdraw t = record t { published = none; child = ended }
