-- ===== src/Acceptor.antt =====
-- include/Acceptor.h and src/Acceptor.cc: the acceptor's channel in the main loop, and its callback.
-- `Acceptor/Opening.antt` adds the socket. Log lines are left out.
pub mod Listening
pub mod Opening
pub mod Tests
use muduo_learning.Prelude.{
  ℕ, Bool, true, false, if◌then◌else◌, List, [], ◌∷◌, ◌++◌, Outcome, ok, ◌>>=◌,
}
use muduo_learning.Channel
use muduo_learning.Channel.{Channel}
use muduo_learning.Loop.{Loop, enable_reading, disable_all}

-- A result of `accept`: an `errno`, or a descriptor.
pub data AcceptResult : Type 0 where
  failed : ℕ → AcceptResult
  gives : ℕ → AcceptResult

module _ (l : Loop) where
  -- `handed` lists the descriptors that `NewConnectionCallback_` was called with, `closed` those
  -- that were closed at once.
  pub record Acceptor : Type 0 where
    pub channel : Channel
    pub listenning : Bool
    pub has_callback : Bool
    pub loop : l.State
    pub handed : List ℕ
    pub closed : List ℕ

  -- The constructor; `address` is the channel's.
  unfoldable pub init : ℕ → ℕ → l.State → Acceptor
  init address listenfd s = record {
    channel = Channel.init address listenfd;
    listenning = false;
    has_callback = false;
    loop = s;
    handed = [];
    closed = [];
  }

  unfoldable pub set_new_connection_callback : Acceptor → Acceptor
  set_new_connection_callback a = record a { has_callback = true }

  -- A call of the channel's that goes to the loop.
  abbrev pub on_channel :
      (Channel → l.State → Outcome (Channel × l.State)) → Acceptor → Outcome Acceptor
  on_channel f a = f a.channel a.loop >>= λ r. ok (record a { channel = r.0; loop = r.1 })

  unfoldable pub listen : Acceptor → Outcome Acceptor
  listen a = on_channel (enable_reading l) (record a { listenning = true })

  unfoldable pub handle_read : AcceptResult → Acceptor → Acceptor
  handle_read (failed e) a = a
  handle_read (gives connfd) a =
      if a.has_callback
      then record a { handed = a.handed ++ connfd ∷ [] }
      else record a { closed = a.closed ++ connfd ∷ [] }

  -- The destructor.
  unfoldable pub destroy : Acceptor → Outcome Acceptor
  destroy a = do a ← on_channel (disable_all l) a; on_channel l.remove_channel a

  -- `handleRead` on one result of `accept` after another.
  unfoldable pub handle_reads : List AcceptResult → Acceptor → Acceptor
  handle_reads [] a = a
  handle_reads (r ∷ rs) a = handle_reads rs (handle_read r a)
