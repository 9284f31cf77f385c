-- ===== src/TcpConnection/Life.antt =====
-- src/TcpConnection.cc: a connection from its constructor on, whatever happens to it in its loop's
-- thread.
use muduo_learning.Prelude.{
  ℕ, ◌+◌, ◌≤◌, ◌≡◌, Bool, List, length, Outcome, ok, Returns, Returns-map, Returns-ok, sym, ◌∙◌,
}
use mathlib.Core.Path.{subst}
use muduo_learning.Buffer.Invariant.{max_size}
use muduo_learning.Channel
use muduo_learning.Channel.{set_revents, is_writing}
use muduo_learning.Loop.{Loop}
use muduo_learning.TcpConnection.{
  connecting, Conn, Sys, Handlers, init, connect_established, connect_destroyed, on_event,
  send_in_loop, shutdown,
}
use muduo_learning.TcpConnection.Invariant.{Documented, Inv}
use muduo_learning.TcpConnection.Lifecycle.{
  HasRoom, Careful, connect_established-Inv, connect_destroyed-Inv,
}
use muduo_learning.TcpConnection.Events.{on_event-Inv}
use muduo_learning.TcpConnection.Sending.{send_in_loop-stream}
use muduo_learning.TcpConnection.Stream.{shutdown-Keeps}
use muduo_learning.TcpConnection.Owned.{init-Inv}

-- What happens to a connection: the server establishes it, the poller reports events at a time, the
-- user sends or shuts it down, and the server destroys it.
pub data Event : Type 0 where
  establishes : Event
  reports : ℕ → ℕ → Event
  sends : List ℕ → Event
  shuts : Bool → Event
  destroys : Event

ok-injective : {A : Type 0} {a b : A} → ok a ≡ ok b → a ≡ b
ok-injective h = cc h

module _ (l : Loop) (sys : Sys) (h : Handlers l) where
  unfoldable pub perform : Event → Conn l → Outcome (Conn l)
  perform establishes w = connect_established l sys h w
  perform (reports revents time) w =
      on_event l sys h time (record w { channel = set_revents revents w.channel })
  perform (sends bytes) w = send_in_loop l sys bytes w
  perform (shuts here) w = ok (shutdown l here w)
  perform destroys w = connect_destroyed l sys h w

  -- A connection is established once, while it is connecting; the buffers have room for what comes.
  abbrev pub Allowed : Event → Conn l → Type 0
  Allowed establishes w = (w.state ≡ connecting) × HasRoom l w
  Allowed (reports revents time) w = HasRoom l w
  Allowed (sends bytes) w = w.output.writer_index + length bytes ≤ max_size
  Allowed (shuts here) w = Unit
  Allowed destroys w = HasRoom l w

  -- The states that a connection comes to.
  pub data Life : Conn l → Type 0 where
    made :
        (address sockfd : ℕ) (s : l.State)
        → l.Tracked (Channel.init address sockfd) s
        → Life (init l address sockfd s)
    lives : (w w' : Conn l) (e : Event) → Life w → Allowed e w → perform e w ≡ ok w' → Life w'

  reported-Inv :
      (r : ℕ) (w : Conn l) → Inv l w → Inv l (record w { channel = set_revents r w.channel })
  unfolding set_revents is_writing
  reported-Inv r w v = record {
    input_valid = v.input_valid;
    output_valid = v.output_valid;
    tracked = l.revents_tracked w.channel r w.loop v.tracked;
    wish = v.wish;
    masked = v.masked;
    pending = v.pending;
  }

  pub perform-Inv :
      (e : Event) (w : Conn l)
      → Documented sys
      → Careful l h
      → Inv l w
      → Allowed e w
      → Returns (perform e w) (Inv l)
  unfolding perform set_revents
  perform-Inv establishes w doc careful v (at, room) =
      Returns-map (connect_established l sys h w) _ (Inv l)
        (connect_established-Inv l sys h w careful v room (λ gone. cc (at, gone))) (λ u g. g.0)
  perform-Inv (reports revents time) w doc careful v room =
      on_event-Inv l sys h time (record w { channel = set_revents revents w.channel }) doc careful
        (reported-Inv revents w v) room
  perform-Inv (sends bytes) w doc careful v room =
      Returns-map (send_in_loop l sys bytes w) _ (Inv l)
        (send_in_loop-stream l sys bytes w doc v room) (λ u g. g.0)
  perform-Inv (shuts here) w doc careful v room = (shutdown-Keeps l here w v).0
  perform-Inv destroys w doc careful v room =
      Returns-map (connect_destroyed l sys h w) _ (Inv l)
        (connect_destroyed-Inv l sys h w careful v room) (λ u g. g.0)

  Life-Inv : {w : Conn l} → Documented sys → Careful l h → Life w → Inv l w
  Life-Inv doc careful (made address sockfd s t) = init-Inv l address sockfd s t
  Life-Inv doc careful (lives w w' e life allowed returns) =
      let (u, is, v) =
        Returns-ok (perform e w) (Inv l)
          (perform-Inv e w doc careful (Life-Inv doc careful life) allowed) in
      subst (Inv l) (ok-injective (sym is ∙ returns)) v

  -- For a system that behaves as documented and callbacks that return and keep the invariant: at
  -- any point of a connection's life, which begins with the constructor in a loop whose books
  -- agree with a new channel, and whatever happens to the connection then, as long as it is
  -- established only while it is connecting and its buffers have room, the code returns and the
  -- invariant holds again.
  pub Life-perform :
      (w : Conn l) (e : Event)
      → Documented sys
      → Careful l h
      → Life w
      → Allowed e w
      → Returns (perform e w) (Inv l)
  Life-perform w e doc careful life allowed =
      perform-Inv e w doc careful (Life-Inv doc careful life) allowed
