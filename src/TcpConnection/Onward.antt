-- ===== src/TcpConnection/Onward.antt =====
-- Whatever happens to a connection, its state only goes forward.
use muduo_learning.Prelude.{
  ℕ, ◌+◌, ◌≤◌, ◌≡◌, refl, arith, ap, not, ◌&&◌, ltb, ok, Whenever, Whenever-if, Whenever-map,
  Whenever_ok, if◌then◌else◌, bit_or,
}
use muduo_learning.Buffer.Fd.{IoResult, error, count, read_fd}
use muduo_learning.Channel.{
  tie, set_revents, handle_event, handle_event_with_guard, test, epollin, epollpri, epollout,
  epollerr, epollhup,
}
use muduo_learning.Loop.{Loop, enable_reading, disable_all}
use muduo_learning.TcpConnection.{
  State, disconnected, connecting, connected, disconnecting, Conn, Sys, Handlers, call,
  call_message, set_state, on_channel, connect_established, destroy_from, connect_destroyed,
  handle_close, after_read, handle_read, callbacks, on_event, shutdown,
}
use muduo_learning.TcpConnection.Life.{
  Event, establishes, reports, sends, shuts, destroys, perform, Allowed,
}
use muduo_learning.TcpConnection.Forward.{
  rank, Forward, OnlyForward, then-Forward, on_channel_state, shutdown_from-Forward,
  handle_close-Forward, send_in_loop-Forward, handle_write-Forward,
}

module _ (l : Loop) (sys : Sys) (h : Handlers l) where
  after_read-Forward :
      (time : ℕ) (r : IoResult) (w : Conn l)
      → OnlyForward l h
      → Whenever (after_read l sys h time r w) (Forward l w)
  unfolding after_read
  after_read-Forward time (error e) w f = omega arith
  after_read-Forward time (count n) w f =
      Whenever-if (ltb 0 n) (call_message l h time w) (handle_close l sys h w) (Forward l w)
        (f.message_forward time w) (handle_close-Forward l sys h w f)

  handle_read-Forward :
      (time : ℕ) (w : Conn l)
      → OnlyForward l h
      → Whenever (handle_read l sys h time w) (Forward l w)
  unfolding handle_read
  handle_read-Forward time w f =
      let (b, r) = read_fd (sys.readv w.calls) w.input in
      after_read-Forward time r (record w { input = b; calls = w.calls + 1 }) f

  on_event-Forward :
      (time : ℕ) (w : Conn l) → OnlyForward l h → Whenever (on_event l sys h time w) (Forward l w)
  unfolding on_event handle_event handle_event_with_guard callbacks
  on_event-Forward time w f =
      let r = w.channel.revents in
      let guarded : (u : Conn l)
          → Whenever (handle_event_with_guard (callbacks l sys h time) r u) (Forward l u) =
        λ u.
          then-Forward l
            (if test r epollhup && not (test r epollin) then handle_close l sys h u else ok u) _
            (rank u.state)
            (Whenever-if (test r epollhup && not (test r epollin)) _ _ _
              (handle_close-Forward l sys h u f) (omega arith))
            λ u1.
              then-Forward l (if test r epollerr then ok u1 else ok u1) _ (rank u1.state)
                (Whenever-if (test r epollerr) (ok u1) (ok u1) _ (omega arith) (omega arith))
                λ u2.
                  then-Forward l
                    (if test r (bit_or epollin epollpri)
                      then handle_read l sys h time u2
                      else ok u2)
                    _ (rank u2.state)
                    (Whenever-if (test r (bit_or epollin epollpri)) _ _ _
                      (handle_read-Forward time u2 f) (omega arith))
                    λ u3.
                      Whenever-if (test r epollout) _ _ (Forward l u3)
                        (handle_write-Forward l sys h u3) (omega arith) in
      Whenever-if w.channel.tied _ _ (Forward l w) (guarded w) (guarded w)

  destroy_from-Forward :
      (st : State) (w : Conn l)
      → w.state ≡ st
      → OnlyForward l h
      → Whenever (destroy_from l sys h st w) (Forward l w)
  destroy_from-Forward connected w e f =
      then-Forward l (on_channel l (disable_all l) (set_state l disconnected w)) (call h.connection)
        (rank w.state)
        (Whenever-map (on_channel l (disable_all l) (set_state l disconnected w)) _ _
          (on_channel_state l (disable_all l) (set_state l disconnected w))
          λ u a. omega (arith, ap rank e))
        f.connection_forward
  destroy_from-Forward disconnected w e f = omega arith
  destroy_from-Forward connecting w e f = omega arith
  destroy_from-Forward disconnecting w e f = omega arith

  connect_destroyed-Forward :
      (w : Conn l) → OnlyForward l h → Whenever (connect_destroyed l sys h w) (Forward l w)
  unfolding connect_destroyed
  connect_destroyed-Forward w f =
      then-Forward l (destroy_from l sys h w.state w) (on_channel l l.remove_channel) (rank w.state)
        (destroy_from-Forward w.state w refl f) (on_channel_state l l.remove_channel)

  connect_established-Forward :
      (w : Conn l)
      → w.state ≡ connecting
      → OnlyForward l h
      → Whenever (connect_established l sys h w) (λ u. 1 ≤ rank u.state)
  unfolding connect_established
  connect_established-Forward w e f =
      let w' = record w { state = connected; channel = tie w.channel } in
      then-Forward l (on_channel l (enable_reading l) w') (call h.connection) 1
        (on_channel_state l (enable_reading l) w') f.connection_forward

  -- What may happen to a connection between two moments.
  pub data Onward : Conn l → Conn l → Type 0 where
    still : (w : Conn l) → Onward w w
    happens :
        {w u v : Conn l} (e : Event)
        → Onward w u
        → Allowed l sys h e u
        → perform l sys h e u ≡ ok v
        → Onward w v

  perform-Forward :
      (e : Event) (w : Conn l)
      → OnlyForward l h
      → Allowed l sys h e w
      → Whenever (perform l sys h e w) (Forward l w)
  unfolding perform shutdown set_revents
  perform-Forward establishes w f (at, room) =
      Whenever-map (connect_established l sys h w) _ _ (connect_established-Forward w at f)
        λ u a. omega (arith, ap rank at)
  perform-Forward (reports revents time) w f room =
      on_event-Forward time (record w { channel = set_revents revents w.channel }) f
  perform-Forward (sends bytes) w f room = send_in_loop-Forward l sys h bytes w
  perform-Forward (shuts here) w f room = shutdown_from-Forward l w.state here w refl
  perform-Forward destroys w f room = connect_destroyed-Forward w f

  -- Between any two moments in a connection's life, in which it is established at most once and
  -- only while it is kConnecting, with callbacks that leave its state or take it forward: the
  -- state has stayed or gone forward, in the order kConnecting, kConnected, kDisconnecting,
  -- kDisconnected.
  pub Onward-Forward : {w v : Conn l} → OnlyForward l h → Onward w v → rank w.state ≤ rank v.state
  Onward-Forward f (still w) = omega arith
  Onward-Forward {w} {v} f (happens {u = u} e r allowed returns) = omega (
    arith,
    Onward-Forward f r,
    Whenever_ok (perform l sys h e u) (Forward l u) (perform-Forward e u f allowed) returns,
  )
