-- ===== src/TcpConnection/Handle.antt =====
-- src/TcpConnection.cc: the handlers of the channel's events, and a connection's beginning and end.
use muduo_learning.Prelude.{
  ℕ, ◌+◌, true, ◌==◌, ltb, if◌then◌else◌, Option, none, some, ◌++◌, take, Outcome, ok, fatal, ◌>>=◌,
}
use muduo_learning.Buffer
use muduo_learning.Buffer.{Buffer, readable_bytes, retrieve, append, initial_size, add_size}
use muduo_learning.Buffer.Fd.{IoResult, error, count, read_fd, write_fd}
use muduo_learning.Channel.{
  Callbacks, no_callbacks, set_read_callback, set_write_callback, set_close_callback,
  set_error_callback, is_writing, tie, handle_event,
}
use muduo_learning.Loop.{Loop, enable_reading, disable_writing, disable_all}
use muduo_learning.TcpConnection.Base.{
  State, disconnected, connecting, connected, disconnecting, write_completes, Sys, Conn, set_state,
  queue_if, on_channel, shutdown_in_loop,
}

module _ (l : Loop) (sys : Sys) where
  -- `handleWrite`, once the output buffer was offered to the socket and `n` bytes were taken.
  abbrev pub shutdown_if_disconnecting : State → Conn l → Conn l
  shutdown_if_disconnecting disconnecting w = shutdown_in_loop l w
  shutdown_if_disconnecting connected w = w
  shutdown_if_disconnecting disconnected w = w
  shutdown_if_disconnecting connecting w = w

  unfoldable pub after_drain : Conn l → Outcome (Conn l)
  after_drain w = do
    w ← on_channel l (disable_writing l) w
    ok (shutdown_if_disconnecting w.state (queue_if l w.has_write_complete write_completes w))

  unfoldable pub after_write_fd : IoResult → Conn l → Outcome (Conn l)
  after_write_fd (error e) w = ok (record w { calls = w.calls + 1 })
  after_write_fd (count n) w =
      if ltb 0 n
      then (let w' = record w {
        sent = w.sent ++ take n (Buffer.peek w.output (readable_bytes w.output));
        output = retrieve n w.output;
        calls = w.calls + 1;
      } in
          if readable_bytes w'.output == 0 then after_drain w' else ok w')
      else ok (record w { calls = w.calls + 1 })

  unfoldable pub handle_write : Conn l → Outcome (Conn l)
  handle_write w =
      if is_writing w.channel
      then after_write_fd (write_fd (sys.write w.calls) w.output) w
      else ok w

-- The user's callbacks and the server's close callback. One that was not set is `none`: none of
-- these calls is guarded, and calling an empty `std::function` throws.
pub record HandlersOf (C : Type 0) : Type 0 where
  pub connection : Option (C → Outcome C)
  pub message : Option (ℕ → C → Outcome C)
  pub close : Option (C → Outcome C)

abbrev pub Handlers : Loop → Type 0
Handlers l = HandlersOf (Conn l)

abbrev pub call {ℓ} : {A : Type ℓ} → Option (A → Outcome A) → A → Outcome A
call none a = fatal
call (some f) a = f a

abbrev pub call_message : (l : Loop) → Handlers l → ℕ → Conn l → Outcome (Conn l)
call_message l h time w = elim h.message [ none ↦ fatal | some f ↦ f time w ]

module _ (l : Loop) (sys : Sys) (h : Handlers l) where
  unfoldable pub connect_established : Conn l → Outcome (Conn l)
  connect_established w = do
    let w = set_state l connected w
    let w = record w { channel = tie w.channel }
    w ← on_channel l (enable_reading l) w
    call h.connection w

  abbrev pub destroy_from : State → Conn l → Outcome (Conn l)
  destroy_from connected w = do
    w ← on_channel l (disable_all l) (set_state l disconnected w)
    call h.connection w
  destroy_from disconnected w = ok w
  destroy_from connecting w = ok w
  destroy_from disconnecting w = ok w

  unfoldable pub connect_destroyed : Conn l → Outcome (Conn l)
  connect_destroyed w = do w ← destroy_from w.state w; on_channel l l.remove_channel w

  unfoldable pub handle_close : Conn l → Outcome (Conn l)
  handle_close w = do
    w ← on_channel l (disable_all l) (set_state l disconnected w)
    w ← call h.connection w
    call h.close w

  -- The branches of `handleRead`; on an error `handleError` only logs.
  unfoldable pub after_read : ℕ → IoResult → Conn l → Outcome (Conn l)
  after_read time (error e) w = ok w
  after_read time (count n) w = if ltb 0 n then call_message l h time w else handle_close w

  unfoldable pub handle_read : ℕ → Conn l → Outcome (Conn l)
  handle_read time w =
      let (b, r) = read_fd (sys.readv w.calls) w.input in
      after_read time r (record w { input = b; calls = w.calls + 1 })

  -- The callbacks that the constructor gives to the channel; `handleError` only logs.
  unfoldable pub callbacks : ℕ → Callbacks (Conn l)
  callbacks time = set_error_callback ok (
      set_close_callback handle_close (
        set_write_callback (handle_write l sys)
          (set_read_callback (handle_read time) no_callbacks)))

  -- The loop calls the channel's `handleEvent`; the tie holds, since the connection is alive.
  unfoldable pub on_event : ℕ → Conn l → Outcome (Conn l)
  on_event time w = handle_event (callbacks time) w.channel true w
