-- ===== src/TcpConnection/Forward.antt =====
-- The states of a connection only go forward: kConnecting, kConnected, kDisconnecting, kDisconnected.
use muduo_learning.Prelude.{
  ℕ, ◌+◌, ◌≤◌, ◌≡◌, refl, arith, ap, not, ◌&&◌, ltb, ◌==◌, Bool, Bool-cases, inl, inr, List, ◌++◌,
  take, length, Outcome, ok, ◌>>=◌, Whenever, Whenever-bind, Whenever-if, Whenever-map,
  Whenever_any,
}
use muduo_learning.Buffer.Fd.{IoResult, error, count, write_fd}
use muduo_learning.Buffer.{readable_bytes, retrieve, peek}
use muduo_learning.Channel.{Channel, is_writing}
use muduo_learning.Loop.{Loop, enable_writing, disable_writing, disable_all}
use muduo_learning.TcpConnection.{
  State, disconnected, connecting, connected, disconnecting, Conn, Sys, Handlers, call,
  call_message, set_state, after_write, write_directly, keep_rest, buffer_rest,
  shutdown_if_disconnecting, after_drain, after_write_fd, queue_if, write_completes, on_channel,
  handle_close, handle_write, send_in_loop, shutdown_from, shutdown_in_loop,
}

abbrev pub rank : State → ℕ
rank connecting = 0
rank connected = 1
rank disconnecting = 2
rank disconnected = 3

module _ (l : Loop) where
  abbrev pub Forward : Conn l → Conn l → Type 0
  Forward w w' = rank w.state ≤ rank w'.state

  -- The user's callbacks, too, leave the state or take it forward.
  pub record OnlyForward (h : Handlers l) : Type 0 where
    pub connection_forward : (w : Conn l) → Whenever (call h.connection w) (Forward w)
    pub close_forward : (w : Conn l) → Whenever (call h.close w) (Forward w)
    pub message_forward : (time : ℕ) (w : Conn l) → Whenever (call_message l h time w) (Forward w)

  rank_last : (s : State) → rank s ≤ 3
  rank_last connecting = omega arith
  rank_last connected = omega arith
  rank_last disconnecting = omega arith
  rank_last disconnected = omega arith

  -- Two steps, of which the first leaves the state at least at `n`.
  pub then-Forward :
      (m : Outcome (Conn l)) (f : Conn l → Outcome (Conn l)) (n : ℕ)
      → Whenever m (λ u. n ≤ rank u.state)
      → ((u : Conn l) → Whenever (f u) (Forward u))
      → Whenever (m >>= f) (λ v. n ≤ rank v.state)
  then-Forward m f n h k =
      Whenever-bind m f (λ u. n ≤ rank u.state) (λ v. n ≤ rank v.state) h
        λ u a. Whenever-map (f u) (Forward u) (λ v. n ≤ rank v.state) (k u) λ v b. omega arith

  pub on_channel_state :
      (f : Channel → l.State → Outcome (Channel × l.State)) (w : Conn l)
      → Whenever (on_channel l f w) (λ u. rank w.state ≤ rank u.state)
  on_channel_state f w =
      Whenever-bind (f w.channel w.loop) _ (λ r. Unit) _ (Whenever_any (f w.channel w.loop))
        λ r a. omega arith

  shutdown_in_loop-Forward : (w : Conn l) → Forward w (shutdown_in_loop l w)
  unfolding shutdown_in_loop
  shutdown_in_loop-Forward w = elim (Bool-cases (is_writing w.channel)) [
    | inl on ↦ rw on (omega arith)
    | inr off ↦ rw off (omega arith)
  ]

  pub shutdown_from-Forward :
      (st : State) (here : Bool) (w : Conn l) → w.state ≡ st → Forward w (shutdown_from l st here w)
  shutdown_from-Forward connected here w e = elim (Bool-cases here) [
    | inl yes_here ↦
        rw yes_here
          (omega (arith, ap rank e, shutdown_in_loop-Forward (set_state l disconnecting w)))
    | inr elsewhere ↦ rw elsewhere (omega (arith, ap rank e))
  ]
  shutdown_from-Forward disconnected here w e = omega arith
  shutdown_from-Forward connecting here w e = omega arith
  shutdown_from-Forward disconnecting here w e = omega arith

module _ (l : Loop) (sys : Sys) (h : Handlers l) where
  pub handle_close-Forward :
      (w : Conn l) → OnlyForward l h → Whenever (handle_close l sys h w) (Forward l w)
  unfolding handle_close
  handle_close-Forward w f =
      Whenever-map (handle_close l sys h w) (λ u. 3 ≤ rank u.state) (Forward l w)
        (then-Forward l (on_channel l (disable_all l) (set_state l disconnected w)) _ 3
          (on_channel_state l (disable_all l) (set_state l disconnected w))
          λ u.
            then-Forward l (call h.connection u) (call h.close) (rank u.state)
              (f.connection_forward u) f.close_forward)
        λ u a. omega (arith, rank_last l w.state)

  -- Sending leaves the state alone.
  after_write-state :
      (r : IoResult) (bytes : List ℕ) (w : Conn l) → (after_write l sys r bytes w).0.state ≡ w.state
  unfolding after_write
  after_write-state (error e) bytes w = refl
  after_write-state (count n) bytes w = refl

  write_directly-state :
      (bytes : List ℕ) (w : Conn l) → (write_directly l sys bytes w).0.state ≡ w.state
  unfolding write_directly
  write_directly-state bytes w =
      elim (Bool-cases (not (is_writing w.channel) && readable_bytes w.output == 0)) [
        | inl direct ↦ rw direct (after_write-state (sys.write w.calls bytes) bytes w)
        | inr waits ↦ rw waits refl
      ]

  buffer_rest-Forward :
      (rest : List ℕ) (fault : Bool) (w : Conn l)
      → Whenever (buffer_rest l sys (w, rest, fault)) (Forward l w)
  unfolding buffer_rest keep_rest
  buffer_rest-Forward rest fault w =
      let kept = keep_rest l sys rest w in
      Whenever-if (not fault && ltb 0 (length rest)) _ _ (Forward l w)
        (Whenever-if (not (is_writing kept.channel)) (on_channel l (enable_writing l) kept)
          (ok kept) (Forward l w) (on_channel_state l (enable_writing l) kept) (omega arith))
        (omega arith)

  pub send_in_loop-Forward :
      (bytes : List ℕ) (w : Conn l) → Whenever (send_in_loop l sys bytes w) (Forward l w)
  unfolding send_in_loop
  send_in_loop-Forward bytes w =
      let p = write_directly l sys bytes w in
      Whenever-map (buffer_rest l sys p) (Forward l p.0) (Forward l w)
        (buffer_rest-Forward p.1 p.2 p.0)
        λ u a. omega (arith, ap rank (write_directly-state bytes w))

  shutdown_if_disconnecting-Forward :
      (st : State) (w : Conn l) → Forward l w (shutdown_if_disconnecting l sys st w)
  shutdown_if_disconnecting-Forward disconnecting w = shutdown_in_loop-Forward l w
  shutdown_if_disconnecting-Forward connected w = omega arith
  shutdown_if_disconnecting-Forward disconnected w = omega arith
  shutdown_if_disconnecting-Forward connecting w = omega arith

  after_drain-Forward : (w : Conn l) → Whenever (after_drain l sys w) (Forward l w)
  unfolding after_drain
  after_drain-Forward w =
      then-Forward l (on_channel l (disable_writing l) w) _ (rank w.state)
        (on_channel_state l (disable_writing l) w)
        λ u.
          shutdown_if_disconnecting-Forward u.state
            (queue_if l u.has_write_complete write_completes u)

  after_write_fd-Forward :
      (r : IoResult) (w : Conn l) → Whenever (after_write_fd l sys r w) (Forward l w)
  unfolding after_write_fd
  after_write_fd-Forward (error e) w = omega arith
  after_write_fd-Forward (count n) w =
      let w' = record w {
        sent = w.sent ++ take n (peek w.output (readable_bytes w.output));
        output = retrieve n w.output;
        calls = w.calls + 1;
      } in
      Whenever-if (ltb 0 n) _ _ (Forward l w)
        (Whenever-if (readable_bytes w'.output == 0) (after_drain l sys w') (ok w') (Forward l w)
          (after_drain-Forward w') (omega arith))
        (omega arith)

  pub handle_write-Forward : (w : Conn l) → Whenever (handle_write l sys w) (Forward l w)
  unfolding handle_write
  handle_write-Forward w =
      Whenever-if (is_writing w.channel) _ _ (Forward l w)
        (after_write_fd-Forward (write_fd (sys.write w.calls) w.output) w) (omega arith)
