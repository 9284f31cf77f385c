-- ===== src/TcpConnection/Lifecycle.antt =====
-- Establishing, reading, closing and destroying a connection, whatever the user's callbacks do, as
-- long as they keep the invariant.
use muduo_learning.Prelude.{
  ℕ, ◌+◌, ◌≤◌, ◌≡◌, ◌≢◌, ◌∙◌, refl, sym, true, false, length, Returns, Returns-bind, Returns-map,
}
use muduo_learning.Buffer.Fd.{extra_size}
use muduo_learning.Buffer.Invariant.{max_size}
use muduo_learning.Channel.{new, tie, with_reading, none_event}
use muduo_learning.Channel.Masks.{interest, writes, queries, with_reading-mask}
use muduo_learning.Loop.{Loop, enable_reading, disable_all}
use muduo_learning.TcpConnection.{
  State, disconnected, connecting, connected, disconnecting, Conn, Sys, Handlers, call, set_state,
  connect_established, destroy_from, connect_destroyed, handle_close, call_message, on_channel,
}
use muduo_learning.TcpConnection.Invariant.{Inv, on_channel_lem}

module _ (l : Loop) where
  -- The input buffer can take one more `readFd`.
  abbrev pub HasRoom : Conn l → Type 0
  HasRoom w = length w.input.storage + extra_size ≤ max_size

  abbrev pub Open : Conn l → Type 0
  Open w = Inv l w × HasRoom w

  -- What is asked of the user's callbacks: they return and keep the invariant. Those that announce
  -- a change leave room in the input buffer.
  pub record Careful (h : Handlers l) : Type 0 where
    pub connection_keeps : (w : Conn l) → Inv l w → HasRoom w → Returns (call h.connection w) Open
    pub close_keeps : (w : Conn l) → Inv l w → HasRoom w → Returns (call h.close w) Open
    pub message_keeps :
        (time : ℕ) (w : Conn l) → Inv l w → Returns (call_message l h time w) (Inv l)

  -- `disableAll` on a connection that is marked as closed.
  disable_all-Inv :
      (w : Conn l)
      → Inv l w
      → HasRoom w
      → Returns (on_channel l (disable_all l) (set_state l disconnected w)) Open
  unfolding disable_all
  disable_all-Inv w v room =
      on_channel_lem l none_event (set_state l disconnected w) Open v.tracked λ c s same t. (
        record {
          input_valid = v.input_valid;
          output_valid = v.output_valid;
          tracked = t;
          wish = interest false false;
          masked = same.same_events;
          pending = λ open_still. absurd (open_still refl);
        },
        room,
      )

module _ (l : Loop) (sys : Sys) (h : Handlers l) where
  -- `connectEstablished`, for callbacks that return and keep the invariant and a connection with
  -- the invariant that is not closed and has room in its input buffer: it returns, and the
  -- invariant and the room are kept.
  pub connect_established-Inv :
      (w : Conn l)
      → Careful l h
      → Inv l w
      → HasRoom l w
      → w.state ≢ disconnected
      → Returns (connect_established l sys h w) (Open l)
  unfolding connect_established enable_reading tie
  connect_established-Inv w careful v room open_still =
      let c' = record w.channel { tied = true } in
      let w' = record w { state = connected; channel = c' } in
      Returns-bind (on_channel l (enable_reading l) w') _ _ _
        (on_channel_lem l (with_reading c'.events) w' (Open l)
          (l.tie_tracked w.channel w.loop v.tracked)
          λ c s same t.
            let masked = same.same_events ∙ rw v.masked (with_reading-mask v.wish) in
            (
              record {
                input_valid = v.input_valid;
                output_valid = v.output_valid;
                tracked = t;
                wish = interest true (writes v.wish);
                masked = masked;
                pending = λ _.
                    (queries (interest true (writes v.wish)) c masked).1
                    ∙ sym (queries v.wish w.channel v.masked).1
                    ∙ v.pending open_still;
              },
              room,
            ))
        λ u g. careful.connection_keeps u g.0 g.1

  -- `handleClose`, for callbacks that return and keep the invariant and a connection with the
  -- invariant and room in its input buffer: it returns, and the invariant and the room are kept.
  pub handle_close-Inv :
      (w : Conn l) → Careful l h → Inv l w → HasRoom l w → Returns (handle_close l sys h w) (Open l)
  unfolding handle_close
  handle_close-Inv w careful v room =
      Returns-bind (on_channel l (disable_all l) (set_state l disconnected w)) _ _ _
        (disable_all-Inv l w v room)
        λ w1 g1.
          Returns-bind (call h.connection w1) _ _ _ (careful.connection_keeps w1 g1.0 g1.1)
            λ w2 g2. careful.close_keeps w2 g2.0 g2.1

  destroy_from-Inv :
      (st : State) (w : Conn l)
      → Careful l h
      → Inv l w
      → HasRoom l w
      → Returns (destroy_from l sys h st w) (Inv l)
  destroy_from-Inv connected w careful v room =
      Returns-bind (on_channel l (disable_all l) (set_state l disconnected w)) _ _ _
        (disable_all-Inv l w v room)
        λ w' g.
          Returns-map (call h.connection w') _ _ (careful.connection_keeps w' g.0 g.1) (λ u k. k.0)
  destroy_from-Inv disconnected w careful v room = v
  destroy_from-Inv connecting w careful v room = v
  destroy_from-Inv disconnecting w careful v room = v

  -- `connectDestroyed` returns with the channel out of the loop's books.
  pub connect_destroyed-Inv :
      (w : Conn l)
      → Careful l h
      → Inv l w
      → HasRoom l w
      → Returns (connect_destroyed l sys h w) λ w'. Inv l w' × (w'.channel.index ≡ new)
  unfolding connect_destroyed
  connect_destroyed-Inv w careful v room =
      Returns-bind (destroy_from l sys h w.state w) _ (Inv l) _
        (destroy_from-Inv w.state w careful v room)
        λ w' v'.
          Returns-bind (l.remove_channel w'.channel w'.loop) _ _ _
            (l.remove_tracked w'.channel w'.loop v'.tracked)
            λ r g.
              let masked = g.0.same_events ∙ v'.masked in
              (
                record {
                  input_valid = v'.input_valid;
                  output_valid = v'.output_valid;
                  tracked = g.2;
                  wish = v'.wish;
                  masked = masked;
                  pending = λ open_still.
                      (queries v'.wish r.0 masked).1
                      ∙ sym (queries v'.wish w'.channel v'.masked).1
                      ∙ v'.pending open_still;
                },
                g.1,
              )

  -- The channel is out of the books, and nothing else has changed.
  abbrev pub Destroyed : Conn l → Conn l → Type 0
  Destroyed w w' =
      (w' ≡ record w { channel = w'.channel; loop = w'.loop }) × (w'.channel.index ≡ new)

  -- `connectDestroyed` on a connection with the invariant that is closed already, as `handleClose`
  -- leaves it: it returns without a further callback, the channel's index is kNew, and nothing but
  -- the channel and the loop's state has changed.
  pub connect_destroyed_closed :
      (w : Conn l)
      → Inv l w
      → w.state ≡ disconnected
      → Returns (connect_destroyed l sys h w) (Destroyed w)
  unfolding connect_destroyed
  connect_destroyed_closed w v e = rw e (
      Returns-bind (l.remove_channel w.channel w.loop) _ _ _
        (l.remove_tracked w.channel w.loop v.tracked) (λ r g. (refl, g.1)))
