-- ===== src/TcpConnection/Events.antt =====
-- Every event that the poller may report for a connection is handled.
use muduo_learning.Prelude.{
  ℕ, ◌+◌, arith, not, ◌&&◌, lt→ltb, suc, if◌then◌else◌, [], ◌∷◌, length, ok, Returns, Returns-bind,
  Returns-map, Returns-if, Returns-if_either, bit_or,
}
use muduo_learning.Buffer.Fd.{
  ReadResult, AtMost, after_readv, after_readv_nil, after_readv-Reads, read_fd, read_room,
}
use muduo_learning.Channel.{
  handle_event, handle_event_with_guard, test, epollin, epollpri, epollout, epollerr, epollhup,
}
use muduo_learning.Loop.{Loop}
use muduo_learning.TcpConnection.{
  Conn, Sys, Handlers, handle_close, after_read, handle_read, handle_write, callbacks, on_event,
}
use muduo_learning.TcpConnection.Invariant.{Documented, Inv}
use muduo_learning.TcpConnection.Stream.{Keeps, handle_write-Keeps}
use muduo_learning.TcpConnection.Lifecycle.{HasRoom, Careful, handle_close-Inv}

module _ (l : Loop) (sys : Sys) (h : Handlers l) where
  -- What `handleRead` does with each result of `readv`.
  after_readv-Inv :
      (r : ReadResult) (time : ℕ) (w : Conn l)
      → Careful l h
      → Inv l w
      → HasRoom l w
      → AtMost (read_room w.input) r
      → let (b, n) = after_readv r w.input in
        Returns (after_read l sys h time n (record w { input = b; calls = w.calls + 1 })) (Inv l)
  unfolding after_read
  after_readv-Inv (ReadResult.failed e) time w careful v room m = unfold after_readv in v
  after_readv-Inv (ReadResult.got []) time w careful v room m = rw (after_readv_nil v.input_valid) (
      Returns-map (handle_close l sys h (record w { calls = w.calls + 1 })) _ _
        (handle_close-Inv l sys h (record w { calls = w.calls + 1 }) careful v room) (λ w' g. g.0))
  after_readv-Inv (ReadResult.got (x ∷ xs)) time w careful v room m =
      let (valid, held, n) = after_readv-Reads (ReadResult.got (x ∷ xs)) v.input_valid room m in
      rw (n, lt→ltb 0 (suc (length xs)) (omega arith))
        (careful.message_keeps time _ (record {
          input_valid = valid;
          output_valid = v.output_valid;
          tracked = v.tracked;
          wish = v.wish;
          masked = v.masked;
          pending = v.pending;
        }))

  -- `handleRead` returns and keeps the invariant, whatever `readv` gives.
  pub handle_read-Inv :
      (time : ℕ) (w : Conn l)
      → Documented sys
      → Careful l h
      → Inv l w
      → HasRoom l w
      → Returns (handle_read l sys h time w) (Inv l)
  unfolding handle_read read_fd
  handle_read-Inv time w doc careful v room =
      after_readv-Inv (sys.readv w.calls (read_room w.input)) time w careful v room
        (doc.readv_within w.calls (read_room w.input))

  -- For a system that behaves as documented, callbacks that return and keep the invariant, and a
  -- connection with the invariant and room in its input buffer: whatever events the poller
  -- reported for it, handling them returns and the invariant holds again.
  pub on_event-Inv :
      (time : ℕ) (w : Conn l)
      → Documented sys
      → Careful l h
      → Inv l w
      → HasRoom l w
      → Returns (on_event l sys h time w) (Inv l)
  unfolding on_event handle_event handle_event_with_guard callbacks
  on_event-Inv time w doc careful v room =
      let r = w.channel.revents in
      let Good = λ (u : Conn l). Inv l u × HasRoom l u in
      let closes = test r epollhup && not (test r epollin) in
      let guarded : Returns (handle_event_with_guard (callbacks l sys h time) r w) (Inv l) =
        Returns-bind (if closes then handle_close l sys h w else ok w) _ Good (Inv l)
          (Returns-if closes (handle_close l sys h w) w Good
            (handle_close-Inv l sys h w careful v room) (v, room))
          λ w1 g1.
            Returns-bind (if test r epollerr then ok w1 else ok w1) _ Good (Inv l)
              (Returns-if (test r epollerr) (ok w1) w1 Good g1 g1)
              λ w2 g2.
                Returns-bind
                  (if test r (bit_or epollin epollpri) then handle_read l sys h time w2 else ok w2)
                  _ (Inv l) (Inv l)
                  (Returns-if (test r (bit_or epollin epollpri)) (handle_read l sys h time w2) w2
                    (Inv l) (handle_read-Inv time w2 doc careful g2.0 g2.1) g2.0)
                  λ w3 v3.
                    Returns-if (test r epollout) (handle_write l sys w3) w3 (Inv l)
                      (Returns-map (handle_write l sys w3) (Keeps l w3) (Inv l)
                        (handle_write-Keeps l sys w3 doc v3) (λ u k. k.0))
                      v3 in
      Returns-if_either w.channel.tied (handle_event_with_guard (callbacks l sys h time) r w)
        (Inv l) guarded
