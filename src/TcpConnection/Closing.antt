-- ===== src/TcpConnection/Closing.antt =====
-- The end of a half-closed connection, and what `sendInLoop` does on a closed one.
use muduo_learning.Prelude.{
  ℕ, ◌+◌, ◌≤◌, ◌<◌, ◌≡◌, ◌≢◌, ◌∙◌, refl, ap, arith, true, false, lt→ltb, List, [], ◌∷◌, ◌++◌,
  length, take, Returns, Returns-bind, suc, take_all, drop_all, Returns-map,
}
use muduo_learning.Buffer.{readable_bytes, retrieve, peek, append}
use muduo_learning.Buffer.Fd.{error, count, write_fd-contents}
use muduo_learning.Buffer.Invariant.{max_size, retrieve-IsValid}
use muduo_learning.Buffer.Contents.{contents, length-contents, contents-retrieve, contents-append}
use muduo_learning.Channel.{is_writing, without_writing, with_writing, none_event}
use muduo_learning.Channel.Masks.{Interest, interest, mask, reads, queries, without_writing-mask}
use muduo_learning.Loop.{Loop, disable_writing, enable_writing}
use muduo_learning.TcpConnection.{
  disconnected, disconnecting, Conn, Sys, write_completes, queue_if, ewouldblock, shutdown_in_loop,
  shutdown_if_disconnecting, after_drain, after_write_fd, handle_write, on_channel, send_in_loop,
  write_directly, after_write, buffer_rest, keep_rest,
}
use muduo_learning.TcpConnection.Invariant.{stream, Inv, on_channel_lem}
use muduo_learning.TcpConnection.Sending.{now_writing}
use muduo_learning.TcpConnection.Stream.{peek-contents}

module _ (l : Loop) (sys : Sys) where
  -- The end of `handleWrite` on a connection that is being closed.
  after_drain_closes :
      (w : Conn l) (i : Interest)
      → l.Tracked w.channel w.loop
      → w.channel.events ≡ mask i
      → w.state ≡ disconnecting
      → Returns
          (after_drain l sys w)
          λ w'. (w'.shut ≡ true) × (w'.sent ≡ w.sent) × (w'.output ≡ w.output)
  unfolding after_drain disable_writing shutdown_in_loop
  after_drain_closes w i t m closing =
      let Closed =
        λ (w' : Conn l). (w'.shut ≡ true) × (w'.sent ≡ w.sent) × (w'.output ≡ w.output) in
      let after = λ (w' : Conn l).
        shutdown_if_disconnecting l sys w'.state
          (queue_if l w'.has_write_complete write_completes w') in
      Returns-bind (on_channel l (disable_writing l) w) _ (λ w'. Closed (after w')) Closed
        (on_channel_lem l (without_writing w.channel.events) w _ t λ c s same tr.
          let quiet =
            (queries (interest (reads i) false) c
              (same.same_events ∙ rw m (without_writing-mask i))).1 in
          ground (arith, closing, quiet))
        (λ w' kept. kept)

  -- Everything was sent, and the write end is closed.
  abbrev pub Finished : Conn l → Conn l → Type 0
  Finished w w' = (w'.shut ≡ true) × (w'.sent ≡ stream l w) × (contents w'.output ≡ [])

  -- `handleWrite` on a connection with the invariant that is in state kDisconnecting and waits for
  -- writing, when the socket takes all bytes offered: it returns, everything that was asked for is
  -- sent, nothing waits and the write end is closed.
  pub handle_write_closes :
      (w : Conn l)
      → Inv l w
      → w.state ≡ disconnecting
      → is_writing w.channel ≡ true
      → sys.write w.calls (contents w.output) ≡ count (length (contents w.output))
      → Returns (handle_write l sys w) (Finished w)
  unfolding handle_write after_write_fd
  handle_write_closes w v closing on takes =
      let n = length (contents w.output) in
      let out = retrieve n w.output in
      let valid = retrieve-IsValid n v.output_valid in
      let some_wait : 0 < n =
        ground (arith, v.pending (λ d. cc), on, length-contents v.output_valid) in
      let left : contents out ≡ [] =
        contents-retrieve n v.output_valid ∙ drop_all n (contents w.output) (omega arith) in
      let drained : readable_bytes out ≡ 0 = omega (arith, length-contents valid, ap length left) in
      let bytes = peek w.output (readable_bytes w.output) in
      let w' = record w { sent = w.sent ++ take n bytes; output = out; calls = w.calls + 1 } in
      let all : take n bytes ≡ contents w.output =
        ap (take n) (peek-contents l sys v.output_valid)
        ∙ take_all n (contents w.output) (omega arith) in
      rw (on, write_fd-contents (sys.write w.calls) v.output_valid, takes, lt→ltb 0 n some_wait)
        (rw drained (
          Returns-map (after_drain l sys w') _ _
            (after_drain_closes w' v.wish v.tracked v.masked closing)
            (λ w'' c. (c.0, c.1 ∙ ap (λ b. w.sent ++ b) all, ap contents c.2 ∙ left))))

  -- Closed, and yet waiting to write `bytes`.
  abbrev pub Lingers : List ℕ → Conn l → Type 0
  Lingers bytes w' =
      (w'.state ≡ disconnected) × (is_writing w'.channel ≡ true) × (contents w'.output ≡ bytes)

  -- `sendInLoop` on a connection with the invariant in state kDisconnected, whose channel has no
  -- events and which has nothing waiting, for some bytes that its output vector can grow by, when
  -- `write` gives EWOULDBLOCK: it returns, the state is as it was, the bytes are kept in the
  -- output buffer, and the channel waits for writing again.
  pub send_in_loop_disconnected :
      (bytes : List ℕ) (w : Conn l)
      → Inv l w
      → w.state ≡ disconnected
      → w.channel.events ≡ none_event
      → contents w.output ≡ []
      → bytes ≢ []
      → w.output.writer_index + length bytes ≤ max_size
      → sys.write w.calls bytes ≡ error ewouldblock
      → Returns (send_in_loop l sys bytes w) (Lingers bytes)
  unfolding send_in_loop write_directly after_write buffer_rest keep_rest enable_writing
  send_in_loop_disconnected [] w v closed quiet empty some_bytes room blocks =
      absurd (some_bytes refl)
  send_in_loop_disconnected (x ∷ xs) w v closed quiet empty some_bytes room blocks =
      let none_wait : readable_bytes w.output ≡ 0 =
        omega (arith, length-contents v.output_valid, ap length empty) in
      let held : contents (append (x ∷ xs) w.output) ≡ x ∷ xs =
        contents-append (x ∷ xs) v.output_valid room ∙ ap (λ q. q ++ (x ∷ xs)) empty in
      let still = (queries (interest false false) w.channel quiet).1 in
      rw (still, none_wait, blocks, lt→ltb 0 (suc (length xs)) (omega arith))
        (rw still (
          on_channel_lem l (with_writing w.channel.events) _ _ v.tracked
            λ c s same t. (closed, now_writing l sys (interest false false) c quiet same, held)))
