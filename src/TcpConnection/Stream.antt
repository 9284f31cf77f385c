-- ===== src/TcpConnection/Stream.antt =====
-- `handleWrite` and `shutdown`: the waiting bytes go out in order, and the write end is closed only
-- behind the last of them.
use muduo_learning.Prelude.{
  ◌+◌, ◌≡◌, ◌≢◌, ◌∙◌, refl, ap, arith, Bool, true, false, ◌==◌, ltb, [], ◌++◌, length, take,
  Returns, append_assoc, take-append-drop, Bool-cases, ◌⊎◌, inl, inr, Returns-bind, Returns-map,
  slice,
}
use muduo_learning.Buffer.{Buffer, readable_bytes, retrieve, peek}
use muduo_learning.Buffer.Fd.{IoResult, error, count, write_fd, write_fd-contents}
use muduo_learning.Buffer.Invariant.{IsValid, sizes, retrieve-IsValid}
use muduo_learning.Buffer.Contents.{contents, length-contents, contents-retrieve}
use muduo_learning.Channel.{is_writing, without_writing}
use muduo_learning.Channel.Masks.{Interest, interest, mask, reads, queries, without_writing-mask}
use muduo_learning.Loop.{Loop, disable_writing}
use muduo_learning.TcpConnection.{
  State, disconnected, connecting, connected, disconnecting, Conn, Sys, write_completes, queue_if,
  shutdown_in_loop, shutdown_from, shutdown, shutdown_if_disconnecting, after_drain, after_write_fd,
  handle_write, on_channel,
}
use muduo_learning.TcpConnection.Invariant.{Documented, Within, stream, Inv, on_channel_lem}
use muduo_learning.TcpConnection.Sending.{nil_of_length}

module _ (l : Loop) where
  -- The stream stands, and the write end is as it was or closed with nothing waiting.
  abbrev pub Keeps : Conn l → Conn l → Type 0
  Keeps w w' =
      Inv l w'
      × (stream l w' ≡ stream l w)
      × ((w'.shut ≡ w.shut) ⊎ ((w'.shut ≡ true) × (contents w'.output ≡ [])))

  pub shutdown_in_loop-Keeps :
      (w : Conn l) → Inv l w → w.state ≢ disconnected → Keeps w (shutdown_in_loop l w)
  unfolding shutdown_in_loop
  shutdown_in_loop-Keeps w v open_still = elim (Bool-cases (is_writing w.channel)) [
    | inl on ↦ rw on (v, refl, inl refl)
    | inr off ↦ rw off (
      v,
      refl,
      inr (
        refl,
        nil_of_length (contents w.output)
            (ground (arith, v.pending open_still, off, length-contents v.output_valid)),
      ),
    )
  ]

  shutdown_from-Keeps :
      (st : State) (here : Bool) (w : Conn l)
      → Inv l w
      → st ≡ w.state
      → Keeps w (shutdown_from l st here w)
  shutdown_from-Keeps connected here w v e =
      let w' = record w { state = disconnecting } in
      let v' : Inv l w' = record {
        input_valid = v.input_valid;
        output_valid = v.output_valid;
        tracked = v.tracked;
        wish = v.wish;
        masked = v.masked;
        pending = λ _. v.pending (λ d. cc);
      } in
      elim (Bool-cases here) [
        | inl yes_here ↦ rw yes_here (shutdown_in_loop-Keeps w' v' (λ d. cc))
        | inr elsewhere ↦ rw elsewhere (v', refl, inl refl)
      ]
  shutdown_from-Keeps disconnected here w v e = (v, refl, inl refl)
  shutdown_from-Keeps connecting here w v e = (v, refl, inl refl)
  shutdown_from-Keeps disconnecting here w v e = (v, refl, inl refl)

  -- `shutdown()`, from any thread and in any state of a connection with the invariant, keeps the
  -- invariant and the stream. The write end is as it was, or was closed with nothing left waiting.
  pub shutdown-Keeps : (here : Bool) (w : Conn l) → Inv l w → Keeps w (shutdown l here w)
  unfolding shutdown
  shutdown-Keeps here w v = shutdown_from-Keeps w.state here w v refl

  shutdown_if_disconnecting-Keeps :
      (sys : Sys) (st : State) (w : Conn l)
      → Inv l w
      → st ≡ w.state
      → Keeps w (shutdown_if_disconnecting l sys st w)
  shutdown_if_disconnecting-Keeps sys disconnecting w v e = shutdown_in_loop-Keeps w v (λ d. cc)
  shutdown_if_disconnecting-Keeps sys connected w v e = (v, refl, inl refl)
  shutdown_if_disconnecting-Keeps sys disconnected w v e = (v, refl, inl refl)
  shutdown_if_disconnecting-Keeps sys connecting w v e = (v, refl, inl refl)

module _ (l : Loop) (sys : Sys) where
  after_drain-Keeps :
      (w : Conn l)
      → IsValid w.input
      → IsValid w.output
      → l.Tracked w.channel w.loop
      → (i : Interest) → w.channel.events ≡ mask i
      → readable_bytes w.output ≡ 0
      → Returns (after_drain l sys w) (Keeps l w)
  unfolding after_drain disable_writing
  after_drain-Keeps w vi vo t i m empty =
      let after = λ (w' : Conn l).
        shutdown_if_disconnecting l sys w'.state
          (queue_if l w'.has_write_complete write_completes w') in
      Returns-bind (on_channel l (disable_writing l) w) _ (λ w'. Keeps l w (after w')) (Keeps l w)
        (on_channel_lem l (without_writing w.channel.events) w _ t λ c s same tr.
          let masked = same.same_events ∙ rw m (without_writing-mask i) in
          let w' =
            queue_if l w.has_write_complete write_completes (record w { channel = c; loop = s }) in
          shutdown_if_disconnecting-Keeps l sys w.state w'
            (record {
              input_valid = vi;
              output_valid = vo;
              tracked = tr;
              wish = interest (reads i) false;
              masked = masked;
              pending = λ _. ground (arith, (queries (interest (reads i) false) c masked).1, empty);
            })
            refl)
        (λ w' kept. kept)

  pub peek-contents : {b : Buffer} → IsValid b → peek b (readable_bytes b) ≡ contents b
  unfolding peek
  peek-contents {b} v = ap (λ n. slice b.storage b.reader_index n) (sizes v).0

  after_write_fd-Keeps :
      (r : IoResult) (w : Conn l)
      → Inv l w
      → is_writing w.channel ≡ true
      → Within (length (contents w.output)) r
      → Returns (after_write_fd l sys r w) (Keeps l w)
  unfolding after_write_fd
  after_write_fd-Keeps (error e) w v on h = (v, refl, inl refl)
  after_write_fd-Keeps (count n) w v on h = elim (Bool-cases (ltb 0 n)) [
    | inr none_taken ↦ rw none_taken (v, refl, inl refl)
    | inl taken ↦
        let out = retrieve n w.output in
        let valid = retrieve-IsValid n v.output_valid in
        let bytes = peek w.output (readable_bytes w.output) in
        let whole : bytes ≡ contents w.output = peek-contents v.output_valid in
        let w' = record w { sent = w.sent ++ take n bytes; output = out; calls = w.calls + 1 } in
        let same : stream l w' ≡ stream l w =
          rw (whole, contents-retrieve n v.output_valid, append_assoc)
            (ap (λ b. w.sent ++ b) (take-append-drop n (contents w.output))) in
        rw taken (elim (Bool-cases (readable_bytes out == 0)) [
          | inl drained ↦ rw drained (
              Returns-map (after_drain l sys w') _ _
                (after_drain-Keeps w' v.input_valid valid v.tracked v.wish v.masked
                  (ground (arith, drained)))
                (λ w'' kept. (kept.0, kept.1 ∙ same, kept.2)))
          | inr more ↦ rw more (
            record {
              input_valid = v.input_valid;
              output_valid = valid;
              tracked = v.tracked;
              wish = v.wish;
              masked = v.masked;
              pending = λ _. ground (arith, on, more);
            },
            same,
            inl refl,
          )
        ])
  ]

  -- `handleWrite`, for a system that behaves as documented and a connection with the invariant: it
  -- returns, and keeps the invariant and the stream, so that what the socket takes is the front of
  -- what waits. The write end is as it was, or was closed with nothing left waiting.
  pub handle_write-Keeps :
      (w : Conn l) → Documented sys → Inv l w → Returns (handle_write l sys w) (Keeps l w)
  unfolding handle_write
  handle_write-Keeps w doc v = elim (Bool-cases (is_writing w.channel)) [
    | inl on ↦ rw on (
        after_write_fd-Keeps (write_fd (sys.write w.calls) w.output) w v on (
          rw (write_fd-contents (sys.write w.calls) v.output_valid)
            (doc.write_within w.calls (contents w.output))))
    | inr off ↦ rw off (v, refl, inl refl)
  ]
