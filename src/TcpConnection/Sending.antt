-- ===== src/TcpConnection/Sending.antt =====
-- `sendInLoop`: what is asked for is sent or kept, in order, unless the socket is broken.
use muduo_learning.Prelude.{
  ℕ, ◌+◌, ◌≤◌, ◌<◌, ◌≡◌, ◌∙◌, refl, ap, sym, arith, Bool, true, false, not, ◌&&◌, ◌==◌, lt→ltb, suc,
  List, [], ◌∷◌, ◌++◌, length, ok, Returns, take-append-drop, length-drop, length-append,
  append-nil, append_assoc, if◌then◌else◌, Bool-cases, ◌⊎◌, inl, inr, Returns-map,
}
use muduo_learning.Buffer.{readable_bytes, append}
use muduo_learning.Buffer.Fd.{IoResult, error, count}
use muduo_learning.Buffer.Invariant.{max_size, append-IsValid}
use muduo_learning.Buffer.Contents.{contents, length-contents, contents-append}
use muduo_learning.Channel.{Channel, is_writing, with_writing}
use muduo_learning.Channel.Masks.{Interest, interest, mask, reads, queries, with_writing-mask}
use muduo_learning.Loop.{Loop, SameBut, enable_writing}
use muduo_learning.TcpConnection.{
  Conn, Sys, is_fault, after_write, write_directly, keep_rest, buffer_rest, send_in_loop,
  on_channel,
}
use muduo_learning.TcpConnection.Invariant.{Documented, Within, stream, Inv, on_channel_lem}

pub nil_of_length : (xs : List ℕ) → length xs ≡ 0 → xs ≡ []
nil_of_length [] h = refl
nil_of_length (x ∷ xs) h = absurd (omega arith)

module _ (l : Loop) (sys : Sys) where
  -- The first half: the bytes that the socket took and those that remain make up what was asked.
  -- A fault is a write that failed with EPIPE or ECONNRESET.
  abbrev Splits : IoResult → List ℕ → Conn l → Conn l × List ℕ × Bool → Type 0
  Splits r bytes w (w', rest, fault) =
      Inv l w'
      × (w'.output ≡ w.output)
      × (w'.input ≡ w.input)
      × (w'.state ≡ w.state)
      × (stream l w' ++ rest ≡ stream l w ++ bytes)
      × (length rest ≤ length bytes)
      × (fault ≡ true → (stream l w' ≡ stream l w) × (e : ℕ) × (r ≡ error e) × (is_fault e ≡ true))

  after_write-Splits :
      (r : IoResult) (bytes : List ℕ) (w : Conn l)
      → Inv l w
      → contents w.output ≡ []
      → Within (length bytes) r
      → Splits r bytes w (after_write l sys r bytes w)
  unfolding after_write
  after_write-Splits (error e) bytes w v empty h =
      (v, refl, refl, refl, refl, omega arith, λ f. (refl, e, refl, f))
  after_write-Splits (count n) bytes w v empty h = (
    v,
    refl,
    refl,
    refl,
    rw empty (simp (append-nil, append_assoc) (ap (λ b. w.sent ++ b) (take-append-drop n bytes))),
    omega (arith, length-drop n bytes),
    λ f. cc,
  )

  -- `enableWriting` unless the channel is writing already.
  ensure_writing :
      (w : Conn l) (Q : Conn l → Type 0)
      → l.Tracked w.channel w.loop
      → (is_writing w.channel ≡ true → Q w)
      → ((c : Channel) (s : l.State)
          → SameBut (record w.channel { events = with_writing w.channel.events }) c
          → l.Tracked c s
          → Q (record w { channel = c; loop = s }))
      → Returns (if not (is_writing w.channel) then on_channel l (enable_writing l) w else ok w) Q
  unfolding enable_writing
  ensure_writing w Q t old new = elim (Bool-cases (is_writing w.channel)) [
    | inl on ↦ rw on (old on)
    | inr off ↦ rw off (on_channel_lem l (with_writing w.channel.events) w Q t new)
  ]

  -- A channel that was updated by `enableWriting` is writing.
  pub now_writing :
      (i : Interest) {b : Channel} (c : Channel)
      → b.events ≡ mask i
      → SameBut (record b { events = with_writing b.events }) c
      → is_writing c ≡ true
  now_writing i c e same =
      (queries (interest (reads i) true) c (same.same_events ∙ rw e (with_writing-mask i))).1

  -- The second half keeps what remains behind what waits, and waits for writing.
  buffer_rest_lem :
      (rest : List ℕ) (w : Conn l)
      → Inv l w
      → w.output.writer_index + length rest ≤ max_size
      → Returns (buffer_rest l sys (w, rest, false)) λ w'.
        Inv l w' × (w'.input ≡ w.input) × (w'.state ≡ w.state) × (stream l w' ≡ stream l w ++ rest)
  unfolding buffer_rest keep_rest
  buffer_rest_lem [] w v h = (v, refl, refl, sym (append-nil (stream l w)))
  buffer_rest_lem (x ∷ rest) w v h =
      let valid = append-IsValid (x ∷ rest) v.output_valid h in
      let held = contents-append (x ∷ rest) v.output_valid h in
      let more : 0 < readable_bytes (append (x ∷ rest) w.output) = omega (
        arith,
        length-contents valid,
        ap length held,
        length-append (contents w.output) (x ∷ rest),
      ) in
      let streams : w.sent ++ contents (append (x ∷ rest) w.output) ≡ stream l w ++ (x ∷ rest) =
        rw held (sym (append_assoc w.sent (contents w.output) (x ∷ rest))) in
      rw (lt→ltb 0 (suc (length rest)) (omega arith)) (
        ensure_writing (keep_rest l sys (x ∷ rest) w) _ v.tracked
          (λ on. (
            record {
              input_valid = v.input_valid;
              output_valid = valid;
              tracked = v.tracked;
              wish = v.wish;
              masked = v.masked;
              pending = λ open_still. ground (arith, on, more);
            },
            refl,
            refl,
            streams,
          ))
          (λ c s same t. (
            record {
              input_valid = v.input_valid;
              output_valid = valid;
              tracked = t;
              wish = interest (reads v.wish) true;
              masked = same.same_events ∙ rw v.masked (with_writing-mask v.wish);
              pending = λ open_still. ground (arith, now_writing v.wish c v.masked same, more);
            },
            refl,
            refl,
            streams,
          )))

  write_directly-Splits :
      (bytes : List ℕ) (w : Conn l)
      → Documented sys
      → Inv l w
      → Splits (sys.write w.calls bytes) bytes w (write_directly l sys bytes w)
  unfolding write_directly
  write_directly-Splits bytes w doc v =
      elim (Bool-cases (not (is_writing w.channel) && readable_bytes w.output == 0)) [
        | inl direct ↦ rw direct (
            after_write-Splits (sys.write w.calls bytes) bytes w v
              (nil_of_length (contents w.output) (ground (arith, length-contents v.output_valid)))
              (doc.write_within w.calls bytes))
        | inr waits ↦ rw waits (v, refl, refl, refl, refl, omega arith, λ f. cc)
      ]

  -- The bytes go on the stream, or a fault kept them from it.
  abbrev pub Sends : List ℕ → Conn l → Conn l → Type 0
  Sends bytes w w' =
      Inv l w'
      × (w'.input ≡ w.input)
      × (w'.state ≡ w.state)
      × ((stream l w' ≡ stream l w ++ bytes)
          ⊎ ((stream l w' ≡ stream l w)
              × (e : ℕ) × (sys.write w.calls bytes ≡ error e)
              × (is_fault e ≡ true)))

  -- `sendInLoop`, for a system that behaves as documented and a connection with the invariant
  -- whose output vector can grow by the bytes: it returns and keeps the invariant, the input
  -- buffer and the state. The bytes follow all earlier ones, taken by the socket or kept in the
  -- output buffer, none lost and none twice; or else the write failed with EPIPE or ECONNRESET,
  -- and none of them is kept.
  pub send_in_loop-stream :
      (bytes : List ℕ) (w : Conn l)
      → Documented sys
      → Inv l w
      → w.output.writer_index + length bytes ≤ max_size
      → Returns (send_in_loop l sys bytes w) (Sends bytes w)
  unfolding send_in_loop buffer_rest
  send_in_loop-stream bytes w doc v h =
      let p = write_directly l sys bytes w in
      let (v', same, in_same, st_same, splits, fewer, faults) =
        write_directly-Splits bytes w doc v in
      elim (Bool-cases p.2) [
        | inl fault ↦ rw fault (v', in_same, st_same, inr (faults fault))
        | inr fine ↦ rw fine (
            Returns-map (buffer_rest l sys (p.0, p.1, false)) _ _
              (buffer_rest_lem p.1 p.0 v' (rw same (omega arith)))
              (λ w' kept. (kept.0, kept.1 ∙ in_same, kept.2 ∙ st_same, inl (kept.3 ∙ splits))))
      ]
