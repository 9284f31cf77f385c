-- ===== src/TcpConnection/Frame.antt =====
-- What the connection's operations leave of the queued tasks, and how much its output vector grows.
use muduo_learning.Prelude.{
  ℕ, ◌+◌, ◌≤◌, ◌≡◌, ◌∙◌, refl, arith, Bool, true, false, not, ◌&&◌, ◌==◌, ltb, leb, List, [], ◌∷◌,
  ◌++◌, length, length-drop, take, drop, append-nil, append_assoc, Outcome, ok, Whenever,
  Whenever-bind, Whenever-if, Whenever-map, Whenever_any, Bool-cases, inl, inr,
}
use muduo_learning.Buffer.{readable_bytes, retrieve, peek, add_size}
use muduo_learning.Buffer.Fd.{IoResult, error, count, write_fd}
use muduo_learning.Buffer.Invariant.{IsValid, max_size, writer_index-append, writer_index-retrieve}
use muduo_learning.Channel.{Channel, is_writing}
use muduo_learning.Loop.{Loop, enable_writing, disable_writing}
use muduo_learning.TcpConnection.{
  State, disconnected, connecting, connected, disconnecting, Task, write_completes,
  high_water_marks, sends_file, sends, shuts_down, Conn, Sys, is_fault, queue_if, on_channel,
  after_write, write_directly, keep_rest, buffer_rest, send_in_loop, handle_write, after_write_fd,
  after_drain, shutdown_if_disconnecting, shutdown_in_loop,
}

-- The bytes that tasks are to send.
abbrev pub bytes_of : (ℕ → ℕ → List ℕ) → Task → List ℕ
bytes_of memory (sends pointer n) = memory pointer n
bytes_of memory write_completes = []
bytes_of memory (high_water_marks n) = []
bytes_of memory (sends_file file offset n) = []
bytes_of memory shuts_down = []

abbrev pub bytes_waiting : (ℕ → ℕ → List ℕ) → List Task → List ℕ
bytes_waiting memory [] = []
bytes_waiting memory (t ∷ ts) = bytes_of memory t ++ bytes_waiting memory ts

-- Tasks that neither send a file nor close the write end.
abbrev pub IsPlain : Task → Type 0
IsPlain (sends pointer n) = Unit
IsPlain write_completes = Unit
IsPlain (high_water_marks n) = Unit
IsPlain (sends_file file offset n) = ⊥
IsPlain shuts_down = ⊥

abbrev pub ArePlain : List Task → Type 0
ArePlain [] = Unit
ArePlain (t ∷ ts) = IsPlain t × ArePlain ts

pub bytes_waiting-append :
    (memory : ℕ → ℕ → List ℕ) (ts us : List Task)
    → bytes_waiting memory (ts ++ us) ≡ bytes_waiting memory ts ++ bytes_waiting memory us
bytes_waiting-append memory [] us = refl
bytes_waiting-append memory (t ∷ ts) us = simp (bytes_waiting-append memory ts us, append_assoc)

pub ArePlain-append : (ts us : List Task) → ArePlain ts → ArePlain us → ArePlain (ts ++ us)
ArePlain-append [] us h k = k
ArePlain-append (t ∷ ts) us h k = (h.0, ArePlain-append ts us h.1 k)

-- No `write` fails for good.
abbrev pub NeverFaults : Sys → Type 0
NeverFaults sys =
    (k : ℕ) (bytes : List ℕ) (e : ℕ) → sys.write k bytes ≡ error e → is_fault e ≡ false

module _ (l : Loop) (sys : Sys) (memory : ℕ → ℕ → List ℕ) where
  -- What the connection's own operations leave: plain tasks that send nothing may join the queue, and
  -- the output vector needs at most `n` bytes more.
  pub record Adds (n : ℕ) (w w' : Conn l) : Type 0 where
    pub plain : ArePlain w.tasks → ArePlain w'.tasks
    pub same_waiting : bytes_waiting memory w'.tasks ≡ bytes_waiting memory w.tasks
    pub room : w'.output.writer_index ≤ w.output.writer_index + n

  abbrev pub Silent : Task → Type 0
  Silent t = IsPlain t × (bytes_of memory t ≡ [])

  pub queue_if-Adds :
      (b : Bool) (t : Task) (n : ℕ) (w : Conn l) → Silent t → Adds n w (queue_if l b t w)
  queue_if-Adds true t n w (plain, silent) = record {
    plain = λ h. ArePlain-append w.tasks (t ∷ []) h (plain, tt);
    same_waiting = simp (bytes_waiting-append, silent, append-nil);
    room = omega arith;
  }
  queue_if-Adds false t n w h = record { plain = λ h. h; same_waiting = refl; room = omega arith }

  pub Adds-trans : (k m n : ℕ) {u v w : Conn l} → Adds m u v → Adds n v w → m + n ≤ k → Adds k u w
  Adds-trans k m n a b h = record {
    plain = λ p. b.plain (a.plain p);
    same_waiting = b.same_waiting ∙ a.same_waiting;
    room = omega (arith, a.room, b.room);
  }

  Adds-refl : (n : ℕ) (w : Conn l) → Adds n w w
  Adds-refl n w = record { plain = λ p. p; same_waiting = refl; room = omega arith }

  -- A call of the channel's changes the channel and the loop only.
  abbrev pub Only : Conn l → Conn l → Type 0
  Only w w' = Adds 0 w w' × (w'.state ≡ w.state) × (w'.input ≡ w.input)

  pub on_channel-Only :
      (f : Channel → l.State → Outcome (Channel × l.State)) (w : Conn l)
      → Whenever (on_channel l f w) (Only w)
  on_channel-Only f w =
      Whenever-bind (f w.channel w.loop) _ (λ r. Unit) (Only w) (Whenever_any (f w.channel w.loop))
        λ r h. (record { plain = λ p. p; same_waiting = refl; room = omega arith }, refl, refl)

  after_write-Adds :
      (r : IoResult) (bytes : List ℕ) (w : Conn l)
      → Adds 0 w (after_write l sys r bytes w).0
        × (length (after_write l sys r bytes w).1 ≤ length bytes)
  unfolding after_write
  after_write-Adds (error e) bytes w =
      (record { plain = λ p. p; same_waiting = refl; room = omega arith }, omega arith)
  after_write-Adds (count n) bytes w =
      let a =
        queue_if-Adds (length (drop n bytes) == 0 && w.has_write_complete) write_completes 0
          (record w { sent = w.sent ++ take n bytes; calls = w.calls + 1 }) (tt, refl) in
      (
        record { plain = a.plain; same_waiting = a.same_waiting; room = a.room },
        omega (arith, length-drop n bytes),
      )

  after_write-output :
      (r : IoResult) (bytes : List ℕ) (w : Conn l)
      → (after_write l sys r bytes w).0.output ≡ w.output
  unfolding after_write
  after_write-output (error e) bytes w = refl
  after_write-output (count n) bytes w = refl

  write_directly-Adds :
      (bytes : List ℕ) (w : Conn l)
      → Adds 0 w (write_directly l sys bytes w).0
        × ((write_directly l sys bytes w).0.output ≡ w.output)
        × (length (write_directly l sys bytes w).1 ≤ length bytes)
  unfolding write_directly after_write
  write_directly-Adds bytes w =
      elim (Bool-cases (not (is_writing w.channel) && readable_bytes w.output == 0)) [
        | inl direct ↦
            let (a, fewer) = after_write-Adds (sys.write w.calls bytes) bytes w in
            rw direct (a, after_write-output (sys.write w.calls bytes) bytes w, fewer)
        | inr waits ↦ rw waits (Adds-refl 0 w, refl, omega arith)
      ]

  keep_rest-Adds :
      (rest : List ℕ) (w : Conn l)
      → IsValid w.output
      → w.output.writer_index + length rest ≤ max_size
      → Adds (length rest) w (keep_rest l sys rest w)
  unfolding keep_rest
  keep_rest-Adds rest w v h =
      let old = readable_bytes w.output in
      let total = add_size old (length rest) in
      let passes =
        leb w.high_water_mark total && ltb old w.high_water_mark && w.has_high_water_mark in
      let a = queue_if-Adds passes (high_water_marks total) 0 w (tt, refl) in
      record { plain = a.plain; same_waiting = a.same_waiting; room = writer_index-append rest v h }

  buffer_rest-Adds :
      (rest : List ℕ) (fault : Bool) (w : Conn l)
      → IsValid w.output
      → w.output.writer_index + length rest ≤ max_size
      → Whenever (buffer_rest l sys (w, rest, fault)) (Adds (length rest) w)
  unfolding buffer_rest
  buffer_rest-Adds rest fault w v h =
      let kept = keep_rest l sys rest w in
      let a = keep_rest-Adds rest w v h in
      Whenever-if (not fault && ltb 0 (length rest)) _ _ (Adds (length rest) w)
        (Whenever-if (not (is_writing kept.channel)) (on_channel l (enable_writing l) kept)
          (ok kept) (Adds (length rest) w)
          (Whenever-map (on_channel l (enable_writing l) kept) (Only kept) (Adds (length rest) w)
            (on_channel-Only (enable_writing l) kept)
            λ u o. Adds-trans (length rest) (length rest) 0 a o.0 (omega arith))
          a)
        (Adds-refl (length rest) w)

  pub send_in_loop-Adds :
      (bytes : List ℕ) (w : Conn l)
      → IsValid w.output
      → w.output.writer_index + length bytes ≤ max_size
      → Whenever (send_in_loop l sys bytes w) (Adds (length bytes) w)
  unfolding send_in_loop
  send_in_loop-Adds bytes w v h =
      let p = write_directly l sys bytes w in
      let (a, same, fewer) = write_directly-Adds bytes w in
      Whenever-map (buffer_rest l sys p) (Adds (length p.1) p.0) (Adds (length bytes) w)
        (buffer_rest-Adds p.1 p.2 p.0 (rw same v) (rw same (omega arith)))
        λ u b. Adds-trans (length bytes) 0 (length p.1) a b (omega arith)

  Only-trans : {u v w : Conn l} → Only u v → Only v w → Only u w
  Only-trans a b = (Adds-trans 0 0 0 a.0 b.0 (omega arith), b.1 ∙ a.1, b.2 ∙ a.2)

  shutdown_if_disconnecting-Only :
      (st : State) (w : Conn l) → Only w (shutdown_if_disconnecting l sys st w)
  unfolding shutdown_in_loop
  shutdown_if_disconnecting-Only disconnecting w = elim (Bool-cases (is_writing w.channel)) [
    | inl on ↦ rw on (Adds-refl 0 w, refl, refl)
    | inr off ↦
        rw off (record { plain = λ p. p; same_waiting = refl; room = omega arith }, refl, refl)
  ]
  shutdown_if_disconnecting-Only connected w = (Adds-refl 0 w, refl, refl)
  shutdown_if_disconnecting-Only disconnected w = (Adds-refl 0 w, refl, refl)
  shutdown_if_disconnecting-Only connecting w = (Adds-refl 0 w, refl, refl)

  after_drain-Only : (w : Conn l) → Whenever (after_drain l sys w) (Only w)
  unfolding after_drain
  after_drain-Only w =
      Whenever-bind (on_channel l (disable_writing l) w) _ (Only w) (Only w)
        (on_channel-Only (disable_writing l) w)
        λ u o.
          let v = queue_if l u.has_write_complete write_completes u in
          Only-trans o (
            Only-trans
              (queue_if-Adds u.has_write_complete write_completes 0 u (tt, refl), refl, refl)
              (shutdown_if_disconnecting-Only u.state v))

  after_write_fd-Only :
      (r : IoResult) (w : Conn l) → IsValid w.output → Whenever (after_write_fd l sys r w) (Only w)
  unfolding after_write_fd
  after_write_fd-Only (error e) w v =
      (record { plain = λ p. p; same_waiting = refl; room = omega arith }, refl, refl)
  after_write_fd-Only (count n) w v =
      let out = retrieve n w.output in
      let bytes = peek w.output (readable_bytes w.output) in
      let w' = record w { sent = w.sent ++ take n bytes; output = out; calls = w.calls + 1 } in
      let taken : Only w w' = (
        record {
          plain = λ p. p;
          same_waiting = refl;
          room = omega (arith, writer_index-retrieve n v);
        },
        refl,
        refl,
      ) in
      Whenever-if (ltb 0 n) _ _ (Only w)
        (Whenever-if (readable_bytes out == 0) (after_drain l sys w') (ok w') (Only w)
          (Whenever-map (after_drain l sys w') (Only w') (Only w) (after_drain-Only w')
            λ u o. Only-trans taken o)
          taken)
        (record { plain = λ p. p; same_waiting = refl; room = omega arith }, refl, refl)

  pub handle_write-Only : (w : Conn l) → IsValid w.output → Whenever (handle_write l sys w) (Only w)
  unfolding handle_write
  handle_write-Only w v =
      Whenever-if (is_writing w.channel) _ _ (Only w)
        (after_write_fd-Only (write_fd (sys.write w.calls) w.output) w v)
        (Adds-refl 0 w, refl, refl)
