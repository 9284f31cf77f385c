-- ===== src/TcpConnection/Answering.antt =====
-- example/testserver.cc: what each handler of the echo server answers.
use muduo_learning.Prelude.{
  ℕ, ◌+◌, ◌≤◌, ◌≡◌, ◌≢◌, ◌∙◌, refl, ap, sym, arith, true, lt→ltb, suc, Option, List, [], ◌∷◌, ◌++◌,
  length, append-nil, Outcome, Returns, Returns-map, Returns-and, inl, inr,
}
use mathlib.Core.Path.{subst}
use muduo_learning.Buffer.{
  Buffer, retrieve_all_as_string, retrieve_as_string, retrieve, retrieve_all,
}
use muduo_learning.Buffer.Fd.{
  ReadResult, AtMost, after_readv, after_readv-Reads, length-after_readv, read_fd, read_room,
  extra_size,
}
use muduo_learning.Buffer.Invariant.{max_size, retrieve_all_as_string-IsValid}
use muduo_learning.Buffer.Contents.{contents, retrieve_all_as_string_lem}
use muduo_learning.Loop.{Loop}
use muduo_learning.TcpConnection.{
  connected, Conn, Sys, send, send_from, send_in_loop, after_read, handle_read, handle_write,
}
use muduo_learning.TcpConnection.Invariant.{Documented, stream, Inv}
use muduo_learning.TcpConnection.Sending.{Sends, send_in_loop-stream}
use muduo_learning.TcpConnection.Stream.{Keeps, handle_write-Keeps}
use muduo_learning.TcpConnection.Frame.{
  NeverFaults, Adds, Only, send_in_loop-Adds, handle_write-Only,
}
use muduo_learning.TcpConnection.Echo.{on_message, echo_handlers}

abbrev pub bytes_read : ReadResult → List ℕ
bytes_read (ReadResult.failed e) = []
bytes_read (ReadResult.got xs) = xs

module _ (l : Loop) (sys : Sys) (pointer : ℕ) (close : Option (Conn l → Outcome (Conn l))) where
  -- The connection answered `xs`.
  pub record Answers (xs : List ℕ) (w w' : Conn l) : Type 0 where
    pub inv : Inv l w'
    pub same_state : w'.state ≡ w.state
    pub all_read : contents w'.input ≡ []
    pub answered : stream l w' ≡ stream l w ++ xs
    pub input_room : length w'.input.storage ≤ length w.input.storage + length xs
    pub output_room : w'.output.writer_index ≤ w.output.writer_index + length xs

  same_storage : (b : Buffer) → (retrieve_all_as_string b).1.storage ≡ b.storage
  unfolding retrieve_all_as_string retrieve_as_string retrieve retrieve_all
  same_storage b = ground arith

  abbrev Replies : List ℕ → Conn l → Conn l → Type 0
  Replies xs w u =
      Inv l u
      × (u.state ≡ w.state)
      × (contents u.input ≡ [])
      × (stream l u ≡ stream l w ++ xs)
      × (u.input.storage ≡ w.input.storage)
      × (u.output.writer_index ≤ w.output.writer_index + length xs)

  on_message-Replies :
      (time : ℕ) (xs : List ℕ) (w : Conn l)
      → Documented sys
      → NeverFaults sys
      → Inv l w
      → w.state ≡ connected
      → contents w.input ≡ xs
      → w.output.writer_index + length xs ≤ max_size
      → Returns (on_message l sys pointer time w) (Replies xs w)
  unfolding on_message send
  on_message-Replies time xs w doc fine v in_state holds room =
      let (msg, b) = retrieve_all_as_string w.input in
      let (whole, left) = retrieve_all_as_string_lem v.input_valid in
      let w' = record w { input = b } in
      let v' : Inv l w' = record {
        input_valid = retrieve_all_as_string-IsValid v.input_valid;
        output_valid = v.output_valid;
        tracked = v.tracked;
        wish = v.wish;
        masked = v.masked;
        pending = v.pending;
      } in
      let same : msg ≡ xs = whole ∙ holds in
      subst (λ st. Returns (send_from l sys st true pointer msg w') (Replies xs w)) (sym in_state)
        (rw same (
          Returns-map (send_in_loop l sys xs w') _ _
            (Returns-and (send_in_loop l sys xs w') (Sends l sys xs w')
              (Adds l sys (λ p n. []) (length xs) w') (send_in_loop-stream l sys xs w' doc v' room)
              (send_in_loop-Adds l sys (λ p n. []) xs w' v.output_valid room))
            (λ u (g, a). (
              g.0,
              g.2,
              ap contents g.1 ∙ left,
              elim g.3 [ inl s ↦ s | inr (_, e, r, f) ↦ absurd (cc (fine w.calls xs e r, f)) ],
              ap (λ (i : Buffer). i.storage) g.1 ∙ same_storage w.input,
              a.room,
            ))))

  -- What `handleRead` does with what `readv` gives.
  after_readv-Answers :
      (r : ReadResult) (time : ℕ) (w : Conn l)
      → Documented sys
      → NeverFaults sys
      → Inv l w
      → length w.input.storage + extra_size ≤ max_size
      → w.state ≡ connected
      → contents w.input ≡ []
      → AtMost (read_room w.input) r
      → r ≢ ReadResult.got []
      → w.output.writer_index + length (bytes_read r) ≤ max_size
      → let (b, n) = after_readv r w.input in
        Returns
          (after_read l sys
            (echo_handlers l sys pointer close)
            time
            n
            (record w { input = b; calls = w.calls + 1 }))
          (Answers (bytes_read r) w)
  unfolding after_read echo_handlers
  after_readv-Answers (ReadResult.failed e) time w doc fine v room in_state fresh m more size =
      unfold after_readv in
      record {
        inv = v;
        same_state = refl;
        all_read = fresh;
        answered = sym (append-nil (stream l w));
        input_room = omega arith;
        output_room = omega arith;
      }
  after_readv-Answers (ReadResult.got []) time w doc fine v room in_state fresh m more size =
      absurd (more refl)
  after_readv-Answers (ReadResult.got (y ∷ ys)) time w doc fine v room in_state fresh m more size =
      let xs = y ∷ ys in
      let (valid, held, n) = after_readv-Reads (ReadResult.got xs) v.input_valid room m in
      let u = record w {
        input = (after_readv (ReadResult.got xs) w.input).0;
        calls = w.calls + 1;
      } in
      rw (n, lt→ltb 0 (suc (length ys)) (omega arith))
        (Returns-map (on_message l sys pointer time u) (Replies xs u) (Answers xs w)
          (on_message-Replies time xs u doc fine
            (record {
              input_valid = valid;
              output_valid = v.output_valid;
              tracked = v.tracked;
              wish = v.wish;
              masked = v.masked;
              pending = v.pending;
            })
            in_state (held ∙ ap (λ zs. zs ++ xs) fresh) size)
          λ x (i, st, empty, on, same, out). record {
            inv = i;
            same_state = st;
            all_read = empty;
            answered = on;
            input_room = omega (arith, ap length same, length-after_readv xs v.input_valid room m);
            output_room = out;
          })

  pub handle_read-Answers :
      (time : ℕ) (w : Conn l)
      → Documented sys
      → NeverFaults sys
      → Inv l w
      → length w.input.storage + extra_size ≤ max_size
      → w.state ≡ connected
      → contents w.input ≡ []
      → sys.readv w.calls (read_room w.input) ≢ ReadResult.got []
      → w.output.writer_index + length (bytes_read (sys.readv w.calls (read_room w.input)))
        ≤ max_size
      → Returns
          (handle_read l sys (echo_handlers l sys pointer close) time w)
          (Answers (bytes_read (sys.readv w.calls (read_room w.input))) w)
  unfolding handle_read read_fd
  handle_read-Answers time w doc fine v room in_state fresh more size =
      after_readv-Answers (sys.readv w.calls (read_room w.input)) time w doc fine v room in_state
        fresh (doc.readv_within w.calls (read_room w.input)) more size

  pub handle_write-Answers :
      (w : Conn l)
      → Documented sys
      → Inv l w
      → contents w.input ≡ []
      → Returns (handle_write l sys w) (Answers [] w)
  handle_write-Answers w doc v fresh =
      Returns-map (handle_write l sys w) _ _
        (Returns-and (handle_write l sys w) (Keeps l w) (Only l sys (λ p n. []) w)
          (handle_write-Keeps l sys w doc v) (handle_write-Only l sys (λ p n. []) w v.output_valid))
        λ u (k, o). record {
          inv = k.0;
          same_state = o.1;
          all_read = ap contents o.2 ∙ fresh;
          answered = k.1 ∙ sym (append-nil (stream l w));
          input_room = omega (arith, ap (λ (b : Buffer). length b.storage) o.2);
          output_room = o.0.room;
        }
