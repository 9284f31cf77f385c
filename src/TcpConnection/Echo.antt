-- ===== src/TcpConnection/Echo.antt =====
-- example/testserver.cc: the echo server's callbacks, and that it echoes.
use muduo_learning.Prelude.{
  ℕ, ◌+◌, ◌≤◌, ◌≡◌, ◌∙◌, ap, arith, true, lt→ltb, suc, Option, List, [], ◌∷◌, ◌++◌, length, Outcome,
  ok, Returns, Returns-map, ◌⊎◌, inl, inr,
}
use muduo_learning.Buffer.{retrieve_all_as_string}
use muduo_learning.Buffer.Fd.{
  ReadResult, error, AtMost, after_readv, after_readv-Reads, read_fd, read_room,
}
use muduo_learning.Buffer.Invariant.{max_size, retrieve_all_as_string-IsValid}
use muduo_learning.Buffer.Contents.{contents, retrieve_all_as_string_lem}
use muduo_learning.Loop.{Loop}
use muduo_learning.TcpConnection.{
  State, disconnected, connecting, connected, disconnecting, Conn, Sys, Handlers, is_fault, send,
  send_from, send_in_loop, after_read, handle_read,
}
use muduo_learning.TcpServer.Callbacks.{
  UserCallbacks, no_user_callbacks, on_connections, on_messages, give_callbacks,
}
use muduo_learning.TcpConnection.Invariant.{Documented, stream, Inv}
use muduo_learning.TcpConnection.Sending.{send_in_loop-stream}
use muduo_learning.TcpConnection.Lifecycle.{HasRoom}

module _ (l : Loop) (sys : Sys) where
  -- `onMessage`, in the loop's thread; `pointer` is where the string stands.
  unfoldable pub on_message : ℕ → ℕ → Conn l → Outcome (Conn l)
  on_message pointer time w =
      let (msg, b) = retrieve_all_as_string w.input in
      send l sys true pointer msg (record w { input = b })

  -- The callbacks that the server's constructor sets; `onConnection` only logs.
  abbrev pub echo_callbacks : ℕ → UserCallbacks (Conn l)
  echo_callbacks pointer = on_messages (on_message pointer) (on_connections ok no_user_callbacks)

  -- Those of a connection. `close` is the server's `removeConnection`.
  unfoldable pub echo_handlers : ℕ → Option (Conn l → Outcome (Conn l)) → Handlers l
  echo_handlers pointer close = give_callbacks (echo_callbacks pointer) close

  -- What `onMessage` makes of a connection whose input buffer holds `xs`.
  abbrev pub Echoes : List ℕ → Conn l → Conn l → Type 0
  Echoes xs w w' =
      Inv l w'
      × (contents w'.input ≡ [])
      × ((stream l w' ≡ stream l w ++ xs)
          ⊎ ((stream l w' ≡ stream l w)
              × (k : ℕ) × (e : ℕ) × (sys.write k xs ≡ error e)
              × (is_fault e ≡ true)))

  -- In state kConnected and in the loop's thread, `send` is `sendInLoop`.
  send_from-Returns :
      (st : State) (pointer : ℕ) (bytes : List ℕ) (w : Conn l) (Q : Conn l → Type 0)
      → st ≡ connected
      → Returns (send_in_loop l sys bytes w) Q
      → Returns (send_from l sys st true pointer bytes w) Q
  send_from-Returns connected pointer bytes w Q up r = r
  send_from-Returns disconnected pointer bytes w Q up r = absurd cc
  send_from-Returns connecting pointer bytes w Q up r = absurd cc
  send_from-Returns disconnecting pointer bytes w Q up r = absurd cc

  on_message-Echoes :
      (pointer time : ℕ) (xs : List ℕ) (w : Conn l)
      → Documented sys
      → Inv l w
      → w.state ≡ connected
      → contents w.input ≡ xs
      → w.output.writer_index + length xs ≤ max_size
      → Returns (on_message pointer time w) (Echoes xs w)
  unfolding on_message send
  on_message-Echoes pointer time xs w doc v up holds room =
      let (msg, b) = retrieve_all_as_string w.input in
      let (whole, left) = retrieve_all_as_string_lem v.input_valid in
      let w' = record w { input = b } in
      let v' : Inv l w' = record {
        input_valid = retrieve_all_as_string-IsValid v.input_valid;
        output_valid = v.output_valid;
        tracked = v.tracked;
        wish = v.wish;
        masked = v.masked;
        pending = v.pending;
      } in
      let same : msg ≡ xs = whole ∙ holds in
      send_from-Returns w.state pointer msg w' (Echoes xs w) up (
        rw same (
          Returns-map (send_in_loop l sys xs w') _ (Echoes xs w)
            (send_in_loop-stream l sys xs w' doc v' room)
            (λ u g. (
              g.0,
              ap contents g.1 ∙ left,
              elim g.3 [ inl s ↦ inl s | inr (s, e, x, y) ↦ inr (s, w.calls, e, x, y) ],
            ))))

  after_readv-Echoes :
      (r : ReadResult) (pointer time x : ℕ) (xs : List ℕ)
      (close : Option (Conn l → Outcome (Conn l))) (w : Conn l)
      → Documented sys
      → Inv l w
      → HasRoom l w
      → w.state ≡ connected
      → contents w.input ≡ []
      → AtMost (read_room w.input) r
      → r ≡ ReadResult.got (x ∷ xs)
      → w.output.writer_index + length (x ∷ xs) ≤ max_size
      → let (b, n) = after_readv r w.input in
        Returns
          (after_read l sys
            (echo_handlers pointer close)
            time
            n
            (record w { input = b; calls = w.calls + 1 }))
          (Echoes (x ∷ xs) w)
  unfolding after_read echo_handlers
  after_readv-Echoes (ReadResult.failed e) pointer time x xs close w doc v room up fresh m is size =
      absurd cc
  after_readv-Echoes (ReadResult.got []) pointer time x xs close w doc v room up fresh m is size =
      absurd cc
  after_readv-Echoes (ReadResult.got (y ∷ ys)) pointer time x xs close w doc v room up fresh m is
        size =
      let (valid, held, n) = after_readv-Reads (ReadResult.got (y ∷ ys)) v.input_valid room m in
      let same : y ∷ ys ≡ x ∷ xs = cc in
      rw (n, lt→ltb 0 (suc (length ys)) (omega arith))
        (on_message-Echoes pointer time (x ∷ xs) _ doc
          (record {
            input_valid = valid;
            output_valid = v.output_valid;
            tracked = v.tracked;
            wish = v.wish;
            masked = v.masked;
            pending = v.pending;
          })
          up (held ∙ ap (λ zs. zs ++ (y ∷ ys)) fresh ∙ same) size)

  -- The echo server's `handleRead`, for a system that behaves as documented and a connection with
  -- the invariant that is connected, has room in its buffers for the bytes that `readv` gives and
  -- nothing unread, when `readv` gives at least one byte: it returns, the invariant holds, nothing
  -- is left unread, and the bytes follow all earlier ones towards the peer, sent or waiting, in
  -- order and unchanged; or else a `write` of them failed with EPIPE or ECONNRESET, and none of
  -- them is kept.
  pub handle_read-Echoes :
      (pointer time x : ℕ) (xs : List ℕ) (close : Option (Conn l → Outcome (Conn l))) (w : Conn l)
      → Documented sys
      → Inv l w
      → HasRoom l w
      → w.state ≡ connected
      → contents w.input ≡ []
      → sys.readv w.calls (read_room w.input) ≡ ReadResult.got (x ∷ xs)
      → w.output.writer_index + length (x ∷ xs) ≤ max_size
      → Returns (handle_read l sys (echo_handlers pointer close) time w) (Echoes (x ∷ xs) w)
  unfolding handle_read read_fd
  handle_read-Echoes pointer time x xs close w doc v room up fresh reads size =
      after_readv-Echoes (sys.readv w.calls (read_room w.input)) pointer time x xs close w doc v
        room up fresh (doc.readv_within w.calls (read_room w.input)) reads size
