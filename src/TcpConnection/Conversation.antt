-- ===== src/TcpConnection/Conversation.antt =====
-- example/testserver.cc: a whole conversation with the echo server.
use muduo_learning.Prelude.{
  ℕ, ◌+◌, ◌≤◌, ◌<◌, ◌≡◌, ◌≢◌, ◌∙◌, ap, sym, arith, Option, List, [], ◌∷◌, ◌++◌, length, append-nil,
  append_assoc, Outcome, ok, ◌>>=◌, Returns, Returns-bind,
}
use muduo_learning.Buffer.{Buffer}
use muduo_learning.Buffer.Fd.{ReadResult, read_room, extra_size}
use muduo_learning.Buffer.Invariant.{max_size}
use muduo_learning.Buffer.Contents.{contents}
use muduo_learning.Loop.{Loop}
use muduo_learning.TcpConnection.{connected, Conn, Sys, handle_read, handle_write}
use muduo_learning.TcpConnection.Invariant.{Documented, stream, Inv}
use muduo_learning.TcpConnection.Frame.{NeverFaults}
use muduo_learning.TcpConnection.Echo.{echo_handlers}
use muduo_learning.TcpConnection.Answering.{
  bytes_read, Answers, handle_read-Answers, handle_write-Answers,
}

-- The socket can be read from, at a time, or can be written to.
pub data Happening : Type 0 where
  readable : ℕ → Happening
  writable : Happening

-- The peer does not close, and each read gives at most `most` bytes.
pub record StaysOpen (sys : Sys) (most : ℕ) : Type 0 where
  pub gives_some : (k n : ℕ) → 0 < n → sys.readv k n ≢ ReadResult.got []
  pub gives_few : (k n : ℕ) → length (bytes_read (sys.readv k n)) ≤ most

-- The most bytes that can be read.
abbrev pub most_read : ℕ → List Happening → ℕ
most_read most [] = 0
most_read most (readable time ∷ hs) = most + most_read most hs
most_read most (writable ∷ hs) = most_read most hs

read_room_pos : (b : Buffer) → 0 < read_room b
unfolding read_room
read_room_pos b = ground arith

module _ (l : Loop) (sys : Sys) (pointer : ℕ) (close : Option (Conn l → Outcome (Conn l))) where
  -- The handlers one after another; the second component collects what was read.
  unfoldable pub converse : List Happening → Conn l × List ℕ → Outcome (Conn l × List ℕ)
  converse [] (w, got) = ok (w, got)
  converse (readable time ∷ hs) (w, got) =
      handle_read l sys (echo_handlers l sys pointer close) time w >>= λ u.
      converse hs (u, got ++ bytes_read (sys.readv w.calls (read_room w.input)))
  converse (writable ∷ hs) (w, got) = handle_write l sys w >>= λ u. converse hs (u, got)

  -- Connected, with nothing unread, and room for `n` bytes more in both buffers.
  pub record Listens (n : ℕ) (w : Conn l) : Type 0 where
    pub inv : Inv l w
    pub in_state : w.state ≡ connected
    pub all_read : contents w.input ≡ []
    pub input_room : length w.input.storage + extra_size + n ≤ max_size
    pub output_room : w.output.writer_index + n ≤ max_size

  goes_on :
      (k n : ℕ) (xs : List ℕ) {w u : Conn l}
      → length xs + n ≤ k
      → Listens k w
      → Answers l sys pointer close xs w u
      → Listens n u
  goes_on k n xs h i a = record {
    inv = a.inv;
    in_state = a.same_state ∙ i.in_state;
    all_read = a.all_read;
    input_room = omega (arith, i.input_room, a.input_room);
    output_room = omega (arith, i.output_room, a.output_room);
  }

  -- The stream is what it was, then everything read.
  abbrev pub Echoed : List ℕ → Conn l × List ℕ → Type 0
  Echoed before (w, got) = stream l w ≡ before ++ got

  extends :
      (before got xs : List ℕ) {w u : Conn l}
      → Echoed before (w, got)
      → Answers l sys pointer close xs w u
      → Echoed before (u, got ++ xs)
  extends before got xs e a = a.answered ∙ ap (λ t. t ++ xs) e ∙ append_assoc before got xs

  converse-Echoed :
      (hs : List Happening) (before got : List ℕ) (w : Conn l) (most : ℕ)
      → Documented sys
      → NeverFaults sys
      → StaysOpen sys most
      → Listens (most_read most hs) w
      → Echoed before (w, got)
      → Returns (converse hs (w, got)) λ r. Listens 0 r.0 × Echoed before r
  unfolding converse
  converse-Echoed [] before got w most doc fine stays i e = (i, e)
  converse-Echoed (readable time ∷ hs) before got w most doc fine stays i e =
      let r = sys.readv w.calls (read_room w.input) in
      let few = stays.gives_few w.calls (read_room w.input) in
      Returns-bind (handle_read l sys (echo_handlers l sys pointer close) time w) _
        (Answers l sys pointer close (bytes_read r) w) _
        (handle_read-Answers l sys pointer close time w doc fine i.inv (omega (arith, i.input_room))
          i.in_state i.all_read
          (stays.gives_some w.calls (read_room w.input) (read_room_pos w.input))
          (omega (arith, few, i.output_room)))
        λ u a.
          converse-Echoed hs before (got ++ bytes_read r) u most doc fine stays
            (goes_on (most + most_read most hs) (most_read most hs) (bytes_read r)
              (omega (arith, few)) i a)
            (extends before got (bytes_read r) e a)
  converse-Echoed (writable ∷ hs) before got w most doc fine stays i e =
      Returns-bind (handle_write l sys w) _ (Answers l sys pointer close [] w) _
        (handle_write-Answers l sys pointer close w doc i.inv i.all_read)
        λ u a.
          converse-Echoed hs before got u most doc fine stays
            (goes_on (most_read most hs) (most_read most hs) [] (omega arith) i a)
            (extends before got [] e a ∙ ap (λ t. before ++ t) (append-nil got))

  -- The echo server with a system that behaves as documented, none of whose writes fails with
  -- EPIPE or ECONNRESET, and whose peer does not close and sends at most `most` bytes at a time: a
  -- connection in state kConnected, with its invariant, nothing unread and room for all that can
  -- come. Whatever the order in which the socket can be read from and written to, and whatever the
  -- reads and writes give, handling all of it returns, the connection is still connected with its
  -- invariant and nothing unread, and the stream to the peer is what it was, followed by
  -- everything that was read, in order and unchanged.
  pub converse_echoes :
      (hs : List Happening) (w : Conn l) (most : ℕ)
      → Documented sys
      → NeverFaults sys
      → StaysOpen sys most
      → Listens (most_read most hs) w
      → Returns (converse hs (w, [])) λ r. Listens 0 r.0 × (stream l r.0 ≡ stream l w ++ r.1)
  converse_echoes hs w most doc fine stays i =
      converse-Echoed hs (stream l w) [] w most doc fine stays i (sym (append-nil (stream l w)))
