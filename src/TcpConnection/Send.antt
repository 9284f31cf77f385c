-- ===== src/TcpConnection/Send.antt =====
-- src/TcpConnection.cc: `send`, `sendFile`, and their parts in the loop's thread.
use muduo_learning.Prelude.{
  ℕ, ◌+◌, ◌^◌, Bool, false, not, ◌&&◌, ◌||◌, ◌==◌, ltb, leb, if◌then◌else◌, List, ◌++◌, length,
  take, drop, Outcome, ok,
}
use muduo_learning.Buffer.{readable_bytes, append, add_size, sub_size}
use muduo_learning.Buffer.Fd.{ReadResult, IoResult, error, count}
use muduo_learning.Channel.{is_writing}
use muduo_learning.Loop.{Loop, enable_writing}
use muduo_learning.TcpConnection.Base.{
  State, disconnected, connecting, connected, disconnecting, write_completes, high_water_marks,
  sends_file, sends, Sys, epipe, econnreset, is_fault, Conn, queue, queue_if, on_channel,
}

-- `n > 0` for an `ssize_t`.
abbrev pub is_positive : ℕ → Bool
is_positive n = ltb 0 n && ltb n (2 ^ 63)

module _ (l : Loop) (sys : Sys) where
  -- The first half of `sendInLoop`: what remains to be sent, and whether a fault is to stop it.
  unfoldable pub after_write : IoResult → List ℕ → Conn l → Conn l × List ℕ × Bool
  after_write (count n) bytes w =
      let rest = drop n bytes in
      let w' = record w { sent = w.sent ++ take n bytes; calls = w.calls + 1 } in
      (queue_if l (length rest == 0 && w.has_write_complete) write_completes w', rest, false)
  after_write (error e) bytes w = (record w { calls = w.calls + 1 }, bytes, is_fault e)

  unfoldable pub write_directly : List ℕ → Conn l → Conn l × List ℕ × Bool
  write_directly bytes w =
      if not (is_writing w.channel) && readable_bytes w.output == 0
      then after_write (sys.write w.calls bytes) bytes w
      else (w, bytes, false)

  -- The second half: what remains is appended to the output buffer, with the high-water callback
  -- if that passes the mark, and the channel waits for writing.
  unfoldable pub keep_rest : List ℕ → Conn l → Conn l
  keep_rest rest w =
      let old = readable_bytes w.output in
      let total = add_size old (length rest) in
      let passes =
        leb w.high_water_mark total && ltb old w.high_water_mark && w.has_high_water_mark in
      record (queue_if l passes (high_water_marks total) w) { output = append rest w.output }

  unfoldable pub buffer_rest : Conn l × List ℕ × Bool → Outcome (Conn l)
  buffer_rest (w, rest, fault) =
      if not fault && ltb 0 (length rest)
      then (let w' = keep_rest rest w in
          if not (is_writing w'.channel) then on_channel l (enable_writing l) w' else ok w')
      else ok w

  -- `sendInLoop(data, len)`. In state kDisconnected the source logs "give up writing" and goes on.
  unfoldable pub send_in_loop : List ℕ → Conn l → Outcome (Conn l)
  send_in_loop bytes w = buffer_rest (write_directly bytes w)

  -- `send(buf)`, where `buf.c_str()` is `pointer`.
  abbrev pub send_from : State → Bool → ℕ → List ℕ → Conn l → Outcome (Conn l)
  send_from connected here pointer bytes w =
      if here then send_in_loop bytes w else ok (queue l (sends pointer (length bytes)) w)
  send_from disconnected here pointer bytes w = ok w
  send_from connecting here pointer bytes w = ok w
  send_from disconnecting here pointer bytes w = ok w

  unfoldable pub send : Bool → ℕ → List ℕ → Conn l → Outcome (Conn l)
  send here pointer bytes w = send_from w.state here pointer bytes w

  -- `sendFileInLoop`: the state kDisconnecting gives up, and what remains is queued once more. The
  -- `ssize_t` of what remains is its word of 64 bits.
  unfoldable pub after_sendfile : ReadResult → ℕ → ℕ → ℕ → Conn l → Conn l × ℕ × ℕ × Bool
  after_sendfile (ReadResult.got xs) file offset n w =
      let remaining = sub_size n (length xs) in
      let w' = record w { sent = w.sent ++ xs; calls = w.calls + 1 } in
      (
        queue_if l (remaining == 0 && w.has_write_complete) write_completes w',
        offset + length xs,
        remaining,
        false,
      )
  after_sendfile (ReadResult.failed e) file offset n w =
      (record w { calls = w.calls + 1 }, offset, n, e == epipe || e == econnreset)

  unfoldable pub sendfile_directly : ℕ → ℕ → ℕ → Conn l → Conn l × ℕ × ℕ × Bool
  sendfile_directly file offset n w =
      if not (is_writing w.channel) && readable_bytes w.output == 0
      then after_sendfile (sys.sendfile w.calls file offset n) file offset n w
      else (w, offset, n, false)

  abbrev pub requeue_rest : ℕ → Conn l × ℕ × ℕ × Bool → Conn l
  requeue_rest file (w, offset, remaining, fault) =
      queue_if l (not fault && is_positive remaining) (sends_file file offset remaining) w

  abbrev pub send_file_from : State → ℕ → ℕ → ℕ → Conn l → Conn l
  send_file_from disconnecting file offset n w = w
  send_file_from connected file offset n w = requeue_rest file (sendfile_directly file offset n w)
  send_file_from disconnected file offset n w =
      requeue_rest file (sendfile_directly file offset n w)
  send_file_from connecting file offset n w = requeue_rest file (sendfile_directly file offset n w)

  unfoldable pub send_file_in_loop : ℕ → ℕ → ℕ → Conn l → Conn l
  send_file_in_loop file offset n w = send_file_from w.state file offset n w

  -- `sendFile(fileDescriptor, offset, count)`: off the loop's thread the task is queued.
  abbrev pub send_file_if : State → Bool → ℕ → ℕ → ℕ → Conn l → Conn l
  send_file_if connected here file offset n w =
      if here then send_file_in_loop file offset n w else queue l (sends_file file offset n) w
  send_file_if disconnected here file offset n w = w
  send_file_if connecting here file offset n w = w
  send_file_if disconnecting here file offset n w = w

  unfoldable pub send_file : Bool → ℕ → ℕ → ℕ → Conn l → Conn l
  send_file here file offset n w = send_file_if w.state here file offset n w
