-- ===== src/TcpConnection/Invariant.antt =====
-- The invariant of a connection, and what the connection relies on of the system calls.
use muduo_learning.Prelude.{ℕ, ◌≤◌, ◌≡◌, ◌≢◌, not, ◌==◌, List, ◌++◌, length, Returns, Returns-bind}
use muduo_learning.Buffer.{Buffer, readable_bytes}
use muduo_learning.Buffer.Fd.{IoResult, error, count, AtMost}
use muduo_learning.Buffer.Invariant.{IsValid}
use muduo_learning.Buffer.Contents.{contents}
use muduo_learning.Channel.{Channel, is_writing}
use muduo_learning.Channel.Masks.{Interest, mask}
use muduo_learning.Loop.{Loop, SameBut}
use muduo_learning.TcpConnection.{State, disconnected, Conn, Sys, on_channel}

-- `write` takes at most the bytes offered.
abbrev pub Within : ℕ → IoResult → Type 0
Within n (error e) = Unit
Within n (count m) = m ≤ n

-- The documented behaviour of `write` and `readv`.
pub record Documented (sys : Sys) : Type 0 where
  pub write_within : (k : ℕ) (bytes : List ℕ) → Within (length bytes) (sys.write k bytes)
  pub readv_within : (k n : ℕ) → AtMost n (sys.readv k n)

module _ (l : Loop) where
  -- What the user asked to send so far: the bytes the socket took, then those that wait.
  abbrev pub stream : Conn l → List ℕ
  stream w = w.sent ++ contents w.output

  -- `pending`: until the connection is closed, it waits for writing exactly while bytes wait.
  pub record Holds (st : State) (c : Channel) (s : l.State) (input output : Buffer) : Type 0 where
    pub input_valid : IsValid input
    pub output_valid : IsValid output
    pub tracked : l.Tracked c s
    pub wish : Interest
    pub masked : c.events ≡ mask wish
    pub pending : st ≢ disconnected → is_writing c ≡ not (readable_bytes output == 0)

  abbrev pub Inv : Conn l → Type 0
  Inv w = Holds w.state w.channel w.loop w.input w.output

  -- A change of the channel's events through the loop: the process goes on, with the channel and
  -- the loop's state in agreement again.
  pub on_channel_lem :
      (e : ℕ) (w : Conn l) (Q : Conn l → Type 0)
      → l.Tracked w.channel w.loop
      → ((c : Channel) (s : l.State)
          → SameBut (record w.channel { events = e }) c
          → l.Tracked c s
          → Q (record w { channel = c; loop = s }))
      → Returns (on_channel l (λ c s. l.update_channel (record c { events = e }) s) w) Q
  on_channel_lem e w Q t k =
      Returns-bind (l.update_channel (record w.channel { events = e }) w.loop) _ _ Q
        (l.update_tracked w.channel e w.loop t) (λ r h. k r.0 r.1 h.0 h.1)
