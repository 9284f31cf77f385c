-- ===== src/TcpConnection/Base.antt =====
-- include/TcpConnection.h: a connection's state, the calls of the system, and `shutdown`.
use muduo_learning.Prelude.{
  ℕ, ◌*◌, Bool, true, false, not, ◌&&◌, ◌||◌, ◌==◌, if◌then◌else◌, List, [], ◌∷◌, ◌++◌, Outcome, ok,
  ◌>>=◌,
}
use muduo_learning.Buffer
use muduo_learning.Buffer.{Buffer, readable_bytes, retrieve, append, initial_size, add_size}
use muduo_learning.Buffer.Fd.{ReadResult, IoResult}
use muduo_learning.Channel
use muduo_learning.Channel.{Channel, Callbacks, is_writing, tie, handle_event}
use muduo_learning.Loop.{Loop}

-- `StateE`
pub data State : Type 0 where
  disconnected connecting connected disconnecting : State

-- What is handed to `queueInLoop`: the write-complete and high-water callbacks, another round of
-- `sendFileInLoop`, and the calls that another thread made. `sends` holds a pointer and a length:
-- the bytes are read when the task runs.
pub data Task : Type 0 where
  write_completes : Task
  high_water_marks : ℕ → Task
  sends_file : ℕ → ℕ → ℕ → Task
  sends : ℕ → ℕ → Task
  shuts_down : Task

-- The system calls; the first argument is how many calls the connection made before.
pub record Sys : Type 0 where
  pub write : ℕ → List ℕ → IoResult
  pub readv : ℕ → ℕ → ReadResult
  -- `sendfile(socket, file, &offset, count)`: the bytes that it sent of the file.
  pub sendfile : ℕ → ℕ → ℕ → ℕ → ReadResult

abbrev pub ewouldblock : ℕ
ewouldblock = 11

abbrev pub epipe : ℕ
epipe = 32

abbrev pub econnreset : ℕ
econnreset = 104

-- `errno` values after which nothing more is written.
abbrev pub is_fault : ℕ → Bool
is_fault e = not (e == ewouldblock) && (e == epipe || e == econnreset)

-- `sent` is what the socket has taken, `shut` whether its write end is closed, `calls` how many
-- system calls were made, `tasks` what was queued in the loop; `S` is the loop's state.
pub record Connection (S : Type 0) : Type 0 where
  pub state : State
  pub reading : Bool
  pub channel : Channel
  pub input : Buffer
  pub output : Buffer
  pub high_water_mark : ℕ
  pub has_write_complete : Bool
  pub has_high_water_mark : Bool
  pub loop : S
  pub calls : ℕ
  pub sent : List ℕ
  pub shut : Bool
  pub tasks : List Task

abbrev pub Conn : Loop → Type 0
Conn l = Connection l.State

module _ (l : Loop) where
  -- The constructor; `address` is the new channel's.
  unfoldable pub init : ℕ → ℕ → l.State → Conn l
  unfolding Buffer.init Channel.init
  init address sockfd s = record {
    state = connecting;
    reading = true;
    channel = Channel.init address sockfd;
    input = Buffer.init initial_size;
    output = Buffer.init initial_size;
    high_water_mark = 64 * 1024 * 1024;
    has_write_complete = false;
    has_high_water_mark = false;
    loop = s;
    calls = 0;
    sent = [];
    shut = false;
    tasks = [];
  }

  abbrev pub set_state : State → Conn l → Conn l
  set_state st w = record w { state = st }

  abbrev pub queue : Task → Conn l → Conn l
  queue t w = record w { tasks = w.tasks ++ t ∷ [] }

  abbrev pub queue_if : Bool → Task → Conn l → Conn l
  queue_if b t w = record w { tasks = if b then w.tasks ++ t ∷ [] else w.tasks }

  -- A call of the channel's that goes to the loop.
  abbrev pub on_channel :
      (Channel → l.State → Outcome (Channel × l.State)) → Conn l → Outcome (Conn l)
  on_channel f w = f w.channel w.loop >>= λ r. ok (record w { channel = r.0; loop = r.1 })

  -- `shutdownInLoop`
  unfoldable pub shutdown_in_loop : Conn l → Conn l
  shutdown_in_loop w = if is_writing w.channel then w else record w { shut = true }

  -- `shutdown()`; `here` says whether the caller is the loop's thread.
  abbrev pub shutdown_from : State → Bool → Conn l → Conn l
  shutdown_from connected here w =
      let w' = set_state disconnecting w in
      if here then shutdown_in_loop w' else queue shuts_down w'
  shutdown_from disconnected here w = w
  shutdown_from connecting here w = w
  shutdown_from disconnecting here w = w

  unfoldable pub shutdown : Bool → Conn l → Conn l
  shutdown here w = shutdown_from w.state here w
