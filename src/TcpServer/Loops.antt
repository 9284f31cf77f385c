-- ===== src/TcpServer/Loops.antt =====
-- src/TcpServer.cc among loops: the main loop's thread accepts and removes, the connections' loops
-- establish, close and destroy them. A loop is named by its address.
use muduo_learning.Prelude.{ℕ, ◌≡◌, ◌==◌, ◌⊎◌, Bool, if◌then◌else◌, List, [], ◌∷◌, ◌++◌, some}
use muduo_learning.EventLoopThreadPool.{EventLoopThreadPool, get_next_loop}
use muduo_learning.TcpServer
use muduo_learning.TcpServer.{
  Entry, Job, listens, establishes, removes, destroys, TcpServer, admit, remove_connection,
  remove_connection_in_loop,
}

-- `queue` holds what was handed to the loops and not called yet, `ran` what they have called.
pub record World : Type 0 where
  pub server : TcpServer ℕ
  pub queue : List (ℕ × Job ℕ)
  pub ran : List (ℕ × Job ℕ)

-- `queueInLoop`.
abbrev pub queue_in : ℕ × Job ℕ → World → World
queue_in j w = record w { queue = w.queue ++ j ∷ [] }

abbrev pub mark_called : ℕ × Job ℕ → World → World
mark_called j w = record w { ran = w.ran ++ j ∷ [] }

-- A loop calls a job. `removeConnectionInLoop` hands out the next one, by `queueInLoop`.
unfoldable pub execute : ℕ × Job ℕ → World → World
execute (l, removes c) w =
    queue_in (c.io_loop, destroys c)
      (record (mark_called (l, removes c) w) { server = remove_connection_in_loop c w.server })
execute (l, listens) w = mark_called (l, listens) w
execute (l, establishes c) w = mark_called (l, establishes c) w
execute (l, destroys c) w = mark_called (l, destroys c) w

-- `runInLoop` in the thread of the loop `here`.
unfoldable pub run_in : ℕ → ℕ × Job ℕ → World → World
run_in here j w = if here == j.0 then execute j w else queue_in j w

abbrev pub base : World → ℕ
base w = w.server.pool.base_loop

-- A job was called.
abbrev pub In : {A : Type 0} → A → List A → Type 0
In x [] = ⊥
In x (y ∷ ys) = (x ≡ y) ⊎ In x ys

abbrev pub next_entry : ℕ → ℕ → World → Entry ℕ
next_entry sockfd l w = record { number = w.server.next_conn_id; sockfd = sockfd; io_loop = l }

-- `newConnection` in the main loop, for the loop that `getNextLoop` gave.
unfoldable pub accept_on : ℕ → ℕ × EventLoopThreadPool ℕ → World → World
accept_on sockfd chosen w =
    run_in (base w) (chosen.0, establishes (next_entry sockfd chosen.0 w))
      (record w { server = admit sockfd chosen w.server })

-- `removeConnection` in the connection's loop, called by `handleClose`.
unfoldable pub close : Entry ℕ → World → World
close c w =
    run_in c.io_loop (base w, removes c) (record w { server = remove_connection c w.server })

-- A loop calls a job that was handed to it.
unfoldable pub call : List (ℕ × Job ℕ) → ℕ × Job ℕ → List (ℕ × Job ℕ) → World → World
call front j back w = execute j (record w { queue = front ++ back })

pub data Step : World → World → Type 0 where
  accepts :
      (w : World) (sockfd : ℕ) (chosen : ℕ × EventLoopThreadPool ℕ)
      → get_next_loop w.server.pool ≡ some chosen
      → Step w (accept_on sockfd chosen w)
  -- `handleClose` of a connection that was established, in its loop. Nothing in the code keeps it from
  -- being called more than once.
  closes : (w : World) (c : Entry ℕ) → In (c.io_loop, establishes c) w.ran → Step w (close c w)
  -- The jobs of several loops are called in any order; those of one loop may be, too.
  calls :
      (w : World) (front : List (ℕ × Job ℕ)) (j : ℕ × Job ℕ) (back : List (ℕ × Job ℕ))
      → w.queue ≡ front ++ j ∷ back
      → Step w (call front j back w)

-- A new server of `threads` threads that was started.
unfoldable pub started_server : ℕ → ℕ → (ℕ → ℕ) → Bool → World
started_server base threads start_loop has_cb = record {
  server =
      TcpServer.start start_loop has_cb (TcpServer.set_thread_num threads (TcpServer.init base));
  queue = [];
  ran = (base, listens) ∷ [];
}

pub data Steps : World → World → Type 0 where
  done : {w : World} → Steps w w
  next : {u v w : World} → Steps u v → Step v w → Steps u w
