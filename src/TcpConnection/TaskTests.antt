-- ===== src/TcpConnection/TaskTests.antt =====
-- The queued tasks of a connection, and several connections in one loop, on a poller in memory.
use muduo_learning.Prelude.{
  none, ℕ, ◌+◌, ◌≤◌, ◌≡◌, refl, arith, false, List, [], ◌∷◌, ◌++◌, ◌-◌, ◌^◌, length, length-take,
  zero, suc, ◌<◌, ◌≢◌, take, Returns, ok, ◌>>=◌,
}
use muduo_learning.Buffer
use muduo_learning.Channel
use muduo_learning.Channel.{Channel, is_writing}
use muduo_learning.Poller
use muduo_learning.EventLoop.{push, start_loop}
use muduo_learning.EventLoop
use muduo_learning.EventLoop.Steps.{
  testing, polling, World, start, at, pushes, enters, goes_on, Steps, done, next, Reachable,
}
use muduo_learning.TcpConnection.{init, connected, Task, sends, Conn, handle_write, send, shutdown}
use muduo_learning.TcpConnection.Invariant.{stream, Inv}
use muduo_learning.TcpConnection.Tasks.{Later, run_tasks}
use muduo_learning.TcpConnection.Frame.{bytes_waiting, NeverFaults}
use muduo_learning.TcpConnection.Unclosed.{LeavesOpen}
use muduo_learning.TcpConnection.Running.{Discreet}
use muduo_learning.TcpConnection.Delivery.{
  Deed, asks, turns, asked, performs, Ready, performs_deliver,
}
use muduo_learning.TcpConnection.Conversation.{
  Happening, readable, writable, StaysOpen, most_read, converse, Listens, converse_echoes,
}
use muduo_learning.TcpConnection.HalfClose.{Ends, Overtakes, shutdown-Ends, shutdown-Overtakes}
use muduo_learning.TcpConnection.Threads.{Delivered, threads_deliver}
use muduo_learning.TcpConnection.Life.{establishes, shuts, perform}
use muduo_learning.TcpConnection.Forward.{rank, OnlyForward}
use muduo_learning.TcpConnection.Onward.{still, happens, Onward-Forward}
use muduo_learning.TcpConnection.Neighbours.{serve, AllHold, Neighbourly, AllowedAt}
use muduo_learning.TcpConnection.Together.{Together, none_yet, makes, serve-Together}
use muduo_learning.TcpConnection.Tests.{
  here, slow, slow-Documented, small, conn, idle, waiting, busy, waiting-contents, calm,
  calm-Careful, unheard, unheard-Tracked,
}

-- What stands at every pointer.
abbrev text : List ℕ
text = 5 ∷ 6 ∷ 7 ∷ 8 ∷ 9 ∷ []

abbrev later : Later here
later = record { write_complete = ok; high_water = λ n w. ok w; memory = λ pointer n. take n text }

later-Discreet : Discreet here slow later
later-Discreet = record {
  write_complete_keeps = λ w v. (v, refl, refl, refl, refl);
  high_water_keeps = λ n w v. (v, refl, refl, refl, refl);
}

later-LeavesOpen : LeavesOpen here slow later
later-LeavesOpen = record { write_complete_leaves = λ w. refl; high_water_leaves = λ n w. refl }

slow-NeverFaults : NeverFaults slow
slow-NeverFaults = λ k bytes e h. cc (h)

abbrev deeds : List Deed
deeds = asks 40 text ∷ turns ∷ asks 60 (5 ∷ []) ∷ Deed.writable ∷ []

small-Ready : Ready here slow later (length (asked deeds)) (conn connected 0 small)
unfolding Buffer.init
small-Ready = record { inv = idle connected; in_state = refl; plain = tt; room = omega arith }

performs_deliver_example :
    Returns
      (performs here slow later deeds (conn connected 0 small) >>= run_tasks here slow later)
      λ w'.
        (stream here w'
          ≡ (stream here (conn connected 0 small) ++ bytes_waiting later.memory []) ++ asked deeds)
        × (bytes_waiting later.memory w'.tasks ≡ [])
        × Inv here w'
        × (w'.state ≡ connected)
performs_deliver_example =
    performs_deliver here slow later deeds (conn connected 0 small) slow-Documented slow-NeverFaults
      later-Discreet (refl, (refl, tt)) small-Ready

abbrev asked_once : Conn here
asked_once = record (conn connected 0 small) { tasks = sends 40 5 ∷ [] }

asked_once-Ready : Ready here slow later 0 asked_once
unfolding Buffer.init
asked_once-Ready = record {
  inv = idle connected;
  in_state = refl;
  plain = (tt, tt);
  room = omega arith;
}

shutdown-Ends_example :
    Returns
      (run_tasks here slow later (shutdown here false asked_once))
      (Ends here slow later asked_once)
shutdown-Ends_example =
    shutdown-Ends here slow later asked_once slow-Documented slow-NeverFaults later-Discreet
      later-LeavesOpen asked_once-Ready

shutdown-Overtakes_example :
    Returns
      (send here slow false 40 text (conn connected 4 waiting) >>= λ u.
        handle_write here slow (shutdown here false u))
      (Overtakes here slow later 40 text (conn connected 4 waiting))
unfolding Channel.init is_writing
shutdown-Overtakes_example =
    shutdown-Overtakes here slow later 40 text (conn connected 4 waiting) (busy connected) refl refl
      refl (rw waiting-contents refl)

-- A loop in `poll` that another thread has handed a send to.
abbrev entered : World Task
entered = at testing (start_loop (start Task).event_loop) (start Task)

abbrev in_poll : World Task
in_poll = at polling entered.event_loop entered

abbrev handed : World Task
handed = record in_poll {
  event_loop = push (sends 40 5) in_poll.event_loop;
  waking = 1;
  queued = sends 40 5 ∷ [];
}

handed-Reachable : Reachable handed
unfolding start start_loop EventLoop.init
handed-Reachable =
    next (enters (start Task) refl)
      (next (goes_on entered refl refl) (next (pushes in_poll (sends 40 5)) (done handed)))

small-room : small.writer_index + 5 ≤ 2 ^ 63 - 1
unfolding Buffer.init
small-room = omega arith

threads_deliver_example :
    Delivered here slow later
      (conn connected 0 small)
      (bytes_waiting later.memory handed.ran)
      handed
    × ((rest : List ℕ) × (bytes_waiting later.memory handed.queued
          ≡ bytes_waiting later.memory handed.ran ++ rest))
    × ((v : World Task) × Steps handed v
        × (v.queued ≡ handed.queued)
        × Delivered here slow later
            (conn connected 0 small)
            (bytes_waiting later.memory handed.queued)
            v)
threads_deliver_example =
    threads_deliver here slow later (conn connected 0 small) handed slow-Documented slow-NeverFaults
      later-Discreet (idle connected) handed-Reachable refl (tt, tt) small-room

calm-OnlyForward : OnlyForward here calm
calm-OnlyForward = record {
  connection_forward = λ w. omega arith;
  close_forward = λ w. omega arith;
  message_forward = λ time w. omega arith;
}

abbrev closing : Conn here
closing = shutdown here false (conn connected 4 waiting)

Onward-Forward_example : rank (conn connected 4 waiting).state ≤ rank closing.state
unfolding perform
Onward-Forward_example =
    Onward-Forward here slow calm {w = conn connected 4 waiting} {v = closing} calm-OnlyForward
      (happens (shuts false) (still (conn connected 4 waiting)) tt refl)

abbrev pair : List (Conn here)
pair = init here 100 7 unheard ∷ init here 200 8 unheard ∷ []

calm-Neighbourly : Neighbourly here slow calm
calm-Neighbourly = record {
  alone = calm-Careful;
  with_other = λ d. record {
    connection_keeps = λ w v room. (v, room);
    close_keeps = λ w v room. (v, room);
    message_keeps = λ time w v. v;
  };
}

second-Tracked : here.Tracked (Channel.init 200 8) unheard
unfolding Channel.init Poller.init
second-Tracked = refl

pair-Together : Together here slow calm unheard pair
unfolding init Channel.init
pair-Together =
    makes 100 7 unheard (init here 200 8 unheard ∷ [])
      (makes 200 8 unheard [] (none_yet unheard) second-Tracked tt) unheard-Tracked
      (λ e. absurd (omega (arith, e)), tt)

second-Allowed : AllowedAt here slow calm 1 establishes unheard pair
unfolding init Buffer.init
second-Allowed = (refl, omega arith)

serve-Together_example :
    Returns (serve here slow calm 1 establishes unheard pair) λ r. AllHold here slow calm r.0 r.1
serve-Together_example =
    serve-Together here slow calm 1 establishes slow-Documented calm-Neighbourly pair-Together
      second-Allowed

-- Reads of up to three bytes, and a socket that takes four at a time.
abbrev given : List ℕ
given = 7 ∷ 8 ∷ 9 ∷ []

take_some : (n : ℕ) → 0 < n → take n given ≢ []
take_some zero h e = absurd (omega arith)
take_some (suc n) h e = cc (e)

slow-StaysOpen : StaysOpen slow 3
slow-StaysOpen = record {
  gives_some = λ k n h e. take_some n h (cc (e));
  gives_few = λ k n. omega (arith, length-take {A = ℕ} n (7 ∷ 8 ∷ 9 ∷ []));
}

abbrev exchange : List Happening
exchange = readable 1 ∷ readable 2 ∷ writable ∷ readable 3 ∷ []

small-Listens : Listens here slow 40 none (most_read 3 exchange) (conn connected 0 small)
unfolding Buffer.init
small-Listens = record {
  inv = idle connected;
  in_state = refl;
  all_read = refl;
  input_room = omega arith;
  output_room = omega arith;
}

converse_echoes_example :
    Returns (converse here slow 40 none exchange (conn connected 0 small, [])) λ r.
      Listens here slow 40 none 0 r.0
      × (stream here r.0 ≡ stream here (conn connected 0 small) ++ r.1)
converse_echoes_example =
    converse_echoes here slow 40 none exchange (conn connected 0 small) 3 slow-Documented
      slow-NeverFaults slow-StaysOpen small-Listens
