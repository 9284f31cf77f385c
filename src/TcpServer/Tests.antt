-- ===== src/TcpServer/Tests.antt =====
-- A server on three loops that accepts two connections and loses one.
use muduo_learning.Prelude.{
  ℕ, ◌⊎◌, ◌==◌, if◌then◌else◌, ◌+◌, ◌≤◌, ◌≡◌, refl, arith, some, inl, inr, none, true, false, [],
  Returns, ◌>>=◌,
}
use muduo_learning.Loop.{Loop}
use muduo_learning.Poller
use muduo_learning.Poller.Registry.{poller_loop}
use muduo_learning.Poller.Tests.{memory_epoll}
use muduo_learning.Text.{codes}
use muduo_learning.Acceptor.Tests.{address, granting, init-Tracked}
use muduo_learning.TcpServer.Serving.{construct_server, start_again, set_threads}
use muduo_learning.TcpServer.Starting.{Started, start_again-Started}
use muduo_learning.EventLoopThreadPool
use muduo_learning.EventLoopThreadPool.Round.{IsValid}
use muduo_learning.TcpServer
use muduo_learning.TcpServer.{
  Entry, establishes, TcpServer, init, admit, new_connection, remove_connection,
  remove_connection_in_loop, destroy,
}
use muduo_learning.TcpServer.Ledger.{established, destroyed, removed, listed}
use muduo_learning.TcpServer.Loops
use muduo_learning.TcpServer.Loops.{World, started_server, accept_on, close, call, execute, run_in}
use muduo_learning.TcpServer.Lifetimes.{lifetimes}
use muduo_learning.TcpServer.Ending.{destruct, destruct_ends}
use muduo_learning.TcpServer.Settling.{Runs, settles}
use muduo_learning.TcpServer.Balance.{accepts, asked, drops, Steps, done, next, connections_balance}

abbrev fresh : TcpServer ℕ
fresh = init 0

abbrev first : Entry ℕ
first = record { number = 1; sockfd = 7; io_loop = 0 }

abbrev one : TcpServer ℕ
one = admit 7 (0, fresh.pool) fresh

abbrev two : TcpServer ℕ
two = admit 8 (0, one.pool) one

abbrev left : TcpServer ℕ
left = remove_connection_in_loop first (remove_connection first two)

left-Steps : Steps fresh left
unfolding init admit new_connection remove_connection EventLoopThreadPool.init
    EventLoopThreadPool.get_next_loop
left-Steps = next {t = one} (accepts 7 refl) (
    next {t = two} (accepts 8 refl) (
      next {t = remove_connection first two} (asked first) (next (drops first (omega arith)) done)))

connections_balance_example :
    (established 1 left.jobs ≤ 1)
    × (established 1 left.jobs ≡ destroyed 1 left.jobs + listed 1 left.connections)
    × (established 1 (destroy left).jobs ≡ established 1 left.jobs)
    × (destroyed 1 (destroy left).jobs ≡ established 1 left.jobs)
connections_balance_example = connections_balance 0 {s = left} 1 left-Steps

left-pool : IsValid left.pool
unfolding init admit remove_connection remove_connection_in_loop EventLoopThreadPool.init
left-pool = inl (refl, refl)

abbrev fifth : ℕ
fifth = 5

abbrev here : Loop
here = poller_loop memory_epoll

abbrev books : here.State
books = Poller.init memory_epoll (λ fd. none)

start_again-Started_example :
    Returns
      (construct_server granting here ℕ (some 0) address (codes "EchoServer") true 100 books []
        >>= λ p. start_again granting here ℕ 2 (λ n. n + 1) false (set_threads granting here ℕ 3 p))
      (Started granting here ℕ address [] 3 0 (λ n. n + 1) false 3 1)
start_again-Started_example =
    start_again-Started granting here ℕ address true 100 books [] 3 refl refl refl (init-Tracked 3)
      0 (codes "EchoServer") (λ n. n + 1) false 3 1

-- A server on one further loop accepts a connection, which that loop establishes, and is closed.
abbrev serving : World
serving = started_server 10 1 (λ n. n + 20) false

abbrev taken : World
taken = accept_on 7 (20, serving.server.pool) serving

abbrev the_entry : Entry ℕ
the_entry = record { number = 1; sockfd = 7; io_loop = 20 }

abbrev raised : World
raised = call [] (20, establishes the_entry) [] taken

abbrev closing : World
closing = close the_entry raised

raised-Steps : Loops.Steps serving raised
unfolding started_server accept_on call execute run_in init TcpServer.start TcpServer.set_thread_num
    admit EventLoopThreadPool.init EventLoopThreadPool.get_next_loop EventLoopThreadPool.start
    EventLoopThreadPool.start_threads EventLoopThreadPool.set_thread_num
raised-Steps =
    Loops.next {v = taken}
      (Loops.next {v = serving} Loops.done (Loops.accepts serving 7 (20, serving.server.pool) refl))
      (Loops.calls taken [] (20, establishes the_entry) [] refl)

closing-Steps : Loops.Steps serving closing
unfolding call execute accept_on run_in started_server TcpServer.start TcpServer.set_thread_num init
    EventLoopThreadPool.start EventLoopThreadPool.start_threads EventLoopThreadPool.set_thread_num
    EventLoopThreadPool.init admit
closing-Steps =
    Loops.next {v = raised} raised-Steps (Loops.closes raised the_entry (inr (inl refl)))

lifetimes_example :
    (established 1 closing.ran ≤ 1)
    × (destroyed 1 closing.ran ≤ removed 1 closing.server.jobs)
    × ((destroyed 1 closing.ran ≡ 0)
        ⊎ ((established 1 closing.ran ≡ 1) × (listed 1 closing.server.connections ≡ 0)))
    × (listed 1 closing.server.connections ≤ 1)
lifetimes_example = lifetimes 10 1 (λ n. n + 20) false {w = closing} 1 closing-Steps

settles_example :
    (v : World) × Runs closing v
    × (v.queue ≡ [])
    × ((n : ℕ)
        → (destroyed n v.ran ≡ removed n closing.server.jobs)
          × (established n v.ran ≡ established n closing.server.jobs)
          × (listed n v.server.connections ≡ (
              if removed n closing.server.jobs == 0 then established n closing.server.jobs else 0)))
settles_example = settles 10 1 (λ n. n + 20) false {w = closing} closing-Steps

destruct_ends_example :
    (v : World) × Runs (destruct raised) v
    × (v.queue ≡ [])
    × ((n : ℕ)
        → (established n v.ran ≡ established n raised.server.jobs)
          × (established n v.ran ≤ 1)
          × (destroyed n v.ran ≡ (
              if removed n raised.server.jobs == 0
              then established n raised.server.jobs
              else removed n raised.server.jobs)))
unfolding call execute accept_on run_in
destruct_ends_example = destruct_ends 10 1 (λ n. n + 20) false {w = raised} raised-Steps (λ n. refl)
