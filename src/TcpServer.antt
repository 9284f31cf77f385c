-- ===== src/TcpServer.antt =====
-- include/TcpServer.h and src/TcpServer.cc: the server's books of its connections, and what it
-- hands to the loops. A connection is named by its number, since `connName` is that number behind a
-- prefix that is the same for all (`TcpServer/Names.antt`). `nextConnId_` is taken not to overflow.
pub mod Ledger
pub mod Names
pub mod Serving
pub mod Starting
pub mod Callbacks
pub mod Loops
pub mod Bookkeeping
pub mod Lifetimes
pub mod Settling
pub mod Ending
pub mod Balance
pub mod Tests
use muduo_learning.Prelude.{
  ℕ, suc, ◌+◌, Bool, ◌==◌, if◌then◌else◌, Option, none, some, List, [], ◌∷◌, ◌++◌,
}
use muduo_learning.EventLoopThreadPool
use muduo_learning.EventLoopThreadPool.{EventLoopThreadPool, get_next_loop}

module _ (L : Type 0) where
  -- What the server keeps of a `TcpConnection`: its number, its descriptor, its loop.
  pub record Entry : Type 0 where
    pub number : ℕ
    pub sockfd : ℕ
    pub io_loop : L

  -- The functors that the server hands to a loop.
  pub data Job : Type 0 where
    listens : Job
    establishes : Entry → Job
    removes : Entry → Job
    destroys : Entry → Job

  -- `jobs` lists what was handed out, each to its loop, by `runInLoop` or `queueInLoop`.
  pub record TcpServer : Type 0 where
    pub pool : EventLoopThreadPool L
    pub next_conn_id : ℕ
    pub started : ℕ
    pub connections : List Entry
    pub jobs : List (L × Job)

module _ {L : Type 0} where
  unfoldable pub init : L → TcpServer L
  init base = record {
    pool = EventLoopThreadPool.init base;
    next_conn_id = 1;
    started = 0;
    connections = [];
    jobs = [];
  }

  abbrev pub hand : L → Job L → TcpServer L → TcpServer L
  hand l j s = record s { jobs = s.jobs ++ (l, j) ∷ [] }

  -- `connections_.erase(name)`, and `connections_[name] = conn`.
  abbrev pub erase : ℕ → List (Entry L) → List (Entry L)
  erase n [] = []
  erase n (c ∷ cs) = if c.number == n then erase n cs else c ∷ erase n cs

  abbrev pub insert : Entry L → List (Entry L) → List (Entry L)
  insert c cs = c ∷ erase c.number cs

  unfoldable pub set_thread_num : ℕ → TcpServer L → TcpServer L
  set_thread_num n s = record s { pool = EventLoopThreadPool.set_thread_num n s.pool }

  -- `start()`: only the first call does anything but count.
  unfoldable pub start : (ℕ → L) → Bool → TcpServer L → TcpServer L
  start start_loop has_cb s =
      let s' = record s { started = s.started + 1 } in
      if s.started == 0
      then hand s.pool.base_loop listens
          (record s' { pool = EventLoopThreadPool.start start_loop has_cb s.pool })
      else s'

  -- `newConnection(sockfd, peerAddr)`; `none` is what `getNextLoop` has out of range.
  unfoldable pub admit : ℕ → L × EventLoopThreadPool L → TcpServer L → TcpServer L
  admit sockfd (l, pool) s =
      let c : Entry L = record { number = s.next_conn_id; sockfd = sockfd; io_loop = l } in
      hand l (establishes c) (record s {
        pool = pool;
        next_conn_id = s.next_conn_id + 1;
        connections = insert c s.connections;
      })

  unfoldable pub new_connection : ℕ → TcpServer L → Option (TcpServer L)
  new_connection sockfd s = elim (get_next_loop s.pool) [
    | none ↦ none
    | some chosen ↦ some (admit sockfd chosen s)
  ]

  -- `removeConnection(conn)`, the close callback, and `removeConnectionInLoop(conn)`.
  unfoldable pub remove_connection : Entry L → TcpServer L → TcpServer L
  remove_connection c s = hand s.pool.base_loop (removes c) s

  unfoldable pub remove_connection_in_loop : Entry L → TcpServer L → TcpServer L
  remove_connection_in_loop c s =
      hand c.io_loop (destroys c) (record s { connections = erase c.number s.connections })

  -- The destructor goes over the map and empties it.
  unfoldable pub hand_destroys : List (Entry L) → List (L × Job L)
  hand_destroys [] = []
  hand_destroys (c ∷ cs) = (c.io_loop, destroys c) ∷ hand_destroys cs

  unfoldable pub destroy : TcpServer L → TcpServer L
  destroy s = record s { connections = []; jobs = s.jobs ++ hand_destroys s.connections }
