-- ===== src/TcpServer/Serving.antt =====
-- src/TcpServer.cc with src/Acceptor.cc: how a server comes to listen.
use muduo_learning.Prelude.{
  ℕ, zero, suc, Bool, true, false, ◌==◌, Option, some, none, List, Outcome, ok, fatal, ◌>>=◌,
}
use muduo_learning.Loop.{Loop}
use muduo_learning.Text.{Text}
use muduo_learning.InetAddress.{InetAddress, to_ip_port}
use muduo_learning.Socket.{Call, System}
use muduo_learning.Acceptor
use muduo_learning.Acceptor.Opening.{Listener, construct_acceptor, listen}
use muduo_learning.TcpServer
use muduo_learning.TcpServer.{TcpServer, listens}

-- `CheckLoopNotNull`
abbrev pub check_loop_not_null {ℓ} : {L : Type ℓ} → Option L → Outcome L
check_loop_not_null none = fatal
check_loop_not_null (some loop) = ok loop

module _ (system : System) (l : Loop) (L : Type 0) where
  -- The server with its acceptor; `books` is what the rest of the server uses.
  pub record Server : Type 0 where
    pub ip_port : Text
    pub name : Text
    pub listener : Listener system l
    pub books : TcpServer L

  -- The body of the constructor: the acceptor's callback.
  abbrev pub take_callback : InetAddress → Text → L → Listener system l → Server
  take_callback listen_addr name base a = record {
    ip_port = to_ip_port listen_addr;
    name = name;
    listener = record a { acceptor = Acceptor.set_new_connection_callback l a.acceptor };
    books = TcpServer.init base;
  }

  -- The constructor; `no_reuse_port` says that `option` is kNoReusePort.
  unfoldable pub construct_server :
      Option L → InetAddress → Text → Bool → ℕ → l.State → List Call → Outcome Server
  construct_server loop listen_addr name no_reuse_port channel_address s h = do
    base ← check_loop_not_null loop
    a ← construct_acceptor system l listen_addr no_reuse_port channel_address s h
    ok (take_callback listen_addr name base a)

  -- `start()` in the loop's thread, where `runInLoop` calls `Acceptor::listen` at once; `first` says
  -- whether this is the first call.
  abbrev pub listen_if : Bool → Server → Outcome Server
  listen_if true p = listen system l p.listener >>= λ a. ok (record p { listener = a })
  listen_if false p = ok p

  unfoldable pub start_server : (ℕ → L) → Bool → Server → Outcome Server
  start_server start_loop has_cb p =
      listen_if (p.books.started == 0)
        (record p { books = TcpServer.start start_loop has_cb p.books })

  -- `start()` again and again.
  abbrev pub start_again : ℕ → (ℕ → L) → Bool → Server → Outcome Server
  start_again zero start_loop has_cb p = ok p
  start_again (suc n) start_loop has_cb p =
      start_server start_loop has_cb p >>= start_again n start_loop has_cb

  -- `setThreadNum`
  abbrev pub set_threads : ℕ → Server → Server
  set_threads n p = record p { books = TcpServer.set_thread_num n p.books }
