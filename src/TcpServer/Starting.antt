-- ===== src/TcpServer/Starting.antt =====
-- src/TcpServer.cc: the server listens once, however often it is started.
use muduo_learning.Prelude.{
  ℕ, zero, suc, ◌+◌, ◌≡◌, refl, sym, ap, ◌∙◌, Bool, true, false, ◌==◌, some, List, [], ◌∷◌, ◌++◌,
  ok, ◌>>=◌, arith, take, append_assoc, Returns, Returns-bind, Returns_of_ok,
}
use mathlib.Core.Path.{subst}
use muduo_learning.Channel
use muduo_learning.Channel.{read_event, none_event, with_reading}
use muduo_learning.Loop.{Loop}
use muduo_learning.Text.{Text}
use muduo_learning.InetAddress.{InetAddress, to_ip_port}
use muduo_learning.Socket
use muduo_learning.Socket.{
  Call, call_setsockopt, call_bind, call_listen, System, of_fd, after, or_fatal, sol_socket,
  so_reuseaddr, so_reuseport, bind_address, set_reuse_addr, set_reuse_port,
}
use muduo_learning.Acceptor
use muduo_learning.Acceptor.Opening.{
  Listener, construct_acceptor, create_nonblocking, socket_call, listen, opening, or_no_socket,
  open_on, bound, heard, Serves,
}
use muduo_learning.Acceptor.Listening.{listen-Listens}
use muduo_learning.TcpServer
use muduo_learning.TcpServer.{TcpServer, listens}
use muduo_learning.EventLoopThreadPool
use muduo_learning.TcpServer.Serving.{
  Server, take_callback, construct_server, listen_if, start_server, start_again, set_threads,
}

module _ (system : System) (l : Loop) (L : Type 0) where
  -- The server after `n + 1` starts.
  abbrev pub Started :
      InetAddress → List Call → ℕ → L → (ℕ → L) → Bool → ℕ → ℕ → Server system l L → Type 0
  Started listen_addr h fd base start_loop has_cb threads n p =
      Serves system l fd listen_addr h p.listener
      × (p.books.pool
          ≡ EventLoopThreadPool.start start_loop has_cb
              (EventLoopThreadPool.set_thread_num threads (EventLoopThreadPool.init base)))
      × (p.books.started ≡ suc n)
      × (p.books.jobs ≡ (base, listens) ∷ [])
      × (p.ip_port ≡ to_ip_port listen_addr)

  abbrev count_starts : ℕ → Server system l L → Server system l L
  count_starts n p = record p { books = record p.books { started = p.books.started + n } }

  start-idle :
      (start_loop : ℕ → L) (has_cb : Bool) (s : TcpServer L)
      → (s.started == 0) ≡ false
      → TcpServer.start start_loop has_cb s ≡ record s { started = s.started + 1 }
  unfolding TcpServer.start
  start-idle start_loop has_cb s h = ground (arith, h)

  start-counts :
      (start_loop : ℕ → L) (has_cb : Bool) (p : Server system l L)
      → (p.books.started == 0) ≡ false
      → start_server system l L start_loop has_cb p ≡ ok (count_starts 1 p)
  unfolding start_server TcpServer.start
  start-counts start_loop has_cb p h =
      ap
        (λ b.
          listen_if system l L b (record p { books = TcpServer.start start_loop has_cb p.books }))
        h
      ∙ ap (λ books. ok (record p { books = books })) (start-idle start_loop has_cb p.books h)

  start_again-counts :
      (start_loop : ℕ → L) (has_cb : Bool) (n : ℕ) (p : Server system l L) (m : ℕ)
      → p.books.started ≡ suc m
      → start_again system l L n start_loop has_cb p ≡ ok (count_starts n p)
  start_again-counts start_loop has_cb zero p m h =
      ap (λ k. ok (record p { books = record p.books { started = k } })) (omega arith)
  start_again-counts start_loop has_cb (suc n) p m h =
      ap (λ r. r >>= start_again system l L n start_loop has_cb)
        (start-counts start_loop has_cb p (ground (arith, h)))
      ∙ start_again-counts start_loop has_cb n (count_starts 1 p) (suc m) (omega (arith, h))
      ∙ ap (λ k. ok (record p { books = record p.books { started = k } })) (omega arith)

  module _ (listen_addr : InetAddress) (no_reuse_port : Bool) (channel_address : ℕ) (s : l.State)
      (h : List Call) (fd : ℕ) (given : system.descriptor h socket_call ≡ some fd)
      (is_bound : bound system l listen_addr h fd ≡ true) where
    -- The acceptor, constructed.
    abbrev opened : Listener system l
    opened = record {
      socket = of_fd fd;
      acceptor = Acceptor.init l channel_address fd s;
      peers = [];
      calls = h ++ take 4 (opening system l fd listen_addr);
    }

    construct_acceptor-opened :
        construct_acceptor system l listen_addr no_reuse_port channel_address s h ≡ ok opened
    unfolding construct_acceptor create_nonblocking bind_address set_reuse_addr set_reuse_port
    construct_acceptor-opened =
        let bind = call_bind fd listen_addr.addr in
        let address = call_setsockopt fd sol_socket so_reuseaddr 1 in
        let port = call_setsockopt fd sol_socket so_reuseport 1 in
        let before = after (after (after h socket_call) address) port in
        let e : before ≡ h ++ take 3 (opening system l fd listen_addr) =
          ap (λ c. after c port) (append_assoc h _ _) ∙ append_assoc h _ _ in
        ap
          (λ o.
            or_no_socket o (after h socket_call)
            >>= open_on system l listen_addr no_reuse_port channel_address s)
          given
        ∙ ap (λ b. or_fatal b (after before bind) >>= λ c. ok (record opened { calls = c }))
            (ap (λ c. system.succeeds c bind) e ∙ is_bound)
        ∙ ap (λ c. ok (record opened { calls = c })) (ap (λ c. after c bind) e ∙ append_assoc h _ _)

    module _ (is_heard : heard system l listen_addr h fd ≡ true) where
      listen-opened :
          (a : Acceptor.Acceptor l)
          → l.Tracked a.channel a.loop
          → a.channel.events ≡ none_event
          → Returns
              (listen system l (record opened { acceptor = a }))
              (Serves system l fd listen_addr h)
      unfolding listen Socket.listen with_reading
      listen-opened a t quiet =
          let calls = h ++ take 4 (opening system l fd listen_addr) in
          subst
            (λ b.
              Returns
                (or_fatal b (after calls (call_listen fd 1024)) >>= λ h.
                  Acceptor.listen l a >>= λ acceptor.
                  ok (record opened { acceptor = acceptor; calls = h }))
                (Serves system l fd listen_addr h))
            (sym is_heard)
            (Returns-bind (Acceptor.listen l a) _ _ (Serves system l fd listen_addr h)
              (listen-Listens l a t)
              (λ b g. (refl, append_assoc h _ _, g.0, g.1 ∙ ap with_reading quiet, g.2)))

      module _ (tracked : l.Tracked (Channel.init channel_address fd) s) (base : L) (name : Text)
          (start_loop : ℕ → L) (has_cb : Bool) (threads : ℕ) where
        abbrev constructed : Server system l L
        constructed =
            set_threads system l L threads (take_callback system l L listen_addr name base opened)

        -- The server after its first `start`.
        First : Server system l L → Type 0
        First p =
            Serves system l fd listen_addr h p.listener
            × (p.books ≡ TcpServer.start start_loop has_cb constructed.books)
            × (p.ip_port ≡ to_ip_port listen_addr)

        start_server-First : Returns (start_server system l L start_loop has_cb constructed) First
        unfolding First start_server TcpServer.init TcpServer.set_thread_num Acceptor.init
            Acceptor.set_new_connection_callback Channel.init
        start_server-First =
            Returns-bind
              (listen system l (record opened {
                acceptor =
                    Acceptor.set_new_connection_callback l (Acceptor.init l channel_address fd s);
              }))
              _ _ First
              (listen-opened
                (Acceptor.set_new_connection_callback l (Acceptor.init l channel_address fd s))
                tracked refl)
              (λ a serves. (serves, refl, refl))

        First-Started :
            (n : ℕ) (p : Server system l L)
            → First p
            → Started listen_addr h fd base start_loop has_cb threads n (count_starts n p)
        unfolding First TcpServer.init TcpServer.set_thread_num TcpServer.start
            EventLoopThreadPool.set_thread_num EventLoopThreadPool.init
        First-Started n p (serves, books, at) = (
          serves,
          ap (λ b. b.pool) books,
          ap (λ b. b.started + n) books ∙ omega arith,
          ap (λ b. b.jobs) books,
          at,
        )

        First-counts : (p : Server system l L) → First p → p.books.started ≡ 1
        unfolding First TcpServer.init TcpServer.set_thread_num TcpServer.start
        First-counts p (serves, books, at) = ap (λ b. b.started) books

        -- A server constructed on a loop, its number of threads set, and then started any number
        -- of times, at least once, where `socket`, `bind` and `listen` succeed and the loop's
        -- books agree with the acceptor's new channel: it returns; the system calls are those that
        -- open one socket, bind it and make it listen, each made once; the acceptor is marked as
        -- listening, its channel waits for what comes in, and the books agree with it; the pool is
        -- one that was started once, `listen` was handed to the base loop once, and the starts are
        -- counted.
        pub start_again-Started :
            (n : ℕ)
            → Returns
                (construct_server system l L
                    (some base)
                    listen_addr
                    name
                    no_reuse_port
                    channel_address
                    s
                    h
                  >>= λ p.
                      start_again system l L
                        (suc n)
                        start_loop
                        has_cb
                        (set_threads system l L threads p))
                (Started listen_addr h fd base start_loop has_cb threads n)
        unfolding construct_server
        start_again-Started n =
            subst
              (λ r.
                Returns
                  ((r >>= λ a. ok (take_callback system l L listen_addr name base a)) >>= λ p.
                    start_again system l L (suc n) start_loop has_cb
                      (set_threads system l L threads p))
                  (Started listen_addr h fd base start_loop has_cb threads n))
              (sym construct_acceptor-opened)
              (Returns-bind (start_server system l L start_loop has_cb constructed)
                (start_again system l L n start_loop has_cb) First
                (Started listen_addr h fd base start_loop has_cb threads n) start_server-First
                λ p first.
                  Returns_of_ok (Started listen_addr h fd base start_loop has_cb threads n)
                    (start_again-counts start_loop has_cb n p 0 (First-counts p first))
                    (First-Started n p first))
