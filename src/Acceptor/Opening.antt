-- ===== src/Acceptor/Opening.antt =====
-- src/Acceptor.cc with src/Socket.cc: the acceptor's own socket, from the constructor to the
-- destructor.
use muduo_learning.Prelude.{
  ℕ, ◌+◌, ◌≡◌, ◌∙◌, refl, ap, Bool, true, false, Option, some, none, List, [], ◌∷◌, ◌++◌, Outcome,
  ok, fatal, ◌>>=◌, Returns, Returns-bind, append_assoc, take,
}
use muduo_learning.Channel
use muduo_learning.Channel.{Channel, read_event, with_reading}
use muduo_learning.Loop.{Loop}
use mathlib.Core.Path.{subst}
use muduo_learning.Text.{Text}
use muduo_learning.InetAddress.{InetAddress, default_address, af_inet}
use muduo_learning.Socket
use muduo_learning.Socket.{
  Call, call_socket, call_setsockopt, call_bind, call_listen, System, Socket, of_fd, after,
  bind_address, accept, call_accept4, call_close, accept_call, set_reuse_addr, set_reuse_port,
  sock_stream, sock_nonblock, sock_cloexec, ipproto_tcp, sol_socket, so_reuseaddr, so_reuseport,
  close, or_fatal,
}
use muduo_learning.Acceptor
use muduo_learning.Acceptor.{Acceptor, AcceptResult, failed, gives}
use muduo_learning.Acceptor.Listening.{listen-Listens}

abbrev pub socket_call : Call
socket_call = call_socket af_inet (sock_stream + sock_nonblock + sock_cloexec) ipproto_tcp

abbrev pub or_no_socket : Option ℕ → List Call → Outcome (ℕ × List Call)
or_no_socket none h = fatal
or_no_socket (some fd) h = ok (fd, h)

module _ (system : System) where
  unfoldable pub create_nonblocking : List Call → Outcome (ℕ × List Call)
  create_nonblocking h = or_no_socket (system.descriptor h socket_call) (after h socket_call)

  module _ (l : Loop) where
    -- The acceptor with its socket, and the system calls of the process.
    -- `peers` lists the addresses that the callback got with the descriptors.
    pub record Listener : Type 0 where
      pub socket : Socket
      pub acceptor : Acceptor l
      pub peers : List InetAddress
      pub calls : List Call

    -- The body of the constructor, behind `createNonblocking`; `reuseport` is not read.
    abbrev pub open_on : InetAddress → Bool → ℕ → l.State → ℕ × List Call → Outcome Listener
    open_on listen_addr reuseport channel_address s (fd, h) =
        bind_address system listen_addr (of_fd fd)
          (set_reuse_port true (of_fd fd) (set_reuse_addr true (of_fd fd) h))
        >>= λ h. ok (record {
          socket = of_fd fd;
          acceptor = Acceptor.init l channel_address fd s;
          peers = [];
          calls = h;
        })

    -- The constructor, with `channel_address` for the channel's, after the calls `h`.
    unfoldable pub construct_acceptor :
        InetAddress → Bool → ℕ → l.State → List Call → Outcome Listener
    construct_acceptor listen_addr reuseport channel_address s h =
        create_nonblocking h >>= open_on listen_addr reuseport channel_address s

    -- `listen`: the socket's, and the channel's part of it.
    unfoldable pub listen : Listener → Outcome Listener
    listen a = do
      h ← Socket.listen system a.socket a.calls
      acceptor ← Acceptor.listen l a.acceptor
      ok (record a { acceptor = acceptor; calls = h })

    abbrev pub result_of : ℕ → Option ℕ → AcceptResult
    result_of errno none = failed errno
    result_of errno (some connfd) = gives connfd

    -- A descriptor that no callback takes is closed.
    abbrev pub close_unless : Bool → Option ℕ → List Call → List Call
    close_unless true fd h = h
    close_unless false none h = h
    close_unless false (some connfd) h = after h (call_close connfd)

    abbrev pub hand_unless : Bool → Option ℕ → InetAddress → List InetAddress
    hand_unless false fd peer = []
    hand_unless true none peer = []
    hand_unless true (some connfd) peer = peer ∷ []

    -- `handleRead`, with the calls of `accept` and of `close`.
    unfoldable pub handle_accept : (Text → ℕ) → Listener → Listener
    handle_accept inet_addr a =
        let ((fd, peer), h) = accept system a.socket (default_address inet_addr) a.calls in
        let errno = system.errno a.calls (accept_call a.socket) in
        record a {
          acceptor = Acceptor.handle_read l (result_of errno fd) a.acceptor;
          peers = a.peers ++ hand_unless a.acceptor.has_callback fd peer;
          calls = close_unless a.acceptor.has_callback fd h;
        }

    -- The destructor, and then that of the socket, a member.
    unfoldable pub destroy : Listener → Outcome Listener
    destroy a = do
      acceptor ← Acceptor.destroy l a.acceptor
      ok (record a { acceptor = acceptor; calls = close a.socket a.calls })

    -- The system calls that open a listening socket, in their order.
    abbrev pub opening : ℕ → InetAddress → List Call
    opening fd listen_addr =
        socket_call
        ∷ call_setsockopt fd sol_socket so_reuseaddr 1
        ∷ call_setsockopt fd sol_socket so_reuseport 1
        ∷ call_bind fd listen_addr.addr
        ∷ call_listen fd 1024
        ∷ []

    abbrev pub Serves : ℕ → InetAddress → List Call → Listener → Type 0
    Serves fd listen_addr h a =
        (a.socket.sockfd ≡ fd)
        × (a.calls ≡ h ++ opening fd listen_addr)
        × (a.acceptor.listenning ≡ true)
        × (a.acceptor.channel.events ≡ read_event)
        × l.Tracked a.acceptor.channel a.acceptor.loop

    -- What becomes of the process, by the answers of `socket`, `bind` and `listen`.
    abbrev pub OpensOn : InetAddress → List Call → ℕ → Bool → Bool → Outcome Listener → Type 0
    OpensOn listen_addr h fd false heard r = r ≡ fatal
    OpensOn listen_addr h fd true false r = r ≡ fatal
    OpensOn listen_addr h fd true true r = Returns r (Serves fd listen_addr h)

    -- The answers of `bind` and `listen`, each after the calls that the code makes before.
    abbrev pub bound : InetAddress → List Call → ℕ → Bool
    bound listen_addr h fd =
        system.succeeds (h ++ take 3 (opening fd listen_addr)) (call_bind fd listen_addr.addr)

    abbrev pub heard : InetAddress → List Call → ℕ → Bool
    heard listen_addr h fd =
        system.succeeds (h ++ take 4 (opening fd listen_addr)) (call_listen fd 1024)

    abbrev pub Opens : InetAddress → List Call → Option ℕ → Outcome Listener → Type 0
    Opens listen_addr h none r = r ≡ fatal
    Opens listen_addr h (some fd) r =
        OpensOn listen_addr h fd (bound listen_addr h fd) (heard listen_addr h fd) r

    module _ (listen_addr : InetAddress) (channel_address : ℕ) (s : l.State) (h : List Call) where
      -- The loop's books agree with the acceptor's channel when it is new.
      abbrev pub IsTracked : ℕ → Type 0
      IsTracked fd = l.Tracked (Channel.init channel_address fd) s

      -- The listener with `calls` made so far.
      abbrev made : ℕ → List Call → Listener
      made fd calls = record {
        socket = of_fd fd;
        acceptor = Acceptor.init l channel_address fd s;
        peers = [];
        calls = calls;
      }

      listened :
          (fd : ℕ) (b : Bool) (calls : List Call)
          → calls ≡ h ++ take 4 (opening fd listen_addr)
          → IsTracked fd
          → OpensOn listen_addr h fd true b (
              or_fatal b (after calls (call_listen fd 1024)) >>= λ h.
              Acceptor.listen l (Acceptor.init l channel_address fd s) >>= λ acceptor.
              ok (record (made fd calls) { acceptor = acceptor; calls = h }))
      unfolding Acceptor.init Channel.init with_reading
      listened fd false calls e t = refl
      listened fd true calls e t =
          Returns-bind (Acceptor.listen l (Acceptor.init l channel_address fd s)) _ _
            (Serves fd listen_addr h) (listen-Listens l (Acceptor.init l channel_address fd s) t)
            (λ a g.
              (refl, ap (λ c. after c (call_listen fd 1024)) e ∙ append_assoc h _ _, g.0, g.1, g.2))

      bound_lem :
          (fd : ℕ) (b : Bool) (calls : List Call)
          → calls ≡ h ++ take 3 (opening fd listen_addr)
          → IsTracked fd
          → OpensOn listen_addr h fd b (heard listen_addr h fd) (
              or_fatal b (after calls (call_bind fd listen_addr.addr))
              >>= (λ h. ok (made fd h))
              >>= listen)
      unfolding listen Socket.listen
      bound_lem fd false calls e t = refl
      bound_lem fd true calls e t =
          let now = after calls (call_bind fd listen_addr.addr) in
          let e' : now ≡ h ++ take 4 (opening fd listen_addr) =
            ap (λ c. after c (call_bind fd listen_addr.addr)) e ∙ append_assoc h _ _ in
          subst
            (λ c.
              OpensOn listen_addr h fd true (system.succeeds c (call_listen fd 1024))
                (listen (made fd now)))
            e' (listened fd (system.succeeds now (call_listen fd 1024)) now e' t)

      opened :
          (o : Option ℕ) (reuseport : Bool)
          → ((fd : ℕ) → o ≡ some fd → IsTracked fd)
          → Opens listen_addr h o (
              or_no_socket o (after h socket_call)
              >>= open_on listen_addr reuseport channel_address s
              >>= listen)
      unfolding bind_address set_reuse_addr set_reuse_port
      opened none reuseport tracked = refl
      opened (some fd) reuseport tracked =
          let address = call_setsockopt fd sol_socket so_reuseaddr 1 in
          let port = call_setsockopt fd sol_socket so_reuseport 1 in
          let bind = call_bind fd listen_addr.addr in
          let before = after (after (after h socket_call) address) port in
          let e : before ≡ h ++ take 3 (opening fd listen_addr) =
            ap (λ c. after c port) (append_assoc h _ _) ∙ append_assoc h _ _ in
          subst
            (λ c. OpensOn listen_addr h fd (system.succeeds c bind) (heard listen_addr h fd) (
              open_on listen_addr reuseport channel_address s (fd, after h socket_call) >>= listen))
            e (bound_lem fd (system.succeeds before bind) before e (tracked fd refl))

      -- The acceptor's constructor and then `listen`, for a loop whose books agree with a new
      -- channel of the descriptor that `socket` gives, if it gives one: where `socket`, `bind` or
      -- `listen` fails, the process ends. Else it returns, and the calls are: `socket`,
      -- SO_REUSEADDR and SO_REUSEPORT set to 1, whatever `reuseport` says, then `bind` to the
      -- given address and `listen` with 1024, on the new descriptor; the acceptor is marked as
      -- listening, its channel waits for what comes in, and the loop's books agree with it.
      pub open_lem :
          (reuseport : Bool)
          → ((fd : ℕ) → system.descriptor h socket_call ≡ some fd → IsTracked fd)
          → Opens listen_addr h
              (system.descriptor h socket_call)
              (construct_acceptor listen_addr reuseport channel_address s h >>= listen)
      unfolding construct_acceptor create_nonblocking
      open_lem reuseport tracked = opened (system.descriptor h socket_call) reuseport tracked
