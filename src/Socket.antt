-- ===== src/Socket.antt =====
-- include/Socket.h and src/Socket.cc: the system calls on a socket. What the kernel answers is a
-- parameter, a function of the calls made before; log lines are left out.
use muduo_learning.Prelude.{
  ℕ, ◌+◌, Bool, true, false, if◌then◌else◌, Option, some, none, List, [], ◌∷◌, ◌++◌, Outcome, ok,
  fatal,
}
use muduo_learning.InetAddress.{InetAddress, SockaddrIn, get_sock_addr, set_sock_addr}

-- The constants of the system's headers.
abbrev pub sock_stream : ℕ
sock_stream = 1

abbrev pub sock_nonblock : ℕ
sock_nonblock = 2048

abbrev pub sock_cloexec : ℕ
sock_cloexec = 524288

abbrev pub ipproto_tcp : ℕ
ipproto_tcp = 6

abbrev pub tcp_nodelay : ℕ
tcp_nodelay = 1

abbrev pub sol_socket : ℕ
sol_socket = 1

abbrev pub so_reuseaddr : ℕ
so_reuseaddr = 2

abbrev pub so_keepalive : ℕ
so_keepalive = 9

abbrev pub so_reuseport : ℕ
so_reuseport = 15

abbrev pub shut_wr : ℕ
shut_wr = 1

-- A system call with its arguments.
pub data Call : Type 0 where
  call_socket : ℕ → ℕ → ℕ → Call
  call_setsockopt : ℕ → ℕ → ℕ → ℕ → Call
  call_bind : ℕ → SockaddrIn → Call
  call_listen : ℕ → ℕ → Call
  call_accept4 : ℕ → ℕ → Call
  call_shutdown : ℕ → ℕ → Call
  call_close : ℕ → Call

-- The kernel: the descriptor that a call gives (`none` is -1), whether a call returns 0, and the
-- address that `accept4` stores, and `errno`, each after the calls that the list names.
pub record System : Type 0 where
  pub descriptor : List Call → Call → Option ℕ
  pub succeeds : List Call → Call → Bool
  pub peer : List Call → SockaddrIn
  pub errno : List Call → Call → ℕ

pub record Socket : Type 0 where
  pub sockfd : ℕ

-- The constructor.
abbrev pub of_fd : ℕ → Socket
of_fd fd = record { sockfd = fd }

-- One more call.
abbrev pub after : List Call → Call → List Call
after h c = h ++ c ∷ []

-- The destructor.
unfoldable pub close : Socket → List Call → List Call
close s h = after h (call_close s.sockfd)

-- `int optval = on ? 1 : 0`, and the call.
abbrev pub set_option : ℕ → ℕ → Bool → Socket → List Call → List Call
set_option level name on s h = after h (call_setsockopt s.sockfd level name (if on then 1 else 0))

unfoldable pub set_tcp_no_delay : Bool → Socket → List Call → List Call
set_tcp_no_delay on = set_option ipproto_tcp tcp_nodelay on

unfoldable pub set_reuse_addr : Bool → Socket → List Call → List Call
set_reuse_addr on = set_option sol_socket so_reuseaddr on

unfoldable pub set_reuse_port : Bool → Socket → List Call → List Call
set_reuse_port on = set_option sol_socket so_reuseport on

unfoldable pub set_keep_alive : Bool → Socket → List Call → List Call
set_keep_alive on = set_option sol_socket so_keepalive on

-- The calls made after another, or the end of the process where it failed.
abbrev pub or_fatal : Bool → List Call → Outcome (List Call)
or_fatal true h = ok h
or_fatal false h = fatal

abbrev pub accept_call : Socket → Call
accept_call s = call_accept4 s.sockfd (sock_nonblock + sock_cloexec)

module _ (system : System) where
  open system use {descriptor, succeeds, peer}

  unfoldable pub bind_address : InetAddress → Socket → List Call → Outcome (List Call)
  bind_address a s h =
      let c = call_bind s.sockfd (get_sock_addr a) in or_fatal (succeeds h c) (after h c)

  unfoldable pub listen : Socket → List Call → Outcome (List Call)
  listen s h = let c = call_listen s.sockfd 1024 in or_fatal (succeeds h c) (after h c)

  -- What `accept` gives back: the descriptor, and the address that the caller handed in.
  abbrev pub accepted : Option ℕ → SockaddrIn → InetAddress → Option ℕ × InetAddress
  accepted none from peeraddr = (none, peeraddr)
  accepted (some connfd) from peeraddr = (some connfd, set_sock_addr from peeraddr)

  unfoldable pub accept : Socket → InetAddress → List Call → (Option ℕ × InetAddress) × List Call
  accept s peeraddr h =
      let c = accept_call s in (accepted (descriptor h c) (peer h) peeraddr, after h c)

-- A failure is only logged.
unfoldable pub shutdown_write : Socket → List Call → List Call
shutdown_write s h = after h (call_shutdown s.sockfd shut_wr)
