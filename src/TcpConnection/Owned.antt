-- ===== src/TcpConnection/Owned.antt =====
-- src/TcpConnection.cc: the constructor with the connection's socket, the callbacks that the server sets,
-- `handleError`, and the destructor.
use muduo_learning.Prelude.{
  ℕ, ◌≡◌, refl, Bool, true, false, Option, some, none, List, [], ◌∷◌, ◌++◌, append_assoc, Outcome,
  ok, fatal, ◌>>=◌, Returns, arith,
}
use muduo_learning.Buffer
use muduo_learning.Buffer.{initial_size, readable_bytes}
use muduo_learning.Buffer.Invariant.{init-IsValid}
use muduo_learning.Channel
use muduo_learning.Channel.{is_writing}
use muduo_learning.Channel.Masks.{interest}
use muduo_learning.Loop.{Loop}
use muduo_learning.Text.{Text}
use muduo_learning.InetAddress.{InetAddress}
use muduo_learning.Socket.{
  Call, call_setsockopt, call_close, Socket, of_fd, set_keep_alive, close, sol_socket, so_keepalive,
}
use muduo_learning.TcpConnection.{
  State, disconnected, connecting, connected, disconnecting, Conn, init,
}
use muduo_learning.TcpConnection.Invariant.{Inv}

-- `CheckLoopNotNull`
abbrev pub check_loop : Option ℕ → Outcome ℕ
check_loop none = fatal
check_loop (some loop) = ok loop

abbrev pub is_connected : State → Bool
is_connected disconnected = false
is_connected connecting = false
is_connected connected = true
is_connected disconnecting = false

-- The error that `handleError` logs: `errno` where `getsockopt` fails, else the socket's.
abbrev pub error_of : Option ℕ → ℕ → ℕ
error_of none errno = errno
error_of (some optval) errno = optval

module _ (l : Loop) where
  -- A connection with the members that do not change, and the system calls of the process that are
  -- about its socket; `loop_pointer` is the value of `loop_`.
  pub record Owned : Type 0 where
    pub loop_pointer : ℕ
    pub name : Text
    pub socket : Socket
    pub local_addr : InetAddress
    pub peer_addr : InetAddress
    pub conn : Conn l
    pub socket_calls : List Call

  -- The constructor; `address` is the new channel's, `s` the loop's state.
  unfoldable pub construct_conn :
      Option ℕ → Text → ℕ → InetAddress → InetAddress → ℕ → l.State → List Call → Outcome Owned
  construct_conn loop name sockfd local_addr peer_addr address s h =
      check_loop loop >>= λ loop_pointer. ok (record {
        loop_pointer = loop_pointer;
        name = name;
        socket = of_fd sockfd;
        local_addr = local_addr;
        peer_addr = peer_addr;
        conn = init l address sockfd s;
        socket_calls = set_keep_alive true (of_fd sockfd) h;
      })

  -- `connected()`
  abbrev pub is_up : Owned → Bool
  is_up o = is_connected o.conn.state

  -- `setWriteCompleteCallback`, with a callback that is set or empty.
  unfoldable pub set_write_complete_callback : Bool → Owned → Owned
  set_write_complete_callback cb o = record o { conn = record o.conn { has_write_complete = cb } }

  -- `setHighWaterMarkCallback`
  unfoldable pub set_high_water_mark_callback : Bool → ℕ → Owned → Owned
  set_high_water_mark_callback cb mark o = record o {
    conn = record o.conn { has_high_water_mark = cb; high_water_mark = mark };
  }

  -- The destructor only logs; then the socket, a member, is closed.
  unfoldable pub destruct_conn : Owned → List Call
  destruct_conn o = close o.socket o.socket_calls

  pub init-Inv :
      (address sockfd : ℕ) (s : l.State)
      → l.Tracked (Channel.init address sockfd) s
      → Inv l (init l address sockfd s)
  unfolding init Channel.init Buffer.init is_writing readable_bytes
  init-Inv address sockfd s t =
      let fresh = init-IsValid initial_size (omega arith) in
      record {
        input_valid = fresh;
        output_valid = fresh;
        tracked = t;
        wish = interest false false;
        masked = refl;
        pending = λ still_open. refl;
      }

  -- What is made of a connection, by the loop's pointer: `cb` and `mark` are what is set then.
  abbrev pub Makes : ℕ → ℕ → List Call → ℕ → Bool → Bool → Option ℕ → Outcome Owned → Type 0
  Makes address sockfd h mark cb wc none r = r ≡ fatal
  Makes address sockfd h mark cb wc (some loop) r = Returns r λ o.
      let set = set_high_water_mark_callback cb mark (set_write_complete_callback wc o) in
      Inv l set.conn
      × (set.conn.state ≡ connecting)
      × (is_up set ≡ false)
      × (set.conn.channel.fd ≡ sockfd)
      × (set.conn.high_water_mark ≡ mark)
      × (destruct_conn set
          ≡ h ++ call_setsockopt sockfd sol_socket so_keepalive 1 ∷ call_close sockfd ∷ [])

  -- The constructor of a connection, in a loop whose books agree with a channel that is new: the
  -- process ends where the loop's pointer is null. Else it returns, and with any callbacks and
  -- high-water mark set then, the connection has its invariant, is in state kConnecting and so not
  -- connected, its channel has the socket's descriptor and its mark is the one set; and when the
  -- destructor comes next, the socket had SO_KEEPALIVE set and was then closed, once.
  pub construct_conn-Makes :
      (name : Text) (sockfd : ℕ) (local_addr peer_addr : InetAddress) (address : ℕ) (s : l.State)
      (h : List Call) (mark : ℕ) (cb wc : Bool)
      → l.Tracked (Channel.init address sockfd) s
      → (loop : Option ℕ)
      → Makes address sockfd h mark cb wc loop
          (construct_conn loop name sockfd local_addr peer_addr address s h)
  unfolding construct_conn set_keep_alive set_write_complete_callback set_high_water_mark_callback
      destruct_conn close init Channel.init
  construct_conn-Makes name sockfd local_addr peer_addr address s h mark cb wc t none = refl
  construct_conn-Makes name sockfd local_addr peer_addr address s h mark cb wc t (some loop) =
      (init-Inv address sockfd s t, refl, refl, refl, refl, append_assoc h _ _)
