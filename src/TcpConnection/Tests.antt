-- ===== src/TcpConnection/Tests.antt =====
-- A connection on a poller in memory, and the theorems at work on it.
use muduo_learning.Prelude.{
  slice, length-slice, ap, sym, ◌⊎◌, ℕ, ◌≡◌, refl, arith, true, false, some, none, List, [], ◌∷◌,
  length, take, length-take, min, Returns, ok,
}
use muduo_learning.Buffer
use muduo_learning.Buffer.{Buffer, append, readable_bytes, ensure_writable_bytes}
use muduo_learning.Buffer.Invariant.{IsValid, init-IsValid, append-IsValid}
use muduo_learning.Buffer.Contents.{contents, contents-append}
use muduo_learning.Buffer.Fd.{ReadResult, error, count}
use muduo_learning.Channel
use muduo_learning.Channel.{Channel, is_writing}
use muduo_learning.Channel.Masks.{interest}
use muduo_learning.Loop.{Loop}
use muduo_learning.Poller
use muduo_learning.InetAddress.{SockaddrIn, of_sockaddr}
use muduo_learning.TcpConnection.Life.{establishes, Allowed}
use muduo_learning.TcpConnection.Owned.{construct_conn, Makes, construct_conn-Makes}
use muduo_learning.Poller.Registry.{poller_loop}
use muduo_learning.Poller.Tests.{memory_epoll}
use muduo_learning.TcpConnection.{
  init, send_file_in_loop, State, disconnected, connected, disconnecting, Conn, Sys, Handlers,
  ewouldblock, send_in_loop, handle_write,
}
use muduo_learning.TcpConnection.Invariant.{Documented, Inv}
use muduo_learning.TcpConnection.Sending.{Sends, send_in_loop-stream}
use muduo_learning.TcpConnection.Stream.{Keeps, handle_write-Keeps}
use muduo_learning.TcpConnection.Lifecycle.{Careful}
use muduo_learning.TcpConnection.Closing.{
  Finished, Lingers, handle_write_closes, send_in_loop_disconnected,
}
use muduo_learning.TcpConnection.SendFile.{SendsFile, Transfers, Fails, send_file_in_loop-Transfers}

abbrev pub here : Loop
here = poller_loop memory_epoll

-- A socket that takes four bytes at a time and gives three.
abbrev pub slow : Sys
slow = record {
  write = λ k bytes. count (min 4 (length bytes));
  readv = λ k n. ReadResult.got (take n (7 ∷ 8 ∷ 9 ∷ []));
  sendfile = λ k file offset n. ReadResult.failed ewouldblock;
}

pub slow-Documented : Documented slow
slow-Documented = record {
  write_within = λ k bytes. omega arith;
  readv_within = λ k n. omega (arith, length-take {A = ℕ} n (7 ∷ 8 ∷ 9 ∷ []));
}

abbrev pub small : Buffer
small = Buffer.init 8

small-IsValid : IsValid small
small-IsValid = init-IsValid 8 (omega arith)

-- A connection whose channel has the events `e`, and whose output buffer is `b`.
abbrev pub conn : State → ℕ → Buffer → Conn here
conn st e b = record {
  state = st;
  reading = true;
  channel = record (Channel.init 100 7) { events = e; revents = 5 };
  input = small;
  output = b;
  high_water_mark = 64;
  has_write_complete = true;
  has_high_water_mark = true;
  loop = Poller.init memory_epoll (λ fd. none);
  calls = 0;
  sent = [];
  shut = false;
  tasks = [];
}

pub idle : (st : State) → Inv here (conn st 0 small)
unfolding Buffer.init Channel.init Poller.init is_writing readable_bytes
idle st = record {
  input_valid = small-IsValid;
  output_valid = small-IsValid;
  tracked = refl;
  wish = interest false false;
  masked = refl;
  pending = λ open_still. refl;
}

abbrev pub waiting : Buffer
waiting = append (1 ∷ 2 ∷ 3 ∷ []) small

waiting-IsValid : IsValid waiting
unfolding Buffer.init
waiting-IsValid = append-IsValid (1 ∷ 2 ∷ 3 ∷ []) {b = small} small-IsValid (omega arith)

pub waiting-contents : contents waiting ≡ 1 ∷ 2 ∷ 3 ∷ []
unfolding Buffer.init
waiting-contents = contents-append (1 ∷ 2 ∷ 3 ∷ []) {b = small} small-IsValid (omega arith)

pub busy : (st : State) → Inv here (conn st 4 waiting)
unfolding Buffer.init Channel.init Poller.init is_writing readable_bytes append
    ensure_writable_bytes Buffer.writable_bytes
busy st = record {
  input_valid = small-IsValid;
  output_valid = waiting-IsValid;
  tracked = refl;
  wish = interest false true;
  masked = refl;
  pending = λ open_still. refl;
}

abbrev pub six : List ℕ
six = 1 ∷ 2 ∷ 3 ∷ 4 ∷ 5 ∷ 6 ∷ []

send_in_loop-stream_example :
    Returns
      (send_in_loop here slow six (conn connected 0 small))
      (Sends here slow six (conn connected 0 small))
unfolding Buffer.init
send_in_loop-stream_example =
    send_in_loop-stream here slow six (conn connected 0 small) slow-Documented (idle connected)
      (omega arith)

handle_write-Keeps_example :
    Returns
      (handle_write here slow (conn connected 4 waiting))
      (Keeps here (conn connected 4 waiting))
handle_write-Keeps_example =
    handle_write-Keeps here slow (conn connected 4 waiting) slow-Documented (busy connected)

handle_write_closes_example :
    Returns
      (handle_write here slow (conn disconnecting 4 waiting))
      (Finished here slow (conn disconnecting 4 waiting))
unfolding Channel.init is_writing
handle_write_closes_example =
    handle_write_closes here slow (conn disconnecting 4 waiting) (busy disconnecting) refl refl
      (rw waiting-contents refl)

-- A socket that would block.
abbrev blocked : Sys
blocked = record slow { write = λ k bytes. error ewouldblock }

send_in_loop_disconnected_example :
    Returns
      (send_in_loop here blocked (1 ∷ 2 ∷ []) (conn disconnected 0 small))
      (Lingers here blocked (1 ∷ 2 ∷ []))
unfolding Buffer.init Channel.init
send_in_loop_disconnected_example =
    send_in_loop_disconnected here blocked (1 ∷ 2 ∷ []) (conn disconnected 0 small)
      (idle disconnected) refl refl refl (λ e. cc) (omega arith) refl

-- Callbacks that return at once.
abbrev pub calm : Handlers here
calm = record { connection = some ok; message = some (λ time w. ok w); close = some ok }

pub calm-Careful : Careful here calm
calm-Careful = record {
  connection_keeps = λ w v room. (v, room);
  close_keeps = λ w v room. (v, room);
  message_keeps = λ time w v. v;
}

-- A socket that takes two bytes of a file at a time.
abbrev five : ℕ → List ℕ
five file = 1 ∷ 2 ∷ 3 ∷ 4 ∷ 5 ∷ []

abbrev copying : Sys
copying = record slow {
  sendfile = λ k file offset n. ReadResult.got (slice (five file) offset (min 2 n));
}

copying-SendsFile : SendsFile copying five
copying-SendsFile = record {
  sendfile_sends = λ k file offset n. (
    omega (arith, length-slice (five file) offset (min 2 n)),
    ap (slice (five file) offset) (sym (length-slice (five file) offset (min 2 n))),
  );
}

send_file_in_loop-Transfers_example :
    let w' = send_file_in_loop here copying 9 1 4 (conn connected 0 small) in
    Transfers here copying (five 9) 9 1 4 (conn connected 0 small) w'
    ⊎ Fails here copying 9 1 4 (conn connected 0 small) w'
send_file_in_loop-Transfers_example =
    send_file_in_loop-Transfers here copying five 9 1 4 (conn connected 0 small) copying-SendsFile
      (omega arith) (idle connected).output_valid (λ e. cc)

abbrev any : SockaddrIn
any = record { sin_family = 2; sin_port = 0; s_addr = 0 }

abbrev pub unheard : here.State
unheard = Poller.init memory_epoll (λ fd. none)

pub unheard-Tracked : here.Tracked (Channel.init 100 7) unheard
unfolding Channel.init Poller.init
unheard-Tracked = refl

construct_conn-Makes_example :
    Makes here 100 7 [] 4096 true false
      (some 1)
      (construct_conn here (some 1) [] 7 (of_sockaddr any) (of_sockaddr any) 100 unheard [])
construct_conn-Makes_example =
    construct_conn-Makes here [] 7 (of_sockaddr any) (of_sockaddr any) 100 unheard [] 4096 true
      false unheard-Tracked (some 1)

abbrev pub newborn : Conn here
newborn = init here 100 7 unheard

pub newborn-Allowed : Allowed here slow calm establishes newborn
unfolding init Buffer.init
newborn-Allowed = (refl, omega arith)
