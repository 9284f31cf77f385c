-- ===== src/EchoServer/Main.antt =====
-- example/testserver.cc: `main`, up to `loop.loop()`.
use muduo_learning.Prelude.{
  ℕ, ◌≡◌, ◌∙◌, refl, ap, sym, arith, ◌≢◌, Bool, true, false, Option, some, none, [], Outcome, ok,
  ◌>>=◌, Returns, Returns-bind, Returns-both,
}
use muduo_learning.Channel
use muduo_learning.Channel.{Channel}
use muduo_learning.Loop.{Loop}
use muduo_learning.Text.{Text, codes}
use muduo_learning.InetAddress
use mathlib.Core.Path.{subst}
use muduo_learning.Text.Decimal.{decimal}
use muduo_learning.InetAddress.{InetAddress, dotted, to_ip_port}
use muduo_learning.InetAddress.Printing.{Documented}
use muduo_learning.Socket.{System}
use muduo_learning.Acceptor.Opening.{socket_call, bound, heard}
use muduo_learning.EventLoop.Lifetime.{
  Resident, construct_loop, Watches, construct-Constructs, construct-apart,
}
use muduo_learning.TcpServer.Serving.{Server}
use muduo_learning.TcpServer.Starting.{Started}
use muduo_learning.EchoServer.{construct_echo, start_echo, construct_echo-Started}

-- 127.0.0.1 and port 8080, each with its high byte first in memory, on a machine that stores the low
-- byte of a number first: 8080 is 0x1f90.
abbrev pub loopback_8080 : InetAddress
loopback_8080 = record { addr = record { sin_family = 2; sin_port = 0x901f; s_addr = 0x0100_007f } }

dotted_loopback : dotted 127 0 0 1 ≡ codes "127.0.0.1"
unfolding decimal muduo_learning.Text.Decimal.spell
dotted_loopback = refl

loopback_text : to_ip_port loopback_8080 ≡ codes "127.0.0.1:8080"
unfolding to_ip_port decimal muduo_learning.Prelude.copy_in muduo_learning.Text.Decimal.spell
    InetAddress.inet_ntop
loopback_text = refl

module _ (system : System) (l : Loop) (inet_addr : Text → ℕ) where
  -- `InetAddress addr(8080)`, where the header's default for the address is 127.0.0.1.
  abbrev pub main_address : InetAddress
  main_address = InetAddress.init inet_addr 8080 (codes "127.0.0.1")

  -- The loop and the server, in a thread that has no loop yet. `this` is the loop's address, and
  -- `start_loop i` that of the loop of the `i`-th thread.
  unfoldable pub main :
      Bool
      → Outcome l.State
      → Option ℕ
      → ℕ
      → ℕ
      → ℕ
      → ℕ
      → (ℕ → ℕ)
      → Outcome (Resident l × Server system l ℕ)
  main use_poll fresh eventfd this wakeup_address thread_id acceptor_address start_loop = do
    e ← construct_loop l use_poll fresh eventfd none this wakeup_address thread_id
    p ←
        construct_echo system l ℕ (some this) main_address (codes "EchoServer") acceptor_address
          e.poller []
        >>= start_echo system l ℕ start_loop
    ok (e, p)

  main_address-loopback : Documented inet_addr → main_address ≡ loopback_8080
  unfolding InetAddress.init
  main_address-loopback documented =
      ap (λ a. record loopback_8080 { addr = record loopback_8080.addr { s_addr = a } })
        (ap inet_addr (sym dotted_loopback)
          ∙ documented 127 0 0 1 (omega arith) (omega arith) (omega arith) (omega arith))

  -- `main` up to `loop.loop()`, where `inet_addr` does what is documented, MUDUO_USE_POLL is not
  -- set, the poller that is made has books that agree with any channel that is new, and `eventfd`,
  -- `socket`, `bind` and `listen` succeed with two descriptors: it returns. The thread's pointer
  -- is the loop, whose wakeup channel waits for what comes in; the server is that of three threads
  -- started once, with the text 127.0.0.1:8080: the system calls are those that open one socket,
  -- bind it to the IPv4 address 127.0.0.1 and port 8080, in network order, and make it listen, and
  -- the acceptor's channel waits for what comes in, with which the books agree.
  pub main-Started :
      (fresh : l.State) (this wakeup_address thread_id acceptor_address wakeup_fd fd : ℕ)
      (start_loop : ℕ → ℕ)
      → Documented inet_addr
      → ((a g : ℕ) → l.Tracked (Channel.init a g) fresh)
      → system.descriptor [] socket_call ≡ some fd
      → fd ≢ wakeup_fd
      → bound system l loopback_8080 [] fd ≡ true
      → heard system l loopback_8080 [] fd ≡ true
      → Returns
          (main false
            (ok fresh)
            (some wakeup_fd)
            this
            wakeup_address
            thread_id
            acceptor_address
            start_loop)
          λ r.
            Watches l this thread_id wakeup_fd r.0
            × Started system l ℕ loopback_8080 [] fd this start_loop false 3 0 r.1
            × (r.1.ip_port ≡ codes "127.0.0.1:8080")
  unfolding main Channel.init
  main-Started fresh this wakeup_address thread_id acceptor_address wakeup_fd fd start_loop
        documented t given ne is_bound is_heard =
      let loop =
        construct_loop l false (ok fresh) (some wakeup_fd) none this wakeup_address thread_id in
      let c = Channel.init acceptor_address fd in
      let here = main_address-loopback documented in
      Returns-bind loop _ _ _
        (Returns-both loop (Watches l this thread_id wakeup_fd) (λ e. l.Tracked c e.poller)
          (construct-Constructs l (ok fresh) this wakeup_address thread_id (t wakeup_address) false
            (some wakeup_fd) none)
          (construct-apart l fresh this wakeup_address thread_id wakeup_fd c
            (t wakeup_address wakeup_fd) ne (t acceptor_address fd)))
        λ e g.
          let served = λ (a : InetAddress).
            construct_echo system l ℕ (some this) a (codes "EchoServer") acceptor_address e.poller
              []
            >>= start_echo system l ℕ start_loop in
          Returns-bind (served main_address) _ _ _
            (subst
              (λ a.
                Returns (served a)
                  (Started system l ℕ loopback_8080 [] fd this start_loop false 3 0))
              (sym here)
              (construct_echo-Started system l ℕ loopback_8080 acceptor_address e.poller [] fd given
                is_bound is_heard g.1 this (codes "EchoServer") start_loop))
            λ p s. (g.0, s, s.4 ∙ loopback_text)
