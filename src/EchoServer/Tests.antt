-- ===== src/EchoServer/Tests.antt =====
-- The echo server on a kernel that grants every call.
use muduo_learning.Prelude.{ok, ◌≡◌, ℕ, ◌+◌, ◌≢◌, refl, arith, false, some, none, [], Returns}
use muduo_learning.Channel
use muduo_learning.Loop.{Loop}
use muduo_learning.Poller
use muduo_learning.Poller.Registry.{poller_loop}
use muduo_learning.Poller.Tests.{memory_epoll}
use muduo_learning.Text.{codes}
use muduo_learning.InetAddress.Tests.{read_address, read_address-Documented}
use muduo_learning.Acceptor.Tests.{granting}
use muduo_learning.EventLoop.Lifetime.{Watches}
use muduo_learning.TcpServer.Starting.{Started}
use muduo_learning.EchoServer.Main.{main, loopback_8080, main-Started}

abbrev here : Loop
here = poller_loop memory_epoll

abbrev books : here.State
books = Poller.init memory_epoll (λ fd. none)

books-Tracked : (a g : ℕ) → here.Tracked (Channel.init a g) books
unfolding Channel.init Poller.init
books-Tracked a g = refl

apart : ◌≢◌ {A = ℕ} 3 5
apart e = absurd (omega (arith, e))

main-Started_example :
    Returns
      (main granting here read_address false (ok books) (some 5) 1 200 4001 300 (λ n. n + 2))
      λ r.
        Watches here 1 4001 5 r.0
        × Started granting here ℕ loopback_8080 [] 3 1 (λ n. n + 2) false 3 0 r.1
        × (r.1.ip_port ≡ codes "127.0.0.1:8080")
main-Started_example =
    main-Started granting here read_address books 1 200 4001 300 5 3 (λ n. n + 2)
      read_address-Documented books-Tracked refl apart refl refl
