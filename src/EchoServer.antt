-- ===== src/EchoServer.antt =====
-- example/testserver.cc: the constructor and `start` of the echo server; `TcpConnection/Echo.antt` has
-- its callbacks.
pub mod Main
pub mod Tests
use muduo_learning.Prelude.{
  ℕ, ◌≡◌, true, false, Option, some, List, Outcome, ok, fatal, ◌>>=◌, >>=-ok, refl, sym, Returns,
}
use mathlib.Core.Path.{subst}
use muduo_learning.Channel
use muduo_learning.Loop.{Loop}
use muduo_learning.Text.{Text}
use muduo_learning.InetAddress.{InetAddress}
use muduo_learning.Socket.{Call, System}
use muduo_learning.Acceptor.Opening.{socket_call, bound, heard}
use muduo_learning.TcpServer.Serving.{Server, construct_server, start_server, set_threads}
use muduo_learning.TcpServer.Starting.{Started, start_again-Started}

bind-set :
    {A : Type 0} (m : Outcome A) (f : A → A) (g : A → Outcome A)
    → (m >>= (λ a. ok (f a)) >>= g) ≡ (m >>= λ a. g (f a) >>= ok)
bind-set (ok a) f g = sym (>>=-ok (g (f a)))
bind-set fatal f g = refl

module _ (system : System) (l : Loop) (L : Type 0) where
  -- `EchoServer(loop, addr, name)`: the option is kNoReusePort, and there are three threads.
  unfoldable pub construct_echo :
      Option L → InetAddress → Text → ℕ → l.State → List Call → Outcome (Server system l L)
  construct_echo loop addr name channel_address s h =
      construct_server system l L loop addr name true channel_address s h >>= λ p.
      ok (set_threads system l L 3 p)

  -- `start()`, without a thread's initial callback.
  unfoldable pub start_echo : (ℕ → L) → Server system l L → Outcome (Server system l L)
  start_echo start_loop p = start_server system l L start_loop false p

  module _ (addr : InetAddress) (channel_address : ℕ) (s : l.State) (h : List Call) (fd : ℕ)
      (given : system.descriptor h socket_call ≡ some fd)
      (is_bound : bound system l addr h fd ≡ true) (is_heard : heard system l addr h fd ≡ true)
      (tracked : l.Tracked (Channel.init channel_address fd) s) where
    -- The echo server starts as a server with three threads does.
    pub construct_echo-Started :
        (base : L) (name : Text) (start_loop : ℕ → L)
        → Returns
            (construct_echo (some base) addr name channel_address s h >>= start_echo start_loop)
            (Started system l L addr h fd base start_loop false 3 0)
    unfolding construct_echo start_echo
    construct_echo-Started base name start_loop =
        subst (λ r. Returns r (Started system l L addr h fd base start_loop false 3 0))
          (sym (
            bind-set (construct_server system l L (some base) addr name true channel_address s h)
              (set_threads system l L 3) (start_server system l L start_loop false)))
          (start_again-Started system l L addr true channel_address s h fd given is_bound is_heard
            tracked base name start_loop false 3 0)
