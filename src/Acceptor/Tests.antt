-- ===== src/Acceptor/Tests.antt =====
-- An acceptor on a poller in memory.
use muduo_learning.Prelude.{◌≡◌, Option, arith, none, refl, ℕ, List, [], ◌∷◌, some, true, ◌>>=◌}
use muduo_learning.Channel
use muduo_learning.Loop.{Loop}
use muduo_learning.Poller
use muduo_learning.Poller.Registry.{poller_loop}
use muduo_learning.Poller.Tests.{memory_epoll, watching}
use muduo_learning.InetAddress.{SockaddrIn, InetAddress, htons, af_inet}
use muduo_learning.Socket.{System}
use muduo_learning.Acceptor.{
  AcceptResult, failed, gives, Acceptor, init, set_new_connection_callback, handle_reads,
}
use muduo_learning.Acceptor.Opening.{socket_call, Listener, construct_acceptor, Opens, open_lem}
use muduo_learning.Acceptor.Opening as Opening
use muduo_learning.Acceptor.Listening.{given, Accounts, handle_reads-Accounts}

abbrev here : Loop
here = poller_loop memory_epoll

abbrev fresh : Acceptor here
fresh = set_new_connection_callback here (init here 100 3 (Poller.init memory_epoll (λ fd. none)))

abbrev results : List AcceptResult
results = gives 7 ∷ failed 24 ∷ gives 8 ∷ []

handle_reads-Accounts_example :
    Accounts here fresh.has_callback (given results) fresh (handle_reads here results fresh)
handle_reads-Accounts_example = handle_reads-Accounts here results fresh

fresh-Tracked : here.Tracked fresh.channel fresh.loop
unfolding init set_new_connection_callback Channel.init Poller.init
fresh-Tracked = refl

abbrev pub everywhere : SockaddrIn
everywhere = record { sin_family = af_inet; sin_port = htons 8080; s_addr = 0 }

-- A kernel that grants every call.
abbrev pub granting : System
granting = record {
  descriptor = λ h c. some 3;
  succeeds = λ h c. true;
  peer = λ h. everywhere;
  errno = λ h c. 0;
}

abbrev pub address : InetAddress
address = record { addr = everywhere }

pub init-Tracked :
    (fd : ℕ) → here.Tracked (Channel.init 100 fd) (Poller.init memory_epoll (λ fd. none))
unfolding Channel.init Poller.init
init-Tracked fd = refl

-- The loop watches descriptor 7, and the socket is 3.
watching-Tracked :
    (fd : ℕ) → ◌≡◌ {A = Option ℕ} (some 3) (some fd) → here.Tracked (Channel.init 100 fd) watching
unfolding Channel.init
watching-Tracked fd e = ground (arith, e)

open_lem_example :
    Opens granting here address [] (some 3) (
      construct_acceptor granting here address true 100 watching []
      >>= Opening.listen granting here)
open_lem_example = open_lem granting here address 100 watching [] true watching-Tracked
