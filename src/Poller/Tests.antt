-- ===== src/Poller/Tests.antt =====
-- An epoll instance in memory, and the theorems on the poller at work on it.
use muduo_learning.Prelude.{
  ℕ, ◌≤◌, refl, arith, Option, some, none, [], ◌∷◌, length, take, length-take, Returns,
}
use muduo_learning.Channel
use muduo_learning.Channel.{Channel, Index, new, added}
use muduo_learning.Poller.{
  Operation, ctl_add, ctl_mod, ctl_del, update_at, Epoll, Poller, update_channel, remove_channel,
}
use muduo_learning.Poller.Registry.{
  Tracked, Updated, Removed, update_channel-Updated, remove_channel-Removed,
}
use muduo_learning.Poller.Poll.{WaitResult, ready, Store, events_of}

abbrev pub Entries : Type 0
Entries = ℕ → Option (ℕ × ℕ)

abbrev pub ctl : Operation → ℕ → ℕ → ℕ → Entries → Option Entries
ctl ctl_add fd e p k = elim (k fd) [ none ↦ some (update_at k fd (some (e, p))) | some old ↦ none ]
ctl ctl_mod fd e p k = elim (k fd) [ none ↦ none | some old ↦ some (update_at k fd (some (e, p))) ]
ctl ctl_del fd e p k = elim (k fd) [ none ↦ none | some old ↦ some (update_at k fd none) ]

abbrev pub memory_epoll : Epoll
memory_epoll = record {
  Kernel = Entries;
  epoll_ctl = ctl;
  registered = λ k. k;
  add_lem = λ k fd e p h. (update_at k fd (some (e, p)), rw (ctl, h) refl, λ g. refl);
  mod_lem = λ k fd e p old h. (update_at k fd (some (e, p)), rw (ctl, h) refl, λ g. refl);
  del_lem = λ k fd e p old h. (update_at k fd none, rw (ctl, h) refl, λ g. refl);
}

-- A poller that watches descriptor 7 for reading, for the channel at 100.
abbrev pub watching : Poller memory_epoll
watching = record {
  channels = update_at (λ fd. none) 7 (some 100);
  event_slots = 16;
  kernel = update_at (λ fd. none) 7 (some (3, 100));
}

abbrev watched : Channel
watched = record (Channel.init 100 7) { events = 3; index = added }

watched-Tracked : Tracked memory_epoll watched watching
unfolding Channel.init
watched-Tracked = (refl, refl)

update_channel-Updated_example :
    Returns
      (update_channel memory_epoll (record watched { events = 7 }) watching)
      (Updated memory_epoll watched 7 watching)
update_channel-Updated_example =
    update_channel-Updated memory_epoll watched 7 watching watched-Tracked

remove_channel-Removed_example :
    Returns (remove_channel memory_epoll watched watching) (Removed memory_epoll watched watching)
remove_channel-Removed_example =
    remove_channel-Removed memory_epoll watched watching watched-Tracked

-- A kernel that reports as many of two entries as it may.
abbrev pub two_ready : ℕ → Entries → WaitResult
two_ready n k = ready (take n ((1, 100) ∷ (4, 200) ∷ []))

pub two_ready-fits : (n : ℕ) (k : Entries) → length (events_of (two_ready n k)) ≤ n
two_ready-fits n k = omega (arith, length-take {A = ℕ × ℕ} n ((1, 100) ∷ (4, 200) ∷ []))

abbrev pub store : Store
store a = Channel.init a 7
