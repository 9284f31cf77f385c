-- ===== src/EventLoopThread/Tests.antt =====
-- A caller that falls asleep before the thread publishes its loop.
use muduo_learning.Prelude.{ℕ, ◌<◌, ◌≡◌, false, refl, true, if◌then◌else◌, [], ◌∷◌, ◌⊎◌}
use muduo_learning.EventLoopThread.{
  sleeps, returns, ended, EventLoopThread, init, start, test, run_callback, publish,
}
use muduo_learning.EventLoopThread.Handshake.{
  starts, tests_it, calls, publishes, Steps, done, next, prepares, start_loop_lem,
}
use muduo_learning.EventLoop
use muduo_learning.EventLoop.{quit, set_quit, wakeup}
use muduo_learning.EventLoopThread.Stopping as Stopping
use muduo_learning.EventLoopThread.Stopping.{
  Pair, Run, begins, asks, begin_stop, ask_quit, GoesOn, join_returns, IsStuck, quit_lost,
}

abbrev fresh : EventLoopThread ℕ
fresh = init 5 true

abbrev asleep : EventLoopThread ℕ
asleep = test (run_callback (start fresh))

abbrev back : EventLoopThread ℕ
back = test (publish asleep)

back-Steps : Steps fresh back
unfolding init start test run_callback publish
back-Steps = next (starts fresh refl refl) (
    next (calls (start fresh) refl) (
      next (tests_it (run_callback (start fresh)) refl)
        (next (publishes asleep refl) (next (tests_it (publish asleep) refl) (done back)))))

start_loop_lem_example :
    ((l : ℕ)
      → back.caller ≡ returns l
      → (l ≡ back.own) × (back.called ≡ (if back.has_callback then back.own ∷ [] else [])))
    × (back.caller ≡ sleeps → (prepares back.child ≡ true) ⊎ (back.child ≡ ended))
start_loop_lem_example = start_loop_lem 5 true {t = back} back-Steps

-- A thread that has published its loop, and is at a given place.
abbrev placed : Stopping.Stage → Pair
placed place = record {
  event_loop = EventLoop.init ℕ;
  is_set = true;
  exiting = false;
  thread = place;
  owner = Stopping.alive;
}

abbrev serving : Pair
serving = placed Stopping.inside

abbrev joining : Pair
joining = ask_quit (begin_stop serving)

joining-Run : Run 2 serving joining
unfolding begin_stop
joining-Run =
    Stopping.next (Stopping.next (Stopping.done serving) (begins serving refl))
      (asks (begin_stop serving) refl)

join_returns_example : (2 < 5) × GoesOn joining
unfolding ask_quit begin_stop
join_returns_example = join_returns {p = serving} {q = joining} refl refl joining-Run refl

quit_lost_example :
    (q : Pair) × Run 3 (placed Stopping.published) q
    × (q.owner ≡ Stopping.joins)
    × (q.thread ≡ Stopping.inside)
    × IsStuck q
quit_lost_example = quit_lost (placed Stopping.published) refl refl refl
