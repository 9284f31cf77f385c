-- ===== src/EventLoopThread/Stopping.antt =====
-- src/EventLoopThread.cc: the destructor, which asks the loop to quit and joins the thread, among the
-- steps of the thread's function from the publication of its loop on.
use muduo_learning.Prelude.{
  ℕ, suc, ◌+◌, ◌≤◌, ◌<◌, ◌≡◌, refl, sym, ap, Bool, true, false, if◌then◌else◌, arith,
}
use mathlib.Core.Path.{subst}
use muduo_learning.EventLoop.{EventLoop, start_loop, end_loop, quit, set_quit, wakeup}

-- Where the thread stands: before `loop.loop()`, in it, behind it, and at its end.
pub data Stage : Type 0 where
  published inside left ended : Stage

-- Where the owner stands: before the destructor, before `loop_->quit()`, in `thread_.join()`, at the
-- end, and where it called `quit` on a null pointer.
pub data Owner : Type 0 where
  alive stops joins gone crashed : Owner

-- `is_set` says whether `loop_` is not null.
pub record Pair : Type 0 where
  pub event_loop : EventLoop ℕ
  pub is_set : Bool
  pub exiting : Bool
  pub thread : Stage
  pub owner : Owner

-- The destructor, up to its test of `loop_`.
unfoldable pub begin_stop : Pair → Pair
begin_stop p = record p { exiting = true; owner = if p.is_set then stops else gone }

-- `loop_->quit()`, from another thread than the loop's. The test of `loop_` was an earlier step: by
-- now the thread may have set it to null.
unfoldable pub ask_quit : Pair → Pair
ask_quit p =
    if p.is_set
    then record p { event_loop = quit false p.event_loop; owner = joins }
    else record p { owner = crashed }

-- `loop()` begins, and returns.
unfoldable pub enter_loop : Pair → Pair
enter_loop p = record p { event_loop = start_loop p.event_loop; thread = inside }

unfoldable pub leave_loop : Pair → Pair
leave_loop p = record p { event_loop = end_loop p.event_loop; thread = left }

-- `loop_ = nullptr`, and the end of the thread.
unfoldable pub clear_loop : Pair → Pair
clear_loop p = record p { is_set = false; thread = ended }

-- `loop()` returns when the test of `while` finds `quit_` set; the turns before it change nothing here.
pub data Step : Pair → Pair → Type 0 where
  begins : (p : Pair) → p.owner ≡ alive → Step p (begin_stop p)
  asks : (p : Pair) → p.owner ≡ stops → Step p (ask_quit p)
  returns : (p : Pair) → p.owner ≡ joins → p.thread ≡ ended → Step p (record p { owner = gone })
  enters : (p : Pair) → p.thread ≡ published → Step p (enter_loop p)
  leaves : (p : Pair) → p.thread ≡ inside → p.event_loop.quitting ≡ true → Step p (leave_loop p)
  clears : (p : Pair) → p.thread ≡ left → Step p (clear_loop p)

pub data Run : ℕ → Pair → Pair → Type 0 where
  done : (p : Pair) → Run 0 p p
  next : {n : ℕ} {p q r : Pair} → Run n p q → Step q r → Run (suc n) p r

-- Behind the start of `loop()`.
abbrev pub is_in : Stage → Bool
is_in published = false
is_in inside = true
is_in left = true
is_in ended = true

abbrev pub owner_left : Owner → ℕ
owner_left alive = 3
owner_left stops = 2
owner_left joins = 1
owner_left gone = 0
owner_left crashed = 0

abbrev pub thread_left : Stage → ℕ
thread_left published = 3
thread_left inside = 2
thread_left left = 1
thread_left ended = 0

-- Once the owner joins a thread that was in `loop()`, the loop is asked to quit.
abbrev Holds : Pair → Owner → Type 0
Holds p alive = is_in p.thread ≡ true
Holds p stops = is_in p.thread ≡ true
Holds p joins = (is_in p.thread ≡ true) × (p.event_loop.quitting ≡ true)
Holds p gone = Unit
Holds p crashed = Unit

Step-Holds : {p q : Pair} → Step p q → Holds p p.owner → Holds q q.owner
unfolding begin_stop ask_quit enter_loop leave_loop clear_loop quit set_quit wakeup end_loop
    start_loop
Step-Holds (begins p e) h = ground (arith, e, h)
Step-Holds (asks p e) h = ground (arith, e, h)
Step-Holds (returns p e t) h = tt
Step-Holds (enters p e) h = ground (arith, e, h)
Step-Holds (leaves p e r) h = ground (arith, e, h)
Step-Holds (clears p e) h = ground (arith, e, h)

Step-less :
    {p q : Pair}
    → Step p q
    → suc (owner_left q.owner + thread_left q.thread) ≤ owner_left p.owner + thread_left p.thread
unfolding begin_stop ask_quit enter_loop leave_loop clear_loop
Step-less (begins p e) = ground (arith, e)
Step-less (asks p e) = ground (arith, e)
Step-less (returns p e t) = ground (arith, e)
Step-less (enters p e) = ground (arith, e)
Step-less (leaves p e r) = ground (arith, e)
Step-less (clears p e) = ground (arith, e)

Run-Holds : {n : ℕ} {p q : Pair} → Run n p q → Holds p p.owner → Holds q q.owner
Run-Holds (done p) h = h
Run-Holds (next r s) h = Step-Holds s (Run-Holds r h)

Run-less :
    {n : ℕ} {p q : Pair}
    → Run n p q
    → n + (owner_left q.owner + thread_left q.thread) ≤ owner_left p.owner + thread_left p.thread
Run-less (done p) = omega arith
Run-less (next r s) = omega (arith, Run-less r, Step-less s)

abbrev pub GoesOn : Pair → Type 0
GoesOn p = (q : Pair) × Step p q

goes_on : (t : Stage) (p : Pair) → p.thread ≡ t → p.owner ≡ joins → Holds p joins → GoesOn p
goes_on published p e o h = absurd (ground (arith, e, h))
goes_on inside p e o h = (leave_loop p, leaves p e h.1)
goes_on left p e o h = (clear_loop p, clears p e)
goes_on ended p e o h = (record p { owner = gone }, returns p o e)

in_left : (t : Stage) → is_in t ≡ true → thread_left t ≤ 2
in_left t h = ground (arith, h)

-- Where the destructor of an EventLoopThread begins when the thread is in `loop()` or behind it:
-- wherever its steps and the thread's have left it in `thread_.join()`, there were fewer than
-- five, and there is a next one, so that `join` returns, provided that `loop()` returns once it
-- finds `quit_` set. That the destructor gets there is not stated: where the loop was told to quit
-- by another, `loop_` can be null again before `quit` is called on it.
pub join_returns :
    {n : ℕ} {p q : Pair}
    → p.owner ≡ alive
    → is_in p.thread ≡ true
    → Run n p q
    → q.owner ≡ joins
    → (n < 5) × GoesOn q
join_returns {n} {p} {q} before inside_loop run at =
    let held : Holds p p.owner = subst (Holds p) (sym before) inside_loop in
    (
      omega (
        arith,
        Run-less run,
        ap owner_left before,
        ap owner_left at,
        in_left p.thread inside_loop,
      ),
      goes_on q.thread q refl at (subst (Holds q) at (Run-Holds run held)),
    )

-- No step is left.
abbrev pub IsStuck : Pair → Type 0
IsStuck p = (q : Pair) → ¬ Step p q

stuck_lem :
    (p : Pair)
    → p.owner ≡ joins
    → p.thread ≡ inside
    → p.event_loop.quitting ≡ false
    → (q : Pair) → ¬ Step p q
stuck_lem p o t f q (begins _ e) = cc (o, e)
stuck_lem p o t f q (asks _ e) = cc (o, e)
stuck_lem p o t f q (returns _ e u) = cc (t, u)
stuck_lem p o t f q (enters _ e) = cc (t, e)
stuck_lem p o t f q (leaves _ e r) = cc (f, r)
stuck_lem p o t f q (clears _ e) = cc (t, e)

-- Where the destructor of an EventLoopThread begins when the thread has published its loop and is
-- not in `loop()` yet: the steps can be such that `quit` comes before `loop()` sets `quit_` to
-- false, and then the destructor is in `join`, the thread in `loop()`, and no step is left: `join`
-- waits for ever.
pub quit_lost :
    (p : Pair)
    → p.owner ≡ alive
    → p.is_set ≡ true
    → p.thread ≡ published
    → (q : Pair) × Run 3 p q × (q.owner ≡ joins) × (q.thread ≡ inside) × IsStuck q
unfolding begin_stop ask_quit enter_loop quit set_quit wakeup start_loop
quit_lost p before set thread_at =
    let b = begin_stop p in
    let a = record b { event_loop = quit false p.event_loop; owner = joins } in
    (
      enter_loop a,
      next
          (next (next (done p) (begins p before)) (
            subst (Step b) (ap (λ c. if c then a else record b { owner = crashed }) set)
              (asks b (ap (λ c. if c then stops else gone) set))))
          (enters a thread_at),
      refl,
      refl,
      stuck_lem (enter_loop a) refl refl refl,
    )
