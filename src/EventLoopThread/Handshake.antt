-- ===== src/EventLoopThread/Handshake.antt =====
-- src/EventLoopThread.cc: `startLoop` returns the thread's own loop, prepared, and is not left asleep.
use muduo_learning.Prelude.{
  ◌≡◌, ◌≢◌, ◌∙◌, refl, ap, sym, Bool, true, false, if◌then◌else◌, Option, none, some, List, [], ◌∷◌,
  ◌++◌, ◌⊎◌, inl, inr,
}
use muduo_learning.EventLoopThread.{
  Caller, outside, tests, sleeps, returns, Child, unstarted, begun, prepared, looping, left, ended,
  EventLoopThread, init, start, after_test, test, run_callback, notify, publish, leave, withdraw,
}

-- The thread was started, and has yet to publish its loop.
abbrev pub prepares : Child → Bool
prepares unstarted = false
prepares begun = true
prepares prepared = true
prepares looping = false
prepares left = false
prepares ended = false

module _ {L : Type 0} where
  pub data Step : EventLoopThread L → EventLoopThread L → Type 0 where
    starts : (t : EventLoopThread L) → t.caller ≡ outside → t.child ≡ unstarted → Step t (start t)
    tests_it : (t : EventLoopThread L) → t.caller ≡ tests → Step t (test t)
    calls : (t : EventLoopThread L) → t.child ≡ begun → Step t (run_callback t)
    -- A wakeup without a notification, which a condition variable may have.
    rouses : (t : EventLoopThread L) → t.caller ≡ sleeps → Step t (record t { caller = tests })
    publishes : (t : EventLoopThread L) → t.child ≡ prepared → Step t (publish t)
    leaves : (t : EventLoopThread L) → t.child ≡ looping → Step t (leave t)
    withdraws : (t : EventLoopThread L) → t.child ≡ left → Step t (withdraw t)

  pub data Steps : EventLoopThread L → EventLoopThread L → Type 0 where
    done : (t : EventLoopThread L) → Steps t t
    next : {t u v : EventLoopThread L} → Step t u → Steps u v → Steps t v

  -- What `callback_` was given, at each place of the thread.
  abbrev calls_at : EventLoopThread L → Child → List L
  calls_at t unstarted = []
  calls_at t begun = []
  calls_at t prepared = if t.has_callback then t.own ∷ [] else []
  calls_at t looping = if t.has_callback then t.own ∷ [] else []
  calls_at t left = if t.has_callback then t.own ∷ [] else []
  calls_at t ended = if t.has_callback then t.own ∷ [] else []

  -- What `loop_` holds, at each place of the thread.
  abbrev published_at : EventLoopThread L → Child → Option L
  published_at t unstarted = none
  published_at t begun = none
  published_at t prepared = none
  published_at t looping = some t.own
  published_at t left = some t.own
  published_at t ended = none

  -- What the place of the caller says.
  abbrev CallerHolds : EventLoopThread L → Caller L → Type 0
  CallerHolds t outside = t.child ≡ unstarted
  CallerHolds t tests = t.child ≢ unstarted
  CallerHolds t sleeps = (prepares t.child ≡ true) ⊎ (t.child ≡ ended)
  CallerHolds t (returns l) =
      (l ≡ t.own)
      × (t.called ≡ (if t.has_callback then t.own ∷ [] else []))
      × (t.child ≢ unstarted)
      × (prepares t.child ≡ false)

  record Inv (t : EventLoopThread L) : Type 0 where
    calling : t.called ≡ calls_at t t.child
    publishing : t.published ≡ published_at t t.child
    caller_holds : CallerHolds t t.caller

  init-Inv : (own : L) (b : Bool) → Inv (init own b)
  unfolding init
  init-Inv own b = record { calling = refl; publishing = refl; caller_holds = refl }

  -- A step of the thread, for each place of the caller.
  called_back :
      (c : Caller L) (t : EventLoopThread L)
      → t.child ≡ begun
      → CallerHolds t c
      → CallerHolds
          (record t {
            called = if t.has_callback then t.called ++ t.own ∷ [] else t.called;
            child = prepared;
          })
          c
  called_back outside t h i = absurd (cc (h, i))
  called_back tests t h i = λ e. cc
  called_back sleeps t h i = inl refl
  called_back (returns l) t h i = absurd (cc (h, i.3))

  notified :
      (c : Caller L) (t : EventLoopThread L)
      → t.child ≡ prepared
      → CallerHolds t c
      → CallerHolds (record t { published = some t.own; child = looping }) (notify c)
  notified outside t h i = absurd (cc (h, i))
  notified tests t h i = λ e. cc
  notified sleeps t h i = λ e. cc
  notified (returns l) t h i = absurd (cc (h, i.3))

  left_loop :
      (c : Caller L) (t : EventLoopThread L)
      → t.child ≡ looping
      → CallerHolds t c
      → CallerHolds (record t { child = left }) c
  left_loop outside t h i = absurd (cc (h, i))
  left_loop tests t h i = λ e. cc
  left_loop sleeps t h (inl i) = absurd (cc (h, i))
  left_loop sleeps t h (inr i) = absurd (cc (h, i))
  left_loop (returns l) t h i = (i.0, i.1, λ e. cc, refl)

  withdrawn :
      (c : Caller L) (t : EventLoopThread L)
      → t.child ≡ left
      → CallerHolds t c
      → CallerHolds (record t { published = none; child = ended }) c
  withdrawn outside t h i = absurd (cc (h, i))
  withdrawn tests t h i = λ e. cc
  withdrawn sleeps t h i = inr refl
  withdrawn (returns l) t h i = (i.0, i.1, λ e. cc, refl)

  -- The test, for each place of the thread.
  tested :
      (k : Child) (t : EventLoopThread L)
      → t.child ≡ k
      → t.called ≡ calls_at t k
      → t.published ≡ published_at t k
      → k ≢ unstarted
      → CallerHolds t (after_test t.published)
  tested unstarted t h c p n = absurd (n refl)
  tested begun t h c p n = rw (p, h) (inl refl)
  tested prepared t h c p n = rw (p, h) (inl refl)
  tested looping t h c p n = rw (p, h) (refl, c, n, refl)
  tested left t h c p n = rw (p, h) (refl, c, n, refl)
  tested ended t h c p n = rw (p, h) (inr refl)

  roused :
      (t : EventLoopThread L) → (prepares t.child ≡ true) ⊎ (t.child ≡ ended) → t.child ≢ unstarted
  roused t (inl i) e = absurd (cc (ap prepares e, i))
  roused t (inr i) e = absurd (cc (e, i))

  grown : (b : Bool) (l : L) → (if b then [] ++ l ∷ [] else []) ≡ (if b then l ∷ [] else [])
  grown true l = refl
  grown false l = refl

  Step-Inv : {t u : EventLoopThread L} → Step t u → Inv t → Inv u
  unfolding start test run_callback publish leave withdraw
  Step-Inv (starts t h k) i = record {
    calling = i.calling ∙ ap (calls_at t) k;
    publishing = i.publishing ∙ ap (published_at t) k;
    caller_holds = λ e. cc;
  }
  Step-Inv (tests_it t h) i = record {
    calling = i.calling;
    publishing = i.publishing;
    caller_holds = tested t.child t refl i.calling i.publishing (rw h at i.caller_holds);
  }
  Step-Inv (calls t h) i = record {
    calling =
        ap (λ ls. if t.has_callback then ls ++ t.own ∷ [] else ls) (i.calling ∙ ap (calls_at t) h)
        ∙ grown t.has_callback t.own;
    publishing = i.publishing ∙ ap (published_at t) h;
    caller_holds = called_back t.caller t h i.caller_holds;
  }
  Step-Inv (rouses t h) i = record {
    calling = i.calling;
    publishing = i.publishing;
    caller_holds = roused t (rw h at i.caller_holds);
  }
  Step-Inv (publishes t h) i = record {
    calling = i.calling ∙ ap (calls_at t) h;
    publishing = refl;
    caller_holds = notified t.caller t h i.caller_holds;
  }
  Step-Inv (leaves t h) i = record {
    calling = i.calling ∙ ap (calls_at t) h;
    publishing = i.publishing ∙ ap (published_at t) h;
    caller_holds = left_loop t.caller t h i.caller_holds;
  }
  Step-Inv (withdraws t h) i = record {
    calling = i.calling ∙ ap (calls_at t) h;
    publishing = refl;
    caller_holds = withdrawn t.caller t h i.caller_holds;
  }

  Steps-Inv : {t u : EventLoopThread L} → Steps t u → Inv t → Inv u
  Steps-Inv (done t) i = i
  Steps-Inv (next s ss) i = Steps-Inv ss (Step-Inv s i)

  returned :
      (c : Caller L) (t : EventLoopThread L) (l : L)
      → c ≡ returns l
      → CallerHolds t c
      → (l ≡ t.own) × (t.called ≡ (if t.has_callback then t.own ∷ [] else []))
  returned (returns m) t l e i = let same : m ≡ l = cc in (sym same ∙ i.0, i.1)
  returned outside t l e i = absurd cc
  returned tests t l e i = absurd cc
  returned sleeps t l e i = absurd cc

  asleep :
      (c : Caller L) (t : EventLoopThread L)
      → c ≡ sleeps
      → CallerHolds t c
      → (prepares t.child ≡ true) ⊎ (t.child ≡ ended)
  asleep sleeps t e i = i
  asleep outside t e i = absurd cc
  asleep tests t e i = absurd cc
  asleep (returns m) t e i = absurd cc

  -- In every order of the steps of the caller of `startLoop` and of the new thread, from a new
  -- EventLoopThread on: what `startLoop` returns is the loop that the thread made, and by then the
  -- callback, if there is one, was called with it, and once; and where `startLoop` is asleep, the
  -- thread has yet to publish its loop, or has left `loop()` and withdrawn it again.
  pub start_loop_lem :
      (own : L) (has_callback : Bool) {t : EventLoopThread L}
      → Steps (init own has_callback) t
      → ((l : L)
          → t.caller ≡ returns l
          → (l ≡ t.own) × (t.called ≡ (if t.has_callback then t.own ∷ [] else [])))
        × (t.caller ≡ sleeps → (prepares t.child ≡ true) ⊎ (t.child ≡ ended))
  start_loop_lem own has_callback {t} s =
      let i = Steps-Inv s (init-Inv own has_callback) in
      (λ l e. returned t.caller t l e i.caller_holds, λ e. asleep t.caller t e i.caller_holds)
