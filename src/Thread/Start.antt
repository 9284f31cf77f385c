-- ===== src/Thread/Start.antt =====
-- src/Thread.cc: the creating thread and the new one, interleaved.
use muduo_learning.Prelude.{
  ℕ, suc, ◌+◌, ◌-◌, ◌≤◌, ◌<◌, ◌≡◌, refl, Bool, true, false, not, ◌&&◌, ◌⊎◌, inl, arith,
}
use muduo_learning.Text.{Text}
use muduo_learning.CurrentThread as CurrentThread
use muduo_learning.CurrentThread.{Threads, tid}
use muduo_learning.CurrentThread.Caching.{IsHonest, tid_lem}
use muduo_learning.Thread.{
  Creator, constructed, waiting, started_it, joining, joined_it, gone, Child, unborn, born,
  recorded, posted, running, ended, Thread, init, start, sem_wait, record_tid, sem_post, call_func,
  end_func, join, end_join, destroy,
}

-- The creator may destroy the object: it was not started, or `start` or `join` has returned.
abbrev pub may_destroy : Creator → Bool
may_destroy constructed = true
may_destroy waiting = false
may_destroy started_it = true
may_destroy joining = false
may_destroy joined_it = true
may_destroy gone = false

-- The creator is in a call that waits for the new thread.
abbrev pub is_blocked : Creator → Bool
is_blocked constructed = false
is_blocked waiting = true
is_blocked started_it = false
is_blocked joining = true
is_blocked joined_it = false
is_blocked gone = false

-- How far the new thread is.
abbrev pub place : Child → ℕ
place unborn = 0
place born = 1
place recorded = 2
place posted = 3
place running = 4
place ended = 5

module _ (gettid : ℕ → ℕ) (me : ℕ) where
  pub data Step : Thread → Thread → Type 0 where
    starts : (t : Thread) → t.creator ≡ constructed → Step t (start t)
    wakes : (t : Thread) → t.creator ≡ waiting → 0 < t.sem → Step t (sem_wait t)
    joins : (t : Thread) → t.creator ≡ started_it → Step t (join t)
    ends_join : (t : Thread) → t.creator ≡ joining → t.child ≡ ended → Step t (end_join t)
    destroys : (t : Thread) → may_destroy t.creator ≡ true → Step t (destroy t)
    records : (t : Thread) → t.child ≡ born → Step t (record_tid gettid me t)
    posts : (t : Thread) → t.child ≡ recorded → Step t (sem_post t)
    calls : (t : Thread) → t.child ≡ posted → Step t (call_func t)
    returns : (t : Thread) → t.child ≡ running → Step t (end_func t)

  -- `n` steps.
  pub data Run : ℕ → Thread → Thread → Type 0 where
    done : (t : Thread) → Run 0 t t
    next : {n : ℕ} {t u v : Thread} → Run n t u → Step u v → Run (suc n) t v

  abbrev pub GoesOn : Thread → Type 0
  GoesOn t = (u : Thread) × Step t u

  -- What the creator can rely on, by its place.
  abbrev pub Promised : Thread → Creator → Type 0
  Promised t constructed = t.func_calls ≡ 0
  Promised t waiting = t.func_calls ≤ 1
  Promised t started_it = (t.tid_value ≡ gettid me) × (t.func_calls ≤ 1)
  Promised t joining = (t.tid_value ≡ gettid me) × (t.func_calls ≤ 1)
  Promised t joined_it = (t.tid_value ≡ gettid me) × (t.func_calls ≡ 1) × (t.child ≡ ended)
  Promised t gone =
      (t.detached ≡ (t.started && not t.joined))
      × ((t.joined ≡ false) ⊎ ((t.func_calls ≡ 1) × (t.child ≡ ended)))

  -- What the place of the creator says of the others.
  abbrev CreatorHolds : Thread → Creator → Type 0
  CreatorHolds t constructed = (place t.child ≡ 0) × (t.started ≡ false) × (t.joined ≡ false)
  CreatorHolds t waiting = (1 ≤ place t.child) × (t.started ≡ true) × (t.joined ≡ false)
  CreatorHolds t started_it = (3 ≤ place t.child) × (t.started ≡ true) × (t.joined ≡ false)
  CreatorHolds t joining = (3 ≤ place t.child) × (t.started ≡ true) × (t.joined ≡ true)
  CreatorHolds t joined_it = (place t.child ≡ 5) × (t.started ≡ true) × (t.joined ≡ true)
  CreatorHolds t gone =
      ((place t.child ≡ 0) × (t.started ≡ false) × (t.joined ≡ false) × (t.detached ≡ false))
      ⊎ ((3 ≤ place t.child) × (t.started ≡ true) × (t.joined ≡ false) × (t.detached ≡ true))
      ⊎ ((place t.child ≡ 5) × (t.started ≡ true) × (t.joined ≡ true) × (t.detached ≡ false))

  -- What the place of the new thread says.
  abbrev ChildHolds : Thread → Child → Type 0
  ChildHolds t unborn = (t.sem ≡ 0) × (t.func_calls ≡ 0)
  ChildHolds t born = (t.sem ≡ 0) × (t.func_calls ≡ 0)
  ChildHolds t recorded = (t.sem ≡ 0) × (t.func_calls ≡ 0) × (t.tid_value ≡ gettid me)
  ChildHolds t posted =
      (t.func_calls ≡ 0) × (t.tid_value ≡ gettid me) × (t.creator ≡ waiting → 0 < t.sem)
  ChildHolds t running =
      (t.func_calls ≡ 1) × (t.tid_value ≡ gettid me) × (t.creator ≡ waiting → 0 < t.sem)
  ChildHolds t ended =
      (t.func_calls ≡ 1) × (t.tid_value ≡ gettid me) × (t.creator ≡ waiting → 0 < t.sem)

  record Inv (t : Thread) : Type 0 where
    honest : IsHonest gettid t.threads
    creator_holds : CreatorHolds t t.creator
    child_holds : ChildHolds t t.child

-- How many steps are left at most.
abbrev pub left_creator : Creator → ℕ
left_creator constructed = 5
left_creator waiting = 4
left_creator started_it = 3
left_creator joining = 2
left_creator joined_it = 1
left_creator gone = 0

abbrev pub steps_left : Thread → ℕ
steps_left t = left_creator t.creator + (5 - place t.child)

blocked_left : (k : Creator) → is_blocked k ≡ true → 0 < left_creator k
blocked_left k h = ground (arith, h)

module _ (gettid : ℕ → ℕ) (positive : (t : ℕ) → 0 < gettid t) (me : ℕ) where
  Step-Inv : {t u : Thread} → Step gettid me t u → Inv gettid me t → Inv gettid me u
  unfolding start sem_wait record_tid sem_post call_func end_func join end_join destroy
  Step-Inv (starts t h) i = record {
    honest = i.honest;
    creator_holds = ground (arith, h, i);
    child_holds = ground (arith, h, i);
  }
  Step-Inv (wakes t h s) i = record {
    honest = i.honest;
    creator_holds = ground (arith, h, i);
    child_holds = ground (arith, h, i);
  }
  Step-Inv (joins t h) i = record {
    honest = i.honest;
    creator_holds = ground (arith, h, i);
    child_holds = ground (arith, h, i);
  }
  Step-Inv (ends_join t h e) i = record {
    honest = i.honest;
    creator_holds = ground (arith, h, i);
    child_holds = ground (arith, h, i);
  }
  Step-Inv (destroys t h) i = record {
    honest = i.honest;
    creator_holds = ground (arith, h, i);
    child_holds = ground (arith, h, i);
  }
  Step-Inv (records t h) i =
      let (is_id, honest, _) = tid_lem gettid positive me t.threads i.honest in
      record {
        honest = honest;
        creator_holds = ground (arith, h, i);
        child_holds = ground (arith, h, i, is_id);
      }
  Step-Inv (posts t h) i = record {
    honest = i.honest;
    creator_holds = ground (arith, h, i);
    child_holds = ground (arith, h, i);
  }
  Step-Inv (calls t h) i = record {
    honest = i.honest;
    creator_holds = ground (arith, h, i);
    child_holds = ground (arith, h, i);
  }
  Step-Inv (returns t h) i = record {
    honest = i.honest;
    creator_holds = ground (arith, h, i);
    child_holds = ground (arith, h, i);
  }

  init-Inv :
      (num : ℕ) (name : Text) (s : Threads)
      → IsHonest gettid s
      → Inv gettid me ((init num name s).1)
  unfolding init
  init-Inv num name s h = record {
    honest = h;
    creator_holds = (refl, refl, refl);
    child_holds = (refl, refl);
  }

  Run-Inv : {n : ℕ} {t u : Thread} → Run gettid me n t u → Inv gettid me t → Inv gettid me u
  Run-Inv (done t) i = i
  Run-Inv (next r s) i = Step-Inv s (Run-Inv r i)

  made-Inv :
      (num : ℕ) (name : Text) {n : ℕ} {t : Thread}
      → Run gettid me n ((init num name CurrentThread.init).1) t
      → Inv gettid me t
  made-Inv num name r = Run-Inv r (init-Inv num name CurrentThread.init λ u. inl (refl, refl))

  -- However the creating thread and the new one interleave, from the constructor on, where the
  -- system call gives positive numbers: once `start` has returned, and until the destructor, `tid`
  -- is the id of the new thread; up to the destructor `func_` is called at most once; once `join`
  -- has returned, `func_` was called once and is over; and the destructor detaches the thread
  -- exactly if it was started and not joined, and after a `join` finds `func_` called once and
  -- over.
  pub start-Promised :
      (num : ℕ) (name : Text) {n : ℕ} {t : Thread}
      → Run gettid me n ((init num name CurrentThread.init).1) t
      → Promised gettid me t t.creator
  start-Promised num name r = ground (arith, made-Inv num name r)

  Step-less :
      {t u : Thread} → Step gettid me t u → Inv gettid me t → suc (steps_left u) ≤ steps_left t
  unfolding start sem_wait record_tid sem_post call_func end_func join end_join destroy
  Step-less (starts t h) i = ground (arith, h, i)
  Step-less (wakes t h s) i = ground (arith, h, i)
  Step-less (joins t h) i = ground (arith, h, i)
  Step-less (ends_join t h e) i = ground (arith, h, i)
  Step-less (destroys t h) i = ground (arith, h, i)
  Step-less (records t h) i = ground (arith, h, i)
  Step-less (posts t h) i = ground (arith, h, i)
  Step-less (calls t h) i = ground (arith, h, i)
  Step-less (returns t h) i = ground (arith, h, i)

  Run-less :
      {n : ℕ} {t u : Thread}
      → Run gettid me n t u
      → Inv gettid me t
      → n + steps_left u ≤ steps_left t
  Run-less (done t) i = omega arith
  Run-less (next r s) i = omega (arith, Run-less r i, Step-less s (Run-Inv r i))

  -- At the end of the new thread the creator goes on.
  goes_on-ended :
      (k : Creator) (t : Thread)
      → t.creator ≡ k
      → t.child ≡ ended
      → Inv gettid me t
      → is_blocked k ≡ true
      → GoesOn gettid me t
  goes_on-ended constructed t e h i b = absurd (cc (b))
  goes_on-ended waiting t e h i b = (sem_wait t, wakes t e (ground (arith, e, h, i)))
  goes_on-ended started_it t e h i b = absurd (cc (b))
  goes_on-ended joining t e h i b = (end_join t, ends_join t e h)
  goes_on-ended joined_it t e h i b = absurd (cc (b))
  goes_on-ended gone t e h i b = absurd (cc (b))

  goes_on :
      (c : Child) (t : Thread)
      → t.child ≡ c
      → Inv gettid me t
      → is_blocked t.creator ≡ true
      → GoesOn gettid me t
  goes_on unborn t e i b = absurd (ground (arith, e, i, b))
  goes_on born t e i b = (record_tid gettid me t, records t e)
  goes_on recorded t e i b = (sem_post t, posts t e)
  goes_on posted t e i b = (call_func t, calls t e)
  goes_on running t e i b = (end_func t, returns t e)
  goes_on ended t e i b = goes_on-ended t.creator t refl e i b

  -- Where an interleaving, from the constructor on, has left the creator in `start` or in `join`,
  -- and where the system call gives positive numbers, it has made fewer than ten steps, and there
  -- is a next step, of the creator or of the new thread: neither call waits for ever, provided
  -- that `func_` returns.
  pub blocked_ends :
      (num : ℕ) (name : Text) {n : ℕ} {t : Thread}
      → Run gettid me n ((init num name CurrentThread.init).1) t
      → is_blocked t.creator ≡ true
      → (n < 10) × GoesOn gettid me t
  unfolding init
  blocked_ends num name {n} {t} r h = (
    omega (arith, Run-less r (made-Inv num name (done _)), blocked_left t.creator h),
    goes_on t.child t refl (made-Inv num name r) h,
  )
