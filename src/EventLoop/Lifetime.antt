-- ===== src/EventLoop/Lifetime.antt =====
-- src/EventLoop.cc and src/DefaultPoller.cc: the constructor and the destructor, with the thread-local
-- pointer to the thread's loop and the channel of the eventfd. What `getenv` and `eventfd` give are
-- parameters, and `fresh` is what `new EPollPoller` comes to: the poller that it makes, or the end of
-- the process where `epoll_create1` fails (`construct_poller` of Poller).
use muduo_learning.Prelude.{
  ℕ, ◌≡◌, ◌≢◌, refl, Bool, true, false, Option, some, none, List, [], ◌∷◌, ◌++◌, if◌then◌else◌,
  ◌==◌, Outcome, ok, fatal, ◌>>=◌, Returns, Returns-bind, ap, ap₂, ◌∙◌,
}
use muduo_learning.Channel
use muduo_learning.Channel.{Channel, new, read_event, none_event, with_reading}
use muduo_learning.Loop.{Loop, enable_reading, disable_all}

-- `createEventfd`, where `eventfd` gives a descriptor or -1.
abbrev pub create_eventfd : Option ℕ → Outcome ℕ
create_eventfd (some fd) = ok fd
create_eventfd none = fatal

module _ (l : Loop) where
  -- `Poller::newDefaultPoller`: a null pointer where MUDUO_USE_POLL is set.
  abbrev pub new_default_poller : Bool → Outcome l.State → Outcome (Option l.State)
  new_default_poller use_poll fresh = if use_poll then ok none else (fresh >>= λ p. ok (some p))

  -- The members that the constructor sets, `t_loopInThisThread` of the thread (`none` is a null
  -- pointer), and the descriptors that were closed.
  pub record Resident : Type 0 where
    pub thread_id : ℕ
    pub wakeup_fd : ℕ
    pub wakeup_channel : Channel
    pub poller : l.State
    pub loop_in_this_thread : Option ℕ
    pub closed : List ℕ

  -- `wakeupChannel_->enableReading()`, which calls a method of the poller.
  abbrev pub watch_wakeup : ℕ → ℕ → ℕ → Channel → Option l.State → Outcome Resident
  watch_wakeup this thread_id fd c none = fatal
  watch_wakeup this thread_id fd c (some p) = enable_reading l c p >>= λ r. ok (record {
    thread_id = thread_id;
    wakeup_fd = fd;
    wakeup_channel = r.0;
    poller = r.1;
    loop_in_this_thread = some this;
    closed = [];
  })

  -- The body of the constructor, by `t_loopInThisThread`.
  abbrev pub take_thread : Option ℕ → ℕ → ℕ → ℕ → Channel → Option l.State → Outcome Resident
  take_thread (some other) this thread_id fd c p = fatal
  take_thread none this thread_id fd c p = watch_wakeup this thread_id fd c p

  -- The constructor of the loop at address `this`, in thread `thread_id`; `channel_address` is the
  -- wakeup channel's.
  unfoldable pub construct_loop :
      Bool → Outcome l.State → Option ℕ → Option ℕ → ℕ → ℕ → ℕ → Outcome Resident
  construct_loop use_poll fresh eventfd in_this_thread this channel_address thread_id = do
    poller ← new_default_poller use_poll fresh
    fd ← create_eventfd eventfd
    take_thread in_this_thread this thread_id fd (Channel.init channel_address fd) poller

  abbrev pub on_wakeup :
      (Channel → l.State → Outcome (Channel × l.State)) → Resident → Outcome Resident
  on_wakeup f e =
      f e.wakeup_channel e.poller >>= λ r. ok (record e { wakeup_channel = r.0; poller = r.1 })

  -- The destructor.
  unfoldable pub destruct : Resident → Outcome Resident
  destruct e = do
    e ← on_wakeup (disable_all l) e
    e ← on_wakeup l.remove_channel e
    ok (record e { closed = e.closed ++ e.wakeup_fd ∷ []; loop_in_this_thread = none })

  unfoldable pub is_in_loop_thread : ℕ → Resident → Bool
  is_in_loop_thread current_tid e = e.thread_id == current_tid

  abbrev pub Watches : ℕ → ℕ → ℕ → Resident → Type 0
  Watches this thread_id fd e =
      (e.loop_in_this_thread ≡ some this)
      × (e.thread_id ≡ thread_id)
      × (e.wakeup_fd ≡ fd)
      × (e.closed ≡ [])
      × (e.wakeup_channel.fd ≡ fd)
      × (e.wakeup_channel.events ≡ read_event)
      × l.Tracked e.wakeup_channel e.poller

  watch_wakeup-Watches :
      (this thread_id fd : ℕ) (c : Channel) (p : l.State)
      → c.fd ≡ fd
      → c.events ≡ none_event
      → l.Tracked c p
      → Returns (watch_wakeup this thread_id fd c (some p)) (Watches this thread_id fd)
  unfolding enable_reading with_reading
  watch_wakeup-Watches this thread_id fd c p same quiet t =
      Returns-bind (l.update_channel (record c { events = with_reading c.events }) p) _ _
        (Watches this thread_id fd) (l.update_tracked c (with_reading c.events) p t)
        (λ r h. (
          refl,
          refl,
          refl,
          refl,
          h.0.same_fd ∙ same,
          h.0.same_events ∙ ap with_reading quiet,
          h.1,
        ))

  -- What becomes of the constructor, by MUDUO_USE_POLL, `new EPollPoller`, `eventfd` and
  -- `t_loopInThisThread`.
  abbrev pub Constructs :
      ℕ → ℕ → Bool → Outcome l.State → Option ℕ → Option ℕ → Outcome Resident → Type 0
  Constructs this thread_id true fresh eventfd in_this_thread r = r ≡ fatal
  Constructs this thread_id false fatal eventfd in_this_thread r = r ≡ fatal
  Constructs this thread_id false (ok p) none in_this_thread r = r ≡ fatal
  Constructs this thread_id false (ok p) (some fd) (some other) r = r ≡ fatal
  Constructs this thread_id false (ok p) (some fd) none r = Returns r (Watches this thread_id fd)

  -- The books of the poller that was made, if one was, agree with a channel that is new.
  abbrev pub AgreesFresh : ℕ → Outcome l.State → Type 0
  AgreesFresh channel_address fatal = Unit
  AgreesFresh channel_address (ok p) = (fd : ℕ) → l.Tracked (Channel.init channel_address fd) p

  pub construct-Constructs :
      (fresh : Outcome l.State) (this channel_address thread_id : ℕ)
      → AgreesFresh channel_address fresh
      → (use_poll : Bool) (eventfd in_this_thread : Option ℕ)
      → Constructs this thread_id use_poll fresh eventfd in_this_thread
          (construct_loop use_poll fresh eventfd in_this_thread this channel_address thread_id)
  unfolding construct_loop Channel.init
  construct-Constructs fatal this channel_address thread_id t true none in_this_thread = refl
  construct-Constructs fatal this channel_address thread_id t true (some fd) none = refl
  construct-Constructs fatal this channel_address thread_id t true (some fd) (some other) = refl
  construct-Constructs (ok p) this channel_address thread_id t true none in_this_thread = refl
  construct-Constructs (ok p) this channel_address thread_id t true (some fd) none = refl
  construct-Constructs (ok p) this channel_address thread_id t true (some fd) (some other) = refl
  construct-Constructs fatal this channel_address thread_id t false eventfd in_this_thread = refl
  construct-Constructs (ok p) this channel_address thread_id t false none in_this_thread = refl
  construct-Constructs (ok p) this channel_address thread_id t false (some fd) (some other) = refl
  construct-Constructs (ok p) this channel_address thread_id t false (some fd) none =
      watch_wakeup-Watches this thread_id fd (Channel.init channel_address fd) p refl refl (t fd)

  -- Another channel that the fresh poller agrees with is left as it was.
  pub construct-apart :
      (fresh : l.State) (this channel_address thread_id fd : ℕ) (d : Channel)
      → l.Tracked (Channel.init channel_address fd) fresh
      → d.fd ≢ fd
      → l.Tracked d fresh
      → Returns
          (construct_loop false (ok fresh) (some fd) none this channel_address thread_id)
          (λ e. l.Tracked d e.poller)
  unfolding construct_loop enable_reading Channel.init
  construct-apart fresh this channel_address thread_id fd d t ne k =
      let c = Channel.init channel_address fd in
      Returns-bind (l.update_channel (record c { events = with_reading c.events }) fresh) _
        (λ r. l.Tracked d r.1) _ (l.update_apart c d (with_reading c.events) fresh t ne k)
        (λ r h. h)

  on_wakeup_lem :
      (events : ℕ) (e : Resident)
      → l.Tracked e.wakeup_channel e.poller
      → Returns (on_wakeup (λ c s. l.update_channel (record c { events = events }) s) e) λ b.
        (b.wakeup_channel.events ≡ events)
        × l.Tracked b.wakeup_channel b.poller
        × (b.wakeup_fd ≡ e.wakeup_fd)
        × (b.closed ≡ e.closed)
  on_wakeup_lem events e t =
      Returns-bind (l.update_channel (record e.wakeup_channel { events = events }) e.poller) _ _ _
        (l.update_tracked e.wakeup_channel events e.poller t)
        (λ r h. (h.0.same_events, h.1, refl, refl))

  abbrev Removed : Resident → Resident → Type 0
  Removed b r =
      (r.wakeup_channel.index ≡ new)
      × l.Tracked r.wakeup_channel r.poller
      × (r.wakeup_fd ≡ b.wakeup_fd)
      × (r.closed ≡ b.closed)
      × (r.wakeup_channel.events ≡ b.wakeup_channel.events)

  on_wakeup-Removed :
      (b : Resident)
      → l.Tracked b.wakeup_channel b.poller
      → Returns (on_wakeup l.remove_channel b) (Removed b)
  on_wakeup-Removed b t =
      Returns-bind (l.remove_channel b.wakeup_channel b.poller) _ _ (Removed b)
        (l.remove_tracked b.wakeup_channel b.poller t)
        (λ r h. (h.1, h.2, refl, refl, h.0.same_events))

  -- The thread is free, the eventfd is closed, and the poller has no more to do with its channel.
  abbrev pub Released : Resident → Resident → Type 0
  Released e b =
      (b.loop_in_this_thread ≡ none)
      × (b.closed ≡ e.closed ++ e.wakeup_fd ∷ [])
      × (b.wakeup_channel.events ≡ none_event)
      × (b.wakeup_channel.index ≡ new)
      × l.Tracked b.wakeup_channel b.poller

  -- The destructor, where the poller's books agree with the wakeup channel: it returns, the thread's
  -- pointer is null again, the eventfd is closed, once, and the wakeup channel has no events and the
  -- index kNew, with which the books agree.
  pub destruct-Released :
      (e : Resident) → l.Tracked e.wakeup_channel e.poller → Returns (destruct e) (Released e)
  unfolding destruct disable_all
  destruct-Released e t =
      Returns-bind (on_wakeup (disable_all l) e) _ _ _ (on_wakeup_lem none_event e t) λ b g.
        Returns-bind (on_wakeup l.remove_channel b) _ (Removed b) _ (on_wakeup-Removed b g.1)
          (λ r h. (refl, ap₂ (λ c f. c ++ f ∷ []) (h.3 ∙ g.3) (h.2 ∙ g.2), h.4 ∙ g.0, h.0, h.1))
