-- ===== src/Acceptor/Listening.antt =====
-- src/Acceptor.cc: no accepted descriptor is lost, and the channel enters and leaves the loop's books.
use muduo_learning.Prelude.{
  ℕ, ◌≡◌, ◌∙◌, refl, sym, ap, Bool, Bool-cases, true, false, if◌then◌else◌, List, [], ◌∷◌, ◌++◌,
  Returns, Returns-bind, Returns-map, append-nil, append_assoc, inl, inr,
}
use mathlib.Core.Path.{subst}
use muduo_learning.Channel.{new, with_reading, none_event}
use muduo_learning.Loop.{Loop, enable_reading, disable_all}
use muduo_learning.Acceptor.{
  AcceptResult, failed, gives, Acceptor, listen, handle_read, handle_reads, destroy, on_channel,
}

-- The descriptors that `accept` gave.
abbrev pub given : List AcceptResult → List ℕ
given [] = []
given (failed e ∷ rs) = given rs
given (gives fd ∷ rs) = fd ∷ given rs

module _ (l : Loop) where
  -- The descriptors went to the callback, or were closed, and nothing else changed.
  abbrev pub Accounts : Bool → List ℕ → Acceptor l → Acceptor l → Type 0
  Accounts b fds a a' =
      (a'.handed ≡ (if b then a.handed ++ fds else a.handed))
      × (a'.closed ≡ (if b then a.closed else a.closed ++ fds))
      × (a'.channel ≡ a.channel)
      × (a'.listenning ≡ a.listenning)

  abbrev after_accept : Bool → ℕ → Acceptor l → Acceptor l
  after_accept true fd a = record a { handed = a.handed ++ fd ∷ [] }
  after_accept false fd a = record a { closed = a.closed ++ fd ∷ [] }

  handle_read-gives :
      (fd : ℕ) (a : Acceptor l) → handle_read l (gives fd) a ≡ after_accept a.has_callback fd a
  unfolding handle_read
  handle_read-gives fd a = elim (Bool-cases a.has_callback) [
    | inl set ↦
        ap (λ b. if b then after_accept true fd a else after_accept false fd a) set
        ∙ ap (λ b. after_accept b fd a) (sym set)
    | inr unset ↦
        ap (λ b. if b then after_accept true fd a else after_accept false fd a) unset
        ∙ ap (λ b. after_accept b fd a) (sym unset)
  ]

  handle_reads-Accounts_at :
      (b : Bool) (rs : List AcceptResult) (a : Acceptor l)
      → a.has_callback ≡ b
      → Accounts b (given rs) a (handle_reads l rs a)
  unfolding handle_reads handle_read
  handle_reads-Accounts_at true [] a h = (sym (append-nil a.handed), refl, refl, refl)
  handle_reads-Accounts_at false [] a h = (refl, sym (append-nil a.closed), refl, refl)
  handle_reads-Accounts_at b (failed e ∷ rs) a h = handle_reads-Accounts_at b rs a h
  handle_reads-Accounts_at true (gives fd ∷ rs) a h =
      let (x, y, z, u) =
        handle_reads-Accounts_at true rs (record a { handed = a.handed ++ fd ∷ [] }) h in
      subst (λ v. Accounts true (fd ∷ given rs) a (handle_reads l rs v))
        (sym (handle_read-gives fd a ∙ ap (λ b. after_accept b fd a) h))
        (x ∙ append_assoc a.handed (fd ∷ []) (given rs), y, z, u)
  handle_reads-Accounts_at false (gives fd ∷ rs) a h =
      let (x, y, z, u) =
        handle_reads-Accounts_at false rs (record a { closed = a.closed ++ fd ∷ [] }) h in
      subst (λ v. Accounts false (fd ∷ given rs) a (handle_reads l rs v))
        (sym (handle_read-gives fd a ∙ ap (λ b. after_accept b fd a) h))
        (x, y ∙ append_assoc a.closed (fd ∷ []) (given rs), z, u)

  -- However often the acceptor's `handleRead` is called, and whatever `accept` gives: with the
  -- callback set, every descriptor that `accept` gave is handed to it, once and in order, and none
  -- is closed; without it every one is closed, once and in order, and none is handed on; the
  -- channel is as it was.
  pub handle_reads-Accounts :
      (rs : List AcceptResult) (a : Acceptor l)
      → Accounts a.has_callback (given rs) a (handle_reads l rs a)
  handle_reads-Accounts rs a = handle_reads-Accounts_at a.has_callback rs a refl

  on_channel_lem :
      (e : ℕ) (a : Acceptor l)
      → l.Tracked a.channel a.loop
      → Returns
          (on_channel l (λ c s. l.update_channel (record c { events = e }) s) a)
          λ b. (b.channel.events ≡ e) × l.Tracked b.channel b.loop × (b.listenning ≡ a.listenning)
  on_channel_lem e a t =
      Returns-bind (l.update_channel (record a.channel { events = e }) a.loop) _ _ _
        (l.update_tracked a.channel e a.loop t) (λ r h. (h.0.same_events, h.1, refl))

  -- The channel waits for what comes in.
  abbrev pub Listens : Acceptor l → Acceptor l → Type 0
  Listens a b =
      (b.listenning ≡ true)
      × (b.channel.events ≡ with_reading a.channel.events)
      × l.Tracked b.channel b.loop

  -- `Acceptor::listen`, on a channel that the loop's books agree with: it returns, the acceptor is
  -- marked as listening, reading is added to the channel's events and nothing else, and the books
  -- agree with the channel again.
  pub listen-Listens :
      (a : Acceptor l) → l.Tracked a.channel a.loop → Returns (listen l a) (Listens a)
  unfolding listen enable_reading
  listen-Listens a t =
      Returns-map (on_channel l (enable_reading l) (record a { listenning = true })) _ (Listens a)
        (on_channel_lem (with_reading a.channel.events) (record a { listenning = true }) t)
        (λ b g. (g.2, g.0, g.1))

  abbrev pub Gone : Acceptor l → Type 0
  Gone b = (b.channel.events ≡ none_event) × (b.channel.index ≡ new) × l.Tracked b.channel b.loop

  -- The acceptor's destructor, on a channel that the loop's books agree with: it returns, the
  -- channel has no events, its index is kNew, and the books agree with it.
  pub destroy-Gone : (a : Acceptor l) → l.Tracked a.channel a.loop → Returns (destroy l a) Gone
  unfolding destroy disable_all
  destroy-Gone a t =
      Returns-bind (on_channel l (disable_all l) a) _ _ _ (on_channel_lem none_event a t) λ b g.
        Returns-bind (l.remove_channel b.channel b.loop) _ _ _
          (l.remove_tracked b.channel b.loop g.1) (λ r h. (h.0.same_events ∙ g.0, h.1, h.2))
