-- ===== src/Poller/Registry.antt =====
-- The poller's books, the channel's index and the kernel's interest list agree.
use muduo_learning.Prelude.{
  ℕ, ◌≡◌, ◌≢◌, ◌∙◌, ◌==◌, not, Bool, if◌then◌else◌, refl, ap, arith, true, Option, none, some,
  Outcome, ok, Returns, Returns-ok, Returns-map, Bool-cases, inl, inr,
}
use muduo_learning.Channel.{Channel, Index, new, added, deleted, set_index, is_none_event}
use muduo_learning.Loop.{Loop, SameBut}
use muduo_learning.Poller.{
  Epoll, update_at_self, update_at_ne, ctl_add, ctl_mod, ctl_del, update_at, Poller, update,
  update_by_index, update_channel, deregister, remove_channel, has_channel,
}

module _ (epoll : Epoll) where
  open epoll use {Kernel, epoll_ctl, registered, add_lem, mod_lem, del_lem}

  -- What each index says of the map and of the kernel.
  abbrev pub Agrees : Index → Channel → Poller epoll → Type 0
  Agrees new c p = registered p.kernel c.fd ≡ none
  Agrees added c p =
      (registered p.kernel c.fd ≡ some (c.events, c.address)) × (p.channels c.fd ≡ some c.address)
  Agrees deleted c p = (registered p.kernel c.fd ≡ none) × (p.channels c.fd ≡ some c.address)

  abbrev pub Tracked : Channel → Poller epoll → Type 0
  Tracked c p = Agrees c.index c p

  -- What stands for the other descriptors is as it was.
  abbrev pub SameElsewhere : ℕ → Poller epoll → Poller epoll → Type 0
  SameElsewhere fd p q =
      (g : ℕ)
      → g ≢ fd
      → (registered q.kernel g ≡ registered p.kernel g) × (q.channels g ≡ p.channels g)

  -- What `update` does where `epoll_ctl` has to succeed: the kernel's entry for the descriptor
  -- becomes `entry`, and nothing else changes.
  abbrev Updates : Poller epoll → ℕ → Option (ℕ × ℕ) → Outcome (Poller epoll) → Type 0
  Updates p fd entry m =
      (k : Kernel) × (m ≡ ok (record p { kernel = k }))
      × ((g : ℕ) → registered k g ≡ update_at (registered p.kernel) fd entry g)

  update-add :
      (c : Channel) (p : Poller epoll)
      → registered p.kernel c.fd ≡ none
      → Updates p c.fd (some (c.events, c.address)) (update epoll ctl_add c p)
  unfolding update
  update-add c p t =
      let (k, ctl, after) = add_lem p.kernel c.fd c.events c.address t in
      (k, rw (ctl, update), after)

  update-mod :
      (c : Channel) (p : Poller epoll) (old : ℕ × ℕ)
      → registered p.kernel c.fd ≡ some old
      → Updates p c.fd (some (c.events, c.address)) (update epoll ctl_mod c p)
  unfolding update
  update-mod c p old t =
      let (k, ctl, after) = mod_lem p.kernel c.fd c.events c.address old t in
      (k, rw (ctl, update), after)

  update-del :
      (c : Channel) (p : Poller epoll) (old : ℕ × ℕ)
      → registered p.kernel c.fd ≡ some old
      → Updates p c.fd none (update epoll ctl_del c p)
  unfolding update
  update-del c p old t =
      let (k, ctl, after) = del_lem p.kernel c.fd c.events c.address old t in
      (k, rw (ctl, update), after)

  -- Whether a channel is to be watched when its events become `e`: one that was not is registered
  -- whatever they are, one that was is deregistered where none is left.
  abbrev pub watches : Index → ℕ → Bool
  watches new e = true
  watches deleted e = true
  watches added e = not (e == 0)

  -- The new index of an updated channel, what the map and the kernel then hold for its descriptor,
  -- and what they hold for others.
  abbrev pub Updated : Channel → ℕ → Poller epoll → Channel × Poller epoll → Type 0
  Updated c e p (d, q) =
      SameBut (record c { events = e }) d
      × Tracked d q
      × SameElsewhere c.fd p q
      × (d.index ≡ (if watches c.index e then added else deleted))
      × (registered q.kernel c.fd ≡ (if watches c.index e then some (e, c.address) else none))
      × (q.channels c.fd ≡ some c.address)

  update_by_index_lem :
      (i : Index) (c : Channel) (e : ℕ) (p : Poller epoll)
      → Agrees i c p
      → Returns
          (update_by_index epoll i (record c { events = e; index = i }) p)
          (Updated (record c { index = i }) e p)
  unfolding update_by_index set_index is_none_event
  update_by_index_lem new c e p t =
      let d = record c { events = e; index = added } in
      let q = record p { channels = update_at p.channels c.fd (some c.address) } in
      let (k, ok_k, after) = update-add d q t in
      rw ok_k (
        ground arith,
        (
          after c.fd ∙ update_at_self (registered p.kernel) c.fd _,
          update_at_self p.channels c.fd _,
        ),
        λ g ne. (
          after g ∙ update_at_ne (registered p.kernel) c.fd _ g ne,
          update_at_ne p.channels c.fd _ g ne,
        ),
        refl,
        after c.fd ∙ update_at_self (registered p.kernel) c.fd _,
        update_at_self p.channels c.fd _,
      )
  update_by_index_lem deleted c e p t =
      let d = record c { events = e; index = added } in
      let (k, ok_k, after) = update-add d p t.0 in
      rw ok_k (
        ground arith,
        (after c.fd ∙ update_at_self (registered p.kernel) c.fd _, t.1),
        λ g ne. (after g ∙ update_at_ne (registered p.kernel) c.fd _ g ne, refl),
        refl,
        after c.fd ∙ update_at_self (registered p.kernel) c.fd _,
        t.1,
      )
  update_by_index_lem added c e p t =
      let d = record c { events = e; index = added } in
      let (k, ok_k, after) = update-del d p _ t.0 in
      let (l, ok_l, then_on) = update-mod d p _ t.0 in
      elim (Bool-cases (e == 0)) [
        | inl none_left ↦
            rw (none_left, ok_k)
              (
                ground arith,
                (after c.fd ∙ update_at_self (registered p.kernel) c.fd _, t.1),
                λ g ne. (after g ∙ update_at_ne (registered p.kernel) c.fd _ g ne, refl),
                rw none_left refl,
                rw none_left (after c.fd ∙ update_at_self (registered p.kernel) c.fd _),
                t.1,
              )
        | inr some_left ↦
            rw (some_left, ok_l)
              (
                ground arith,
                (then_on c.fd ∙ update_at_self (registered p.kernel) c.fd _, t.1),
                λ g ne. (then_on g ∙ update_at_ne (registered p.kernel) c.fd _ g ne, refl),
                rw some_left refl,
                rw some_left (then_on c.fd ∙ update_at_self (registered p.kernel) c.fd _),
                t.1,
              )
      ]

  -- `updateChannel` on a channel that the books agree with, after any change of its events: the
  -- process goes on and the books agree again. The channel is in the map. If its index was kNew or
  -- kDeleted, or events are left, its index is kAdded and the kernel watches its descriptor for
  -- exactly these events, with the channel's pointer; else the index is kDeleted and the kernel
  -- does not watch the descriptor. The channel is otherwise as it was, and nothing in the map or
  -- registered for another descriptor changes.
  pub update_channel-Updated :
      (c : Channel) (e : ℕ) (p : Poller epoll)
      → Tracked c p
      → Returns (update_channel epoll (record c { events = e }) p) (Updated c e p)
  unfolding update_channel
  update_channel-Updated c e p t = update_by_index_lem c.index c e p t

  abbrev pub Removed : Channel → Poller epoll → Channel × Poller epoll → Type 0
  Removed c p (d, q) =
      SameBut c d
      × (d.index ≡ new)
      × Tracked d q
      × (q.channels c.fd ≡ none)
      × SameElsewhere c.fd p q

  deregister_lem :
      (i : Index) (c : Channel) (p : Poller epoll)
      → Agrees i c p
      → let q = record p { channels = update_at p.channels c.fd none } in
        Returns (deregister epoll i c q) λ r.
          (r.channels ≡ q.channels)
          × (registered r.kernel c.fd ≡ none)
          × ((g : ℕ) → g ≢ c.fd → registered r.kernel g ≡ registered p.kernel g)
  deregister_lem new c p t = (refl, t, λ g ne. refl)
  deregister_lem deleted c p t = (refl, t.0, λ g ne. refl)
  deregister_lem added c p t =
      let q = record p { channels = update_at p.channels c.fd none } in
      let (k, ok_k, after) = update-del c q _ t.0 in
      rw ok_k (
        refl,
        after c.fd ∙ update_at_self (registered p.kernel) c.fd _,
        λ g ne. after g ∙ update_at_ne (registered p.kernel) c.fd _ g ne,
      )

  -- `removeChannel` on a channel that the books agree with: the process goes on, the channel is
  -- new again and otherwise as it was, its descriptor is in neither the map nor the kernel's list,
  -- and nothing registered for another descriptor changes.
  pub remove_channel-Removed :
      (c : Channel) (p : Poller epoll)
      → Tracked c p
      → Returns (remove_channel epoll c p) (Removed c p)
  unfolding remove_channel set_index
  remove_channel-Removed c p t =
      let q = record p { channels = update_at p.channels c.fd none } in
      let (r, ok_r, held) =
        Returns-ok (deregister epoll c.index c q) _ (deregister_lem c.index c p t) in
      let (same, gone, rest) = held in
      rw ok_r (
        ground arith,
        refl,
        gone,
        ap (λ (m : ℕ → Option ℕ). m c.fd) same ∙ update_at_self p.channels c.fd _,
        λ g ne.
            (rest g ne, ap (λ (m : ℕ → Option ℕ). m g) same ∙ update_at_ne p.channels c.fd _ g ne),
      )

  -- `hasChannel` finds a channel that the books agree with and whose index is kAdded or kDeleted.
  pub has_channel-Tracked :
      (c : Channel) (p : Poller epoll) → Tracked c p → c.index ≢ new → has_channel epoll c p ≡ true
  unfolding has_channel
  has_channel-Tracked c p t ne = go c.index t ne
    where
      go : (i : Index) → Agrees i c p → i ≢ new → has_channel epoll c p ≡ true
      go new t ne = absurd (ne refl)
      go added t ne = ground (arith, t.1)
      go deleted t ne = ground (arith, t.1)

  pub Agrees-tie :
      (i : Index) (c : Channel) (p : Poller epoll)
      → Agrees i c p
      → Agrees i (record c { tied = true }) p
  Agrees-tie new c p t = t
  Agrees-tie added c p t = t
  Agrees-tie deleted c p t = t

  pub Agrees-revents :
      (i : Index) (c : Channel) (r : ℕ) (p : Poller epoll)
      → Agrees i c p
      → Agrees i (record c { revents = r }) p
  Agrees-revents new c r p t = t
  Agrees-revents added c r p t = t
  Agrees-revents deleted c r p t = t

  pub Agrees-elsewhere :
      (i : Index) (d : Channel) (fd : ℕ) (p q : Poller epoll)
      → SameElsewhere fd p q
      → d.fd ≢ fd
      → Agrees i d p
      → Agrees i d q
  Agrees-elsewhere new d fd p q same ne k = (same d.fd ne).0 ∙ k
  Agrees-elsewhere added d fd p q same ne k = ((same d.fd ne).0 ∙ k.0, (same d.fd ne).1 ∙ k.1)
  Agrees-elsewhere deleted d fd p q same ne k = ((same d.fd ne).0 ∙ k.0, (same d.fd ne).1 ∙ k.1)

  -- The poller is a loop in the sense of its clients.
  abbrev pub poller_loop : Loop
  poller_loop = record {
    State = Poller epoll;
    update_channel = update_channel epoll;
    remove_channel = remove_channel epoll;
    Tracked = Tracked;
    tie_tracked = λ c p t. Agrees-tie c.index c p t;
    revents_tracked = λ c r p t. Agrees-revents c.index c r p t;
    update_tracked = λ c e p t.
        Returns-map (update_channel epoll (record c { events = e }) p) (Updated c e p) _
          (update_channel-Updated c e p t) (λ r u. (u.0, u.1));
    remove_tracked = λ c p t.
        Returns-map (remove_channel epoll c p) (Removed c p) _ (remove_channel-Removed c p t)
          (λ r u. (u.0, u.1, u.2));
    update_apart = λ c d e p t ne k.
        Returns-map (update_channel epoll (record c { events = e }) p) (Updated c e p) _
          (update_channel-Updated c e p t) (λ r u. Agrees-elsewhere d.index d c.fd p r.1 u.2 ne k);
    remove_apart = λ c d p t ne k.
        Returns-map (remove_channel epoll c p) (Removed c p) _ (remove_channel-Removed c p t)
          (λ r u. Agrees-elsewhere d.index d c.fd p r.1 u.4 ne k);
  }
