-- ===== src/TcpConnection/Neighbours.antt =====
-- Several connections in one loop: what happens to one keeps the others as they were.
use muduo_learning.Prelude.{
  ℕ, zero, suc, ◌≡◌, ◌≢◌, refl, sym, List, [], ◌∷◌, Outcome, ok, ◌>>=◌, Returns, Returns-map,
  Returns-both,
}
use mathlib.Core.Path.{subst}
use muduo_learning.Channel.{Channel, set_revents}
use muduo_learning.Loop.{Loop, enable_reading, disable_all, disable_writing, enable_writing}
use muduo_learning.Loop.Beside.{beside}
use muduo_learning.TcpConnection.{
  Conn, Sys, Handlers, callbacks, on_event, connect_established, connect_destroyed, handle_close,
  handle_read, after_read, handle_write, after_write_fd, after_drain, shutdown_in_loop,
  send_in_loop, write_directly, after_write, buffer_rest, keep_rest, shutdown,
}
use muduo_learning.TcpConnection.Invariant.{Documented, Inv}
use muduo_learning.TcpConnection.Lifecycle.{Careful}
use muduo_learning.TcpConnection.Life.{Event, perform, perform-Inv, Allowed}

module _ (l : Loop) (sys : Sys) (h : Handlers l) where
  -- Each connection stands with a state of the loop of its own; the loop has one, `b`.
  abbrev pub seat : l.State → Conn l → Conn l
  seat b w = record w { loop = b }

  -- Something happens to the connection at a place of the list.
  unfoldable pub serve : ℕ → Event → l.State → List (Conn l) → Outcome (l.State × List (Conn l))
  serve i e b [] = ok (b, [])
  serve zero e b (w ∷ ws) = perform l sys h e (seat b w) >>= λ u. ok (u.loop, u ∷ ws)
  serve (suc i) e b (w ∷ ws) = serve i e b ws >>= λ r. ok (r.0, w ∷ r.1)

  abbrev pub AllowedAt : ℕ → Event → l.State → List (Conn l) → Type 0
  AllowedAt i e b [] = Unit
  AllowedAt zero e b (w ∷ ws) = Allowed l sys h e (seat b w)
  AllowedAt (suc i) e b (w ∷ ws) = AllowedAt i e b ws

  -- No connection has the descriptor.
  abbrev pub Apart : ℕ → List (Conn l) → Type 0
  Apart fd [] = Unit
  Apart fd (w ∷ ws) = (fd ≢ w.channel.fd) × Apart fd ws

  -- All connections have their invariant, and each a descriptor of its own.
  abbrev pub AllHold : l.State → List (Conn l) → Type 0
  AllHold b [] = Unit
  AllHold b (w ∷ ws) = Inv l (seat b w) × Apart w.channel.fd ws × AllHold b ws

  -- The user's callbacks return and keep the invariant, and the loop's books with any other channel.
  pub record Neighbourly : Type 0 where
    pub alone : Careful l h
    pub with_other : (d : Channel) → Careful (beside l d) h

  -- The operations are the same in the loop that is watched beside a channel.
  perform-beside :
      (d : Channel) (e : Event) (w : Conn l) → perform (beside l d) sys h e w ≡ perform l sys h e w
  unfolding perform connect_established connect_destroyed on_event callbacks handle_close
      handle_read after_read handle_write after_write_fd after_drain shutdown_in_loop disable_all
      disable_writing enable_reading enable_writing send_in_loop write_directly after_write
      buffer_rest keep_rest shutdown set_revents
  perform-beside d Event.establishes w = refl
  perform-beside d (Event.reports revents time) w = refl
  perform-beside d (Event.sends bytes) w = refl
  perform-beside d (Event.shuts here) w = refl
  perform-beside d Event.destroys w = refl

  Allowed-beside :
      (d : Channel) (e : Event) (w : Conn l) → Allowed l sys h e w → Allowed (beside l d) sys h e w
  Allowed-beside d Event.establishes w a = a
  Allowed-beside d (Event.reports revents time) w a = a
  Allowed-beside d (Event.sends bytes) w a = a
  Allowed-beside d (Event.shuts here) w a = a
  Allowed-beside d Event.destroys w a = a

  -- Another channel stays in agreement.
  abbrev pub KeepsOther : Channel → Conn l → Type 0
  KeepsOther d u = (d.fd ≢ u.channel.fd) × l.Tracked d u.loop

  pub perform-KeepsOther :
      (d : Channel) (e : Event) (w : Conn l)
      → Documented sys
      → Neighbourly
      → Inv l w
      → Allowed l sys h e w
      → KeepsOther d w
      → Returns (perform l sys h e w) (KeepsOther d)
  perform-KeepsOther d e w doc n v a (apart, t) =
      subst (λ m. Returns m (KeepsOther d)) (perform-beside d e w)
        (Returns-map (perform (beside l d) sys h e w) (Inv (beside l d)) (KeepsOther d)
          (perform-Inv (beside l d) sys h e w doc (n.with_other d)
            (record {
              input_valid = v.input_valid;
              output_valid = v.output_valid;
              tracked = (v.tracked, apart, t);
              wish = v.wish;
              masked = v.masked;
              pending = v.pending;
            })
            (Allowed-beside d e w a))
          λ u k. (k.tracked.1, k.tracked.2))

  pub reseat :
      (b : l.State) (w : Conn l) (v : Inv l (seat b w)) (b' : l.State)
      → l.Tracked w.channel b'
      → Inv l (seat b' w)
  reseat b w v b' t = record {
    input_valid = v.input_valid;
    output_valid = v.output_valid;
    tracked = t;
    wish = v.wish;
    masked = v.masked;
    pending = v.pending;
  }

  -- What happens to `w` leaves the other connections their invariants.
  pub perform-AllHold :
      (e : Event) (b : l.State) (w : Conn l) (ws : List (Conn l))
      → Documented sys
      → Neighbourly
      → Inv l (seat b w)
      → Allowed l sys h e (seat b w)
      → Apart w.channel.fd ws
      → AllHold b ws
      → Returns (perform l sys h e (seat b w)) λ u. Apart u.channel.fd ws × AllHold u.loop ws
  perform-AllHold e b w [] doc n v a apart hold =
      Returns-map (perform l sys h e (seat b w)) (Inv l) _
        (perform-Inv l sys h e (seat b w) doc n.alone v a) (λ u k. (tt, tt))
  perform-AllHold e b w (x ∷ ws) doc n v a apart hold =
      Returns-map (perform l sys h e (seat b w)) _ _
        (Returns-both (perform l sys h e (seat b w)) _ _
          (perform-KeepsOther x.channel e (seat b w) doc n v a
            (λ same. apart.0 (sym same), hold.0.tracked))
          (perform-AllHold e b w ws doc n v a apart.1 hold.2))
        λ u k. ((λ same. k.0.0 (sym same), k.1.0), (reseat b x hold.0 u.loop k.0.1, hold.1, k.1.1))
