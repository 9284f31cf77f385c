-- ===== src/TcpConnection/Together.antt =====
-- Any number of connections in one loop, through all that happens to them.
use muduo_learning.Prelude.{
  ℕ, zero, suc, ◌≡◌, List, [], ◌∷◌, ◌++◌, ok, Returns, Returns-bind, Returns-both,
}
use mathlib.Core.Path.{subst}
use muduo_learning.Channel
use muduo_learning.Channel.{Channel, set_revents}
use muduo_learning.Loop.{Loop}
use muduo_learning.TcpConnection.{Conn, Sys, Handlers, init}
use muduo_learning.TcpConnection.Invariant.{Documented, Inv}
use muduo_learning.TcpConnection.Owned.{init-Inv}
use muduo_learning.TcpConnection.Life.{Event, perform, perform-Inv}
use muduo_learning.TcpConnection.Neighbours.{
  seat, serve, AllowedAt, Apart, AllHold, Neighbourly, KeepsOther, perform-KeepsOther,
  perform-AllHold, reseat,
}

module _ (l : Loop) (sys : Sys) (h : Handlers l) where
  -- A channel of another descriptor stays in agreement, whichever connection is served.
  serve-Apart :
      (d : Channel) (i : ℕ) (e : Event) (b : l.State) (ws : List (Conn l))
      → Documented sys
      → Neighbourly l sys h
      → AllHold l sys h b ws
      → AllowedAt l sys h i e b ws
      → Apart l sys h d.fd ws
      → l.Tracked d b
      → Returns (serve l sys h i e b ws) λ r. Apart l sys h d.fd r.1 × l.Tracked d r.0
  unfolding serve
  serve-Apart d i e b [] doc n hold a apart t = (tt, t)
  serve-Apart d zero e b (w ∷ ws) doc n hold a apart t =
      Returns-bind (perform l sys h e (seat l sys h b w)) _ (KeepsOther l sys h d) _
        (perform-KeepsOther l sys h d e (seat l sys h b w) doc n hold.0 a (apart.0, t))
        λ u k. ((k.0, apart.1), k.1)
  serve-Apart d (suc i) e b (w ∷ ws) doc n hold a apart t =
      Returns-bind (serve l sys h i e b ws) _ _ _ (serve-Apart d i e b ws doc n hold.2 a apart.1 t)
        λ r k. ((apart.0, k.0), k.1)

  serve-AllHold :
      (i : ℕ) (e : Event) (b : l.State) (ws : List (Conn l))
      → Documented sys
      → Neighbourly l sys h
      → AllHold l sys h b ws
      → AllowedAt l sys h i e b ws
      → Returns (serve l sys h i e b ws) λ r. AllHold l sys h r.0 r.1
  unfolding serve
  serve-AllHold i e b [] doc n hold a = tt
  serve-AllHold zero e b (w ∷ ws) doc n hold a =
      Returns-bind (perform l sys h e (seat l sys h b w)) _ _ _
        (Returns-both (perform l sys h e (seat l sys h b w)) (Inv l) _
          (perform-Inv l sys h e (seat l sys h b w) doc n.alone hold.0 a)
          (perform-AllHold l sys h e b w ws doc n hold.0 a hold.1 hold.2))
        λ u k. (k.0, k.1.0, k.1.1)
  serve-AllHold (suc i) e b (w ∷ ws) doc n hold a =
      Returns-bind (serve l sys h i e b ws) _ _ _
        (Returns-both (serve l sys h i e b ws) _ _ (serve-AllHold i e b ws doc n hold.2 a)
          (serve-Apart w.channel i e b ws doc n hold.2 a hold.1 hold.0.tracked))
        λ r k. (reseat l sys h b w hold.0 r.0 k.1.1, k.1.0, k.0)

  -- What a loop and its connections come to: connections are made, each with a descriptor that no
  -- other has and the loop's books agree with as new, things happen to them, and they are dropped.
  pub data Together : l.State → List (Conn l) → Type 0 where
    none_yet : (b : l.State) → Together b []
    makes :
        (address sockfd : ℕ) (b : l.State) (ws : List (Conn l))
        → Together b ws
        → l.Tracked (Channel.init address sockfd) b
        → Apart l sys h sockfd ws
        → Together b (init l address sockfd b ∷ ws)
    serves :
        (i : ℕ) (e : Event) (b b' : l.State) (ws ws' : List (Conn l))
        → Together b ws
        → AllowedAt l sys h i e b ws
        → serve l sys h i e b ws ≡ ok (b', ws')
        → Together b' ws'
    drops :
        (b : l.State) (us : List (Conn l)) (w : Conn l) (ws : List (Conn l))
        → Together b (us ++ w ∷ ws)
        → Together b (us ++ ws)

  Apart-drop :
      (fd : ℕ) (us : List (Conn l)) (w : Conn l) (ws : List (Conn l))
      → Apart l sys h fd (us ++ w ∷ ws)
      → Apart l sys h fd (us ++ ws)
  Apart-drop fd [] w ws h = h.1
  Apart-drop fd (u ∷ us) w ws h = (h.0, Apart-drop fd us w ws h.1)

  AllHold-drop :
      (b : l.State) (us : List (Conn l)) (w : Conn l) (ws : List (Conn l))
      → AllHold l sys h b (us ++ w ∷ ws)
      → AllHold l sys h b (us ++ ws)
  AllHold-drop b [] w ws h = h.2
  AllHold-drop b (u ∷ us) w ws h =
      (h.0, Apart-drop u.channel.fd us w ws h.1, AllHold-drop b us w ws h.2)

  Together-AllHold :
      {b : l.State} {ws : List (Conn l)}
      → Documented sys
      → Neighbourly l sys h
      → Together b ws
      → AllHold l sys h b ws
  unfolding init Channel.init
  Together-AllHold doc n (none_yet b) = tt
  Together-AllHold doc n (makes address sockfd b ws together t apart) =
      (init-Inv l address sockfd b t, apart, Together-AllHold doc n together)
  Together-AllHold doc n (serves i e b b' ws ws' together a returns) =
      subst (λ m. Returns m (λ r. AllHold l sys h r.0 r.1)) returns
        (serve-AllHold i e b ws doc n (Together-AllHold doc n together) a)
  Together-AllHold doc n (drops b us w ws together) =
      AllHold-drop b us w ws (Together-AllHold doc n together)

  -- For a system that behaves as documented, and callbacks that return and keep the invariant and
  -- the loop's books with any other channel: any number of connections in one loop, each of which
  -- was made by the constructor with a descriptor that no other has and the loop's books agree
  -- with as new, and to which things then happened in any order, as long as each is established
  -- only while it is connecting and the buffers have room. Whatever happens next to any of them,
  -- the code returns, and all of them have their invariant and their own descriptor again.
  pub serve-Together :
      (i : ℕ) (e : Event) {b : l.State} {ws : List (Conn l)}
      → Documented sys
      → Neighbourly l sys h
      → Together b ws
      → AllowedAt l sys h i e b ws
      → Returns (serve l sys h i e b ws) λ r. AllHold l sys h r.0 r.1
  serve-Together i e {b} {ws} doc n together a =
      serve-AllHold i e b ws doc n (Together-AllHold doc n together) a
