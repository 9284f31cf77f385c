-- ===== src/TcpConnection/Threads.antt =====
-- A connection's tasks among threads: what any threads hand to the loop, in the steps of
-- `EventLoop/Steps.antt`, and what it does to the connection when the loop calls it.
use muduo_learning.Prelude.{
  ℕ, ◌+◌, ◌≤◌, ◌≡◌, ◌∙◌, ap, sym, arith, List, [], ◌∷◌, ◌++◌, length, length-append, Returns,
  Returns-map,
}
use mathlib.Core.Path.{subst}
use muduo_learning.Buffer.Invariant.{max_size}
use muduo_learning.Loop.{Loop}
use muduo_learning.EventLoop.Steps.{polling, World, Steps, Reachable}
use muduo_learning.EventLoop.Wakeup.{functors_in_order}
use muduo_learning.EventLoop.Turn.{turn_calls_all}
use muduo_learning.TcpConnection.{Task, Conn, Sys}
use muduo_learning.TcpConnection.Invariant.{Documented, stream, Inv}
use muduo_learning.TcpConnection.Tasks.{Later, run_all}
use muduo_learning.TcpConnection.Frame.{bytes_waiting, bytes_waiting-append, ArePlain, NeverFaults}
use muduo_learning.TcpConnection.Running.{Discreet, run_all-Ran}

ArePlain-left : (ts us : List Task) → ArePlain (ts ++ us) → ArePlain ts
ArePlain-left [] us h = tt
ArePlain-left (t ∷ ts) us h = (h.0, ArePlain-left ts us h.1)

module _ (l : Loop) (sys : Sys) (later : Later l) where
  open later use {memory}

  -- The called tasks have put `bytes` on the stream.
  abbrev pub Delivered : Conn l → List ℕ → World Task → Type 0
  Delivered c bytes w =
      Returns (run_all l sys later w.ran c) λ c'. Inv l c' × (stream l c' ≡ stream l c ++ bytes)

  ran_delivers :
      (c : Conn l) (w : World Task) (rest : List Task)
      → Documented sys
      → NeverFaults sys
      → Discreet l sys later
      → Inv l c
      → w.queued ≡ w.ran ++ rest
      → ArePlain w.queued
      → c.output.writer_index + length (bytes_waiting memory w.queued) ≤ max_size
      → Delivered c (bytes_waiting memory w.ran) w
  ran_delivers c w rest doc fine d v order plain room =
      Returns-map (run_all l sys later w.ran c) _ _
        (run_all-Ran l sys later w.ran c doc fine d
          (ArePlain-left w.ran rest (subst ArePlain order plain)) v
          (omega (
            arith,
            room,
            ap (λ ts. length (bytes_waiting memory ts)) order,
            ap length (bytes_waiting-append memory w.ran rest),
            length-append (bytes_waiting memory w.ran) (bytes_waiting memory rest),
          )))
        λ u r. (r.inv, r.sent_on)

  -- For a system that behaves as documented, none of whose writes fails with EPIPE or ECONNRESET,
  -- and callbacks that return and leave the sending side alone: a connection with its invariant,
  -- in a loop to which any threads hand sends and callbacks of this connection, with room for all
  -- their bytes. In every reachable state with the loop's thread in `poll`, the tasks that were
  -- called have put their bytes on the stream, which are a front of the bytes of all that were
  -- handed over, in the order in which they were; and there are further steps, none of which hands
  -- a task over, after which all bytes handed over are on the stream, in that order.
  pub threads_deliver :
      (c : Conn l) (w : World Task)
      → Documented sys
      → NeverFaults sys
      → Discreet l sys later
      → Inv l c
      → Reachable w
      → w.phase ≡ polling
      → ArePlain w.queued
      → c.output.writer_index + length (bytes_waiting memory w.queued) ≤ max_size
      → Delivered c (bytes_waiting memory w.ran) w
        × ((rest : List ℕ) × (bytes_waiting memory w.queued ≡ bytes_waiting memory w.ran ++ rest))
        × ((v : World Task) × Steps w v
            × (v.queued ≡ w.queued)
            × Delivered c (bytes_waiting memory w.queued) v)
  threads_deliver c w doc fine d v reached waits plain room =
      let rest = w.event_loop.pending_functors in
      let order : w.queued ≡ w.ran ++ rest = cc (functors_in_order reached, waits) in
      let (x, steps, _, all, same, _) = turn_calls_all w reached waits in
      (
        ran_delivers c w rest doc fine d v order plain room,
        (
          bytes_waiting memory rest,
          ap (bytes_waiting memory) order ∙ bytes_waiting-append memory w.ran rest,
        ),
        (
          x,
          steps,
          same,
          subst
              (λ ts.
                Returns (run_all l sys later ts c)
                  λ c'. Inv l c' × (stream l c' ≡ stream l c ++ bytes_waiting memory w.queued))
              (sym all)
              (Returns-map (run_all l sys later w.queued c) _ _
                (run_all-Ran l sys later w.queued c doc fine d plain v room)
                λ u r. (r.inv, r.sent_on)),
        ),
      )
