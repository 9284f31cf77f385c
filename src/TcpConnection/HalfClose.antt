-- ===== src/TcpConnection/HalfClose.antt =====
-- `shutdown()` from another thread, with sends of that thread still queued.
use muduo_learning.Prelude.{
  ℕ, ◌≡◌, ◌≢◌, ◌∙◌, refl, ap, sym, arith, false, true, List, [], ◌∷◌, ◌++◌, length, append-nil, ok,
  ◌>>=◌, Returns, Returns-map, Returns-bind, Returns-and, ◌⊎◌, inl, inr, Bool-cases, >>=-regroup,
}
use muduo_learning.Buffer.Fd.{count}
use muduo_learning.Buffer.Contents.{contents, length-contents}
use muduo_learning.Channel.{is_writing}
use muduo_learning.Loop.{Loop}
use muduo_learning.TcpConnection.{
  connected, disconnecting, Task, sends, shuts_down, Conn, Sys, queue, send, send_from, shutdown,
  shutdown_from, shutdown_in_loop, handle_write,
}
use muduo_learning.TcpConnection.Invariant.{Documented, stream, Inv}
use muduo_learning.TcpConnection.Sending.{nil_of_length}
use muduo_learning.TcpConnection.Closing.{Finished, handle_write_closes}
use muduo_learning.TcpConnection.Tasks.{Later, run_task, run_all, run_tasks}
use muduo_learning.TcpConnection.Frame.{
  bytes_waiting, bytes_waiting-append, NeverFaults, Only, handle_write-Only,
}
use muduo_learning.TcpConnection.Unclosed.{SameShut, LeavesOpen, run_all-SameShut}
use muduo_learning.TcpConnection.Running.{Discreet, Ran, run_all-Ran}
use muduo_learning.TcpConnection.Delivery.{Ready, all_asked}

module _ (l : Loop) (sys : Sys) (later : Later l) where
  open later use {memory}

  run_all-append :
      (ts us : List Task) (w : Conn l)
      → run_all l sys later (ts ++ us) w ≡ (run_all l sys later ts w >>= run_all l sys later us)
  unfolding run_all
  run_all-append [] us w = refl
  run_all-append (t ∷ ts) us w =
      >>=-regroup (run_task l sys later t w) (run_all l sys later (ts ++ us))
        (run_all l sys later ts) (run_all l sys later us) (run_all-append ts us)

  run_all-shuts_down :
      (w : Conn l) → run_all l sys later (shuts_down ∷ []) w ≡ ok (shutdown_in_loop l w)
  unfolding run_all run_task
  run_all-shuts_down w = refl

  send_elsewhere :
      (pointer : ℕ) (bytes : List ℕ) (w : Conn l)
      → w.state ≡ connected
      → send l sys false pointer bytes w ≡ ok (queue l (sends pointer (length bytes)) w)
  unfolding send
  send_elsewhere pointer bytes w at = ap (λ st. send_from l sys st false pointer bytes w) at

  shutdown_elsewhere :
      (w : Conn l)
      → w.state ≡ connected
      → shutdown l false w ≡ queue l shuts_down (record w { state = disconnecting })
  unfolding shutdown
  shutdown_elsewhere w at = ap (λ st. shutdown_from l st false w) at

  -- Everything went to the socket and the write end is closed, or bytes wait for the socket, the
  -- channel waits for writing, and the write end is as it was.
  abbrev pub Ends : Conn l → Conn l → Type 0
  Ends w w' =
      (stream l w' ≡ all_asked l sys later w)
      × (w'.state ≡ disconnecting)
      × (((w'.shut ≡ true) × (w'.sent ≡ all_asked l sys later w))
          ⊎ ((is_writing w'.channel ≡ true) × (contents w'.output ≢ []) × (w'.shut ≡ w.shut)))

  closes_behind :
      (w u : Conn l)
      → u.state ≡ disconnecting
      → Inv l u
      → stream l u ≡ all_asked l sys later w
      → u.shut ≡ w.shut
      → Ends w (shutdown_in_loop l u)
  unfolding shutdown_in_loop
  closes_behind w u closing v all same = elim (Bool-cases (is_writing u.channel)) [
    | inl on ↦
        let some_left : contents u.output ≢ [] = λ e. absurd (
          ground (
            arith,
            v.pending (λ d. cc),
            on,
            length-contents v.output_valid,
            ap (length {A = ℕ}) e,
          )) in
        rw on (all, closing, inr (on, some_left, same))
    | inr off ↦
        let empty : contents u.output ≡ [] =
          nil_of_length (contents u.output)
            (ground (arith, v.pending (λ d. cc), off, length-contents v.output_valid)) in
        rw off (
          all,
          closing,
          inl (refl, sym (append-nil u.sent) ∙ ap (λ t. u.sent ++ t) (sym empty) ∙ all),
        )
  ]

  -- For a system that behaves as documented, none of whose writes fails with EPIPE or ECONNRESET,
  -- and callbacks that return and leave the sending side and the write end alone: a connection in
  -- state kConnected, with its invariant, room for what is queued, and only sends and callbacks
  -- queued. Another thread calls `shutdown`, and then the loop runs the tasks: this returns, the
  -- state is kDisconnecting, and the bytes of the queued sends follow the earlier ones on the
  -- stream. The write end is closed with all of them sent; or bytes wait in the output buffer, the
  -- channel waits for writing, and the write end is closed only if it was before.
  pub shutdown-Ends :
      (w : Conn l)
      → Documented sys
      → NeverFaults sys
      → Discreet l sys later
      → LeavesOpen l sys later
      → Ready l sys later 0 w
      → Returns (run_tasks l sys later (shutdown l false w)) (Ends w)
  unfolding run_tasks
  shutdown-Ends w doc fine d open_end r =
      let now = record w { state = disconnecting; tasks = [] } in
      let v : Inv l now = record {
        input_valid = r.inv.input_valid;
        output_valid = r.inv.output_valid;
        tracked = r.inv.tracked;
        wish = r.inv.wish;
        masked = r.inv.masked;
        pending = λ _. r.inv.pending (λ d. cc (d, r.in_state));
      } in
      rw (shutdown_elsewhere w r.in_state) (
        rw (run_all-append w.tasks (shuts_down ∷ []) now) (
          Returns-bind (run_all l sys later w.tasks now) _ _ (Ends w)
            (Returns-and (run_all l sys later w.tasks now)
              (Ran l sys later (bytes_waiting memory w.tasks) now) (SameShut l sys now)
              (run_all-Ran l sys later w.tasks now doc fine d r.plain v (omega (arith, r.room)))
              (run_all-SameShut l sys later w.tasks now open_end r.plain))
            λ u (s, e).
              rw (run_all-shuts_down u) (closes_behind w u s.same_state s.inv s.sent_on e)))

  -- Closed, with sends still queued.
  abbrev pub Overtakes : ℕ → List ℕ → Conn l → Conn l → Type 0
  Overtakes pointer bytes w w' =
      (w'.shut ≡ true)
      × (w'.sent ≡ stream l w)
      × (bytes_waiting memory w'.tasks ≡ bytes_waiting memory w.tasks ++ bytes)

  -- A connection in state kConnected with its invariant, whose channel waits for writing, and
  -- whose socket takes all bytes offered. Another thread calls `send` and then `shutdown`, the
  -- text standing where it stood, and the socket becomes writable before the loop runs the tasks:
  -- `handleWrite` returns with the write end closed, while the bytes of that `send` are still
  -- queued.
  pub shutdown-Overtakes :
      (pointer : ℕ) (bytes : List ℕ) (w : Conn l)
      → Inv l w
      → w.state ≡ connected
      → is_writing w.channel ≡ true
      → memory pointer (length bytes) ≡ bytes
      → sys.write w.calls (contents w.output) ≡ count (length (contents w.output))
      → Returns
          (send l sys false pointer bytes w >>= λ u. handle_write l sys (shutdown l false u))
          (Overtakes pointer bytes w)
  shutdown-Overtakes pointer bytes w v at on there takes =
      let tasks = (w.tasks ++ sends pointer (length bytes) ∷ []) ++ shuts_down ∷ [] in
      let now = record w { state = disconnecting; tasks = tasks } in
      let v' : Inv l now = record {
        input_valid = v.input_valid;
        output_valid = v.output_valid;
        tracked = v.tracked;
        wish = v.wish;
        masked = v.masked;
        pending = λ _. v.pending (λ d. cc (d, at));
      } in
      let queued : bytes_waiting memory tasks ≡ bytes_waiting memory w.tasks ++ bytes =
        simp (bytes_waiting-append, there, append-nil) in
      let closed : Returns (handle_write l sys now) (Overtakes pointer bytes w) =
        Returns-map (handle_write l sys now) _ _
          (Returns-and (handle_write l sys now) (Finished l sys now) (Only l sys memory now)
            (handle_write_closes l sys now v' refl on takes)
            (handle_write-Only l sys memory now v.output_valid))
          λ x (f, o). (f.0, f.1, o.0.same_waiting ∙ queued) in
      rw (send_elsewhere pointer bytes w at)
        (rw (shutdown_elsewhere (queue l (sends pointer (length bytes)) w) at) closed)
