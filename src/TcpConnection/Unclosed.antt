-- ===== src/TcpConnection/Unclosed.antt =====
-- src/TcpConnection.cc: sending does not close the write end.
use muduo_learning.Prelude.{
  ℕ, ◌≡◌, ◌∙◌, refl, Bool, not, ◌&&◌, ◌==◌, ltb, List, [], ◌∷◌, length, Outcome, ok, Whenever,
  Whenever-bind, Whenever-if, Whenever-map, Whenever_any, Bool-cases, inl, inr,
}
use muduo_learning.Buffer.{readable_bytes}
use muduo_learning.Buffer.Fd.{IoResult, error, count}
use muduo_learning.Channel.{Channel, is_writing}
use muduo_learning.Loop.{Loop, enable_writing}
use muduo_learning.TcpConnection.{
  Task, write_completes, high_water_marks, sends_file, sends, shuts_down, Conn, Sys, on_channel,
  after_write, write_directly, keep_rest, buffer_rest, send_in_loop,
}
use muduo_learning.TcpConnection.Tasks.{Later, run_task, run_all}
use muduo_learning.TcpConnection.Frame.{IsPlain, ArePlain}

module _ (l : Loop) (sys : Sys) where
  -- The write end is closed afterwards exactly if it was before.
  abbrev pub SameShut : Conn l → Conn l → Type 0
  SameShut w w' = w'.shut ≡ w.shut

  after_write-SameShut :
      (r : IoResult) (bytes : List ℕ) (w : Conn l) → SameShut w (after_write l sys r bytes w).0
  unfolding after_write
  after_write-SameShut (error e) bytes w = refl
  after_write-SameShut (count n) bytes w = refl

  write_directly-SameShut :
      (bytes : List ℕ) (w : Conn l) → SameShut w (write_directly l sys bytes w).0
  unfolding write_directly
  write_directly-SameShut bytes w =
      elim (Bool-cases (not (is_writing w.channel) && readable_bytes w.output == 0)) [
        | inl direct ↦ rw direct (after_write-SameShut (sys.write w.calls bytes) bytes w)
        | inr waits ↦ rw waits refl
      ]

  on_channel-SameShut :
      (f : Channel → l.State → Outcome (Channel × l.State)) (w : Conn l)
      → Whenever (on_channel l f w) (SameShut w)
  on_channel-SameShut f w =
      Whenever-bind (f w.channel w.loop) _ (λ r. Unit) (SameShut w)
        (Whenever_any (f w.channel w.loop)) (λ r h. refl)

  buffer_rest-SameShut :
      (rest : List ℕ) (fault : Bool) (w : Conn l)
      → Whenever (buffer_rest l sys (w, rest, fault)) (SameShut w)
  unfolding buffer_rest keep_rest
  buffer_rest-SameShut rest fault w =
      let kept = keep_rest l sys rest w in
      Whenever-if (not fault && ltb 0 (length rest)) _ _ (SameShut w)
        (Whenever-if (not (is_writing kept.channel)) (on_channel l (enable_writing l) kept)
          (ok kept) (SameShut w) (on_channel-SameShut (enable_writing l) kept) refl)
        refl

  send_in_loop-SameShut :
      (bytes : List ℕ) (w : Conn l) → Whenever (send_in_loop l sys bytes w) (SameShut w)
  unfolding send_in_loop
  send_in_loop-SameShut bytes w =
      let p = write_directly l sys bytes w in
      Whenever-map (buffer_rest l sys p) (SameShut p.0) (SameShut w)
        (buffer_rest-SameShut p.1 p.2 p.0) (λ u e. e ∙ write_directly-SameShut bytes w)

  module _ (later : Later l) where
    -- The callbacks that were bound do not close the write end.
    pub record LeavesOpen : Type 0 where
      pub write_complete_leaves : (w : Conn l) → Whenever (later.write_complete w) (SameShut w)
      pub high_water_leaves : (n : ℕ) (w : Conn l) → Whenever (later.high_water n w) (SameShut w)

    run_task-SameShut :
        (t : Task) (w : Conn l)
        → LeavesOpen
        → IsPlain t
        → Whenever (run_task l sys later t w) (SameShut w)
    unfolding run_task
    run_task-SameShut (sends pointer n) w h p = send_in_loop-SameShut (later.memory pointer n) w
    run_task-SameShut write_completes w h p = h.write_complete_leaves w
    run_task-SameShut (high_water_marks n) w h p = h.high_water_leaves n w
    run_task-SameShut (sends_file file offset n) w h p = absurd p
    run_task-SameShut shuts_down w h p = absurd p

    pub run_all-SameShut :
        (ts : List Task) (w : Conn l)
        → LeavesOpen
        → ArePlain ts
        → Whenever (run_all l sys later ts w) (SameShut w)
    unfolding run_all
    run_all-SameShut [] w h p = refl
    run_all-SameShut (t ∷ ts) w h p =
        Whenever-bind (run_task l sys later t w) (run_all l sys later ts) (SameShut w) (SameShut w)
          (run_task-SameShut t w h p.0)
          λ u e.
            Whenever-map (run_all l sys later ts u) (SameShut u) (SameShut w)
              (run_all-SameShut ts u h p.1) (λ v f. f ∙ e)
