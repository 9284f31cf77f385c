-- ===== src/TcpConnection/Running.antt =====
-- The tasks that a connection queued, when the loop runs them: the sends go on the stream in order.
use muduo_learning.Prelude.{
  ℕ, ◌+◌, ◌≤◌, ◌≡◌, ◌∙◌, refl, ap, sym, arith, List, [], ◌∷◌, ◌++◌, length, length-append,
  append-nil, append_assoc, Returns, Returns-map, Returns-bind, Returns-and, inl, inr,
}
use mathlib.Core.Path.{subst}
use muduo_learning.Buffer.Invariant.{max_size}
use muduo_learning.Loop.{Loop}
use muduo_learning.TcpConnection.{
  Task, write_completes, high_water_marks, sends_file, sends, shuts_down, Conn, Sys, send_in_loop,
}
use muduo_learning.TcpConnection.Invariant.{Documented, stream, Inv}
use muduo_learning.TcpConnection.Sending.{Sends, send_in_loop-stream}
use muduo_learning.TcpConnection.Tasks.{Later, run_task, run_all}
use muduo_learning.TcpConnection.Frame.{
  bytes_of, bytes_waiting, IsPlain, ArePlain, NeverFaults, Adds, send_in_loop-Adds,
}

module _ (l : Loop) (sys : Sys) (later : Later l) where
  open later use {memory}

  -- The callbacks that were bound return and leave the sending side alone.
  abbrev pub Kept : Conn l → Conn l → Type 0
  Kept w w' =
      Inv l w'
      × (w'.state ≡ w.state)
      × (w'.sent ≡ w.sent)
      × (w'.output ≡ w.output)
      × (w'.tasks ≡ w.tasks)

  pub record Discreet : Type 0 where
    pub write_complete_keeps : (w : Conn l) → Inv l w → Returns (later.write_complete w) (Kept w)
    pub high_water_keeps : (n : ℕ) (w : Conn l) → Inv l w → Returns (later.high_water n w) (Kept w)

  -- Some tasks were run, which sent `bytes`.
  pub record Ran (bytes : List ℕ) (w w' : Conn l) : Type 0 where
    pub inv : Inv l w'
    pub same_state : w'.state ≡ w.state
    pub sent_on : stream l w' ≡ stream l w ++ bytes
    pub adds : Adds l sys memory (length bytes) w w'

  Kept-Ran : (w w' : Conn l) → Kept w w' → Ran [] w w'
  Kept-Ran w w' k = record {
    inv = k.0;
    same_state = k.1;
    sent_on = cc (k.2, k.3, append-nil (stream l w));
    adds = record {
      plain = λ p. subst ArePlain (sym k.4) p;
      same_waiting = ap (bytes_waiting memory) k.4;
      room = rw k.3 (omega arith);
    };
  }

  pub Ran-trans : (a b : List ℕ) {u v w : Conn l} → Ran a u v → Ran b v w → Ran (a ++ b) u w
  Ran-trans a b {u} r s = record {
    inv = s.inv;
    same_state = s.same_state ∙ r.same_state;
    sent_on = s.sent_on ∙ ap (λ t. t ++ b) r.sent_on ∙ append_assoc (stream l u) a b;
    adds = record {
      plain = λ p. s.adds.plain (r.adds.plain p);
      same_waiting = s.adds.same_waiting ∙ r.adds.same_waiting;
      room = omega (arith, r.adds.room, s.adds.room, length-append a b);
    };
  }

  pub send_in_loop-Ran :
      (bytes : List ℕ) (w : Conn l)
      → Documented sys
      → NeverFaults sys
      → Inv l w
      → w.output.writer_index + length bytes ≤ max_size
      → Returns (send_in_loop l sys bytes w) (Ran bytes w)
  send_in_loop-Ran bytes w doc fine v h =
      Returns-map (send_in_loop l sys bytes w) _ (Ran bytes w)
        (Returns-and (send_in_loop l sys bytes w) (Sends l sys bytes w)
          (Adds l sys memory (length bytes) w) (send_in_loop-stream l sys bytes w doc v h)
          (send_in_loop-Adds l sys memory bytes w v.output_valid h))
        λ u (s, a). record {
          inv = s.0;
          same_state = s.2;
          sent_on = elim s.3 [
            | inl on ↦ on
            | inr (_, e, r, f) ↦ absurd (cc (fine w.calls bytes e r, f))
          ];
          adds = a;
        }

  pub run_task-Ran :
      (t : Task) (w : Conn l)
      → Documented sys
      → NeverFaults sys
      → Discreet
      → IsPlain t
      → Inv l w
      → w.output.writer_index + length (bytes_of memory t) ≤ max_size
      → Returns (run_task l sys later t w) (Ran (bytes_of memory t) w)
  unfolding run_task
  run_task-Ran (sends pointer n) w doc fine d p v h =
      send_in_loop-Ran (memory pointer n) w doc fine v h
  run_task-Ran write_completes w doc fine d p v h =
      Returns-map (later.write_complete w) _ _ (d.write_complete_keeps w v) (Kept-Ran w)
  run_task-Ran (high_water_marks n) w doc fine d p v h =
      Returns-map (later.high_water n w) _ _ (d.high_water_keeps n w v) (Kept-Ran w)
  run_task-Ran (sends_file file offset n) w doc fine d p v h = absurd p
  run_task-Ran shuts_down w doc fine d p v h = absurd p

  pub run_all-Ran :
      (ts : List Task) (w : Conn l)
      → Documented sys
      → NeverFaults sys
      → Discreet
      → ArePlain ts
      → Inv l w
      → w.output.writer_index + length (bytes_waiting memory ts) ≤ max_size
      → Returns (run_all l sys later ts w) (Ran (bytes_waiting memory ts) w)
  unfolding run_all
  run_all-Ran [] w doc fine d p v h = record {
    inv = v;
    same_state = refl;
    sent_on = sym (append-nil (stream l w));
    adds = record { plain = λ p. p; same_waiting = refl; room = omega arith };
  }
  run_all-Ran (t ∷ ts) w doc fine d p v h =
      let now = bytes_of memory t in
      let more = bytes_waiting memory ts in
      Returns-bind (run_task l sys later t w) (run_all l sys later ts) (Ran now w)
        (Ran (now ++ more) w)
        (run_task-Ran t w doc fine d p.0 v (omega (arith, length-append now more)))
        λ u r.
          Returns-map (run_all l sys later ts u) (Ran more u) (Ran (now ++ more) w)
            (run_all-Ran ts u doc fine d p.1 r.inv
              (omega (arith, r.adds.room, length-append now more)))
            λ x s. Ran-trans now more r s
