-- ===== src/TcpConnection/Delivery.antt =====
-- What other threads ask a connection to send goes out in the order in which it was asked.
use muduo_learning.Prelude.{
  ℕ, ◌+◌, ◌≤◌, ◌≡◌, ◌∙◌, refl, ap, sym, arith, false, List, [], ◌∷◌, ◌++◌, length, length-append,
  append-nil, append_assoc, Outcome, ok, ◌>>=◌, Returns, Returns-map, Returns-bind, Returns-and,
}
use mathlib.Core.Path.{subst}
use muduo_learning.Buffer.Invariant.{max_size}
use muduo_learning.Loop.{Loop}
use muduo_learning.TcpConnection.{connected, sends, Conn, Sys, send_from, send, handle_write}
use muduo_learning.TcpConnection.Invariant.{Documented, stream, Inv}
use muduo_learning.TcpConnection.Stream.{Keeps, handle_write-Keeps}
use muduo_learning.TcpConnection.Tasks.{Later, run_all, run_tasks}
use muduo_learning.TcpConnection.Running.{Discreet, run_all-Ran}
use muduo_learning.TcpConnection.Frame.{
  bytes_waiting, bytes_waiting-append, ArePlain, ArePlain-append, NeverFaults, Only,
  handle_write-Only,
}

-- Another thread calls `send`, the socket can be written to, or the loop runs the queued tasks.
pub data Deed : Type 0 where
  asks : ℕ → List ℕ → Deed
  writable : Deed
  turns : Deed

abbrev pub asked : List Deed → List ℕ
asked [] = []
asked (asks pointer bytes ∷ ds) = bytes ++ asked ds
asked (writable ∷ ds) = asked ds
asked (turns ∷ ds) = asked ds

-- Each text stands where it stood when it was asked for.
abbrev pub StillThere : (ℕ → ℕ → List ℕ) → List Deed → Type 0
StillThere memory [] = Unit
StillThere memory (asks pointer bytes ∷ ds) =
    (memory pointer (length bytes) ≡ bytes) × StillThere memory ds
StillThere memory (writable ∷ ds) = StillThere memory ds
StillThere memory (turns ∷ ds) = StillThere memory ds

module _ (l : Loop) (sys : Sys) (later : Later l) where
  open later use {memory}

  unfoldable pub perform : Deed → Conn l → Outcome (Conn l)
  perform (asks pointer bytes) w = send l sys false pointer bytes w
  perform writable w = handle_write l sys w
  perform turns w = run_tasks l sys later w

  unfoldable pub performs : List Deed → Conn l → Outcome (Conn l)
  performs [] w = ok w
  performs (d ∷ ds) w = perform d w >>= performs ds

  -- A connected connection with plain tasks, which has room for them and `n` bytes more.
  pub record Ready (n : ℕ) (w : Conn l) : Type 0 where
    pub inv : Inv l w
    pub in_state : w.state ≡ connected
    pub plain : ArePlain w.tasks
    pub room : w.output.writer_index + length (bytes_waiting memory w.tasks) + n ≤ max_size

  -- What was sent, waits in the buffer, and waits in the tasks.
  abbrev pub all_asked : Conn l → List ℕ
  all_asked w = stream l w ++ bytes_waiting memory w.tasks

  abbrev pub Goes : List ℕ → ℕ → Conn l → Conn l → Type 0
  Goes bytes n w w' = Ready n w' × (all_asked w' ≡ all_asked w ++ bytes)

  run_tasks-Goes :
      (n : ℕ) (w : Conn l)
      → Documented sys
      → NeverFaults sys
      → Discreet l sys later
      → Ready n w
      → Returns
          (run_tasks l sys later w)
          λ w'. Goes [] n w w' × (bytes_waiting memory w'.tasks ≡ [])
  unfolding run_tasks
  run_tasks-Goes n w doc fine d r =
      let w0 = record w { tasks = [] } in
      Returns-map (run_all l sys later w.tasks w0) _ _
        (run_all-Ran l sys later w.tasks w0 doc fine d r.plain r.inv (omega (arith, r.room)))
        λ u s. (
          (
            record {
              inv = s.inv;
              in_state = s.same_state ∙ r.in_state;
              plain = s.adds.plain tt;
              room = omega (arith, r.room, s.adds.room, ap length s.adds.same_waiting);
            },
            ap (λ t. stream l u ++ t) s.adds.same_waiting
                ∙ append-nil (stream l u)
                ∙ s.sent_on
                ∙ sym (append-nil (all_asked w)),
          ),
          s.adds.same_waiting,
        )

  perform-Goes :
      (d : Deed) (n : ℕ) (w : Conn l)
      → Documented sys
      → NeverFaults sys
      → Discreet l sys later
      → StillThere memory (d ∷ [])
      → Ready (length (asked (d ∷ [])) + n) w
      → Returns (perform d w) (Goes (asked (d ∷ [])) n w)
  unfolding perform send
  perform-Goes (asks pointer bytes) n w doc fine ds there r =
      let task = sends pointer (length bytes) in
      let more : bytes_waiting memory (w.tasks ++ task ∷ [])
          ≡ bytes_waiting memory w.tasks ++ bytes =
        simp (bytes_waiting-append, there.0, append-nil) in
      subst
        (λ st.
          Returns (send_from l sys st false pointer bytes w)
            (Goes (asked (asks pointer bytes ∷ [])) n w))
        (sym r.in_state)
        (
          record {
            inv = r.inv;
            in_state = r.in_state;
            plain = ArePlain-append w.tasks (task ∷ []) r.plain (tt, tt);
            room = omega (
              arith,
              r.room,
              ap length more,
              length-append (bytes_waiting memory w.tasks) bytes,
              length-append bytes [],
            );
          },
          ap (λ t. stream l w ++ t) more
              ∙ sym (append_assoc (stream l w) (bytes_waiting memory w.tasks) bytes)
              ∙ ap (λ t. all_asked w ++ t) (sym (append-nil bytes)),
        )
  perform-Goes writable n w doc fine d there r =
      Returns-map (handle_write l sys w) _ _
        (Returns-and (handle_write l sys w) (Keeps l w) (Only l sys memory w)
          (handle_write-Keeps l sys w doc r.inv)
          (handle_write-Only l sys memory w r.inv.output_valid))
        λ u (k, o). (
          record {
            inv = k.0;
            in_state = o.1 ∙ r.in_state;
            plain = o.0.plain r.plain;
            room = omega (arith, r.room, o.0.room, ap length o.0.same_waiting);
          },
          cc (k.1, o.0.same_waiting, append-nil (all_asked w)),
        )
  perform-Goes turns n w doc fine d there r =
      Returns-map (run_tasks l sys later w) _ _
        (run_tasks-Goes n w doc fine d (record {
          inv = r.inv;
          in_state = r.in_state;
          plain = r.plain;
          room = omega (arith, r.room);
        }))
        λ u g. g.0

  asked_cons : (d : Deed) (ds : List Deed) → asked (d ∷ ds) ≡ asked (d ∷ []) ++ asked ds
  asked_cons (asks pointer bytes) ds = ap (λ t. t ++ asked ds) (sym (append-nil bytes))
  asked_cons writable ds = refl
  asked_cons turns ds = refl

  StillThere-cons :
      (d : Deed) (ds : List Deed)
      → StillThere memory (d ∷ ds)
      → StillThere memory (d ∷ []) × StillThere memory ds
  StillThere-cons (asks pointer bytes) ds h = ((h.0, tt), h.1)
  StillThere-cons writable ds h = (tt, h)
  StillThere-cons turns ds h = (tt, h)

  performs-Goes :
      (ds : List Deed) (w : Conn l)
      → Documented sys
      → NeverFaults sys
      → Discreet l sys later
      → StillThere memory ds
      → Ready (length (asked ds)) w
      → Returns (performs ds w) (Goes (asked ds) 0 w)
  unfolding performs
  performs-Goes [] w doc fine d there r = (r, sym (append-nil (all_asked w)))
  performs-Goes (e ∷ ds) w doc fine d there r =
      let now = asked (e ∷ []) in
      let (here, later_there) = StillThere-cons e ds there in
      let ready : Ready (length now + length (asked ds)) w = record {
        inv = r.inv;
        in_state = r.in_state;
        plain = r.plain;
        room = omega (arith, r.room, ap length (asked_cons e ds), length-append now (asked ds));
      } in
      Returns-bind (perform e w) (performs ds) (Goes now (length (asked ds)) w) _
        (perform-Goes e (length (asked ds)) w doc fine d here ready)
        λ u g.
          Returns-map (performs ds u) _ _ (performs-Goes ds u doc fine d later_there g.0) λ x k. (
            k.0,
            k.1
                ∙ ap (λ t. t ++ asked ds) g.1
                ∙ append_assoc (all_asked w) now (asked ds)
                ∙ ap (λ t. all_asked w ++ t) (sym (asked_cons e ds)),
          )

  -- For a system that behaves as documented, none of whose writes fails with EPIPE or ECONNRESET,
  -- and callbacks that return and leave the sending side alone: a connection in state kConnected,
  -- with its invariant, room for all bytes, and only sends and callbacks queued. Other threads
  -- call `send` on it, its socket becomes writable and its loop runs the queued tasks, in any
  -- order, each text given to `send` standing where it stood until its task runs. When the loop
  -- then runs the tasks once more, all of this returns, the connection is still connected with its
  -- invariant, no send is queued, and on the stream to the peer the bytes of all the calls follow
  -- the earlier ones, in the order of the calls, none lost and none twice.
  pub performs_deliver :
      (ds : List Deed) (w : Conn l)
      → Documented sys
      → NeverFaults sys
      → Discreet l sys later
      → StillThere memory ds
      → Ready (length (asked ds)) w
      → Returns (performs ds w >>= run_tasks l sys later) λ w'.
        (stream l w' ≡ (stream l w ++ bytes_waiting memory w.tasks) ++ asked ds)
        × (bytes_waiting memory w'.tasks ≡ [])
        × Inv l w'
        × (w'.state ≡ connected)
  performs_deliver ds w doc fine d there r =
      Returns-bind (performs ds w) (run_tasks l sys later) (Goes (asked ds) 0 w) _
        (performs-Goes ds w doc fine d there r)
        λ u g. Returns-map (run_tasks l sys later u) _ _ (run_tasks-Goes 0 u doc fine d g.0) λ x k.
          (
            sym (append-nil (stream l x))
                ∙ ap (λ t. stream l x ++ t) (sym k.1)
                ∙ k.0.1
                ∙ append-nil (all_asked u)
                ∙ g.1,
            k.1,
            k.0.0.inv,
            k.0.0.in_state,
          )
