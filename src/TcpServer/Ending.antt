-- ===== src/TcpServer/Ending.antt =====
-- src/TcpServer.cc: the server's destructor, in the main loop's thread, while the loops still run.
use muduo_learning.Prelude.{
  ℕ, true, if◌then◌else◌, ◌+◌, ◌≤◌, ◌≡◌, refl, ap, ◌∙◌, sym, arith, ◌==◌, inl, inr, Bool,
  Bool-cases, List, [], ◌∷◌, ◌++◌, append-nil, append_assoc,
}
use muduo_learning.TcpServer.{Entry, Job, listens, establishes, removes, destroys, destroy}
use muduo_learning.TcpServer.Ledger.{
  established, destroyed, removed, listed, established-append, destroyed-append, removed-append,
}
use muduo_learning.TcpServer.Loops.{World, execute, run_in, base, call, started_server, Steps}
use muduo_learning.TcpServer.Lifetimes.{started_server-Inv, Steps-Inv}
use muduo_learning.TcpServer.Settling.{Runs, idle, runs}

-- The loop of the destructor over the map.
unfoldable pub destroy_each : List (Entry ℕ) → World → World
destroy_each [] w = w
destroy_each (c ∷ cs) w = destroy_each cs (run_in (base w) (c.io_loop, destroys c) w)

-- `~TcpServer`
unfoldable pub destruct : World → World
destruct w = destroy_each w.server.connections (record w { server = destroy w.server })

-- What was called or waits afterwards, where `cs` were handed to their loops to be destroyed.
record Hands (cs : List (Entry ℕ)) (w u : World) : Type 0 where
  est :
      (n : ℕ)
      → established n u.ran + established n u.queue ≡ established n w.ran + established n w.queue
  des :
      (n : ℕ)
      → destroyed n u.ran + destroyed n u.queue
        ≡ destroyed n w.ran + destroyed n w.queue + listed n cs
  rem : (n : ℕ) → removed n u.queue ≡ removed n w.queue

run_in-Hands :
    (here : ℕ) (c : Entry ℕ) (w : World) → Hands (c ∷ []) w (run_in here (c.io_loop, destroys c) w)
unfolding run_in execute
run_in-Hands here c w =
    let d : List (ℕ × Job ℕ) = (c.io_loop, destroys c) ∷ [] in
    elim (Bool-cases (here == c.io_loop)) [
      | inl same ↦ rw same (record {
        est = λ n. omega (arith, established-append n w.ran d);
        des = λ n. omega (arith, destroyed-append n w.ran d);
        rem = λ n. refl;
      })
      | inr other ↦ rw other (record {
        est = λ n. omega (arith, established-append n w.queue d);
        des = λ n. omega (arith, destroyed-append n w.queue d);
        rem = λ n. omega (arith, removed-append n w.queue d);
      })
    ]

destroy_each-Hands : (cs : List (Entry ℕ)) (w : World) → Hands cs w (destroy_each cs w)
unfolding destroy_each
destroy_each-Hands [] w = record { est = λ n. refl; des = λ n. omega arith; rem = λ n. refl }
destroy_each-Hands (c ∷ cs) w =
    let one = run_in-Hands (base w) c w in
    let rest = destroy_each-Hands cs (run_in (base w) (c.io_loop, destroys c) w) in
    record {
      est = λ n. rest.est n ∙ one.est n;
      des = λ n. omega (arith, rest.des n, one.des n);
      rem = λ n. rest.rem n ∙ one.rem n;
    }

-- The loops call all that waits, where no removal does.
drain :
    (q : List (ℕ × Job ℕ)) (w : World)
    → w.queue ≡ q
    → ((n : ℕ) → removed n q ≡ 0)
    → (v : World) × Runs w v × (v.queue ≡ []) × (v.ran ≡ w.ran ++ q)
unfolding call execute
drain [] w e none = (w, idle, e, sym (append-nil w.ran))
drain ((l, removes c) ∷ js) w e none = absurd (ground (arith, none c.number))
drain ((l, listens) ∷ js) w e none =
    let j : ℕ × Job ℕ = (l, listens) in
    let (v, r, empty, ran) = drain js (call [] j js w) refl none in
    (v, runs j js e r, empty, ran ∙ append_assoc w.ran (j ∷ []) js)
drain ((l, establishes c) ∷ js) w e none =
    let j : ℕ × Job ℕ = (l, establishes c) in
    let (v, r, empty, ran) = drain js (call [] j js w) refl none in
    (v, runs j js e r, empty, ran ∙ append_assoc w.ran (j ∷ []) js)
drain ((l, destroys c) ∷ js) w e none =
    let j : ℕ × Job ℕ = (l, destroys c) in
    let (v, r, empty, ran) = drain js (call [] j js w) refl none in
    (v, runs j js e r, empty, ran ∙ append_assoc w.ran (j ∷ []) js)

-- A server of any number of threads that was started, whose loops have accepted, established,
-- closed and destroyed connections in any order, is destroyed at a time when no removal waits to
-- be called. When the loops then call all that was handed to them, they come to an end with
-- nothing queued: each connection that the server had accepted was established once, and no other
-- was; and it was destroyed once if it was never closed, and else as often as it was closed.
pub destruct_ends :
    (b threads : ℕ) (start_loop : ℕ → ℕ) (has_cb : Bool) {w : World}
    → Steps (started_server b threads start_loop has_cb) w
    → ((n : ℕ) → removed n w.queue ≡ 0)
    → (v : World) × Runs (destruct w) v
      × (v.queue ≡ [])
      × ((n : ℕ)
          → (established n v.ran ≡ established n w.server.jobs)
            × (established n v.ran ≤ 1)
            × (destroyed n v.ran ≡ (
                if removed n w.server.jobs == 0
                then established n w.server.jobs
                else removed n w.server.jobs)))
unfolding destruct
destruct_ends b threads start_loop has_cb {w} steps none =
    let i = Steps-Inv steps (started_server-Inv b threads start_loop has_cb) in
    let h = destroy_each-Hands w.server.connections (record w { server = destroy w.server }) in
    let u = destruct w in
    let (v, r, empty, ran) = drain u.queue u refl (λ n. h.rem n ∙ none n) in
    let est : (n : ℕ) → established n v.ran ≡ established n w.server.jobs = λ n.
      omega (arith, ap (established n) ran, established-append n u.ran u.queue, h.est n, i.est n) in
    let des : (n : ℕ) → destroyed n v.ran ≡ removed n w.ran + listed n w.server.connections = λ n.
      omega (
        arith,
        ap (destroyed n) ran,
        destroyed-append n u.ran u.queue,
        h.des n,
        i.des n,
        i.passed n,
      ) in
    let called : (n : ℕ) → removed n w.ran ≡ removed n w.server.jobs =
      λ n. omega (arith, i.rem n, none n) in
    (
      v,
      r,
      empty,
      λ n. (
        est n,
        omega (arith, est n, i.once n),
        elim (Bool-cases (removed n w.server.jobs == 0)) [
          | inl never ↦ rw never (
              omega (
                arith,
                des n,
                called n,
                i.map_kept n (ground (arith, never, called n)),
                eq_zero n never,
              ))
          | inr closed ↦
              rw closed
                (omega (arith, des n, called n, i.map_gone n (ground (arith, closed, called n))))
        ],
      ),
    )
  where
    eq_zero : (n : ℕ) → (removed n w.server.jobs == 0) ≡ true → removed n w.server.jobs ≡ 0
    eq_zero n h = ground (arith, h)
