-- ===== src/TcpServer/Bookkeeping.antt =====
-- What the loops' jobs and the server's map have to do with each other, kept by every call of a job.
use muduo_learning.Prelude.{
  ℕ, ◌+◌, ◌≤◌, ◌<◌, ◌≡◌, refl, arith, ◌==◌, inl, inr, Bool-cases, List, [], ◌∷◌,
}
use muduo_learning.TcpServer.{
  Job, listens, establishes, removes, destroys, remove_connection_in_loop,
}
use muduo_learning.TcpServer.Ledger.{
  established, destroyed, removed, listed, established-append, destroyed-append, removed-append,
  listed-erase_self, listed-erase_ne,
}
use muduo_learning.TcpServer.Loops.{World, queue_in, mark_called, execute, run_in}

-- `x` is what is being handed out or called at the moment.
pub record Inv (x : List (ℕ × Job ℕ)) (w : World) : Type 0 where
  pub once : (n : ℕ) → established n w.server.jobs ≤ 1
  pub fresh : (n : ℕ) → w.server.next_conn_id ≤ n → established n w.server.jobs ≡ 0
  pub map_kept :
      (n : ℕ) → removed n w.ran ≡ 0 → listed n w.server.connections ≡ established n w.server.jobs
  pub map_gone : (n : ℕ) → 0 < removed n w.ran → listed n w.server.connections ≡ 0
  pub est :
      (n : ℕ)
      → established n w.ran + established n w.queue + established n x ≡ established n w.server.jobs
  pub des :
      (n : ℕ) → destroyed n w.ran + destroyed n w.queue + destroyed n x ≡ destroyed n w.server.jobs
  pub rem : (n : ℕ) → removed n w.ran + removed n w.queue + removed n x ≡ removed n w.server.jobs
  pub passed : (n : ℕ) → destroyed n w.server.jobs ≡ removed n w.ran
  pub behind : (n : ℕ) → 0 < removed n w.server.jobs → established n w.ran ≡ 1

queue_in-Inv : (j : ℕ × Job ℕ) (w : World) → Inv (j ∷ []) w → Inv [] (queue_in j w)
queue_in-Inv j w i = record {
  once = i.once;
  fresh = i.fresh;
  map_kept = i.map_kept;
  map_gone = i.map_gone;
  est = λ n. omega (arith, i.est n, established-append n w.queue (j ∷ []));
  des = λ n. omega (arith, i.des n, destroyed-append n w.queue (j ∷ []));
  rem = λ n. omega (arith, i.rem n, removed-append n w.queue (j ∷ []));
  passed = i.passed;
  behind = i.behind;
}

-- A job that hands out no other.
mark_called-Inv :
    (j : ℕ × Job ℕ) (w : World)
    → ((n : ℕ) → removed n (j ∷ []) ≡ 0)
    → Inv (j ∷ []) w
    → Inv [] (mark_called j w)
mark_called-Inv j w none i = record {
  once = i.once;
  fresh = i.fresh;
  map_kept = λ n h. i.map_kept n (omega (arith, h, removed-append n w.ran (j ∷ [])));
  map_gone = λ n h. i.map_gone n (omega (arith, h, none n, removed-append n w.ran (j ∷ [])));
  est = λ n. omega (arith, i.est n, established-append n w.ran (j ∷ []));
  des = λ n. omega (arith, i.des n, destroyed-append n w.ran (j ∷ []));
  rem = λ n. omega (arith, i.rem n, removed-append n w.ran (j ∷ []));
  passed = λ n. omega (arith, i.passed n, none n, removed-append n w.ran (j ∷ []));
  behind =
      λ n h. omega (arith, i.behind n h, i.est n, i.once n, established-append n w.ran (j ∷ []));
}

pub execute-Inv : (l : ℕ) (j : Job ℕ) (w : World) → Inv ((l, j) ∷ []) w → Inv [] (execute (l, j) w)
unfolding execute remove_connection_in_loop
execute-Inv l listens w i = mark_called-Inv (l, listens) w (λ n. refl) i
execute-Inv l (establishes c) w i = mark_called-Inv (l, establishes c) w (λ n. refl) i
execute-Inv l (destroys c) w i = mark_called-Inv (l, destroys c) w (λ n. refl) i
execute-Inv l (removes c) w i =
    let j : ℕ × Job ℕ = (l, removes c) in
    let d : ℕ × Job ℕ = (c.io_loop, destroys c) in
    let more : List (ℕ × Job ℕ) = d ∷ [] in
    queue_in-Inv d (record (mark_called j w) { server = remove_connection_in_loop c w.server })
      (record {
        once = λ n. omega (arith, i.once n, established-append n w.server.jobs more);
        fresh = λ n h. omega (arith, i.fresh n h, established-append n w.server.jobs more);
        map_kept = λ n h. elim (Bool-cases (c.number == n)) [
          | inl same ↦ absurd (ground (arith, h, same, removed-append n w.ran (j ∷ [])))
          | inr other ↦ ground (
            arith,
            other,
            h,
            i.map_kept n,
            removed-append n w.ran (j ∷ []),
            established-append n w.server.jobs more,
            listed-erase_ne n c.number w.server.connections,
          )
        ];
        map_gone = λ n h. elim (Bool-cases (c.number == n)) [
          | inl same ↦ ground (arith, same, listed-erase_self n w.server.connections)
          | inr other ↦ ground (
            arith,
            other,
            h,
            i.map_gone n,
            removed-append n w.ran (j ∷ []),
            listed-erase_ne n c.number w.server.connections,
          )
        ];
        est = λ n. omega (
          arith,
          i.est n,
          established-append n w.ran (j ∷ []),
          established-append n w.server.jobs more,
        );
        des = λ n. omega (
          arith,
          i.des n,
          destroyed-append n w.ran (j ∷ []),
          destroyed-append n w.server.jobs more,
        );
        rem = λ n.
            omega (
              arith,
              i.rem n,
              removed-append n w.ran (j ∷ []),
              removed-append n w.server.jobs more,
            );
        passed = λ n. omega (
          arith,
          i.passed n,
          removed-append n w.ran (j ∷ []),
          destroyed-append n w.server.jobs more,
        );
        behind = λ n h. omega (
          arith,
          i.behind n (omega (arith, h, removed-append n w.server.jobs more)),
          established-append n w.ran (j ∷ []),
        );
      })

pub run_in-Inv :
    (here l : ℕ) (j : Job ℕ) (w : World) → Inv ((l, j) ∷ []) w → Inv [] (run_in here (l, j) w)
unfolding run_in
run_in-Inv here l j w i = elim (Bool-cases (here == l)) [
  | inl same ↦ rw same (execute-Inv l j w i)
  | inr other ↦ rw other (queue_in-Inv (l, j) w i)
]
