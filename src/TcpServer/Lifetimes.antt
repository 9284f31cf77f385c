-- ===== src/TcpServer/Lifetimes.antt =====
-- However the loops interleave: how often each connection is established and destroyed.
use muduo_learning.Prelude.{
  ℕ, ltb, ◌⊎◌, ◌≤◌, ◌≡◌, refl, ap, arith, ◌==◌, inl, inr, Bool, Bool-cases, List, [], ◌∷◌, ◌++◌,
}
use muduo_learning.EventLoopThreadPool.{EventLoopThreadPool}
use muduo_learning.TcpServer
use muduo_learning.TcpServer.{
  Entry, Job, listens, establishes, removes, destroys, TcpServer, admit, remove_connection,
  remove_connection_in_loop,
}
use muduo_learning.TcpServer.Ledger.{
  established, destroyed, removed, listed, established-append, destroyed-append, removed-append,
  listed-erase_self, listed-erase_ne,
}
use muduo_learning.TcpServer.Loops.{
  World, base, In, next_entry, accept_on, close, call, Step, accepts, closes, calls, started_server,
  Steps, done, next,
}
use muduo_learning.TcpServer.Bookkeeping.{Inv, run_in-Inv, execute-Inv}

accept_on-Inv :
    (sockfd : ℕ) (chosen : ℕ × EventLoopThreadPool ℕ) (w : World)
    → Inv [] w
    → Inv [] (accept_on sockfd chosen w)
unfolding accept_on admit
accept_on-Inv sockfd (l, pool) w i =
    let j : ℕ × Job ℕ = (l, establishes (next_entry sockfd l w)) in
    run_in-Inv (base w) l (establishes (next_entry sockfd l w))
      (record w { server = admit sockfd (l, pool) w.server })
      (record {
        once =
            λ n. ground (arith, i.once n, i.fresh n, established-append n w.server.jobs (j ∷ []));
        fresh = λ n h. ground (arith, i.fresh n, established-append n w.server.jobs (j ∷ []));
        map_kept = λ n h. elim (Bool-cases (w.server.next_conn_id == n)) [
          | inl same ↦ ground (
            arith,
            same,
            i.fresh n,
            established-append n w.server.jobs (j ∷ []),
            listed-erase_self n w.server.connections,
          )
          | inr other ↦ ground (
            arith,
            other,
            i.map_kept n h,
            established-append n w.server.jobs (j ∷ []),
            listed-erase_ne n w.server.next_conn_id w.server.connections,
          )
        ];
        map_gone = λ n h. elim (Bool-cases (w.server.next_conn_id == n)) [
          | inl same ↦ absurd (ground (arith, same, h, i.fresh n, i.behind n, i.rem n, i.est n))
          | inr other ↦ ground (
            arith,
            other,
            i.map_gone n h,
            listed-erase_ne n w.server.next_conn_id w.server.connections,
          )
        ];
        est = λ n. omega (arith, i.est n, established-append n w.server.jobs (j ∷ []));
        des = λ n. omega (arith, i.des n, destroyed-append n w.server.jobs (j ∷ []));
        rem = λ n. omega (arith, i.rem n, removed-append n w.server.jobs (j ∷ []));
        passed = λ n. omega (arith, i.passed n, destroyed-append n w.server.jobs (j ∷ []));
        behind = λ n h. i.behind n (omega (arith, h, removed-append n w.server.jobs (j ∷ [])));
      })

In-established :
    (l : ℕ) (c : Entry ℕ) (js : List (ℕ × Job ℕ))
    → In (l, establishes c) js
    → 1 ≤ established c.number js
In-established l c [] h = elim h [ ]
In-established l c (j ∷ js) (inl here) =
    ground (arith, ap (λ k. established c.number (k ∷ js)) here)
In-established l c (j ∷ js) (inr there) =
    omega (arith, In-established l c js there, established-append c.number (j ∷ []) js)

close-Inv :
    (c : Entry ℕ) (w : World) → In (c.io_loop, establishes c) w.ran → Inv [] w → Inv [] (close c w)
unfolding close remove_connection
close-Inv c w up i =
    let more : List (ℕ × Job ℕ) = (base w, removes c) ∷ [] in
    run_in-Inv c.io_loop (base w) (removes c) (record w { server = remove_connection c w.server })
      (record {
        once = λ n. omega (arith, i.once n, established-append n w.server.jobs more);
        fresh = λ n h. omega (arith, i.fresh n h, established-append n w.server.jobs more);
        map_kept = λ n h. omega (arith, i.map_kept n h, established-append n w.server.jobs more);
        map_gone = i.map_gone;
        est = λ n. omega (arith, i.est n, established-append n w.server.jobs more);
        des = λ n. omega (arith, i.des n, destroyed-append n w.server.jobs more);
        rem = λ n. omega (arith, i.rem n, removed-append n w.server.jobs more);
        passed = λ n. omega (arith, i.passed n, destroyed-append n w.server.jobs more);
        behind = λ n h. elim (Bool-cases (c.number == n)) [
          | inl same ↦ ground (arith, same, In-established c.io_loop c w.ran up, i.once n, i.est n)
          | inr other ↦ ground (arith, other, h, i.behind n, removed-append n w.server.jobs more)
        ];
      })

pub call-Inv :
    (front : List (ℕ × Job ℕ)) (j : ℕ × Job ℕ) (back : List (ℕ × Job ℕ)) (w : World)
    → w.queue ≡ front ++ j ∷ back
    → Inv [] w
    → Inv [] (call front j back w)
unfolding call
call-Inv front (l, j) back w e i =
    let q : List (ℕ × Job ℕ) = (l, j) ∷ [] in
    execute-Inv l j (record w { queue = front ++ back })
      (record {
        once = i.once;
        fresh = i.fresh;
        map_kept = i.map_kept;
        map_gone = i.map_gone;
        est = λ n. omega (
          arith,
          i.est n,
          ap (established n) e,
          established-append n front ((l, j) ∷ back),
          established-append n front back,
          established-append n q back,
        );
        des = λ n. omega (
          arith,
          i.des n,
          ap (destroyed n) e,
          destroyed-append n front ((l, j) ∷ back),
          destroyed-append n front back,
          destroyed-append n q back,
        );
        rem = λ n. omega (
          arith,
          i.rem n,
          ap (removed n) e,
          removed-append n front ((l, j) ∷ back),
          removed-append n front back,
          removed-append n q back,
        );
        passed = i.passed;
        behind = i.behind;
      })

Step-Inv : {u v : World} → Step u v → Inv [] u → Inv [] v
Step-Inv (accepts w sockfd chosen e) i = accept_on-Inv sockfd chosen w i
Step-Inv (closes w c up) i = close-Inv c w up i
Step-Inv (calls w front j back e) i = call-Inv front j back w e i

pub started_server-Inv :
    (b threads : ℕ) (start_loop : ℕ → ℕ) (has_cb : Bool)
    → Inv [] (started_server b threads start_loop has_cb)
unfolding started_server TcpServer.start TcpServer.set_thread_num TcpServer.init
started_server-Inv b threads start_loop has_cb = record {
  once = λ n. omega arith;
  fresh = λ n h. refl;
  map_kept = λ n h. refl;
  map_gone = λ n h. refl;
  est = λ n. refl;
  des = λ n. refl;
  rem = λ n. refl;
  passed = λ n. refl;
  behind = λ n h. absurd (omega (arith, h));
}

pub Steps-Inv : {u v : World} → Steps u v → Inv [] u → Inv [] v
Steps-Inv done i = i
Steps-Inv (next r s) i = Step-Inv s (Steps-Inv r i)

-- A server of any number of threads that was started, then accepts connections, and its loops
-- establish, close and destroy them and call what is handed to them, in any order: wherever this
-- is, each connection was established at most once; it was destroyed at most as often as it was
-- closed, and not at all before it was established; and it stands in the server's map at most
-- once, and not any more once it was destroyed.
pub lifetimes :
    (b threads : ℕ) (start_loop : ℕ → ℕ) (has_cb : Bool) {w : World} (n : ℕ)
    → Steps (started_server b threads start_loop has_cb) w
    → (established n w.ran ≤ 1)
      × (destroyed n w.ran ≤ removed n w.server.jobs)
      × ((destroyed n w.ran ≡ 0)
          ⊎ ((established n w.ran ≡ 1) × (listed n w.server.connections ≡ 0)))
      × (listed n w.server.connections ≤ 1)
lifetimes b threads start_loop has_cb {w} n steps =
    let i = Steps-Inv steps (started_server-Inv b threads start_loop has_cb) in
    (
      omega (arith, i.est n, i.once n),
      omega (arith, i.des n, i.rem n, i.passed n),
      elim (Bool-cases (ltb 0 (removed n w.ran))) [
        | inl some_called ↦ inr (
          i.behind n (ground (arith, some_called, i.rem n)),
          i.map_gone n (ground (arith, some_called)),
        )
        | inr none_called ↦ inl (ground (arith, none_called, i.des n, i.passed n))
      ],
      elim (Bool-cases (ltb 0 (removed n w.ran))) [
        | inl some_called ↦ omega (arith, i.map_gone n (ground (arith, some_called)))
        | inr none_called ↦ omega (arith, i.map_kept n (ground (arith, none_called)), i.once n)
      ],
    )
