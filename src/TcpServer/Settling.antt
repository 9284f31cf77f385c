-- ===== src/TcpServer/Settling.antt =====
-- The loops come to an end with what the server handed to them.
use muduo_learning.Prelude.{
  ℕ, zero, suc, ◌+◌, ◌≤◌, ◌≡◌, refl, ap, ◌∙◌, arith, Bool, List, [], ◌∷◌, ◌++◌, if◌then◌else◌, ◌==◌,
  Bool-cases, inl, inr,
}
use muduo_learning.TcpServer.{
  Job, listens, establishes, removes, destroys, remove_connection_in_loop,
}
use muduo_learning.TcpServer.Ledger.{
  established, destroyed, removed, listed, established-append, removed-append,
}
use muduo_learning.TcpServer.Loops.{World, execute, call, started_server, Steps}
use muduo_learning.TcpServer.Bookkeeping.{Inv}
use muduo_learning.TcpServer.Lifetimes.{call-Inv, started_server-Inv, Steps-Inv}

-- How much is still to be called.
abbrev weight : List (ℕ × Job ℕ) → ℕ
weight [] = 0
weight ((l, removes c) ∷ js) = 2 + weight js
weight ((l, listens) ∷ js) = 1 + weight js
weight ((l, establishes c) ∷ js) = 1 + weight js
weight ((l, destroys c) ∷ js) = 1 + weight js

weight-append : (js ks : List (ℕ × Job ℕ)) → weight (js ++ ks) ≡ weight js + weight ks
weight-append [] ks = omega arith
weight-append ((l, removes c) ∷ js) ks = omega (arith, weight-append js ks)
weight-append ((l, listens) ∷ js) ks = omega (arith, weight-append js ks)
weight-append ((l, establishes c) ∷ js) ks = omega (arith, weight-append js ks)
weight-append ((l, destroys c) ∷ js) ks = omega (arith, weight-append js ks)

-- The loops only call what was handed to them, in the order in which it was.
pub data Runs : World → World → Type 0 where
  idle : {w : World} → Runs w w
  runs :
      {u v : World} (j : ℕ × Job ℕ) (js : List (ℕ × Job ℕ))
      → u.queue ≡ j ∷ js
      → Runs (call [] j js u) v
      → Runs u v

call-lighter :
    (l : ℕ) (j : Job ℕ) (js : List (ℕ × Job ℕ)) (w : World)
    → w.queue ≡ (l, j) ∷ js
    → suc (weight (call [] (l, j) js w).queue) ≤ weight w.queue
unfolding call execute
call-lighter l listens js w e = omega (arith, ap weight e)
call-lighter l (establishes c) js w e = omega (arith, ap weight e)
call-lighter l (destroys c) js w e = omega (arith, ap weight e)
call-lighter l (removes c) js w e =
    omega (arith, ap weight e, weight-append js ((c.io_loop, destroys c) ∷ []))

-- A call accepts and closes none.
call-same :
    (l : ℕ) (j : Job ℕ) (js : List (ℕ × Job ℕ)) (w : World) (n : ℕ)
    → let s = (call [] (l, j) js w).server in
      (removed n s.jobs ≡ removed n w.server.jobs)
      × (established n s.jobs ≡ established n w.server.jobs)
unfolding call execute remove_connection_in_loop
call-same l listens js w n = (refl, refl)
call-same l (establishes c) js w n = (refl, refl)
call-same l (destroys c) js w n = (refl, refl)
call-same l (removes c) js w n =
    let d : List (ℕ × Job ℕ) = (c.io_loop, destroys c) ∷ [] in
    omega (arith, removed-append n w.server.jobs d, established-append n w.server.jobs d)

-- At the end of the runs nothing is queued, and no other connection was closed.
abbrev Settled : World → World → Type 0
Settled w v =
    Runs w v
    × (v.queue ≡ [])
    × Inv [] v
    × ((n : ℕ)
        → (removed n v.server.jobs ≡ removed n w.server.jobs)
          × (established n v.server.jobs ≡ established n w.server.jobs))

settle :
    (fuel : ℕ) (q : List (ℕ × Job ℕ)) (w : World)
    → w.queue ≡ q
    → weight q ≤ fuel
    → Inv [] w
    → (v : World) × Settled w v
settle fuel [] w e h i = (w, (idle, e, i, λ n. (refl, refl)))
settle zero ((l, j) ∷ js) w e h i = absurd (omega (arith, ap weight e, call-lighter l j js w e))
settle (suc fuel) ((l, j) ∷ js) w e h i =
    let u = call [] (l, j) js w in
    let (v, (r, empty, last, same)) =
      settle fuel u.queue u refl (omega (arith, ap weight e, call-lighter l j js w e))
        (call-Inv [] (l, j) js w e i) in
    (
      v,
      (
        runs (l, j) js e r,
        empty,
        last,
        λ n. ((same n).0 ∙ (call-same l j js w n).0, (same n).1 ∙ (call-same l j js w n).1),
      ),
    )

-- From wherever such a server is, when its loops only call what was handed to them, in the order
-- in which it was, they come to an end with nothing queued. Then each connection was destroyed as
-- often as it had been closed; each that was accepted was established; and it is in the server's
-- map, once, exactly if it was accepted and never closed.
pub settles :
    (b threads : ℕ) (start_loop : ℕ → ℕ) (has_cb : Bool) {w : World}
    → Steps (started_server b threads start_loop has_cb) w
    → (v : World) × Runs w v
      × (v.queue ≡ [])
      × ((n : ℕ)
          → (destroyed n v.ran ≡ removed n w.server.jobs)
            × (established n v.ran ≡ established n w.server.jobs)
            × (listed n v.server.connections
                ≡ (if removed n w.server.jobs == 0 then established n w.server.jobs else 0)))
settles b threads start_loop has_cb {w} steps =
    let (v, (r, empty, i, same)) =
      settle (weight w.queue) w.queue w refl (omega arith)
        (Steps-Inv steps (started_server-Inv b threads start_loop has_cb)) in
    let called : (n : ℕ) → removed n v.ran ≡ removed n w.server.jobs =
      λ n. omega (arith, same n, i.rem n, ap (removed n) empty) in
    (
      v,
      r,
      empty,
      λ n. (
        omega (arith, called n, i.des n, i.passed n, ap (destroyed n) empty),
        omega (arith, same n, i.est n, ap (established n) empty),
        elim (Bool-cases (removed n w.server.jobs == 0)) [
          | inl never ↦ rw never (i.map_kept n (ground (arith, never, called n)) ∙ (same n).1)
          | inr closed ↦ rw closed (i.map_gone n (ground (arith, closed, called n)))
        ],
      ),
    )
