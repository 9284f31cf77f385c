-- ===== src/EventLoopThreadPool/Start.antt =====
-- src/EventLoopThreadPool.cc: what `start` leaves.
use muduo_learning.Prelude.{
  ℕ, suc, zero, ◌≡◌, ◌∙◌, refl, ap₂, sym, arith, Bool, true, false, ◌==◌, if◌then◌else◌, List, [],
  ◌∷◌, ◌++◌, inl, inr, length, append-nil, append_assoc,
}
use muduo_learning.EventLoopThreadPool.{
  EventLoopThreadPool, init, set_thread_num, start_threads, start, get_all_loops,
}
use muduo_learning.EventLoopThreadPool.Round.{IsValid}

module _ {L : Type 0} where
  -- `start_loop i`, and so on, `n` of them.
  unfoldable pub loops_from : (ℕ → L) → ℕ → ℕ → List L
  loops_from start_loop i zero = []
  loops_from start_loop i (suc n) = start_loop i ∷ loops_from start_loop (suc i) n

  if_append-nil : (b : Bool) (xs : List L) → xs ≡ (if b then xs ++ [] else xs)
  if_append-nil true xs = sym (append-nil xs)
  if_append-nil false xs = refl

  if_append_assoc :
      (b : Bool) (xs : List L) (x : L) (ys : List L)
      → (if b then (if b then xs ++ x ∷ [] else xs) ++ ys else (if b then xs ++ x ∷ [] else xs))
        ≡ (if b then xs ++ x ∷ ys else xs)
  if_append_assoc true xs x ys = append_assoc xs (x ∷ []) ys
  if_append_assoc false xs x ys = refl

  start_threads_lem :
      (start_loop : ℕ → L) (has_cb : Bool) (i n : ℕ) (p : EventLoopThreadPool L)
      → start_threads start_loop has_cb i n p ≡ record p {
        loops = p.loops ++ loops_from start_loop i n;
        initialised = if has_cb then p.initialised ++ loops_from start_loop i n else p.initialised;
      }
  unfolding start_threads loops_from
  start_threads_lem start_loop has_cb i zero p =
      ap₂ (λ ls is. record p { loops = ls; initialised = is }) (sym (append-nil p.loops))
        (if_append-nil has_cb p.initialised)
  start_threads_lem start_loop has_cb i (suc n) p =
      start_threads_lem start_loop has_cb (suc i) n _
      ∙ ap₂ (λ ls is. record p { loops = ls; initialised = is })
          (append_assoc p.loops (start_loop i ∷ []) (loops_from start_loop (suc i) n))
          (if_append_assoc has_cb p.initialised (start_loop i) (loops_from start_loop (suc i) n))

  start_eq :
      (base : L) (n : ℕ) (start_loop : ℕ → L) (has_cb : Bool)
      → let ls = loops_from start_loop 0 (suc n) in
        start start_loop has_cb (set_thread_num (suc n) (init base)) ≡ record {
          base_loop = base;
          started = true;
          num_threads = suc n;
          next = 0;
          loops = ls;
          initialised = if has_cb then ls else [];
        }
  unfolding start set_thread_num init
  start_eq base n start_loop has_cb =
      let some_threads : (suc n == 0) ≡ false = ground arith in
      rw (start_threads_lem start_loop has_cb 0 (suc n) _, some_threads) refl

  -- A pool of `n` threads that was started once is valid and marked as started; `getAllLoops`
  -- gives the loops of its threads in order, or the base loop when it has none; and `cb`, if there
  -- is one, was called once with each of these, in order.
  pub start_lem :
      (base : L) (n : ℕ) (start_loop : ℕ → L) (has_cb : Bool)
      → let p = start start_loop has_cb (set_thread_num n (init base)) in
        IsValid p
        × (get_all_loops p ≡ (if n == 0 then base ∷ [] else loops_from start_loop 0 n))
        × (p.initialised ≡ (if has_cb then get_all_loops p else []))
        × (p.started ≡ true)
  unfolding start set_thread_num init get_all_loops start_threads loops_from
  start_lem base zero start_loop true = (inl (refl, refl), refl, refl, refl)
  start_lem base zero start_loop false = (inl (refl, refl), refl, refl, refl)
  start_lem base (suc n) start_loop has_cb =
      let some_threads : (suc n == 0) ≡ false = ground arith in
      let some_loops : (suc (length (loops_from start_loop 1 n)) == 0) ≡ false = ground arith in
      rw (start_eq base n start_loop has_cb, some_threads, some_loops)
        (inr (omega arith), refl, refl, refl)
