-- ===== src/TcpServer/Balance.antt =====
-- src/TcpServer.cc: each connection is established once and destroyed once.
use muduo_learning.Prelude.{
  ℕ, ◌+◌, ◌≤◌, ◌<◌, ◌≡◌, refl, sym, arith, ◌==◌, Bool, if◌then◌else◌, Bool-cases, some, List, [],
  ◌∷◌, inl, inr, Option-cases,
}
use muduo_learning.EventLoopThreadPool.{EventLoopThreadPool, get_next_loop}
use muduo_learning.EventLoopThreadPool.Round.{IsValid, get_next_loop-IsValid}
use muduo_learning.TcpServer.{
  Entry, Job, listens, establishes, set_thread_num, start, removes, destroys, TcpServer, init,
  admit, new_connection, remove_connection, remove_connection_in_loop, hand_destroys, destroy,
}
use muduo_learning.TcpServer.Ledger.{
  established, destroyed, listed, established-append, destroyed-append, listed-erase_self,
  listed-erase_ne, established-hand_destroys, destroyed-hand_destroys,
}

module _ {L : Type 0} where
  -- What the server's loop does: set the number of threads, start the server, accept a connection,
  -- be asked to remove one, and remove one that is in the map.
  pub data Step : TcpServer L → TcpServer L → Type 0 where
    accepts : {s t : TcpServer L} (sockfd : ℕ) → new_connection sockfd s ≡ some t → Step s t
    sets : {s : TcpServer L} (threads : ℕ) → Step s (set_thread_num threads s)
    starts :
        {s : TcpServer L} (start_loop : ℕ → L) (has_cb : Bool) → Step s (start start_loop has_cb s)
    asked : {s : TcpServer L} (c : Entry L) → Step s (remove_connection c s)
    drops :
        {s : TcpServer L} (c : Entry L)
        → 0 < listed c.number s.connections
        → Step s (remove_connection_in_loop c s)

  pub data Steps : TcpServer L → TcpServer L → Type 0 where
    done : {s : TcpServer L} → Steps s s
    next : {s t u : TcpServer L} → Step s t → Steps t u → Steps s u

  pub record Inv (s : TcpServer L) : Type 0 where
    pub balance : (n : ℕ) → established n s.jobs ≡ destroyed n s.jobs + listed n s.connections
    pub once : (n : ℕ) → established n s.jobs ≤ 1
    pub fresh : (n : ℕ) → s.next_conn_id ≤ n → established n s.jobs ≡ 0

  pub admit-Inv :
      (s : TcpServer L) (sockfd : ℕ) (chosen : L × EventLoopThreadPool L)
      → Inv s
      → Inv (admit sockfd chosen s)
  unfolding admit
  admit-Inv s sockfd (l, pool) i =
      let c : Entry L = record { number = s.next_conn_id; sockfd = sockfd; io_loop = l } in
      let more : List (L × Job L) = (l, establishes c) ∷ [] in
      record {
        balance = λ n. elim (Bool-cases (s.next_conn_id == n)) [
          | inl same ↦ ground (
            arith,
            i.balance n,
            i.fresh n,
            established-append n s.jobs more,
            destroyed-append n s.jobs more,
            listed-erase_self n s.connections,
          )
          | inr other ↦ ground (
            arith,
            i.balance n,
            established-append n s.jobs more,
            destroyed-append n s.jobs more,
            listed-erase_ne n s.next_conn_id s.connections,
          )
        ];
        once = λ n. ground (arith, i.once n, i.fresh n, established-append n s.jobs more);
        fresh = λ n h. ground (arith, i.fresh n, established-append n s.jobs more);
      }

  accepts-Inv : {s t : TcpServer L} (sockfd : ℕ) → new_connection sockfd s ≡ some t → Inv s → Inv t
  unfolding new_connection
  accepts-Inv {s} {t} sockfd e i = elim (Option-cases (get_next_loop s.pool)) [
    | inl lost ↦ absurd (cc (e, lost))
    | inr (chosen, found) ↦
        let same : admit sockfd chosen s ≡ t = cc (e, found) in
        rw (sym same) (admit-Inv s sockfd chosen i)
  ]

  pub drops-Inv :
      {s : TcpServer L} (c : Entry L)
      → 0 < listed c.number s.connections
      → Inv s
      → Inv (remove_connection_in_loop c s)
  unfolding remove_connection_in_loop
  drops-Inv {s} c h i =
      let more : List (L × Job L) = (c.io_loop, destroys c) ∷ [] in
      record {
        balance = λ n. elim (Bool-cases (c.number == n)) [
          | inl same ↦ ground (
            arith,
            i.balance n,
            i.once n,
            established-append n s.jobs more,
            destroyed-append n s.jobs more,
            listed-erase_self n s.connections,
          )
          | inr other ↦ ground (
            arith,
            i.balance n,
            established-append n s.jobs more,
            destroyed-append n s.jobs more,
            listed-erase_ne n c.number s.connections,
          )
        ];
        once = λ n. omega (arith, i.once n, established-append n s.jobs more);
        fresh = λ n h. omega (arith, i.fresh n h, established-append n s.jobs more);
      }

  starts-Inv :
      (s : TcpServer L) (start_loop : ℕ → L) (has_cb : Bool)
      → Inv s
      → Inv (start start_loop has_cb s)
  unfolding start
  starts-Inv s start_loop has_cb i =
      let more : List (L × Job L) = (s.pool.base_loop, listens) ∷ [] in
      elim (Bool-cases (s.started == 0)) [
        | inl first ↦ rw first (record {
          balance = λ n. omega (
            arith,
            i.balance n,
            established-append n s.jobs more,
            destroyed-append n s.jobs more,
          );
          once = λ n. omega (arith, i.once n, established-append n s.jobs more);
          fresh = λ n h. omega (arith, i.fresh n h, established-append n s.jobs more);
        })
        | inr again ↦ rw again (record {
          balance = λ n. i.balance n;
          once = λ n. i.once n;
          fresh = λ n h. i.fresh n h;
        })
      ]

  pub Step-Inv : {s t : TcpServer L} → Step s t → Inv s → Inv t
  unfolding remove_connection set_thread_num
  Step-Inv (sets threads) i = record {
    balance = λ n. i.balance n;
    once = λ n. i.once n;
    fresh = λ n h. i.fresh n h;
  }
  Step-Inv {s} (starts start_loop has_cb) i = starts-Inv s start_loop has_cb i
  Step-Inv (accepts sockfd e) i = accepts-Inv sockfd e i
  Step-Inv {s} (asked c) i = record {
    balance = λ n. omega (
      arith,
      i.balance n,
      established-append n s.jobs ((s.pool.base_loop, removes c) ∷ []),
      destroyed-append n s.jobs ((s.pool.base_loop, removes c) ∷ []),
    );
    once = λ n.
        omega (arith, i.once n, established-append n s.jobs ((s.pool.base_loop, removes c) ∷ []));
    fresh = λ n h.
        omega
          (arith, i.fresh n h, established-append n s.jobs ((s.pool.base_loop, removes c) ∷ []));
  }
  Step-Inv (drops c h) i = drops-Inv c h i

  Steps-Inv : {s t : TcpServer L} → Steps s t → Inv s → Inv t
  Steps-Inv done i = i
  Steps-Inv (next a rest) i = Steps-Inv rest (Step-Inv a i)

  pub init-Inv : (base : L) → Inv (init base)
  unfolding init
  init-Inv base = record { balance = λ n. refl; once = λ n. omega arith; fresh = λ n h. refl }

  -- In a server that was new and then had its number of threads set, was started, accepted
  -- connections, was asked for removals, and removed listed connections, each any number of times
  -- and in any order: each connection number was established at most once, and as often as it was
  -- destroyed or is listed. When the server is then destroyed, no further one is established and
  -- each was destroyed as often as established.
  pub connections_balance :
      (base : L) {s : TcpServer L} (n : ℕ)
      → Steps (init base) s
      → (established n s.jobs ≤ 1)
        × (established n s.jobs ≡ destroyed n s.jobs + listed n s.connections)
        × (established n (destroy s).jobs ≡ established n s.jobs)
        × (destroyed n (destroy s).jobs ≡ established n s.jobs)
  unfolding destroy
  connections_balance base {s} n steps =
      let i = Steps-Inv steps (init-Inv base) in
      let last = hand_destroys s.connections in
      (
        i.once n,
        i.balance n,
        omega (arith, established-append n s.jobs last, established-hand_destroys n s.connections),
        omega (
          arith,
          i.balance n,
          destroyed-append n s.jobs last,
          destroyed-hand_destroys n s.connections,
        ),
      )

  -- `newConnection` in such a server, when its pool is valid, succeeds and leaves the pool valid:
  -- the new number is listed once, and every other number as often as before.
  pub new_connection_adds :
      (base : L) {s : TcpServer L} (sockfd n : ℕ)
      → Steps (init base) s
      → IsValid s.pool
      → (t : TcpServer L) × (new_connection sockfd s ≡ some t)
        × (listed n t.connections ≡ (if s.next_conn_id == n then 1 else listed n s.connections))
        × IsValid t.pool
  unfolding new_connection admit
  new_connection_adds base {s} sockfd n steps valid =
      let (chosen, found, kept) = get_next_loop-IsValid s.pool valid in
      let i = Steps-Inv steps (init-Inv base) in
      (
        admit sockfd chosen s,
        rw (new_connection, found) refl,
        elim (Bool-cases (s.next_conn_id == n)) [
          | inl same ↦ ground (arith, i.balance n, i.fresh n, listed-erase_self n s.connections)
          | inr other ↦ ground (arith, listed-erase_ne n s.next_conn_id s.connections)
        ],
        kept,
      )
