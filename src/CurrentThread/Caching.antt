-- ===== src/CurrentThread/Caching.antt =====
-- src/CurrentThread.cc: one system call for each thread that asks.
use muduo_learning.Prelude.{
  ℕ, suc, ◌+◌, ◌<◌, ◌≡◌, refl, ap₂, ◌⊎◌, inl, List, [], ◌∷◌, map, ◌==◌, min, if◌then◌else◌, arith,
}
use muduo_learning.CurrentThread.{Threads, init, tid, tids}

-- How often `t` stands in the list.
abbrev pub count : ℕ → List ℕ → ℕ
count t [] = 0
count t (u ∷ us) = let rest = count t us in if t == u then suc rest else rest

module _ (gettid : ℕ → ℕ) where
  -- A cache is empty, or holds the thread's id after one system call.
  abbrev pub IsHonest : Threads → Type 0
  IsHonest s =
      (t : ℕ)
      → ((s.cached_tid t ≡ 0) × (s.syscalls t ≡ 0))
        ⊎ ((s.cached_tid t ≡ gettid t) × (s.syscalls t ≡ 1))

module _ (gettid : ℕ → ℕ) (positive : (t : ℕ) → 0 < gettid t) where
  pub tid_lem :
      (t : ℕ) (s : Threads)
      → IsHonest gettid s
      → ((tid gettid t s).0 ≡ gettid t)
        × IsHonest gettid ((tid gettid t s).1)
        × ((u : ℕ) → ((tid gettid t s).1.syscalls u ≡ (if u == t then 1 else s.syscalls u)))
  unfolding tid
  tid_lem t s h = (
    ground (arith, h t),
    (λ u. ground (arith, h t, h u, positive t)),
    λ u. ground (arith, h t, h u, positive t),
  )

  tids-from :
      (ts : List ℕ) (s : Threads)
      → IsHonest gettid s
      → ((tids gettid ts s).0 ≡ map gettid ts)
        × ((u : ℕ) → (tids gettid ts s).1.syscalls u ≡ min 1 (s.syscalls u + count u ts))
  unfolding tids
  tids-from [] s h = (refl, λ u. ground (arith, h u))
  tids-from (t ∷ ts) s h =
      let (is_id, honest, one_call) = tid_lem t s h in
      let (are_ids, few) = tids-from ts ((tid gettid t s).1) honest in
      (ap₂ ◌∷◌ is_id are_ids, λ u. ground (arith, few u, one_call u, h u))

  -- However the calls of `tid` in any number of threads follow each other from the start of the
  -- program, where the system call gives positive numbers: each call returns its thread's id, and
  -- a thread has made the system call once if it has asked at all, and else never.
  pub tids_lem :
      (ts : List ℕ)
      → ((tids gettid ts init).0 ≡ map gettid ts)
        × ((u : ℕ) → (tids gettid ts init).1.syscalls u ≡ min 1 (count u ts))
  tids_lem ts =
      let (are_ids, few) = tids-from ts init (λ t. inl (refl, refl)) in
      (are_ids, λ u. omega (arith, few u))
