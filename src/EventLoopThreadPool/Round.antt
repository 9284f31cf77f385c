-- ===== src/EventLoopThreadPool/Round.antt =====
-- src/EventLoopThreadPool.cc: `getNextLoop` goes round the loops.
use muduo_learning.Prelude.{
  ℕ, suc, zero, ◌+◌, ◌-◌, ◌<◌, ◌≡◌, ◌≢◌, ◌∙◌, refl, ap, ap₂, arith, true, false, ◌==◌, leb,
  if◌then◌else◌, Option, none, some, List, [], ◌∷◌, ◌++◌, ◌⊎◌, inl, inr, length, get_elem?, take,
  drop, drop_all, replicate,
}
use muduo_learning.EventLoopThreadPool.{EventLoopThreadPool, get_next_loop}

add_one : {n : ℕ} → n + 1 ≡ suc n
add_one = omega arith

add_suc : (n k : ℕ) → n + 1 + k ≡ n + suc k
add_suc n k = omega arith

zero_add : {n : ℕ} → 0 + n ≡ n
zero_add = omega arith

suc_add : (a b : ℕ) → suc a + b ≡ suc (a + b)
suc_add a b = omega arith

split : (i n : ℕ) → i < n → n ≡ suc (n - suc i + i)
split i n h = omega arith

module _ {L : Type 0} where
  -- The index is that of a loop, or 0 in a pool with none.
  abbrev pub IsValid : EventLoopThreadPool L → Type 0
  IsValid p = (p.loops ≡ []) × (p.next ≡ 0) ⊎ (p.next < length p.loops)

  abbrev prepend :
      L → Option (List L × EventLoopThreadPool L) → Option (List L × EventLoopThreadPool L)
  prepend l none = none
  prepend l (some (ls, q)) = some (l ∷ ls, q)

  abbrev and_then :
      Option (L × EventLoopThreadPool L)
      → (EventLoopThreadPool L → Option (List L × EventLoopThreadPool L))
      → Option (List L × EventLoopThreadPool L)
  and_then none f = none
  and_then (some (l, p)) f = prepend l (f p)

  -- `k` calls of `getNextLoop`.
  unfoldable pub calls : ℕ → EventLoopThreadPool L → Option (List L × EventLoopThreadPool L)
  calls zero p = some ([], p)
  calls (suc k) p = and_then (get_next_loop p) (calls k)

  get_elem?-drop :
      (xs : List L) (i : ℕ)
      → i < length xs
      → (x : L) × (get_elem? xs i ≡ some x) × (drop i xs ≡ x ∷ drop (suc i) xs)
  get_elem?-drop [] i h = absurd (omega arith)
  get_elem?-drop (x ∷ xs) zero h = (x, refl, refl)
  get_elem?-drop (x ∷ xs) (suc i) h = get_elem?-drop xs i (omega arith)

  -- One call in a pool with loops.
  get_next_loop-some :
      (p : EventLoopThreadPool L)
      → p.next < length p.loops
      → (l : L) × (drop p.next p.loops ≡ l ∷ drop (suc p.next) p.loops)
        × (get_next_loop p
            ≡ some (
              l,
              record p { next = if leb (length p.loops) (p.next + 1) then 0 else p.next + 1 },
            ))
  unfolding get_next_loop
  get_next_loop-some p h =
      let (l, e, d) = get_elem?-drop p.loops p.next h in
      let full : (length p.loops == 0) ≡ false = ground arith in (l, d, rw (full, e) refl)

  -- A call in a valid pool gives a loop and leaves a valid pool.
  pub get_next_loop-IsValid :
      (p : EventLoopThreadPool L)
      → IsValid p
      → (chosen : L × EventLoopThreadPool L) × (get_next_loop p ≡ some chosen) × IsValid chosen.1
  unfolding get_next_loop
  get_next_loop-IsValid p (inl (empty, zero_next)) =
      ((p.base_loop, p), rw empty refl, inl (empty, zero_next))
  get_next_loop-IsValid p (inr within) =
      let (l, d, e) = get_next_loop-some p within in ((l, _), e, inr (ground arith))

  -- A call, and the calls after it.
  calls-suc :
      (k : ℕ) (p q r : EventLoopThreadPool L) (l : L) (ls : List L)
      → get_next_loop p ≡ some (l, q)
      → calls k q ≡ some (ls, r)
      → calls (suc k) p ≡ some (l ∷ ls, r)
  unfolding calls
  calls-suc k p q r l ls h t = ap (λ o. and_then o (calls k)) h ∙ ap (prepend l) t

  -- Calls before the index comes to the end.
  calls_within :
      (k : ℕ) (p : EventLoopThreadPool L)
      → p.next + k < length p.loops
      → calls k p ≡ some (take k (drop p.next p.loops), record p { next = p.next + k })
  unfolding calls
  calls_within zero p h = ap (λ n. some ([], record p { next = n })) (omega arith)
  calls_within (suc k) p h =
      let (l, d, e) = get_next_loop-some p (omega arith) in
      let more : leb (length p.loops) (p.next + 1) ≡ false = ground arith in
      let rest = calls_within k (record p { next = p.next + 1 }) (omega arith) in
      rw d (
        calls-suc k p (record p { next = p.next + 1 }) _ l _
          (e ∙ ap (λ b. some (l, record p { next = if b then 0 else p.next + 1 })) more)
          (rest
            ∙ ap₂ (λ i n. some (take k (drop i p.loops), record p { next = n })) add_one
                (add_suc p.next k)))

  -- Calls past the end: the last ones from the index on, and then the first ones.
  calls_past :
      (a b : ℕ) (p : EventLoopThreadPool L)
      → p.next + suc a ≡ length p.loops
      → b < length p.loops
      → calls (suc (a + b)) p ≡ some (drop p.next p.loops ++ take b p.loops, record p { next = b })
  calls_past zero b p h k =
      let (l, d, e) = get_next_loop-some p (omega arith) in
      let wraps : leb (length p.loops) (p.next + 1) ≡ true = ground arith in
      let last : drop (suc p.next) p.loops ≡ [] = drop_all (suc p.next) p.loops (omega arith) in
      rw (d, last)
        (ap (λ n. calls (suc n) p) zero_add
          ∙ calls-suc b p (record p { next = 0 }) _ l _
              (e ∙ ap (λ c. some (l, record p { next = if c then 0 else p.next + 1 })) wraps)
              (calls_within b (record p { next = 0 }) (omega arith)
                ∙ ap (λ n. some (take b p.loops, record p { next = n })) zero_add))
  calls_past (suc a) b p h k =
      let (l, d, e) = get_next_loop-some p (omega arith) in
      let more : leb (length p.loops) (p.next + 1) ≡ false = ground arith in
      rw d (
        ap (λ n. calls (suc n) p) (suc_add a b)
        ∙ calls-suc (suc (a + b)) p (record p { next = p.next + 1 }) _ l _
            (e ∙ ap (λ c. some (l, record p { next = if c then 0 else p.next + 1 })) more)
            (calls_past a b (record p { next = p.next + 1 }) (omega arith) k
              ∙ ap (λ i. some (drop i p.loops ++ take b p.loops, record p { next = b })) add_one))

  calls_base :
      (k : ℕ) (p : EventLoopThreadPool L)
      → p.loops ≡ []
      → calls k p ≡ some (replicate k p.base_loop, p)
  unfolding calls get_next_loop
  calls_base zero p h = refl
  calls_base (suc k) p h = calls-suc k p p p p.base_loop _ (rw h refl) (calls_base k p h)

  -- In a valid pool with loops, as many calls of `getNextLoop` as there are loops give each loop
  -- once, from the index on and around, and leave the pool as it was. In a valid pool with none,
  -- each of any number of calls gives the base loop and leaves the pool as it was.
  pub get_next_loop_round :
      (p : EventLoopThreadPool L)
      → IsValid p
      → ((p.loops ≢ [])
          → calls (length p.loops) p ≡ some (drop p.next p.loops ++ take p.next p.loops, p))
        × ((p.loops ≡ []) → (k : ℕ) → calls k p ≡ some (replicate k p.base_loop, p))
  get_next_loop_round p v = (
    λ some_loops. elim v [
      | inl (empty, z) ↦ absurd (some_loops empty)
      | inr within ↦
          ap (λ n. calls n p) (split p.next (length p.loops) within)
          ∙ calls_past (length p.loops - suc p.next) p.next p (omega arith) within
    ],
    λ empty k. calls_base k p empty,
  )
