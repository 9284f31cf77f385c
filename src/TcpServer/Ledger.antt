-- ===== src/TcpServer/Ledger.antt =====
-- src/TcpServer.cc: how often each connection was established, was destroyed, and is listed.
use muduo_learning.Prelude.{ℕ, ◌+◌, ◌≡◌, ◌≢◌, refl, arith, ◌==◌, if◌then◌else◌, List, [], ◌∷◌, ◌++◌}
use muduo_learning.TcpServer.{
  Entry, Job, listens, establishes, removes, destroys, erase, hand_destroys,
}

module _ {L : Type 0} where
  -- How often connection `n` was established, was destroyed, and stands in the map.
  abbrev pub established : ℕ → List (L × Job L) → ℕ
  established n [] = 0
  established n ((l, establishes c) ∷ js) = (if c.number == n then 1 else 0) + established n js
  established n ((l, listens) ∷ js) = established n js
  established n ((l, removes c) ∷ js) = established n js
  established n ((l, destroys c) ∷ js) = established n js

  abbrev pub destroyed : ℕ → List (L × Job L) → ℕ
  destroyed n [] = 0
  destroyed n ((l, destroys c) ∷ js) = (if c.number == n then 1 else 0) + destroyed n js
  destroyed n ((l, listens) ∷ js) = destroyed n js
  destroyed n ((l, removes c) ∷ js) = destroyed n js
  destroyed n ((l, establishes c) ∷ js) = destroyed n js

  -- How often it was asked to remove connection `n`.
  abbrev pub removed : ℕ → List (L × Job L) → ℕ
  removed n [] = 0
  removed n ((l, removes c) ∷ js) = (if c.number == n then 1 else 0) + removed n js
  removed n ((l, listens) ∷ js) = removed n js
  removed n ((l, establishes c) ∷ js) = removed n js
  removed n ((l, destroys c) ∷ js) = removed n js

  abbrev pub listed : ℕ → List (Entry L) → ℕ
  listed n [] = 0
  listed n (c ∷ cs) = (if c.number == n then 1 else 0) + listed n cs

  pub established-append :
      (n : ℕ) (js ks : List (L × Job L))
      → established n (js ++ ks) ≡ established n js + established n ks
  established-append n [] ks = omega arith
  established-append n ((l, establishes c) ∷ js) ks = omega (arith, established-append n js ks)
  established-append n ((l, listens) ∷ js) ks = established-append n js ks
  established-append n ((l, removes c) ∷ js) ks = established-append n js ks
  established-append n ((l, destroys c) ∷ js) ks = established-append n js ks

  pub destroyed-append :
      (n : ℕ) (js ks : List (L × Job L)) → destroyed n (js ++ ks) ≡ destroyed n js + destroyed n ks
  destroyed-append n [] ks = omega arith
  destroyed-append n ((l, destroys c) ∷ js) ks = omega (arith, destroyed-append n js ks)
  destroyed-append n ((l, listens) ∷ js) ks = destroyed-append n js ks
  destroyed-append n ((l, removes c) ∷ js) ks = destroyed-append n js ks
  destroyed-append n ((l, establishes c) ∷ js) ks = destroyed-append n js ks

  pub removed-append :
      (n : ℕ) (js ks : List (L × Job L)) → removed n (js ++ ks) ≡ removed n js + removed n ks
  removed-append n [] ks = omega arith
  removed-append n ((l, removes c) ∷ js) ks = omega (arith, removed-append n js ks)
  removed-append n ((l, listens) ∷ js) ks = removed-append n js ks
  removed-append n ((l, establishes c) ∷ js) ks = removed-append n js ks
  removed-append n ((l, destroys c) ∷ js) ks = removed-append n js ks

  pub listed-erase_self : (n : ℕ) (cs : List (Entry L)) → listed n (erase n cs) ≡ 0
  listed-erase_self n [] = refl
  listed-erase_self n (c ∷ cs) = ground (arith, listed-erase_self n cs)

  pub listed-erase_ne :
      (n m : ℕ) (cs : List (Entry L)) → n ≢ m → listed n (erase m cs) ≡ listed n cs
  listed-erase_ne n m [] h = refl
  listed-erase_ne n m (c ∷ cs) h = ground (arith, listed-erase_ne n m cs h)

  pub established-hand_destroys :
      (n : ℕ) (cs : List (Entry L)) → established n (hand_destroys cs) ≡ 0
  unfolding hand_destroys
  established-hand_destroys n [] = refl
  established-hand_destroys n (c ∷ cs) = established-hand_destroys n cs

  pub destroyed-hand_destroys :
      (n : ℕ) (cs : List (Entry L)) → destroyed n (hand_destroys cs) ≡ listed n cs
  unfolding hand_destroys
  destroyed-hand_destroys n [] = refl
  destroyed-hand_destroys n (c ∷ cs) = omega (arith, destroyed-hand_destroys n cs)
