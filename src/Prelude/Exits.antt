-- ===== src/Prelude/Exits.antt =====
-- Code that may end the process: by LOG_FATAL, which calls `exit(-1)`, by an exception that nothing
-- catches, or by a null pointer that it follows.
use mathlib.Core.Path.{◌≡◌, refl, subst}
use mathlib.Core.Bool.{Bool, true, false}
use muduo_learning.Prelude.Tests.{if◌then◌else◌}

pub data Outcome {ℓ} (A : Type ℓ) : Type ℓ where
  ok : A → Outcome A
  fatal : Outcome A

infixl 5 ◌>>=◌
abbrev pub ◌>>=◌ {ℓ κ} : {A : Type ℓ} {B : Type κ} → Outcome A → (A → Outcome B) → Outcome B
ok a >>= f = f a
fatal >>= f = fatal

-- The code returns, and what it returns satisfies `P`.
abbrev pub Returns {ℓ} : {A : Type ℓ} → Outcome A → (A → Type 0) → Type 0
Returns (ok a) P = P a
Returns fatal P = ⊥

-- If the code returns, what it returns satisfies `P`.
abbrev pub Whenever {ℓ} : {A : Type ℓ} → Outcome A → (A → Type 0) → Type 0
Whenever (ok a) P = P a
Whenever fatal P = Unit

module _ {ℓ} {A : Type ℓ} where
  pub Returns-bind {κ} :
      {B : Type κ} (m : Outcome A) (f : A → Outcome B) (P : A → Type 0) (Q : B → Type 0)
      → Returns m P
      → ((a : A) → P a → Returns (f a) Q)
      → Returns (m >>= f) Q
  Returns-bind (ok a) f P Q h k = k a h
  Returns-bind fatal f P Q h k = absurd h

  pub Returns-map :
      (m : Outcome A) (P Q : A → Type 0) → Returns m P → ((a : A) → P a → Q a) → Returns m Q
  Returns-map (ok a) P Q h k = k a h
  Returns-map fatal P Q h k = h

  pub Returns_of_ok : {m : Outcome A} {a : A} (P : A → Type 0) → m ≡ ok a → P a → Returns m P
  Returns_of_ok P e h = rw e h

  -- A guarded call, `if (test) { f(); }`.
  pub Returns-if :
      (b : Bool) (m : Outcome A) (a : A) (P : A → Type 0)
      → Returns m P
      → P a
      → Returns (if b then m else ok a) P
  Returns-if true m a P h k = h
  Returns-if false m a P h k = k

  pub Returns-if_either :
      (b : Bool) (m : Outcome A) (P : A → Type 0) → Returns m P → Returns (if b then m else m) P
  Returns-if_either true m P h = h
  Returns-if_either false m P h = h

  pub Whenever-bind {κ} :
      {B : Type κ} (m : Outcome A) (f : A → Outcome B) (P : A → Type 0) (Q : B → Type 0)
      → Whenever m P
      → ((a : A) → P a → Whenever (f a) Q)
      → Whenever (m >>= f) Q
  Whenever-bind (ok a) f P Q h k = k a h
  Whenever-bind fatal f P Q h k = tt

  pub Whenever-if :
      (b : Bool) (m n : Outcome A) (P : A → Type 0)
      → Whenever m P
      → Whenever n P
      → Whenever (if b then m else n) P
  Whenever-if true m n P h k = h
  Whenever-if false m n P h k = k

  pub Whenever-map :
      (m : Outcome A) (P Q : A → Type 0) → Whenever m P → ((a : A) → P a → Q a) → Whenever m Q
  Whenever-map (ok a) P Q h k = k a h
  Whenever-map fatal P Q h k = tt

  pub Whenever_ok : (m : Outcome A) {a : A} (P : A → Type 0) → Whenever m P → m ≡ ok a → P a
  Whenever_ok m P h e = subst (λ r. Whenever r P) e h

  pub Whenever_any : (m : Outcome A) → Whenever m (λ a. Unit)
  Whenever_any (ok a) = tt
  Whenever_any fatal = tt

  pub Returns-and :
      (m : Outcome A) (P Q : A → Type 0) → Returns m P → Whenever m Q → Returns m (λ a. P a × Q a)
  Returns-and (ok a) P Q h k = (h, k)
  Returns-and fatal P Q h k = h

  pub Returns-both :
      (m : Outcome A) (P Q : A → Type 0) → Returns m P → Returns m Q → Returns m (λ a. P a × Q a)
  Returns-both (ok a) P Q h k = (h, k)
  Returns-both fatal P Q h k = h

  -- The value that is returned.
  pub Returns-ok : (m : Outcome A) (P : A → Type 0) → Returns m P → (a : A) × (m ≡ ok a) × P a
  Returns-ok (ok a) P h = (a, refl, h)
  Returns-ok fatal P h = absurd h

  pub >>=-ok : (m : Outcome A) → (m >>= ok) ≡ m
  >>=-ok (ok a) = refl
  >>=-ok fatal = refl

  pub >>=-regroup {κ} :
      {B C : Type κ} (m : Outcome A) (f : A → Outcome C) (g : A → Outcome B) (h : B → Outcome C)
      → ((a : A) → f a ≡ (g a >>= h))
      → (m >>= f) ≡ (m >>= g >>= h)
  >>=-regroup (ok a) f g h k = k a
  >>=-regroup fatal f g h k = refl
