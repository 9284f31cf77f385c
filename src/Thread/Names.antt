-- ===== src/Thread/Names.antt =====
-- src/Thread.cc: the default names tell threads apart.
use muduo_learning.Prelude.{ℕ, suc, ◌^◌, ◌<◌, ◌≡◌, sym, ap, ◌∙◌, [], ◌∷◌, ◌++◌, take_all, arith}
use muduo_learning.Text.{IsText, codes, c_str-print_bounded, zeroed}
use muduo_learning.Text.Decimal.{decimal, decimal-IsText, length-decimal}
use muduo_learning.Text.Reading.{numbers, scan, scan-decimal_all}
use muduo_learning.CurrentThread.{Threads}
use muduo_learning.Thread.{default_name, set_default_name, init}

prefixed-IsText : (n : ℕ) → IsText (codes "Thread" ++ decimal n)
prefixed-IsText n = ground (arith, decimal-IsText n)

default_name_lem : (n : ℕ) → n < 2 ^ 31 → default_name n ≡ codes "Thread" ++ decimal n
unfolding default_name
default_name_lem n h =
    c_str-print_bounded 32 (codes "Thread" ++ decimal n) (zeroed 32) (prefixed-IsText n)
      (omega arith) (omega arith)
    ∙ take_all 31 (codes "Thread" ++ decimal n) (omega (arith, length-decimal 9 n (omega arith)))

numbers-prefixed :
    (n : ℕ) → n < 2 ^ 31 → numbers (codes "Thread" ++ decimal n) ≡ 0 ∷ 0 ∷ 0 ∷ 0 ∷ 0 ∷ 0 ∷ n ∷ []
unfolding scan
numbers-prefixed n h = ap (λ r. 0 ∷ 0 ∷ 0 ∷ 0 ∷ 0 ∷ 0 ∷ r) (scan-decimal_all n (omega arith))

-- Two threads that are constructed without a name, when different numbers of threads below
-- 2 ^ 31 - 1 were made before: their names are different.
pub init-name-injective :
    (m n : ℕ) (s t : Threads)
    → suc m < 2 ^ 31
    → suc n < 2 ^ 31
    → (init m [] s).1.name ≡ (init n [] t).1.name
    → m ≡ n
unfolding init set_default_name
init-name-injective m n s t hm hn h = ground (
  arith,
  sym (numbers-prefixed (suc m) hm)
      ∙ ap numbers (sym (default_name_lem (suc m) hm) ∙ h ∙ default_name_lem (suc n) hn)
      ∙ numbers-prefixed (suc n) hn,
)
