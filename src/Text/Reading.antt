-- ===== src/Text/Reading.antt =====
-- Reading numbers back out of a text: the independent description that printed addresses and dates
-- are compared with.
use muduo_learning.Prelude.{
  ℕ, ◌+◌, ◌-◌, ◌*◌, ◌^◌, ◌<◌, ◌<◌, ◌≡◌, refl, ap, ◌∙◌, List, [], ◌∷◌, ◌++◌, append_assoc,
  append-nil, sym, Bool, ◌&&◌, leb, if◌then◌else◌, pos, arith,
}
use muduo_learning.Text.{Text, codes}
use muduo_learning.Text.Decimal.{decimal, fold-decimal, zero_filled, zero_filled_two}

abbrev pub is_digit : ℕ → Bool
is_digit c = leb b'0' c && leb c b'9'

-- The numbers that a text spells when every byte that is not a digit separates two, `n` being what
-- the digits before the text spell.
unfoldable pub scan : Text → ℕ → List ℕ
scan [] n = n ∷ []
scan (c ∷ s) n =
    let rest = scan s (if is_digit c then n * 10 + (c - b'0') else 0) in
    if is_digit c then rest else n ∷ rest

abbrev pub numbers : Text → List ℕ
numbers s = scan s 0

scan-digit : (d m : ℕ) (t : Text) → d < 10 → scan ((b'0' + d) ∷ t) m ≡ scan t (m * 10 + d)
unfolding scan
scan-digit d m t h = ground arith

-- A decimal at the front is read.
pub scan-decimal : (n : ℕ) (s : Text) → n < 10 ^ 10 → scan (decimal n ++ s) 0 ≡ scan s n
scan-decimal n s h = fold-decimal scan scan-digit n s h

pub scan-decimal_all : (n : ℕ) → n < 10 ^ 10 → scan (decimal n) 0 ≡ n ∷ []
unfolding scan
scan-decimal_all n h = ap (λ t. scan t 0) (sym (append-nil (decimal n))) ∙ scan-decimal n [] h

-- Two digits behind others.
pub scan-zero_filled :
    (n m : ℕ) (s : Text) → n < 100 → scan (zero_filled 2 (pos n) ++ s) m ≡ scan s (m * 100 + n)
unfolding scan
scan-zero_filled n m s h = ground (arith, zero_filled_two n h)

-- A byte that is not a digit ends a number.
pub scan-separator : (c n : ℕ) (s : Text) → is_digit c ≡ Bool.false → scan (c ∷ s) n ≡ n ∷ scan s 0
unfolding scan
scan-separator c n s h = ground (arith, h)

-- A number, a separator and what follows.
pub scan-field :
    (a c : ℕ) (t s : Text)
    → a < 10 ^ 10
    → is_digit c ≡ Bool.false
    → scan ((decimal a ++ (c ∷ t)) ++ s) 0 ≡ a ∷ scan (t ++ s) 0
scan-field a c t s p h =
    ap (λ w. scan w 0) (append_assoc (decimal a) (c ∷ t) s)
    ∙ scan-decimal a (c ∷ (t ++ s)) p
    ∙ scan-separator c a (t ++ s) h

pub scan-zero_filled_field :
    (n c : ℕ) (t : Text)
    → n < 100
    → is_digit c ≡ Bool.false
    → scan (zero_filled 2 (pos n) ++ (c ∷ t)) 0 ≡ n ∷ scan t 0
scan-zero_filled_field n c t h p =
    scan-zero_filled n 0 (c ∷ t) h ∙ ap (scan (c ∷ t)) (omega arith) ∙ scan-separator c n t p

pub scan-zero_filled_all : (n : ℕ) → n < 100 → scan (zero_filled 2 (pos n)) 0 ≡ n ∷ []
unfolding scan
scan-zero_filled_all n h = ground (arith, zero_filled_two n h)

test : numbers (codes "127.0.0.1:8080") ≡ 127 ∷ 0 ∷ 0 ∷ 1 ∷ 8080 ∷ []
unfolding scan
test = refl
