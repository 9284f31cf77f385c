-- ===== src/Text/Decimal.antt =====
-- The conversions `%u` and `%d` of the C library, with a width that spaces or zeros fill. A number of 32
-- bits has at most ten digits.
use muduo_learning.Prelude.{
  ℕ, zero, suc, ◌+◌, ◌-◌, ◌*◌, ◌/◌, ◌%◌, ◌^◌, ◌≤◌, ◌<◌, ◌≡◌, refl, ap, ◌∙◌, ◌⊎◌, inl, inr, [], ◌∷◌,
  ◌++◌, length, replicate, leb, if◌then◌else◌, ℤ, pos, negsuc, arith,
}
use muduo_learning.Text.{Text, IsText, codes}

-- At most `rounds` digits of `n` in front of a text, the last first, at least one.
unfoldable pub spell : ℕ → ℕ → Text → Text
spell zero n behind = behind
spell (suc rounds) n behind =
    let longer = (b'0' + n % 10) ∷ behind in
    let more = spell rounds (n / 10) longer in if leb n 9 then longer else more

-- `%u`, and `%d` of what is not negative.
unfoldable pub decimal : ℕ → Text
decimal n = spell 10 n []

-- `%d`.
unfoldable pub signed : ℤ → Text
signed (pos n) = decimal n
signed (negsuc n) = b'-' ∷ decimal (suc n)

-- `%wd`: spaces on the left.
unfoldable pub space_filled : ℕ → ℤ → Text
space_filled w z = replicate (w - length (signed z)) b' ' ++ signed z

-- `%0wd`: zeros behind the sign.
unfoldable pub zero_filled : ℕ → ℤ → Text
zero_filled w (pos n) = replicate (w - length (decimal n)) b'0' ++ decimal n
zero_filled w (negsuc n) =
    b'-' ∷ replicate (w - suc (length (decimal (suc n)))) b'0' ++ decimal (suc n)

spell-IsText : (rounds n : ℕ) (behind : Text) → IsText behind → IsText (spell rounds n behind)
unfolding spell
spell-IsText zero n behind h = h
spell-IsText (suc rounds) n behind h =
    let longer = (b'0' + n % 10) ∷ behind in
    ground (arith, spell-IsText rounds (n / 10) longer (omega arith, h))

pub decimal-IsText : (n : ℕ) → IsText (decimal n)
unfolding decimal
decimal-IsText n = spell-IsText 10 n [] tt

length-spell :
    (rounds k n : ℕ) (behind : Text)
    → n < 10 ^ suc k
    → length (spell rounds n behind) ≤ suc k + length behind
unfolding spell
length-spell zero k n behind h = omega arith
length-spell (suc rounds) zero n behind h = ground arith
length-spell (suc rounds) (suc k) n behind h =
    grind (arith, length-spell rounds k (n / 10) ((b'0' + n % 10) ∷ behind))

-- A number below 10 ^ (k + 1) has at most k + 1 digits.
pub length-decimal : (k n : ℕ) → n < 10 ^ suc k → length (decimal n) ≤ suc k
unfolding decimal
length-decimal k n h = omega (arith, length-spell 10 k n [] h)

spell-append :
    (rounds n : ℕ) (behind s : Text) → spell rounds n behind ++ s ≡ spell rounds n (behind ++ s)
unfolding spell
spell-append zero n behind s = refl
spell-append (suc rounds) n behind s =
    ground (arith, spell-append rounds (n / 10) ((b'0' + n % 10) ∷ behind) s)

spell_last :
    (rounds n : ℕ) (behind : Text) → n < 10 → spell (suc rounds) n behind ≡ (b'0' + n) ∷ behind
unfolding spell
spell_last rounds n behind h = ground arith

spell_more :
    (rounds n : ℕ) (behind : Text)
    → 10 ≤ n
    → spell (suc rounds) n behind ≡ spell rounds (n / 10) ((b'0' + n % 10) ∷ behind)
unfolding spell
spell_more rounds n behind h = ground arith

below_ten : (n : ℕ) → (n < 10) ⊎ (10 ≤ n)
below_ten n = omega arith

tenth-pow : (rounds n : ℕ) → 10 ≤ n → n < 10 ^ suc rounds → (0 < rounds) × (n / 10 < 10 ^ rounds)
tenth-pow zero n p h = absurd (omega arith)
tenth-pow (suc rounds) n p h = (omega arith, grind arith)

fold-spell {ℓ} :
    {A : Type ℓ} (read : Text → ℕ → A)
    → ((d m : ℕ) (t : Text) → d < 10 → read ((b'0' + d) ∷ t) m ≡ read t (m * 10 + d))
    → (rounds n : ℕ) (behind : Text) → 0 < rounds
    → n < 10 ^ rounds
    → read (spell rounds n behind) 0 ≡ read behind n
fold-spell read takes zero n behind p h = absurd (omega arith)
fold-spell read takes (suc rounds) n behind p h = elim (below_ten n) [
  | inl small ↦
      ap (λ t. read t 0) (spell_last rounds n behind small)
      ∙ takes n 0 behind small
      ∙ ap (read behind) (omega arith)
  | inr large ↦
      let (some_left, tenth) = tenth-pow rounds n large h in
      ap (λ t. read t 0) (spell_more rounds n behind large)
      ∙ fold-spell read takes rounds (n / 10) ((b'0' + n % 10) ∷ behind) some_left tenth
      ∙ takes (n % 10) (n / 10) behind (omega arith)
      ∙ ap (read behind) (omega arith)
]

-- Reading on from what the digits before `behind` spell, for a reader that takes a digit in one step.
pub fold-decimal {ℓ} :
    {A : Type ℓ} (read : Text → ℕ → A)
    → ((d m : ℕ) (t : Text) → d < 10 → read ((b'0' + d) ∷ t) m ≡ read t (m * 10 + d))
    → (n : ℕ) (s : Text) → n < 10 ^ 10
    → read (decimal n ++ s) 0 ≡ read s n
unfolding decimal
fold-decimal read takes n s h =
    ap (λ t. read t 0) (spell-append 10 n [] s) ∙ fold-spell read takes 10 n s (omega arith) h

decimal_one : (n : ℕ) → n < 10 → decimal n ≡ (b'0' + n) ∷ []
unfolding decimal
decimal_one n h = spell_last 9 n [] h

decimal_two : (n : ℕ) → 10 ≤ n → n < 100 → decimal n ≡ (b'0' + n / 10) ∷ (b'0' + n % 10) ∷ []
unfolding decimal
decimal_two n p h = spell_more 9 n [] p ∙ spell_last 8 (n / 10) _ (omega arith)

-- `%02d` of a number below 100 is two digits.
pub zero_filled_two :
    (n : ℕ) → n < 100 → zero_filled 2 (pos n) ≡ (b'0' + n / 10) ∷ (b'0' + n % 10) ∷ []
unfolding zero_filled
zero_filled_two n h = ground (arith, decimal_one n, decimal_two n)

pub length-decimal_four : (n : ℕ) → 1000 ≤ n → n < 10000 → length (decimal n) ≡ 4
unfolding decimal
length-decimal_four n p h = ap (length {A = ℕ}) (
    spell_more 9 n [] (omega arith)
    ∙ spell_more 8 (n / 10) _ (omega arith)
    ∙ spell_more 7 (n / 10 / 10) _ (omega arith)
    ∙ spell_last 6 (n / 10 / 10 / 10) _ (omega arith))

-- A decimal of four digits fills `%4d`.
pub space_filled_exact : (n : ℕ) → 1000 ≤ n → n < 10000 → space_filled 4 (pos n) ≡ decimal n
unfolding space_filled signed
space_filled_exact n p h = ground (arith, length-decimal_four n p h)

test : decimal 8080 ≡ codes "8080"
unfolding decimal spell
test = refl
