-- ===== src/Text.antt =====
-- C strings in character arrays, and what `snprintf` writes there: what src/InetAddress.cc,
-- src/Timestamp.cc, src/Thread.cc and include/Logger.h use of the C library. A text is the list of its
-- bytes.
pub mod Decimal
pub mod Reading
use Prim.Native.Char.{code}
use Prim.Native.String.{String}
use muduo_learning.Prelude.{
  ℕ, zero, suc, ◌+◌, ◌-◌, ◌≤◌, ◌<◌, ◌≡◌, ◌≢◌, refl, ap, ap₂, ◌∙◌, List, [], ◌∷◌, ◌++◌, length, take,
  drop, replicate, set, copy_in, length-append, length-take, length-drop, sym, take-append_left,
  take_all, append_assoc, ◌==◌, if◌then◌else◌, arith,
}

abbrev pub Text : Type 0
Text = List ℕ

-- The bytes of a literal.
abbrev pub codes : String → Text
codes String.[] = []
codes (String.◌∷◌ c s) = code c ∷ codes s

-- The text up to the first null byte, as `strlen` and `std::string(const char*)` read it.
abbrev pub c_str : List ℕ → Text
c_str [] = []
c_str (c ∷ cs) = let rest = c_str cs in if c == 0 then [] else c ∷ rest

-- `sprintf(buf + i, …)`, where the formatted text is `t`: no test of the array's size.
abbrev pub print_at : ℕ → Text → List ℕ → List ℕ
print_at i t buf = copy_in (t ++ 0 ∷ []) i buf

-- `snprintf(buf, n, …)` of a formatted text `t`, for `n > 0`: at most `n - 1` bytes and a null byte.
abbrev pub print_bounded : ℕ → Text → List ℕ → List ℕ
print_bounded n t buf = print_at 0 (take (n - 1) t) buf

-- `char buf[n] = {0}`.
abbrev pub zeroed : ℕ → List ℕ
zeroed n = replicate n 0

-- No null byte.
abbrev pub IsText : Text → Type 0
IsText [] = Unit
IsText (c ∷ cs) = (c ≢ 0) × IsText cs

pub IsText-append : (s t : Text) → IsText s → IsText t → IsText (s ++ t)
IsText-append [] t h k = k
IsText-append (c ∷ s) t (h, hs) k = (h, IsText-append s t hs k)

pub IsText-take : (n : ℕ) (t : Text) → IsText t → IsText (take n t)
IsText-take zero t h = tt
IsText-take (suc n) [] h = tt
IsText-take (suc n) (c ∷ t) (h, hs) = (h, IsText-take n t hs)

pub c_str-IsText : (t r : Text) → IsText t → c_str (t ++ 0 ∷ r) ≡ t
c_str-IsText [] r h = refl
c_str-IsText (c ∷ t) r (h, hs) = ground (arith, c_str-IsText t r hs)

-- Copying at the front of an array and behind what stands there.
copy_in-set :
    (xs : List ℕ) (c : ℕ) (v : List ℕ) (i : ℕ) → copy_in xs (suc i) (c ∷ v) ≡ c ∷ copy_in xs i v
unfolding copy_in
copy_in-set [] c v i = refl
copy_in-set (x ∷ xs) c v i = copy_in-set xs c (set v i x) (suc i)

copy_in_front : (xs v : List ℕ) → length xs ≤ length v → copy_in xs 0 v ≡ xs ++ drop (length xs) v
unfolding copy_in
copy_in_front [] v h = refl
copy_in_front (x ∷ xs) [] h = absurd (omega arith)
copy_in_front (x ∷ xs) (y ∷ v) h =
    copy_in-set xs x v 0 ∙ ap (λ w. x ∷ w) (copy_in_front xs v (omega arith))

copy_in_behind :
    (t xs v : List ℕ)
    → length xs ≤ length v
    → copy_in xs (length t) (t ++ v) ≡ t ++ (xs ++ drop (length xs) v)
copy_in_behind [] xs v h = copy_in_front xs v h
copy_in_behind (c ∷ t) xs v h =
    copy_in-set xs c (t ++ v) (length t) ∙ ap (λ w. c ∷ w) (copy_in_behind t xs v h)

print_at-front :
    (t v : List ℕ) → length t < length v → print_at 0 t v ≡ t ++ 0 ∷ drop (length (t ++ 0 ∷ [])) v
print_at-front t v h =
    copy_in_front (t ++ 0 ∷ []) v (omega (arith, length-append t (0 ∷ [])))
    ∙ append_assoc t (0 ∷ []) (drop (length (t ++ 0 ∷ [])) v)

-- A text that fits the array is read back.
pub c_str-print_at : (t v : List ℕ) → IsText t → length t < length v → c_str (print_at 0 t v) ≡ t
c_str-print_at t v ht h = ap c_str (print_at-front t v h) ∙ c_str-IsText t _ ht

print_at-behind :
    (t u r : List ℕ)
    → length u < length r
    → print_at (length t) u (t ++ r) ≡ (t ++ u) ++ 0 ∷ drop (length (u ++ 0 ∷ [])) r
print_at-behind t u r h =
    let rest = drop (length (u ++ 0 ∷ [])) r in
    copy_in_behind t (u ++ 0 ∷ []) r (omega (arith, length-append u (0 ∷ [])))
    ∙ ap (λ w. t ++ w) (append_assoc u (0 ∷ []) rest)
    ∙ sym (append_assoc t u (0 ∷ rest))

-- So is a text that is printed behind another, over its null byte.
pub c_str-print_at_end :
    (t u v : List ℕ)
    → IsText t
    → IsText u
    → length t + length u < length v
    → c_str (print_at (length t) u (print_at 0 t v)) ≡ t ++ u
c_str-print_at_end t u v ht hu h =
    ap (λ w. c_str (print_at (length t) u w)) (print_at-front t v (omega arith))
    ∙ ap c_str (
        print_at-behind t u (0 ∷ drop (length (t ++ 0 ∷ [])) v)
          (omega (arith, length-append t (0 ∷ []), length-drop {A = ℕ} (length (t ++ 0 ∷ [])) v)))
    ∙ c_str-IsText (t ++ u) _ (IsText-append t u ht hu)

-- `snprintf` keeps the first `n - 1` bytes.
pub c_str-print_bounded :
    (n : ℕ) (t v : List ℕ)
    → IsText t
    → 0 < n
    → n ≤ length v
    → c_str (print_bounded n t v) ≡ take (n - 1) t
c_str-print_bounded n t v ht h k =
    c_str-print_at (take (n - 1) t) v (IsText-take (n - 1) t ht)
      (omega (arith, length-take {A = ℕ} (n - 1) t))
