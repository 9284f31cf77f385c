-- ===== src/Prelude/Slices.antt =====
-- Byte ranges of a vector: what `[begin + i, begin + i + n)` holds, `std::copy` and `resize`.
use Prim.Native.Nat.{ℕ, zero, suc, ◌+◌, ◌-◌, ◌≤◌, ◌<◌}
use mathlib.Core.Path.{◌≡◌, refl, ap, ap₂, ◌∙◌}
use mathlib.Core.List.{List, [], ◌∷◌, ◌++◌}
use native.Mathlib.Nat.{suc-add}
use native.Mathlib.Omega.{arith}
use muduo_learning.Prelude.Lists.{
  length, get_or, set, take, drop, replicate, length-set, length-append, length-replicate,
  get_or-set_self, get_or-set_ne, get_or-append_left,
}
use muduo_learning.Prelude.Tests.{leb, if◌then◌else◌}

-- The `n` bytes from index `i` on.
abbrev pub slice : List ℕ → ℕ → ℕ → List ℕ
slice v i zero = []
slice v i (suc n) = get_or v i 0 ∷ slice v (suc i) n

-- `std::copy(xs, xs + n, v + i)`, byte by byte.
unfoldable pub copy_in : List ℕ → ℕ → List ℕ → List ℕ
copy_in [] i v = v
copy_in (x ∷ xs) i v = copy_in xs (suc i) (set v i x)

-- `std::copy(v + i, v + i + n, v + j)` within one vector, byte by byte from the front.
unfoldable pub copy_within : ℕ → ℕ → ℕ → List ℕ → List ℕ
copy_within zero i j v = v
copy_within (suc n) i j v = copy_within n (suc i) (suc j) (set v j (get_or v i 0))

-- `v.resize(n)`: new bytes are 0.
unfoldable pub resize : ℕ → List ℕ → List ℕ
resize n v = if leb n (length v) then take n v else v ++ replicate (n - length v) 0

pub length-slice : (v : List ℕ) (i n : ℕ) → length (slice v i n) ≡ n
length-slice v i zero = refl
length-slice v i (suc n) = ap suc (length-slice v (suc i) n)

pub slice-add : (v : List ℕ) (i m n : ℕ) → slice v i (m + n) ≡ slice v i m ++ slice v (i + m) n
slice-add v i zero n = ap₂ (λ k l. slice v l k) (omega arith) (omega arith)
slice-add v i (suc m) n = rw suc-add (
    ap (λ l. get_or v i 0 ∷ l)
      (slice-add v (suc i) m n ∙ ap (λ k. slice v (suc i) m ++ slice v k n) (omega arith)))

-- A write outside a slice does not show in it.
pub slice-set_before : (v : List ℕ) (i n k x : ℕ) → k < i → slice (set v k x) i n ≡ slice v i n
slice-set_before v i zero k x h = refl
slice-set_before v i (suc n) k x h =
    ap₂ ◌∷◌ (get_or-set_ne v k i x 0 (omega arith)) (slice-set_before v (suc i) n k x (omega arith))

pub slice-append : (v w : List ℕ) (i n : ℕ) → i + n ≤ length v → slice (v ++ w) i n ≡ slice v i n
slice-append v w i zero h = refl
slice-append v w i (suc n) h =
    ap₂ ◌∷◌ (get_or-append_left v w i 0 (omega arith)) (slice-append v w (suc i) n (omega arith))

pub length-copy_in : (xs v : List ℕ) (i : ℕ) → length (copy_in xs i v) ≡ length v
unfolding copy_in
length-copy_in [] v i = refl
length-copy_in (x ∷ xs) v i = length-copy_in xs (set v i x) (suc i) ∙ length-set v i x

pub length-copy_within : (n i j : ℕ) (v : List ℕ) → length (copy_within n i j v) ≡ length v
unfolding copy_within
length-copy_within zero i j v = refl
length-copy_within (suc n) i j v =
    length-copy_within n (suc i) (suc j) (set v j (get_or v i 0)) ∙ length-set v j (get_or v i 0)

-- `copy_in` leaves what stands before it as it was.
pub get_or-copy_in_before :
    (xs v : List ℕ) (i k : ℕ) → k < i → get_or (copy_in xs i v) k 0 ≡ get_or v k 0
unfolding copy_in
get_or-copy_in_before [] v i k h = refl
get_or-copy_in_before (x ∷ xs) v i k h =
    get_or-copy_in_before xs (set v i x) (suc i) k (omega arith)
    ∙ get_or-set_ne v i k x 0 (omega arith)

pub slice-copy_in_before :
    (xs v : List ℕ) (i k n : ℕ) → k + n ≤ i → slice (copy_in xs i v) k n ≡ slice v k n
slice-copy_in_before xs v i k zero h = refl
slice-copy_in_before xs v i k (suc n) h =
    ap₂ ◌∷◌ (get_or-copy_in_before xs v i k (omega arith))
      (slice-copy_in_before xs v i (suc k) n (omega arith))

-- What was copied in is what stands there.
pub slice-copy_in :
    (xs v : List ℕ) (i : ℕ) → i + length xs ≤ length v → slice (copy_in xs i v) i (length xs) ≡ xs
unfolding copy_in
slice-copy_in [] v i h = refl
slice-copy_in (x ∷ xs) v i h =
    ap₂ ◌∷◌
      (get_or-copy_in_before xs (set v i x) (suc i) i (omega arith)
        ∙ get_or-set_self v i x 0 (omega arith))
      (slice-copy_in xs (set v i x) (suc i) (omega (arith, length-set v i x)))

get_or-copy_within_before :
    (n i j k : ℕ) (v : List ℕ) → k < j → get_or (copy_within n i j v) k 0 ≡ get_or v k 0
unfolding copy_within
get_or-copy_within_before zero i j k v h = refl
get_or-copy_within_before (suc n) i j k v h =
    get_or-copy_within_before n (suc i) (suc j) k (set v j (get_or v i 0)) (omega arith)
    ∙ get_or-set_ne v j k (get_or v i 0) 0 (omega arith)

-- Copied towards the front, a range arrives whole, also where it overlaps its place.
pub slice-copy_within :
    (n i j : ℕ) (v : List ℕ)
    → j ≤ i
    → i + n ≤ length v
    → slice (copy_within n i j v) j n ≡ slice v i n
unfolding copy_within
slice-copy_within zero i j v h k = refl
slice-copy_within (suc n) i j v h k =
    let x = get_or v i 0 in
    ap₂ ◌∷◌
      (get_or-copy_within_before n (suc i) (suc j) j (set v j x) (omega arith)
        ∙ get_or-set_self v j x 0 (omega arith))
      (slice-copy_within n (suc i) (suc j) (set v j x) (omega arith)
          (omega (arith, length-set v j x))
        ∙ slice-set_before v (suc i) n j x (omega arith))

-- Growing a vector keeps its bytes.
pub length-resize : (n : ℕ) (v : List ℕ) → length v < n → length (resize n v) ≡ n
unfolding resize
length-resize n v h =
    ground (
      arith,
      length-append v (replicate (n - length v) 0),
      length-replicate {A = ℕ} (n - length v) 0,
    )

pub slice-resize :
    (n : ℕ) (v : List ℕ) (i k : ℕ)
    → length v < n
    → i + k ≤ length v
    → slice (resize n v) i k ≡ slice v i k
unfolding resize
slice-resize n v i k h r = ground (arith, slice-append v (replicate (n - length v) 0) i k)

pub take-slice : (v : List ℕ) (i m n : ℕ) → m ≤ n → take m (slice v i n) ≡ slice v i m
take-slice v i zero n h = refl
take-slice v i (suc m) zero h = absurd (omega arith)
take-slice v i (suc m) (suc n) h =
    ap (λ l. get_or v i 0 ∷ l) (take-slice v (suc i) m n (omega arith))

pub drop-slice : (v : List ℕ) (i m n : ℕ) → m ≤ n → drop m (slice v i n) ≡ slice v (i + m) (n - m)
drop-slice v i zero n h = ap₂ (λ k l. slice v k l) (omega arith) (omega arith)
drop-slice v i (suc m) zero h = absurd (omega arith)
drop-slice v i (suc m) (suc n) h =
    drop-slice v (suc i) m n (omega arith) ∙ ap₂ (λ k l. slice v k l) (omega arith) (omega arith)
