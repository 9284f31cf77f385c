-- ===== src/Buffer/Tests.antt =====
-- The theorems on buffers at work on a small one.
use muduo_learning.Prelude.{ℕ, ◌≡◌, refl, arith, List, [], ◌∷◌, length, take, length-take, min}
use muduo_learning.Buffer
use muduo_learning.Buffer.{Buffer}
use muduo_learning.Buffer.Invariant.{IsValid, init-IsValid, append-IsValid}
use muduo_learning.Buffer.Contents.{contents}
use muduo_learning.Buffer.Queue.{
  Op, appends, retrieves, retrieves_as_string, retrieves_all_as_string, ensures, step, run, calls,
  calls_refine,
}
use muduo_learning.Buffer.Fd.{
  ReadResult, got, IoResult, count, read_room, read_fd, AtMost, Reads, read_fd-Reads,
}

abbrev small : Buffer
small = Buffer.init 4

small-IsValid : IsValid small
small-IsValid = init-IsValid 4 (omega arith)

-- More bytes than there is room for, taken out in parts.
abbrev ops : List Op
ops =
    appends (1 ∷ 2 ∷ 3 ∷ [])
    ∷ retrieves 2
    ∷ appends (4 ∷ 5 ∷ 6 ∷ 7 ∷ 8 ∷ [])
    ∷ ensures 3
    ∷ retrieves_as_string 2
    ∷ retrieves_all_as_string
    ∷ []

abbrev answers : List (List ℕ)
answers = [] ∷ [] ∷ [] ∷ [] ∷ (3 ∷ 4 ∷ []) ∷ (5 ∷ 6 ∷ 7 ∷ 8 ∷ []) ∷ []

calls_refine_example :
    ((calls small ops).0 ≡ answers)
    × (contents (calls small ops).1 ≡ [])
    × IsValid (calls small ops).1
unfolding run step Buffer.init
calls_refine_example =
    calls_refine ops {b = small} {outs = answers} {q = []} small-IsValid (omega arith) refl

abbrev seven : ℕ → ReadResult
seven n = got (take n (1 ∷ 2 ∷ 3 ∷ 4 ∷ 5 ∷ 6 ∷ 7 ∷ []))

seven-AtMost : (n : ℕ) → AtMost n (seven n)
seven-AtMost n = omega (arith, length-take {A = ℕ} n (1 ∷ 2 ∷ 3 ∷ 4 ∷ 5 ∷ 6 ∷ 7 ∷ []))

read_fd-Reads_example : Reads small (seven (read_room small)) (read_fd seven small)
unfolding Buffer.init
read_fd-Reads_example = read_fd-Reads seven {b = small} seven-AtMost small-IsValid (omega arith)

abbrev filled : Buffer
filled = Buffer.append (1 ∷ 2 ∷ 3 ∷ []) small

filled-IsValid : IsValid filled
unfolding Buffer.init
filled-IsValid = append-IsValid (1 ∷ 2 ∷ 3 ∷ []) {b = small} small-IsValid (omega arith)

abbrev take_two : List ℕ → IoResult
take_two xs = count (min 2 (length xs))
