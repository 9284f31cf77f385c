-- ===== src/Buffer/Queue.antt =====
-- What `Buffer` promises: a first-in first-out queue of bytes. A buffer refines it.
use muduo_learning.Prelude.{
  ℕ, ◌+◌, ◌≤◌, ◌≡◌, ◌++◌, arith, List, [], ◌∷◌, length, take, drop, leb, if◌then◌else◌, Option,
  none, some, length-copy_in, length-copy_within, length-resize, Option-cases, inl, inr,
}
use muduo_learning.Buffer.{
  Buffer, cheap_prepend, add_size, readable_bytes, retrieve, retrieve_all, retrieve_as_string,
  retrieve_all_as_string, make_space, ensure_writable_bytes, append,
}
use muduo_learning.Buffer.Invariant.{
  IsValid, max_size, sizes, retrieve-IsValid, retrieve_all-IsValid, ensure_writable_bytes-IsValid,
  append-IsValid,
}
use muduo_learning.Buffer.Contents.{
  contents, length-contents, contents-retrieve, contents-retrieve_all, retrieve_as_string_lem,
  retrieve_all_as_string_lem, contents-ensure_writable_bytes, contents-append,
}

-- The calls of a client.
pub data Op : Type 0 where
  appends : List ℕ → Op
  retrieves : ℕ → Op
  retrieves_all : Op
  retrieves_as_string : ℕ → Op
  retrieves_all_as_string : Op
  ensures : ℕ → Op

-- The queue's answer to a call: what it hands out, and what is left. `none`: the caller asked for
-- a string of more bytes than there are.
unfoldable pub step : List ℕ → Op → Option (List ℕ × List ℕ)
step q (appends xs) = some ([], q ++ xs)
step q (retrieves n) = some ([], drop n q)
step q retrieves_all = some ([], [])
step q (retrieves_as_string n) = if leb n (length q) then some (take n q, drop n q) else none
step q retrieves_all_as_string = some (q, [])
step q (ensures n) = some ([], q)

unfoldable pub run : List ℕ → List Op → Option (List (List ℕ) × List ℕ)
run q [] = some ([], q)
run q (op ∷ ops) = elim (step q op) [
  | none ↦ none
  | some (out, q') ↦ elim (run q' ops) [ none ↦ none | some (outs, r) ↦ some (out ∷ outs, r) ]
]

-- The same call on a buffer.
unfoldable pub call : Buffer → Op → List ℕ × Buffer
call b (appends xs) = ([], append xs b)
call b (retrieves n) = ([], retrieve n b)
call b retrieves_all = ([], retrieve_all b)
call b (retrieves_as_string n) = retrieve_as_string n b
call b retrieves_all_as_string = retrieve_all_as_string b
call b (ensures n) = ([], ensure_writable_bytes n b)

unfoldable pub calls : Buffer → List Op → List (List ℕ) × Buffer
calls b [] = ([], b)
calls b (op ∷ ops) = let (out, b') = call b op in let (outs, c) = calls b' ops in (out ∷ outs, c)

-- How many bytes a call may make the vector grow by.
abbrev pub demand : Op → ℕ
demand (appends xs) = length xs
demand (ensures n) = n
demand _ = 0

abbrev pub demands : List Op → ℕ
demands [] = 0
demands (op ∷ ops) = demand op + demands ops

size-ensure_writable_bytes :
    (n : ℕ) {b : Buffer}
    → IsValid b
    → b.writer_index + n ≤ max_size
    → length (ensure_writable_bytes n b).storage ≤ length b.storage + n
unfolding ensure_writable_bytes make_space
size-ensure_writable_bytes n {b} v h = ground (
  arith,
  sizes v,
  length-resize (add_size b.writer_index n) b.storage,
  length-copy_within (readable_bytes b) b.reader_index cheap_prepend b.storage,
)

size-append :
    (xs : List ℕ) {b : Buffer}
    → IsValid b
    → b.writer_index + length xs ≤ max_size
    → length (append xs b).storage ≤ length b.storage + length xs
unfolding append
size-append xs {b} v h =
    let b' = ensure_writable_bytes (length xs) b in
    omega (
      arith,
      size-ensure_writable_bytes (length xs) v h,
      length-copy_in xs b'.storage b'.writer_index,
    )

call-size :
    (op : Op) {b : Buffer}
    → IsValid b
    → length b.storage + demand op ≤ max_size
    → length (call b op).1.storage ≤ length b.storage + demand op
unfolding call retrieve retrieve_all retrieve_as_string retrieve_all_as_string
call-size (appends xs) {b} v h = omega (arith, size-append xs v (omega arith))
call-size (retrieves n) v h = ground arith
call-size retrieves_all v h = ground arith
call-size (retrieves_as_string n) v h = ground arith
call-size retrieves_all_as_string v h = ground arith
call-size (ensures n) v h = size-ensure_writable_bytes n v (omega arith)

call-IsValid :
    (op : Op) {b : Buffer}
    → IsValid b
    → length b.storage + demand op ≤ max_size
    → IsValid (call b op).1
unfolding call retrieve_as_string retrieve_all_as_string
call-IsValid (appends xs) v h = append-IsValid xs v (omega arith)
call-IsValid (retrieves n) v h = retrieve-IsValid n v
call-IsValid retrieves_all v h = retrieve_all-IsValid v
call-IsValid (retrieves_as_string n) v h = retrieve-IsValid n v
call-IsValid retrieves_all_as_string {b} v h = retrieve-IsValid (readable_bytes b) v
call-IsValid (ensures n) v h = (ensure_writable_bytes-IsValid n v (omega arith)).0

-- One call: the buffer hands out what the queue hands out, and holds what the queue holds.
call_refines :
    (op : Op) {b : Buffer} {out q : List ℕ}
    → IsValid b
    → length b.storage + demand op ≤ max_size
    → step (contents b) op ≡ some (out, q)
    → ((call b op).0 ≡ out) × (contents (call b op).1 ≡ q)
unfolding call step
call_refines (appends xs) {b} v h e = ground (arith, contents-append xs v)
call_refines (retrieves n) {b} v h e = ground (arith, contents-retrieve n v)
call_refines retrieves_all {b} v h e = ground (arith, contents-retrieve_all b)
call_refines (retrieves_as_string n) {b} v h e =
    ground (arith, retrieve_as_string_lem n v, length-contents v)
call_refines retrieves_all_as_string {b} v h e = ground (arith, retrieve_all_as_string_lem v)
call_refines (ensures n) {b} v h e = ground (arith, contents-ensure_writable_bytes n v)

-- On a valid buffer, and as long as the vector can grow by what the calls ask for, every sequence
-- of calls that the queue answers is answered the same by the buffer, which ends valid and with
-- what the queue ends with.
pub calls_refine :
    (ops : List Op) {b : Buffer} {outs : List (List ℕ)} {q : List ℕ}
    → IsValid b
    → length b.storage + demands ops ≤ max_size
    → run (contents b) ops ≡ some (outs, q)
    → ((calls b ops).0 ≡ outs) × (contents (calls b ops).1 ≡ q) × IsValid (calls b ops).1
unfolding calls run
calls_refine [] v h e = ground arith
calls_refine (op ∷ ops) {b} v h e = elim (Option-cases (step (contents b) op)) [
  | inl n ↦ ground (arith, n)
  | inr ((out, q'), s) ↦
      let (o, c) = call_refines op v (omega arith) s in
      elim (Option-cases (run q' ops)) [
        | inl n ↦ ground (arith, n, s)
        | inr ((outs, r), t) ↦ ground (
          arith,
          s,
          t,
          o,
          c,
          calls_refine ops {outs = outs} {q = r} (call-IsValid op v (omega arith))
              (omega (arith, call-size op v (omega arith))) (rw c t),
        )
      ]
]
