-- ===== src/Buffer/Invariant.antt =====
-- The representation invariant of `Buffer`, and that its operations keep it.
use muduo_learning.Prelude.{
  ℕ, ◌+◌, ◌-◌, ◌^◌, ◌≤◌, ◌<◌, ◌≡◌, arith, List, length, length-replicate, length-resize,
  length-copy_in, length-copy_within,
}
use muduo_learning.Buffer.{
  Buffer, cheap_prepend, add_size, init, readable_bytes, writable_bytes, retrieve, retrieve_all,
  retrieve_as_string, retrieve_all_as_string, prependable_bytes, make_space, ensure_writable_bytes,
  append,
}

-- The largest size of a vector of bytes, `PTRDIFF_MAX`.
abbrev pub max_size : ℕ
max_size = 2 ^ 63 - 1

pub record IsValid (b : Buffer) : Type 0 where
  pub prepended : cheap_prepend ≤ b.reader_index
  pub ordered : b.reader_index ≤ b.writer_index
  pub within : b.writer_index ≤ length b.storage
  pub small : length b.storage ≤ max_size

-- In a valid buffer the three sizes do not wrap, and make up the vector.
pub sizes :
    {b : Buffer}
    → IsValid b
    → (readable_bytes b ≡ b.writer_index - b.reader_index)
      × (writable_bytes b ≡ length b.storage - b.writer_index)
unfolding readable_bytes writable_bytes
sizes v = (omega arith, omega arith)

pub init-IsValid : (n : ℕ) → cheap_prepend + n ≤ max_size → IsValid (init n)
unfolding init
init-IsValid n h = omega (arith, length-replicate {A = ℕ} (add_size cheap_prepend n) 0)

pub retrieve-IsValid : (n : ℕ) {b : Buffer} → IsValid b → IsValid (retrieve n b)
unfolding retrieve retrieve_all readable_bytes
retrieve-IsValid n v = ground arith

pub retrieve_all-IsValid : {b : Buffer} → IsValid b → IsValid (retrieve_all b)
unfolding retrieve_all
retrieve_all-IsValid v = ground arith

pub retrieve_all_as_string-IsValid : {b : Buffer} → IsValid b → IsValid (retrieve_all_as_string b).1
unfolding retrieve_all_as_string retrieve_as_string
retrieve_all_as_string-IsValid {b} v = retrieve-IsValid (readable_bytes b) v

-- Room is made for every request that the vector can grow to.
pub make_space-IsValid :
    (n : ℕ) {b : Buffer}
    → IsValid b
    → b.writer_index + n ≤ max_size
    → writable_bytes b < n
    → IsValid (make_space n b) × (n ≤ writable_bytes (make_space n b))
unfolding make_space readable_bytes writable_bytes prependable_bytes
make_space-IsValid n {b} v h w = ground (
  arith,
  length-resize (add_size b.writer_index n) b.storage,
  length-copy_within (readable_bytes b) b.reader_index cheap_prepend b.storage,
)

pub ensure_writable_bytes-IsValid :
    (n : ℕ) {b : Buffer}
    → IsValid b
    → b.writer_index + n ≤ max_size
    → IsValid (ensure_writable_bytes n b) × (n ≤ writable_bytes (ensure_writable_bytes n b))
unfolding ensure_writable_bytes
ensure_writable_bytes-IsValid n {b} v h = ground (arith, make_space-IsValid n v h)

pub append-IsValid :
    (xs : List ℕ) {b : Buffer}
    → IsValid b
    → b.writer_index + length xs ≤ max_size
    → IsValid (append xs b)
unfolding append
append-IsValid xs {b} v h =
    let b' = ensure_writable_bytes (length xs) b in
    let (v', room) = ensure_writable_bytes-IsValid (length xs) v h in
    omega (arith, sizes v', length-copy_in xs b'.storage b'.writer_index)

-- An append moves the end by at most the bytes appended.
pub writer_index-append :
    (xs : List ℕ) {b : Buffer}
    → IsValid b
    → b.writer_index + length xs ≤ max_size
    → (append xs b).writer_index ≤ b.writer_index + length xs
unfolding append ensure_writable_bytes make_space readable_bytes writable_bytes prependable_bytes
writer_index-append xs {b} v h = ground arith

pub writer_index-retrieve :
    (n : ℕ) {b : Buffer} → IsValid b → (retrieve n b).writer_index ≤ b.writer_index
unfolding retrieve retrieve_all readable_bytes
writer_index-retrieve n v = ground arith

-- An append grows the vector by at most the bytes appended.
pub length-storage-append :
    (xs : List ℕ) {b : Buffer}
    → IsValid b
    → b.writer_index + length xs ≤ max_size
    → length (append xs b).storage ≤ length b.storage + length xs
unfolding append ensure_writable_bytes make_space readable_bytes writable_bytes prependable_bytes
length-storage-append xs {b} v h = ground (
  arith,
  length-resize (add_size b.writer_index (length xs)) b.storage,
  length-copy_within (readable_bytes b) b.reader_index cheap_prepend b.storage,
  length-copy_in xs (ensure_writable_bytes (length xs) b).storage
      (ensure_writable_bytes (length xs) b).writer_index,
)
