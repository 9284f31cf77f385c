-- ===== src/Buffer/Contents.antt =====
-- What each operation of `Buffer` does to the unread bytes.
use muduo_learning.Prelude.{
  ℕ, ◌+◌, ◌-◌, ◌≤◌, ◌<◌, ◌≡◌, ◌++◌, ◌∙◌, refl, ap, ap₂, arith, List, [], length, take, drop, slice,
  length-slice, slice-add, take-slice, drop-slice, drop_all, take_all, slice-resize,
  slice-copy_within, slice-copy_in, copy_in, slice-copy_in_before,
}
use muduo_learning.Buffer.{
  Buffer, cheap_prepend, add_size, readable_bytes, writable_bytes, prependable_bytes, peek,
  retrieve, retrieve_all, retrieve_as_string, retrieve_all_as_string, make_space,
  ensure_writable_bytes, append,
}
use muduo_learning.Buffer.Invariant.{IsValid, max_size, sizes, ensure_writable_bytes-IsValid}

-- The unread bytes, oldest first.
abbrev pub contents : Buffer → List ℕ
contents b = slice b.storage b.reader_index (b.writer_index - b.reader_index)

pub length-contents : {b : Buffer} → IsValid b → length (contents b) ≡ readable_bytes b
length-contents {b} v =
    omega (arith, sizes v, length-slice b.storage b.reader_index (b.writer_index - b.reader_index))

pub contents-retrieve_all : (b : Buffer) → contents (retrieve_all b) ≡ []
unfolding retrieve_all
contents-retrieve_all b = refl

pub contents-retrieve :
    (n : ℕ) {b : Buffer} → IsValid b → contents (retrieve n b) ≡ drop n (contents b)
unfolding retrieve retrieve_all
contents-retrieve n {b} v =
    let (r, _) = sizes v in
    let d = b.writer_index - b.reader_index in
    ground (
      arith,
      r,
      drop-slice b.storage b.reader_index n d,
      drop_all n (contents b),
      length-slice b.storage b.reader_index d,
    )

pub retrieve_as_string_lem :
    (n : ℕ) {b : Buffer}
    → IsValid b
    → n ≤ readable_bytes b
    → ((retrieve_as_string n b).0 ≡ take n (contents b))
      × (contents (retrieve_as_string n b).1 ≡ drop n (contents b))
unfolding retrieve_as_string peek
retrieve_as_string_lem n {b} v h = (
  ground (arith, sizes v, take-slice b.storage b.reader_index n (b.writer_index - b.reader_index)),
  contents-retrieve n v,
)

pub contents-make_space :
    (n : ℕ) {b : Buffer}
    → IsValid b
    → b.writer_index + n ≤ max_size
    → writable_bytes b < n
    → contents (make_space n b) ≡ contents b
unfolding make_space prependable_bytes
contents-make_space n {b} v h w =
    let d = b.writer_index - b.reader_index in
    ground (
      arith,
      sizes v,
      slice-resize (add_size b.writer_index n) b.storage b.reader_index d,
      slice-copy_within d b.reader_index cheap_prepend b.storage,
    )

pub contents-ensure_writable_bytes :
    (n : ℕ) {b : Buffer}
    → IsValid b
    → b.writer_index + n ≤ max_size
    → contents (ensure_writable_bytes n b) ≡ contents b
unfolding ensure_writable_bytes
contents-ensure_writable_bytes n {b} v h = ground (arith, contents-make_space n v h)

-- The bytes that are copied in at the writer index are read after those that stood before.
pub contents-extend :
    (v : List ℕ) (xs : List ℕ) (r w : ℕ)
    → r ≤ w
    → w + length xs ≤ length v
    → contents (record { storage = copy_in xs w v; reader_index = r; writer_index = w + length xs })
      ≡ slice v r (w - r) ++ xs
contents-extend v xs r w h k =
    ap (λ n. slice (copy_in xs w v) r n) {x = w + length xs - r} (omega arith)
    ∙ slice-add (copy_in xs w v) r (w - r) (length xs)
    ∙ ap₂ ◌++◌ (slice-copy_in_before xs v w r (w - r) (omega arith))
        (ap (λ i. slice (copy_in xs w v) i (length xs)) (omega arith) ∙ slice-copy_in xs v w k)

pub contents-append :
    (xs : List ℕ) {b : Buffer}
    → IsValid b
    → b.writer_index + length xs ≤ max_size
    → contents (append xs b) ≡ contents b ++ xs
unfolding append
contents-append xs {b} v h =
    let b' = ensure_writable_bytes (length xs) b in
    let (v', room) = ensure_writable_bytes-IsValid (length xs) v h in
    ground (
      arith,
      sizes v',
      contents-ensure_writable_bytes (length xs) v h,
      contents-extend b'.storage xs b'.reader_index b'.writer_index,
    )

-- `retrieveAllAsString` hands out all that is unread, and leaves nothing.
pub retrieve_all_as_string_lem :
    {b : Buffer}
    → IsValid b
    → ((retrieve_all_as_string b).0 ≡ contents b) × (contents (retrieve_all_as_string b).1 ≡ [])
unfolding retrieve_all_as_string
retrieve_all_as_string_lem {b} v =
    let (out, left) = retrieve_as_string_lem (readable_bytes b) v (omega arith) in
    (
      out ∙ take_all (readable_bytes b) (contents b) (omega (arith, length-contents v)),
      left ∙ drop_all (readable_bytes b) (contents b) (omega (arith, length-contents v)),
    )
