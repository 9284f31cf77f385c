-- ===== src/Buffer/Fd.antt =====
-- `Buffer::readFd` and `Buffer::writeFd`. The system calls are parameters: `readv` takes the room
-- of the two areas together, `write` the bytes offered.
use muduo_learning.Prelude.{
  ℕ, ◌+◌, ◌≤◌, ◌≡◌, ◌++◌, ◌∙◌, refl, arith, List, [], length, take, drop, leb, ltb, if◌then◌else◌,
  copy_in, ap, take-append-drop, length-take, length-drop, length-copy_in, slice, Bool-cases, inl,
  inr, append_assoc, take_all,
}
use muduo_learning.Buffer.{Buffer, add_size, readable_bytes, writable_bytes, peek, append}
use muduo_learning.Buffer.Invariant.{
  IsValid, max_size, sizes, append-IsValid, length-storage-append,
}
use muduo_learning.Buffer.Contents.{contents, contents-append, contents-extend}

-- What `readv` gives: an `errno`, or the bytes read.
pub data ReadResult : Type 0 where
  failed : ℕ → ReadResult
  got : List ℕ → ReadResult

-- A result of type `ssize_t`: -1 with the saved `errno`, or a count.
pub data IoResult : Type 0 where
  error : ℕ → IoResult
  count : ℕ → IoResult

-- `sizeof(extrabuf)`
abbrev pub extra_size : ℕ
extra_size = 65536

-- The room that the `iovcnt` areas offer.
unfoldable pub read_room : Buffer → ℕ
read_room b =
    let writable = writable_bytes b in
    if ltb writable extra_size then writable + extra_size else writable

-- `readv` fills the writable area first, then `extrabuf`.
unfoldable pub after_readv : ReadResult → Buffer → Buffer × IoResult
after_readv (failed e) b = (b, error e)
after_readv (got xs) b =
    let n = length xs in
    let writable = writable_bytes b in
    let b' = record b { storage = copy_in (take writable xs) b.writer_index b.storage } in
    if leb n writable
    then (record b' { writer_index = add_size b.writer_index n }, count n)
    else (append (drop writable xs) (record b' { writer_index = length b'.storage }), count n)

unfoldable pub read_fd : (ℕ → ReadResult) → Buffer → Buffer × IoResult
read_fd readv b = after_readv (readv (read_room b)) b

unfoldable pub write_fd : (List ℕ → IoResult) → Buffer → IoResult
write_fd write b = write (peek b (readable_bytes b))

-- All bytes fit: the writer index moves over them.
fitting :
    (xs : List ℕ) {b : Buffer}
    → IsValid b
    → length xs ≤ writable_bytes b
    → let c = record b {
      storage = copy_in (take (writable_bytes b) xs) b.writer_index b.storage;
      writer_index = b.writer_index + length xs;
    } in
      IsValid c × (contents c ≡ contents b ++ xs)
fitting xs {b} v h =
    let whole = take_all (writable_bytes b) xs h in
    rw whole (
      omega (arith, sizes v, length-copy_in xs b.storage b.writer_index),
      contents-extend b.storage xs b.reader_index b.writer_index v.ordered (omega (arith, sizes v)),
    )

-- The writable area is filled to the end of the vector.
filling :
    (xs : List ℕ) {b : Buffer}
    → IsValid b
    → writable_bytes b ≤ length xs
    → let v = copy_in (take (writable_bytes b) xs) b.writer_index b.storage in
      let c = record b { storage = v; writer_index = length v } in
      IsValid c × (contents c ≡ contents b ++ take (writable_bytes b) xs)
filling xs {b} v h =
    let n = writable_bytes b in
    let ys = take n xs in
    let size = length-copy_in ys b.storage b.writer_index in
    let full = length-take n xs in
    (
      omega (arith, size),
      ground (
        arith,
        size,
        full,
        sizes v,
        contents-extend b.storage ys b.reader_index b.writer_index v.ordered
            (omega (arith, sizes v, full)),
      ),
    )

-- The bytes read follow the unread ones, whether they fitted or went through `extrabuf`.
pub after_readv_got :
    (xs : List ℕ) {b : Buffer}
    → IsValid b
    → b.writer_index + length xs ≤ max_size
    → let (c, r) = after_readv (got xs) b in
      IsValid c × (contents c ≡ contents b ++ xs) × (r ≡ count (length xs))
unfolding after_readv
after_readv_got xs {b} v h = elim (Bool-cases (leb (length xs) (writable_bytes b))) [
  | inl fits ↦ rw fits (ground (arith, sizes v, fitting xs v))
  | inr more ↦
      let n = writable_bytes b in
      let w = copy_in (take n xs) b.writer_index b.storage in
      let c : Buffer = record b { storage = w; writer_index = length w } in
      let (v', held) = filling xs v (ground arith) in
      let rest = drop n xs in
      let size = length-copy_in (take n xs) b.storage b.writer_index in
      let fits : c.writer_index + length rest ≤ max_size =
        omega (arith, sizes v, size, length-drop n xs) in
      rw more (
        append-IsValid rest v' fits,
        contents-append rest v' fits
            ∙ ap (λ q. q ++ rest) held
            ∙ append_assoc (contents b) (take n xs) rest
            ∙ ap (λ q. contents b ++ q) (take-append-drop n xs),
        refl,
      )
]

-- At the end of the file `readFd` changes nothing.
pub after_readv_nil : {b : Buffer} → IsValid b → after_readv (got []) b ≡ (b, count 0)
unfolding after_readv copy_in
after_readv_nil {b} v = ground (arith, take_all {A = ℕ} (writable_bytes b) [])

-- `readv` reads at most the room that it is offered.
abbrev pub AtMost : ℕ → ReadResult → Type 0
AtMost n (failed e) = Unit
AtMost n (got xs) = length xs ≤ n

-- What `readFd` makes of each result of `readv`.
abbrev pub Reads : Buffer → ReadResult → Buffer × IoResult → Type 0
Reads b (failed e) (c, r) = (c ≡ b) × (r ≡ error e)
Reads b (got xs) (c, r) = IsValid c × (contents c ≡ contents b ++ xs) × (r ≡ count (length xs))

pub after_readv-Reads :
    (x : ReadResult) {b : Buffer}
    → IsValid b
    → length b.storage + extra_size ≤ max_size
    → AtMost (read_room b) x
    → Reads b x (after_readv x b)
unfolding read_room
after_readv-Reads (failed e) v h m = unfold after_readv in (refl, refl)
after_readv-Reads (got xs) v h m = after_readv_got xs v (ground (arith, sizes v))

-- `readFd`, for a `readv` that gives at most the room offered and a valid buffer that can grow by
-- the extra area: on an error the buffer is as it was and the `errno` is handed out. Otherwise the
-- buffer is valid, the bytes read follow the unread ones, and their number is returned.
pub read_fd-Reads :
    (readv : ℕ → ReadResult) {b : Buffer}
    → ((n : ℕ) → AtMost n (readv n))
    → IsValid b
    → length b.storage + extra_size ≤ max_size
    → Reads b (readv (read_room b)) (read_fd readv b)
unfolding read_fd
read_fd-Reads readv {b} documented v h =
    after_readv-Reads (readv (read_room b)) v h (documented (read_room b))

-- `writeFd` on a valid buffer offers `write` the unread bytes, all of them and no other.
pub write_fd-contents :
    (write : List ℕ → IoResult) {b : Buffer} → IsValid b → write_fd write b ≡ write (contents b)
unfolding write_fd peek
write_fd-contents write {b} v = ap (λ n. write (slice b.storage b.reader_index n)) (sizes v).0

-- Reading grows the vector by at most the bytes read.
pub length-after_readv :
    (xs : List ℕ) {b : Buffer}
    → IsValid b
    → length b.storage + extra_size ≤ max_size
    → length xs ≤ read_room b
    → length (after_readv (got xs) b).0.storage ≤ length b.storage + length xs
unfolding after_readv read_room
length-after_readv xs {b} v h m = elim (Bool-cases (leb (length xs) (writable_bytes b))) [
  | inl fits ↦
      rw fits (omega (arith, length-copy_in (take (writable_bytes b) xs) b.storage b.writer_index))
  | inr more ↦
      let n = writable_bytes b in
      let s = copy_in (take n xs) b.writer_index b.storage in
      let c = record b { storage = s; writer_index = length s } in
      let (valid, _) = filling xs v (ground arith) in
      let size = length-copy_in (take n xs) b.storage b.writer_index in
      let rest = length-drop n xs in
      rw more (
        omega (
          arith,
          size,
          rest,
          length-storage-append (drop n xs) {b = c} valid (ground (arith, size, rest, sizes v)),
        ))
]
