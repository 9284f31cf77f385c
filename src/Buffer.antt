-- ===== src/Buffer.antt =====
-- include/Buffer.h and src/Buffer.cc: the byte buffer under every connection.
-- A `size_t` is a native number with its wrap-around written out. Growing a vector is taken to
-- succeed. Bytes are only moved, never computed with.
pub mod Invariant
pub mod Contents
pub mod Queue
pub mod Fd
pub mod Tests
use muduo_learning.Prelude.{
  ℕ, ◌+◌, ◌-◌, ◌%◌, ◌^◌, Bool, List, [], ◌∷◌, length, replicate, take, drop, ltb, leb,
  if◌then◌else◌, slice, copy_in, copy_within, resize,
}

pub record Buffer : Type 0 where
  pub storage : List ℕ
  pub reader_index : ℕ
  pub writer_index : ℕ

abbrev pub cheap_prepend : ℕ
cheap_prepend = 8

abbrev pub initial_size : ℕ
initial_size = 1024

-- `size_t` addition and subtraction wrap.
abbrev pub add_size : ℕ → ℕ → ℕ
add_size a b = (a + b) % 2 ^ 64

abbrev pub sub_size : ℕ → ℕ → ℕ
sub_size a b = (a + 2 ^ 64 - b) % 2 ^ 64

unfoldable pub init : ℕ → Buffer
init size = record {
  storage = replicate (add_size cheap_prepend size) 0;
  reader_index = cheap_prepend;
  writer_index = cheap_prepend;
}

unfoldable pub readable_bytes : Buffer → ℕ
readable_bytes b = sub_size b.writer_index b.reader_index

unfoldable pub writable_bytes : Buffer → ℕ
writable_bytes b = sub_size (length b.storage) b.writer_index

unfoldable pub prependable_bytes : Buffer → ℕ
prependable_bytes b = b.reader_index

-- What a reader of `n` bytes from `peek()` on sees.
unfoldable pub peek : Buffer → ℕ → List ℕ
peek b n = slice b.storage b.reader_index n

unfoldable pub retrieve_all : Buffer → Buffer
retrieve_all b = record b { reader_index = cheap_prepend; writer_index = cheap_prepend }

unfoldable pub retrieve : ℕ → Buffer → Buffer
retrieve len b =
    if ltb len (readable_bytes b)
    then record b { reader_index = add_size b.reader_index len }
    else retrieve_all b

unfoldable pub retrieve_as_string : ℕ → Buffer → List ℕ × Buffer
retrieve_as_string len b = (peek b len, retrieve len b)

unfoldable pub retrieve_all_as_string : Buffer → List ℕ × Buffer
retrieve_all_as_string b = retrieve_as_string (readable_bytes b) b

-- The branch of `makeSpace` that grows the vector, and the one that moves the unread bytes.
unfoldable pub make_space : ℕ → Buffer → Buffer
make_space len b =
    if ltb (add_size (writable_bytes b) (prependable_bytes b)) (add_size len cheap_prepend)
    then record b { storage = resize (add_size b.writer_index len) b.storage }
    else record {
      storage = copy_within (readable_bytes b) b.reader_index cheap_prepend b.storage;
      reader_index = cheap_prepend;
      writer_index = add_size cheap_prepend (readable_bytes b);
    }

unfoldable pub ensure_writable_bytes : ℕ → Buffer → Buffer
ensure_writable_bytes len b = if ltb (writable_bytes b) len then make_space len b else b

-- `append(data, len)`, where `len` is the length of the list.
unfoldable pub append : List ℕ → Buffer → Buffer
append xs b =
    let b' = ensure_writable_bytes (length xs) b in
    record b' {
      storage = copy_in xs b'.writer_index b'.storage;
      writer_index = add_size b'.writer_index (length xs);
    }
