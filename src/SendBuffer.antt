-- ===== src/SendBuffer.antt =====
-- src/tsendbuffer.h and src/tsendbuffer.cpp: TSendBuffer, a response that waits to be sent: bytes in
-- memory, and a file whose bytes follow them.
pub mod Reading
use tf.Base.{
  ℕ, ◌+◌, Bool, true, false, ◌&&◌, List, [], ◌∷◌, ◌++◌, Option, none, some, if◌then◌else◌, ◌==◌,
  ltb, leb, take, drop, length,
}
use tf.Base.Int.{ℤ, pos}
use tf.Base.Text.{Text, is_empty}

-- An open file: the bytes from its position on, and whether read() fails.
pub record File : Type 0 where
  pub unread : Text
  pub fails : Bool

-- response_bytes is that of the access log.
pub record Buffer : Type 0 where
  pub array_buffer : Text
  pub body_file : Option File
  pub response_bytes : ℤ
  pub start_pos : ℕ

-- TSendBuffer(header), and with a file that could be opened.
abbrev pub new : Text → Option File → Buffer
new header file = record {
  array_buffer = header;
  body_file = file;
  response_bytes = pos 0;
  start_pos = 0;
}

abbrev pub file_at_end : Option File → Bool
file_at_end none = true
file_at_end (some f) = is_empty f.unread

-- atEnd()
unfoldable pub at_end : Buffer → Bool
at_end b = leb (length b.array_buffer) b.start_pos && file_at_end b.body_file

-- release()
abbrev pub release : Buffer → Buffer
release b = record b { body_file = none }

-- The part of getData() that reads the file.
unfoldable pub read_file : ℕ → File → Buffer → Text × Buffer
read_file size f b = if f.fails then ([], release b) else (
  take size f.unread,
  record b {
    array_buffer = take size f.unread;
    start_pos = 0;
    body_file = some (record f { unread = drop size f.unread });
  },
)

abbrev pub read_from : ℕ → Option File → Buffer → Text × Buffer
read_from size none b = ([], b)
read_from size (some f) b = read_file size f b

-- getData(size): the bytes at the pointer that it gives, as many as the new size says.
unfoldable pub get_data : ℕ → Buffer → Text × Buffer
get_data size b =
    if size == 0
    then ([], b)
    else if ltb b.start_pos (length b.array_buffer)
    then (take size (drop b.start_pos b.array_buffer), b)
    else if file_at_end b.body_file
    then ([], b)
    else read_from size b.body_file b

-- seekData(pos)
unfoldable pub seek_data : ℕ → Buffer → Buffer
seek_data n b =
    if leb (length b.array_buffer) (b.start_pos + n)
    then record b { array_buffer = []; start_pos = 0 }
    else record b { start_pos = b.start_pos + n }

-- prepend(data, maxSize) with all of the data.
unfoldable pub prepend : Text → Buffer → Buffer
prepend bytes b = record b {
  array_buffer =
      bytes ++ (if ltb 0 b.start_pos then drop b.start_pos b.array_buffer else b.array_buffer);
  start_pos = 0;
}
