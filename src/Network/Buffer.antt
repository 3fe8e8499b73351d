-- ===== src/Network/Buffer.antt =====
-- src/network/buffer.h, src/network/buffer.cpp: the byte buffer between a socket and the parser.
-- A vector of bytes with two indices; `std::copy` and `std::copy_backward` move bytes one by one.
pub mod Copies
pub mod Queue
use concurrent_cache.Prelude.{
  ℕ, zero, suc, ◌+◌, ◌-◌, ◌/◌, List, [], ◌++◌, ltb, ◌==◌, if◌then◌else◌, length, set, get_or, take,
  drop, replicate,
}
use concurrent_cache.Text.{Bytes}

pub record Buffer : Type 0 where
  pub buffer : Bytes
  pub reader_idx : ℕ
  pub writer_idx : ℕ

abbrev pub new_buffer : Buffer
new_buffer = record { buffer = []; reader_idx = 0; writer_idx = 0 }

unfoldable pub readable_bytes : Buffer → ℕ
readable_bytes b = b.writer_idx - b.reader_idx

unfoldable pub writable_bytes : Buffer → ℕ
writable_bytes b = length b.buffer - b.writer_idx

-- `resize`: cut, or padded with zero bytes.
unfoldable pub resize : Bytes → ℕ → Bytes
resize v n = take n v ++ replicate (n - length v) 0

unfoldable pub ensure_writable : ℕ → Buffer → Buffer
ensure_writable len b =
    if ltb (writable_bytes b) len
    then record b { buffer = resize b.buffer (b.writer_idx + len) }
    else b

-- `std::copy(data, data + len, v.begin() + at)`.
unfoldable pub copy : Bytes → ℕ → Bytes → Bytes
copy bytes at v = take at v ++ (bytes ++ drop (at + length bytes) v)

unfoldable pub append : Bytes → Buffer → Buffer
append bytes b =
    let grown = ensure_writable (length bytes) b in
    record grown {
      buffer = copy bytes grown.writer_idx grown.buffer;
      writer_idx = grown.writer_idx + length bytes;
    }

-- `std::copy_backward` of the `n` bytes from `first` on to the place that begins at `dest`: the last
-- byte first.
unfoldable pub copy_backward : ℕ → ℕ → ℕ → Bytes → Bytes
copy_backward first zero dest v = v
copy_backward first (suc n) dest v =
    copy_backward first n dest (set v (dest + n) (get_or v (first + n) 0))

unfoldable pub compact : Buffer → Buffer
compact b = if b.reader_idx == 0 then b else record {
  buffer = copy_backward b.reader_idx (b.writer_idx - b.reader_idx) 0 b.buffer;
  reader_idx = 0;
  writer_idx = b.writer_idx - b.reader_idx;
}

unfoldable pub advance : ℕ → Buffer → Buffer
advance len b =
    if ltb (readable_bytes b) len
    then record b { reader_idx = b.writer_idx }
    else record b { reader_idx = b.reader_idx + len }

unfoldable pub retrieve : ℕ → Buffer → Buffer
retrieve len b =
    let moved = advance len b in
    if ltb (length b.buffer / 2) moved.reader_idx then compact moved else moved

unfoldable retrieve_all : Buffer → Buffer
retrieve_all b = record b { reader_idx = 0; writer_idx = 0 }

-- `std::string(peek(), readable_bytes())`.
unfoldable pub to_string : Buffer → Bytes
to_string b = take (readable_bytes b) (drop b.reader_idx b.buffer)
