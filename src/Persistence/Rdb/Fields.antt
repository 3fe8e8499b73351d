-- ===== src/Persistence/Rdb/Fields.antt =====
-- Each field of an RDB file is read back (persistence/rdb.cpp).
use concurrent_cache.Prelude.{
  ℕ, ◌^◌, ◌<◌, ◌≤◌, ◌≡◌, refl, some, [], ◌∷◌, ◌++◌, arith, length, append_assoc, ltb, length-append,
  take-length-append, drop-length-append, take-append_eq, drop-append_eq, ◌%◌, false,
}
use concurrent_cache.Text.{Bytes}
use concurrent_cache.Text.Words.{
  big_endian_onto, from_big_endian-big_endian, length-big_endian_onto, range,
}
use concurrent_cache.Persistence.Rdb.{
  write_uint32, write_uint64, write_string, read_uint, read_uint32, read_uint64, read_bytes,
  read_string,
}

pub read_uint-big_endian :
    (w v : ℕ) (rest : Bytes)
    → v < range w
    → read_uint w (big_endian_onto w v [] ++ rest) ≡ some (v, rest)
unfolding read_uint
read_uint-big_endian w v rest h =
    let sized = length-big_endian_onto w v [] in
    let enough : ltb (length (big_endian_onto w v [] ++ rest)) w ≡ false =
      ground (arith, sized, length-append (big_endian_onto w v []) rest) in
    rw
      (
        enough,
        take-append_eq w (big_endian_onto w v []) rest (omega (arith, sized)),
        drop-append_eq w (big_endian_onto w v []) rest (omega (arith, sized)),
        from_big_endian-big_endian w v h,
      )
      refl

pub read_uint32-write_uint32 :
    (v : ℕ) (rest : Bytes) → v < 2 ^ 32 → read_uint32 (write_uint32 v ++ rest) ≡ some (v, rest)
unfolding write_uint32
read_uint32-write_uint32 v rest h = read_uint-big_endian 4 v rest h

pub read_uint64-write_uint64 :
    (v : ℕ) (rest : Bytes) → v < 2 ^ 64 → read_uint64 (write_uint64 v ++ rest) ≡ some (v, rest)
unfolding write_uint64
read_uint64-write_uint64 v rest h = read_uint-big_endian 8 v rest h

-- Behind every field stand the four bytes of the CRC.
pub read_bytes-append :
    (v rest : Bytes) → 4 ≤ length rest → read_bytes (length v) (v ++ rest) ≡ some (v, rest)
unfolding read_bytes
read_bytes-append [] rest h = refl
read_bytes-append (b ∷ v) rest h =
    rw (take-length-append, drop-length-append, length-append) (ground arith)

pub read_string-write_string :
    (v rest : Bytes)
    → length v < 2 ^ 32
    → 4 ≤ length rest
    → read_string (write_string v ++ rest) ≡ some (v, rest)
unfolding read_string write_string
read_string-write_string v rest lt h =
    let small : length v % 2 ^ 32 ≡ length v = omega arith in
    rw
      (
        small,
        append_assoc (write_uint32 (length v)) v rest,
        read_uint32-write_uint32 (length v) (v ++ rest) lt,
        read_bytes-append v rest h,
      )
      refl
